-- ===== src/Serve/Running/Tests.antt =====
-- The service with a secret and one execution at a time.
use basecrawl.Prelude.{
  ℕ, some, List, [], ◌∷◌, Text, codes, ◌≡◌, refl, to_ascii_uppercase, to_ascii_lowercase, before,
  as_bytes, trim,
}
use basecrawl.Json.{null}
use basecrawl.Error.{Error, missing_url, kind, timeout}
use basecrawl.Serve.{
  ServeConfig, Request, Mode, scrape, Execution, produced, execute, admit, mode_of,
  too_many_requests, is_health, passes_gate, route, serve_error_status,
}
use basecrawl.Serve.Running.{
  running, answered, Server, accept, pass, full, load, exchanged, Reach, begin, next,
}
use basecrawl.Serve.Running.Counted.{IsCounted, served-IsCounted}

abbrev config : ServeConfig
config = record {
  host = codes "127.0.0.1";
  port = 4420;
  secret = some (codes "s");
  max_inflight = 1;
  request_timeout_ms = 120000;
  max_body_bytes = 33554432;
}

abbrev request : Request
request = record {
  method = codes "Post";
  path = codes "/v1/scrape?x";
  headers = (codes "X-Basecrawl-Serve-Secret", codes " s ") ∷ [];
  body = [];
}

abbrev Ends : Mode → List ℕ → Execution → Type 0
Ends mode body e = e ≡ produced null

abbrev to_string : Error → Text
to_string e = []

admits : admit config request ≡ execute scrape
unfolding admit is_health passes_gate mode_of to_ascii_uppercase to_ascii_lowercase before as_bytes
    trim route
admits = refl

-- two connections: one executes, and the other is told that there are too many
abbrev busy : Server
busy = record {
  inflight = 1;
  handlers = answered request (too_many_requests config request) ∷ running request scrape ∷ [];
}

comes_to_busy : Reach config Ends to_string busy
comes_to_busy =
    next
      (next
        (next
          (next
            (next (next (next begin (accept request)) (pass 0 request scrape refl admits))
              (load 0 request scrape refl refl))
            (exchanged 0 request scrape 0 refl refl))
          (accept request))
        (pass 0 request scrape refl admits))
      (full 0 request scrape refl refl)

counted_example : IsCounted config Ends to_string busy
counted_example = served-IsCounted config Ends to_string comes_to_busy

-- an error of the client is not retried, a missed deadline may be
statuses : serve_error_status missing_url ≡ 400
unfolding serve_error_status kind
statuses = refl

deadline_status : serve_error_status (timeout []) ≡ 504
unfolding serve_error_status kind
deadline_status = refl
