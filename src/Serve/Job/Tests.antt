-- ===== src/Serve/Job/Tests.antt =====
-- A crawl that asks for more pages than the service gives, and for more time.
use basecrawl.Prelude.{
  false, ℕ, ◌≤◌, some, none, List, [], ◌∷◌, codes, length, ◌≡◌, refl, is_empty, trim,
  to_ascii_lowercase, as_bytes,
}
use basecrawl.Crawl.{ok}
use basecrawl.Format.{links, markdown, metadata, normalize}
use basecrawl.Serve.{ServeConfig, crawl}
use basecrawl.Serve.Execute.{empty_request}
use basecrawl.Serve.Job.{
  Parsed, readable, JobOptions, Call, call_crawl, execute_mode, timeout_secs_from_req, scrape_opts,
  some_url, formats_from_req, call_of,
}
use basecrawl.Serve.Job.Bounds.{IsWithin, execute_mode-IsWithin}

abbrev config : ServeConfig
config = record {
  host = codes "127.0.0.1";
  port = 4420;
  secret = none;
  max_inflight = 2;
  request_timeout_ms = 120000;
  max_body_bytes = 33554432;
}

abbrev body : List ℕ
body = codes "{}"

abbrev from_slice : List ℕ → Parsed
from_slice bytes = readable (record empty_request {
  url = some (codes "https://a/");
  max_pages = some 1000;
  timeout_ms = some 600000;
})

abbrev options : JobOptions
options = record {
  formats = markdown ∷ links ∷ metadata ∷ [];
  task_id = none;
  nonce = none;
  timeout_secs = 120;
  headers = [];
  method = codes "GET";
  body = [];
  proxy = none;
  fingerprint_seed = none;
  render_enabled = false;
  wait_for = none;
  render_timeout_secs = 120;
  force_browser = false;
}

abbrev call : Call
call = call_crawl (codes "https://a/") options 100 1 none

calls : execute_mode from_slice crawl body config ≡ ok call
unfolding execute_mode call_of scrape_opts some_url formats_from_req timeout_secs_from_req normalize
    trim is_empty to_ascii_lowercase as_bytes
calls = refl

within_example : (length body ≤ config.max_body_bytes) × IsWithin config call
within_example = execute_mode-IsWithin from_slice crawl body config call calls
