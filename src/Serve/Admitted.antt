-- ===== src/Serve/Admitted.antt =====
-- Which requests `handle_http_request` of crates/basecrawl-core/src/serve.rs lets through.
use basecrawl.Prelude.{none, some, Text, as_bytes, ◌≡◌}
use basecrawl.Serve.{ServeConfig, Request, provided_secret}

-- a request with the secret of the service, where it has one
pub data HasSecret (config : ServeConfig) (r : Request) : Type 0 where
  no_secret : config.secret ≡ none → HasSecret config r
  same_secret :
      (secret : Text)
      → config.secret ≡ some secret
      → as_bytes (provided_secret r) ≡ as_bytes secret
      → HasSecret config r
