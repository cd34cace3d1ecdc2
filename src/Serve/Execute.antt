-- ===== src/Serve/Execute.antt =====
-- The JSON body of a job in crates/basecrawl-core/src/serve.rs.
use basecrawl.Prelude.{ℕ, Bool, Option, none, List, Text}
use basecrawl.TextMap.{TextMap}

pub record ServeExecuteRequest : Type 0 where
  pub job_id : Option Text
  pub url : Option Text
  pub urls : Option (List Text)
  pub formats : Option (List Text)
  pub only_main_content : Option Bool
  pub timeout_ms : Option ℕ
  pub headers : Option (TextMap Text)
  pub proxy : Option Text
  pub fingerprint_seed : Option Text
  pub max_age : Option ℕ
  pub render : Option Bool
  pub wait_for : Option Text
  pub max_pages : Option ℕ
  pub max_depth : Option ℕ
  pub max_urls : Option ℕ
  pub allow_domain : Option Text
  pub no_sitemap : Option Bool
  pub concurrency : Option ℕ
  pub method : Option Text
  pub body : Option Text
  pub task_id : Option Text
  pub nonce : Option Text

-- `ServeExecuteRequest::default()`
abbrev pub empty_request : ServeExecuteRequest
empty_request = record {
  job_id = none;
  url = none;
  urls = none;
  formats = none;
  only_main_content = none;
  timeout_ms = none;
  headers = none;
  proxy = none;
  fingerprint_seed = none;
  max_age = none;
  render = none;
  wait_for = none;
  max_pages = none;
  max_depth = none;
  max_urls = none;
  allow_domain = none;
  no_sitemap = none;
  concurrency = none;
  method = none;
  body = none;
  task_id = none;
  nonce = none;
}
