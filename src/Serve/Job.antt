-- ===== src/Serve/Job.antt =====
-- `execute_mode` of crates/basecrawl-core/src/serve.rs, up to the call of the engine. The reader of
-- a JSON body, which a derive generates, is an argument.
pub mod Bounds
mod Tests
use basecrawl.Prelude.{
  ℕ, zero, ◌+◌, ◌/◌, Bool, true, false, not, ◌&&◌, ◌||◌, Option, none, some, List, [], ◌∷◌, ◌++◌,
  Text, codes, text_eq, as_bytes, length, leb, ltb, ◌==◌, if◌then◌else◌, eq_ignore_ascii_case,
  is_one_of, is_empty, trim, decimal,
}
use basecrawl.TextMap.{TextMap}
use basecrawl.Error.{Error, missing_url, invalid_product_option}
use basecrawl.Crawl.{Scraped, ok, err}
use basecrawl.Format.{
  Format, links, markdown, raw_html, screenshot, rank, default_set, normalize, parse_list,
}
use basecrawl.Serve.{ServeConfig, Mode, scrape, crawl, map, batch}
use basecrawl.Serve.Execute.{ServeExecuteRequest, empty_request}

abbrev pub default_max_pages : ℕ
default_max_pages = 5

abbrev pub unwrap_or : {A : Type 0} → Option A → A → A
unwrap_or none a = a
unwrap_or (some b) a = b

abbrev pub is_some : {A : Type 0} → Option A → Bool
is_some none = false
is_some (some a) = true

abbrev pub or_else : {A : Type 0} → Option A → Option A → Option A
or_else none o = o
or_else (some a) o = some a

abbrev pub min : ℕ → ℕ → ℕ
min a b = if leb a b then a else b

abbrev pub max : ℕ → ℕ → ℕ
max a b = if leb a b then b else a

-- `clamp(low, high)`
abbrev pub clamp : (low high n : ℕ) → ℕ
clamp low high n = if ltb n low then low else min n high

-- what the service sets in the options of a scrape
pub record JobOptions : Type 0 where
  pub formats : List Format
  pub task_id : Option Text
  pub nonce : Option Text
  pub timeout_secs : ℕ
  pub headers : TextMap Text
  pub method : Text
  pub body : List ℕ
  pub proxy : Option Text
  pub fingerprint_seed : Option Text
  pub render_enabled : Bool
  pub wait_for : Option Text
  pub render_timeout_secs : ℕ
  pub force_browser : Bool

-- the call of the engine
pub data Call : Type 0 where
  call_scrape : (url : Text) → JobOptions → Call
  call_crawl :
      (seed : Text) → JobOptions → (max_pages max_depth : ℕ) → (allow_domain : Option Text) → Call
  call_map : (seed : Text) → JobOptions → (max_urls : ℕ) → (use_sitemap same_origin : Bool) → Call
  call_batch : (urls : List Text) → JobOptions → (concurrency pace_ms : ℕ) → Call

unfoldable pub timeout_secs_from_req : ServeExecuteRequest → ServeConfig → ℕ
timeout_secs_from_req req config =
    let from_body_ms = unwrap_or req.timeout_ms 0 in
    let ms =
      if from_body_ms == 0
      then config.request_timeout_ms
      else min from_body_ms config.request_timeout_ms in
    max (ms / 1000) 1

unfoldable pub formats_from_req : Option (List Text) → Scraped (List Format)
unfolding parse_list
formats_from_req (some (token ∷ tokens)) = parse_list (token ∷ tokens)
formats_from_req _ = ok default_set

abbrev pub has_format : Format → List Format → Bool
has_format f [] = false
has_format f (g ∷ gs) = (rank f == rank g) || has_format f gs

abbrev pub push_format : Format → List Format → List Format
push_format f gs = if has_format f gs then gs else gs ++ f ∷ []

-- `filter(|s| !s.trim().is_empty())`
unfoldable pub some_url : Option Text → Option Text
unfolding trim is_empty
some_url none = none
some_url (some url) = if is_empty (trim url) then none else some url

unfoldable pub scrape_opts : ServeExecuteRequest → ServeConfig → List Format → JobOptions
unfolding timeout_secs_from_req
scrape_opts req config formats =
    let method : Text = unwrap_or req.method (codes "GET") in
    record {
      formats = formats;
      task_id = or_else req.task_id req.job_id;
      nonce = req.nonce;
      timeout_secs = timeout_secs_from_req req config;
      headers = unwrap_or req.headers [];
      method = method;
      body = as_bytes (unwrap_or req.body []);
      proxy = req.proxy;
      fingerprint_seed = req.fingerprint_seed;
      render_enabled =
          not (eq_ignore_ascii_case method (codes "POST"))
          && (unwrap_or req.render false
              || (is_some req.wait_for || has_format screenshot formats));
      wait_for = req.wait_for;
      render_timeout_secs = timeout_secs_from_req req config;
      force_browser = false;
    }

-- the options of a crawl and of a map: GET, with no body and no rendering
abbrev pub soft_opts : JobOptions → List Format → JobOptions
soft_opts opts formats = record {
  formats = formats;
  task_id = opts.task_id;
  nonce = opts.nonce;
  timeout_secs = opts.timeout_secs;
  headers = opts.headers;
  method = codes "GET";
  body = [];
  proxy = opts.proxy;
  fingerprint_seed = opts.fingerprint_seed;
  render_enabled = false;
  wait_for = opts.wait_for;
  render_timeout_secs = opts.render_timeout_secs;
  force_browser = opts.force_browser;
}

-- the URLs of a batch, with the single one in front unless it is among them
abbrev pub with_single : Option Text → List Text → List Text
with_single none urls = urls
with_single (some single) urls = if is_one_of single urls then urls else single ∷ urls

abbrev pub with_url : Option Text → (Text → Call) → Scraped Call
with_url none call = err missing_url
with_url (some url) call = ok (call url)

abbrev pub with_urls : List Text → (List Text → Call) → Scraped Call
with_urls [] call = err missing_url
with_urls (url ∷ urls) call = ok (call (url ∷ urls))

unfoldable pub call_of : Mode → ServeExecuteRequest → ServeConfig → List Format → Scraped Call
unfolding scrape_opts some_url normalize
call_of scrape req config formats =
    with_url (some_url req.url) (λ url. call_scrape url (scrape_opts req config formats))
call_of crawl req config formats = with_url (some_url req.url) (λ seed.
    call_crawl seed
      (soft_opts (scrape_opts req config formats)
        (normalize (push_format markdown (push_format links formats))))
      (clamp 1 100 (unwrap_or req.max_pages default_max_pages)) (min (unwrap_or req.max_depth 1) 10)
      req.allow_domain)
call_of map req config formats = with_url (some_url req.url) (λ seed.
    call_map seed (soft_opts (scrape_opts req config formats) (links ∷ raw_html ∷ []))
      (clamp 1 50000 (unwrap_or req.max_urls 100)) (not (unwrap_or req.no_sitemap false)) true)
call_of batch req config formats =
    with_urls (with_single (some_url req.url) (unwrap_or req.urls [])) (λ urls.
      call_batch urls (scrape_opts req config formats)
        (clamp 1 8 (unwrap_or req.concurrency config.max_inflight)) 0)

-- what the reader of JSON makes of a body
pub data Parsed : Type 0 where
  unreadable : Text → Parsed
  readable : ServeExecuteRequest → Parsed

-- the request in a body, which may be empty
abbrev pub read_request : (List ℕ → Parsed) → List ℕ → Scraped ServeExecuteRequest
read_request from_slice [] = ok empty_request
read_request from_slice (b ∷ bs) = elim (from_slice (b ∷ bs)) [
  | unreadable e ↦ err (invalid_product_option (codes "invalid JSON body: " ++ e))
  | readable req ↦ ok req
]

unfoldable pub execute_mode : (List ℕ → Parsed) → Mode → List ℕ → ServeConfig → Scraped Call
unfolding formats_from_req call_of
execute_mode from_slice mode body config =
    if ltb config.max_body_bytes (length body)
    then err (
        invalid_product_option (
          codes "request body exceeds BASECRAWL_SERVE_MAX_BODY_BYTES ("
          ++ decimal config.max_body_bytes
          ++ codes " bytes)"))
    else elim (read_request from_slice body) [
      | err error ↦ err error
      | ok req ↦ elim (formats_from_req req.formats) [
        | err error ↦ err error
        | ok formats ↦ call_of mode req config formats
      ]
    ]
