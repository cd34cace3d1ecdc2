-- ===== src/Serve.antt =====
-- crates/basecrawl-core/src/serve.rs: what an HTTP request to the service is answered with. The
-- execution of a job and the text of an error, which a derive generates, are arguments.
pub mod Admitted
pub mod Running
pub mod Wire
pub mod Execute
pub mod Job
use basecrawl.Prelude.{
  ℕ, ◌+◌, Bool, true, false, not, ◌&&◌, ◌||◌, Option, none, some, List, [], ◌∷◌, ◌++◌, Text, codes,
  text_eq, as_bytes, length, leb, ltb, ◌==◌, if◌then◌else◌, eq_ignore_ascii_case, is_one_of, trim,
  before, to_ascii_uppercase, decimal,
}
use basecrawl.TextMap.{TextMap, get}
use basecrawl.Json.{Value, bool, num, str, obj, fields, object, insert_field}
use basecrawl.Error.{Error, kind}

abbrev pub serve_residual_honesty : Text
serve_residual_honesty =
    codes
      "basecrawl serve is a local long-running engine for soft scrape/crawl/map/batch over HTTP. Authenticity is cryptographically-anchored trust-but-audit, not trustless. Chromium residual risk (headless/CDP side-channels, fingerprint lag) remains. CapSolver and soft TLS impersonate are optional aids and are not commercial Web Unlocker parity. This surface is not anonymous egress and does not claim 100% unlock of challenges."

abbrev pub serve_secret_header : Text
serve_secret_header = codes "x-basecrawl-serve-secret"

pub record ServeConfig : Type 0 where
  pub host : Text
  pub port : ℕ
  pub secret : Option Text
  pub max_inflight : ℕ
  pub request_timeout_ms : ℕ
  pub max_body_bytes : ℕ

unfoldable pub bind_addr : ServeConfig → Text
bind_addr config = config.host ++ codes ":" ++ decimal config.port

-- the accumulated difference of the source is zero exactly if no byte differs
abbrev pub same_bytes : List ℕ → List ℕ → Bool
same_bytes (x ∷ xs) (y ∷ ys) = (x == y) && same_bytes xs ys
same_bytes _ _ = true

unfoldable pub secrets_equal : Text → Text → Bool
secrets_equal a b =
    if length (as_bytes a) == length (as_bytes b)
    then same_bytes (as_bytes a) (as_bytes b)
    else false

unfoldable pub header_value : TextMap Text → Text → Option Text
header_value [] name = none
header_value ((k, v) ∷ headers) name =
    if eq_ignore_ascii_case k name then some (trim v) else header_value headers name

pub record Request : Type 0 where
  pub method : Text
  pub path : Text
  pub headers : TextMap Text
  pub body : List ℕ

pub record Answer : Type 0 where
  pub status : ℕ
  pub body : Value
  pub headers : TextMap Text

abbrev pub request_id : Option Text → TextMap Text
request_id none = []
request_id (some rid) = (codes "X-Request-Id", rid) ∷ []

unfoldable pub resp_headers : Request → TextMap Text
unfolding header_value
resp_headers request = request_id (header_value request.headers (codes "x-request-id"))

-- the body of a failure
unfoldable pub failure : (code message : Text) → Bool → Value
unfolding object
failure code message retryable = object (
    (codes "success", bool false)
    ∷ (
      codes "error",
      object (
          (codes "code", str code)
          ∷ (codes "message", str message)
          ∷ (codes "retryable", bool retryable)
          ∷ []),
    )
    ∷ [])

abbrev pub answered_with : Request → ℕ → Value → Answer
answered_with request status body = record {
  status = status;
  body = body;
  headers = resp_headers request;
}

unfoldable pub is_health : Request → Bool
unfolding before
is_health request =
    eq_ignore_ascii_case request.method (codes "GET")
    && is_one_of (before b'?' request.path) (codes "/health" ∷ codes "/" ∷ [])

unfoldable pub health : ServeConfig → Value
unfolding object bind_addr
health config = object (
    (codes "status", str (codes "ok"))
    ∷ (codes "service", str (codes "basecrawl-serve"))
    ∷ (codes "bind", str (bind_addr config))
    ∷ (codes "residual", str serve_residual_honesty)
    ∷ [])

-- `unwrap_or_default`
abbrev pub or_empty : Option Text → Text
or_empty none = []
or_empty (some t) = t

abbrev pub provided_secret : Request → Text
provided_secret request = or_empty (header_value request.headers serve_secret_header)

abbrev pub opens_gate : Option Text → Text → Bool
opens_gate none provided = true
opens_gate (some expected) provided = secrets_equal expected provided

unfoldable pub passes_gate : ServeConfig → Request → Bool
unfolding header_value secrets_equal
passes_gate config request = opens_gate config.secret (provided_secret request)

pub data Mode : Type 0 where
  scrape crawl map batch : Mode

-- the routes of a POST request
unfoldable pub route : Text → Option Mode
route path =
    if is_one_of path (codes "/v1/scrape" ∷ codes "/scrape" ∷ [])
    then some scrape
    else if is_one_of path (codes "/v1/crawl" ∷ codes "/crawl" ∷ [])
    then some crawl
    else if is_one_of path (codes "/v1/map" ∷ codes "/map" ∷ [])
    then some map
    else if is_one_of path (codes "/v1/batch/scrape" ∷ codes "/v1/batch" ∷ codes "/batch" ∷ [])
    then some batch
    else none

unfoldable pub mode_of : Request → Option Mode
unfolding route before to_ascii_uppercase
mode_of request =
    if text_eq (to_ascii_uppercase request.method) (codes "POST")
    then route (before b'?' request.path)
    else none

-- what happens before the counter of executions is read: an answer, or a mode to execute
pub data Admission : Type 0 where
  reply : Answer → Admission
  execute : Mode → Admission

unfoldable pub not_found : Request → Answer
unfolding failure resp_headers before
not_found request = answered_with request 404 (
    failure (codes "not_found")
      (codes "unknown route " ++ request.method ++ codes " " ++ before b'?' request.path) false)

unfoldable pub admit : ServeConfig → Request → Admission
unfolding is_health health passes_gate failure mode_of not_found resp_headers
admit config request =
    if is_health request
    then reply (answered_with request 200 (health config))
    else if not (passes_gate config request)
    then reply (
        answered_with request 401 (
          failure (codes "unauthorized") (codes "missing or invalid X-Basecrawl-Serve-Secret")
            false))
    else elim (mode_of request) [ none ↦ reply (not_found request) | some mode ↦ execute mode ]

-- `config.max_inflight.max(1)`
abbrev pub max_running : ServeConfig → ℕ
max_running config = if config.max_inflight == 0 then 1 else config.max_inflight

unfoldable pub too_many_requests : ServeConfig → Request → Answer
unfolding failure resp_headers
too_many_requests config request = answered_with request 429 (
    failure (codes "too_many_requests")
      (codes "max inflight " ++ decimal (max_running config) ++ codes " exceeded") true)

unfoldable pub serve_error_status : Error → ℕ
unfolding kind
serve_error_status error =
    let k = kind error in
    if is_one_of k (
      codes "missing_url"
      ∷ codes "invalid_url"
      ∷ codes "unsupported_scheme"
      ∷ codes "invalid_format"
      ∷ codes "invalid_product_option"
      ∷ codes "invalid_header"
      ∷ codes "unsupported_method"
      ∷ codes "invalid_json_schema"
      ∷ codes "unsupported_output"
      ∷ [])
    then 400
    else if is_one_of k (codes "timeout" ∷ codes "render_timeout" ∷ codes "deadline_exceeded" ∷ [])
    then 504
    else if is_one_of k (codes "robots_denied" ∷ codes "challenge_blocked" ∷ [])
    then 403
    else if is_one_of k (codes "resource_budget_exceeded" ∷ codes "too_many_requests" ∷ [])
    then 429
    else 502

-- how `catch_unwind` of an execution ends
pub data Execution : Type 0 where
  produced : Value → Execution
  refused : Error → Execution
  panicked : Execution

-- an entry that is put in where its key is missing, in an object
unfoldable pub or_insert : Text → Value → Value → Value
unfolding get insert_field
or_insert key value (obj fs) = elim (get (fields fs) key) [
  | none ↦ insert_field key value (obj fs)
  | some _ ↦ obj fs
]
or_insert key value other = other

unfoldable pub finished : (Error → Text) → Request → (elapsed : ℕ) → Execution → Answer
unfolding or_insert failure resp_headers serve_error_status object kind
finished to_string request elapsed (produced value) = answered_with request 200 (
    or_insert (codes "metrics") (object ((codes "duration_ms", num (decimal elapsed)) ∷ []))
      (or_insert (codes "success") (bool true) value))
finished to_string request elapsed (refused error) =
    let status = serve_error_status error in
    answered_with request status
      (failure (kind error) (to_string error) (status == 503 || (status == 504 || status == 429)))
finished to_string request elapsed panicked = answered_with request 500 (
    failure (codes "internal_panic")
      (codes "handler panicked (host-safe; no target payload in logs)") false)
