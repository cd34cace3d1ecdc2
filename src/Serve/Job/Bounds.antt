-- ===== src/Serve/Job/Bounds.antt =====
-- The bounds within which `execute_mode` of crates/basecrawl-core/src/serve.rs calls the engine.
use basecrawl.Prelude.{
  ℕ, ◌/◌, ◌≤◌, Bool, true, false, not, ◌&&◌, Option, none, some, List, [], ◌∷◌, Text, codes, length,
  ltb, ◌==◌, if◌then◌else◌, eq_ignore_ascii_case, is_empty, trim, ◌≡◌, refl, subst, arith,
}
use basecrawl.Error.{Error}
use basecrawl.Crawl.{Scraped, ok, err}
use basecrawl.Format.{Format}
use basecrawl.Serve.{ServeConfig, Mode, scrape, crawl, map, batch}
use basecrawl.Serve.Execute.{ServeExecuteRequest}
use basecrawl.Serve.Job.{
  Parsed, JobOptions, Call, call_scrape, call_crawl, call_map, call_batch, min, max, clamp,
  default_max_pages, unwrap_or, timeout_secs_from_req, scrape_opts, some_url, with_url, with_urls,
  with_single, call_of, read_request, formats_from_req, execute_mode, soft_opts,
}

-- options with a deadline between a second and that of the service, without a forced browser, and
-- without rendering where a body is posted
pub record IsJob (config : ServeConfig) (o : JobOptions) : Type 0 where
  pub timed : 1 ≤ o.timeout_secs
  pub in_time : o.timeout_secs ≤ max (config.request_timeout_ms / 1000) 1
  pub unforced : o.force_browser ≡ false
  pub posts : eq_ignore_ascii_case o.method (codes "POST") ≡ true → o.render_enabled ≡ false

-- options that fetch with GET and no body, and do not render
pub record IsSoft (config : ServeConfig) (o : JobOptions) : Type 0 where
  pub job : IsJob config o
  pub get : o.method ≡ codes "GET"
  pub no_body : o.body ≡ []
  pub unrendered : o.render_enabled ≡ false

abbrev pub IsUrl : Text → Type 0
IsUrl url = is_empty (trim url) ≡ false

abbrev pub IsWithin : ServeConfig → Call → Type 0
IsWithin config (call_scrape url o) = IsUrl url × IsJob config o
IsWithin config (call_crawl seed o pages depth allow) =
    IsUrl seed × IsSoft config o × (1 ≤ pages) × (pages ≤ 100) × (depth ≤ 10)
IsWithin config (call_map seed o urls sitemap same_origin) =
    IsUrl seed × IsSoft config o × (1 ≤ urls) × (urls ≤ 50000) × (same_origin ≡ true)
IsWithin config (call_batch urls o concurrency pace) =
    (1 ≤ length urls) × IsJob config o × (1 ≤ concurrency) × (concurrency ≤ 8)

divides : (a b : ℕ) → a ≤ b → a / 1000 ≤ b / 1000
divides a b h = omega arith

seconds :
    (ms hard : ℕ)
    → (ms ≤ hard)
    → (1 ≤ max (ms / 1000) 1) × (max (ms / 1000) 1 ≤ max (hard / 1000) 1)
seconds ms hard h = let low = divides ms hard h in (ground arith, ground arith)

chosen : (from hard : ℕ) → (if from == 0 then hard else min from hard) ≤ hard
chosen from hard = ground arith

rendering : (post wants : Bool) → post ≡ true → (not post && wants) ≡ false
rendering true wants h = refl
rendering false wants h = cc

scrape_opts-IsJob :
    (req : ServeExecuteRequest) (config : ServeConfig) (formats : List Format)
    → IsJob config (scrape_opts req config formats)
unfolding scrape_opts timeout_secs_from_req
scrape_opts-IsJob req config formats =
    let (timed, in_time) =
      seconds
        (if unwrap_or req.timeout_ms 0 == 0
          then config.request_timeout_ms
          else min (unwrap_or req.timeout_ms 0) config.request_timeout_ms)
        config.request_timeout_ms (chosen (unwrap_or req.timeout_ms 0) config.request_timeout_ms) in
    record {
      timed = timed;
      in_time = in_time;
      unforced = refl;
      posts =
          rendering (eq_ignore_ascii_case (unwrap_or req.method (codes "GET")) (codes "POST")) _;
    }

soft_opts-IsSoft :
    (config : ServeConfig) (o : JobOptions) (formats : List Format)
    → IsJob config o
    → IsSoft config (soft_opts o formats)
soft_opts-IsSoft config o formats is = record {
  job = record {
    timed = is.timed;
    in_time = is.in_time;
    unforced = is.unforced;
    posts = λ h. refl;
  };
  get = refl;
  no_body = refl;
  unrendered = refl;
}

clamp_low : (low high n : ℕ) → low ≤ high → low ≤ clamp low high n
clamp_low low high n h = ground arith

clamp_high : (low high n : ℕ) → low ≤ high → clamp low high n ≤ high
clamp_high low high n h = ground arith

min_high : (a b : ℕ) → min a b ≤ b
min_high a b = ground arith

ok_eq : {a b : Call} → ok a ≡ ok b → a ≡ b
ok_eq h = cc

with_url-IsUrl :
    (u : Option Text) (call : Text → Call) {c : Call}
    → with_url (some_url u) call ≡ ok c
    → (url : Text) × IsUrl url × (call url ≡ c)
unfolding some_url
with_url-IsUrl none call h = cc
with_url-IsUrl (some url) call {c} h = blank (is_empty (trim url)) refl h
  where
    blank :
        (b : Bool)
        → is_empty (trim url) ≡ b
        → with_url (if b then none else some url) call ≡ ok c
        → (url : Text) × IsUrl url × (call url ≡ c)
    blank true e h = cc
    blank false e h = (url, e, ok_eq h)

with_urls-some :
    (us : List Text) (call : List Text → Call) {c : Call}
    → with_urls us call ≡ ok c
    → (urls : List Text) × (1 ≤ length urls) × (call urls ≡ c)
with_urls-some [] call h = cc
with_urls-some (u ∷ us) call h = (u ∷ us, omega arith, ok_eq h)

call_of-IsWithin :
    (mode : Mode) (req : ServeExecuteRequest) (config : ServeConfig) (formats : List Format)
    (c : Call)
    → call_of mode req config formats ≡ ok c
    → IsWithin config c
unfolding call_of
call_of-IsWithin scrape req config formats c h =
    let (url, is, e) = with_url-IsUrl req.url _ h in
    subst (IsWithin config) e (is, scrape_opts-IsJob req config formats)
call_of-IsWithin crawl req config formats c h =
    let (url, is, e) = with_url-IsUrl req.url _ h in
    subst (IsWithin config) e (
      is,
      soft_opts-IsSoft config (scrape_opts req config formats) _
          (scrape_opts-IsJob req config formats),
      clamp_low 1 100 (unwrap_or req.max_pages default_max_pages) (omega arith),
      clamp_high 1 100 (unwrap_or req.max_pages default_max_pages) (omega arith),
      min_high (unwrap_or req.max_depth 1) 10,
    )
call_of-IsWithin map req config formats c h =
    let (url, is, e) = with_url-IsUrl req.url _ h in
    subst (IsWithin config) e (
      is,
      soft_opts-IsSoft config (scrape_opts req config formats) _
          (scrape_opts-IsJob req config formats),
      clamp_low 1 50000 (unwrap_or req.max_urls 100) (omega arith),
      clamp_high 1 50000 (unwrap_or req.max_urls 100) (omega arith),
      refl,
    )
call_of-IsWithin batch req config formats c h =
    let (urls, is, e) =
      with_urls-some (with_single (some_url req.url) (unwrap_or req.urls [])) _ h in
    subst (IsWithin config) e (
      is,
      scrape_opts-IsJob req config formats,
      clamp_low 1 8 (unwrap_or req.concurrency config.max_inflight) (omega arith),
      clamp_high 1 8 (unwrap_or req.concurrency config.max_inflight) (omega arith),
    )

formatted :
    (f : Scraped (List Format)) (next : List Format → Scraped Call) {c : Call}
    → (elim f [ err error ↦ err error | ok formats ↦ next formats ]) ≡ ok c
    → (formats : List Format) × (next formats ≡ ok c)
formatted (err error) next h = cc
formatted (ok formats) next h = (formats, h)

parsed :
    (r : Scraped ServeExecuteRequest) (next : ServeExecuteRequest → Scraped Call) {c : Call}
    → (elim r [ err error ↦ err error | ok req ↦ next req ]) ≡ ok c
    → (req : ServeExecuteRequest) × (next req ≡ ok c)
parsed (err error) next h = cc
parsed (ok req) next h = (req, h)

sized :
    (b : Bool) (error : Error) (rest : Scraped Call) {c : Call}
    → (if b then err error else rest) ≡ ok c
    → (b ≡ false) × (rest ≡ ok c)
sized true error rest h = cc
sized false error rest h = (refl, h)

-- A job that calls the engine has a body within the bound of the service. Its deadline is at least a
-- second and at most that of the service; it forces no browser, and renders nothing where a body is
-- posted. A crawl has 1 to 100 pages and a depth of at most 10, a map 1 to 50000 URLs of one origin,
-- and both use GET, no body and no rendering; a batch has a URL and 1 to 8 workers; and the URL of
-- the others is not blank.
pub execute_mode-IsWithin :
    (from_slice : List ℕ → Parsed) (mode : Mode) (body : List ℕ) (config : ServeConfig) (c : Call)
    → execute_mode from_slice mode body config ≡ ok c
    → (length body ≤ config.max_body_bytes) × IsWithin config c
unfolding execute_mode
execute_mode-IsWithin from_slice mode body config c h =
    let (fits, h1) = sized (ltb config.max_body_bytes (length body)) _ _ h in
    let (req, h2) = parsed (read_request from_slice body) _ h1 in
    let (formats, h3) = formatted (formats_from_req req.formats) _ h2 in
    (ground arith, call_of-IsWithin mode req config formats c h3)
