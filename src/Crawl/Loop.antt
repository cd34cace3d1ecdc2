-- ===== src/Crawl/Loop.antt =====
-- The loop of `crawl` in crates/basecrawl-core/src/crawl.rs, and `crawl` itself.
pub mod Bounds
pub mod Outcome
use basecrawl.Prelude.{
  ℕ, zero, suc, ◌+◌, Bool, true, false, not, ◌||◌, Option, none, some, List, [], ◌∷◌, ◌++◌, Text,
  codes, length, leb, ltb, if◌then◌else◌,
}
use basecrawl.Error.{Error, invalid_url, unsupported_scheme}
use basecrawl.Proof.{ScrapeProof}
use basecrawl.Url.{Urls, Validated, UrlError, validate_url}
use basecrawl.Url
use basecrawl.Robots.Sitemaps.{member}
use basecrawl.Crawl.{
  ScrapeOptions, CrawlOptions, CrawlPage, CrawlSkipped, Scraped, ok, err, validate_bounds,
  page_options, allow_host, normalize_visit_key, is_allowed, discover_links_from_page, CrawlState,
  Crawled, finished, aborted, out_of_fuel, add_skipped, Frontier, expand,
}

pub record CrawlResult : Type 0 where
  pub mode : Text
  pub seed : Text
  pub pages : List CrawlPage
  pub skipped : List CrawlSkipped
  pub max_pages : ℕ
  pub max_depth : ℕ

pub data CrawlOutcome : Type 0 where
  crawled : CrawlResult → CrawlOutcome
  failed : Error → CrawlOutcome
  stuck : CrawlOutcome

abbrev pub page_of : ℕ → ScrapeProof → CrawlPage
page_of depth proof = record {
  url = proof.request.url;
  depth = depth;
  result_hash = proof.result.result_hash;
  status_code = proof.response.status_code;
  proof = proof;
}

abbrev pub url_error : UrlError → Error
url_error (Url.invalid_url raw) = invalid_url raw
url_error (Url.unsupported_scheme s) = unsupported_scheme s

abbrev pub fresh : CrawlState
fresh = record { pages = []; skipped = []; visited = [] }

-- What a crawl is given: its options, the scrape, and how links are found in HTML.
pub record Env (w : Urls) : Type 1 where
  pub Other : Type 0
  pub options : CrawlOptions Other
  pub scrape : Text → ScrapeOptions Other → Scraped ScrapeProof
  pub find_next : Text → w.Url → Option w.Url
  pub extract : Text → w.Url → List Text

module _ (w : Urls) (env : Env w) (seed : w.Url) where
  abbrev pub host : Option Text
  host = allow_host env.options.allow_domain

  -- A page was fetched: its links are followed unless a bound is reached.
  pub follow : ℕ → CrawlPage → CrawlState → Frontier w → CrawlState × Frontier w
  unfolding expand
  follow depth page s frontier =
      if leb env.options.max_depth depth || leb env.options.max_pages (length s.pages)
      then (s, frontier)
      else expand w seed host depth (discover_links_from_page w env.find_next env.extract page) s
          frontier

  pub on_scrape :
      (CrawlState → Frontier w → Crawled)
      → ℕ
      → CrawlState
      → Frontier w
      → Scraped ScrapeProof
      → Crawled
  unfolding follow
  on_scrape next depth s frontier (err e) = aborted e
  on_scrape next depth s frontier (ok proof) =
      let page = page_of depth proof in
      let (s', frontier') =
        follow depth page (record s { pages = s.pages ++ page ∷ [] }) frontier in
      next s' frontier'

  -- The number bounds how many pages may still be fetched.
  pub loop : ℕ → Frontier w → CrawlState → Crawled
  unfolding on_scrape
  loop k [] s = finished s
  loop zero ((u, depth) ∷ frontier) s =
      if leb env.options.max_pages (length s.pages) then finished s else out_of_fuel
  loop (suc k) ((u, depth) ∷ frontier) s =
      let key = normalize_visit_key w u in
      let s' : CrawlState = record s { visited = key ∷ s.visited } in
      let again = loop (suc k) frontier s in
      let outside = loop (suc k) frontier (add_skipped w u (codes "outside_allow_domain") s') in
      let too_deep = loop (suc k) frontier (add_skipped w u (codes "depth_exceeded") s') in
      let fetched =
        on_scrape (λ s'' frontier'. loop k frontier' s'') depth s' frontier
          (env.scrape (w.to_string u) (page_options env.options.scrape)) in
      if leb env.options.max_pages (length s.pages)
      then finished s
      else if member key s.visited
      then again
      else if not (is_allowed w u seed host)
      then outside
      else if ltb env.options.max_depth depth
      then too_deep
      else fetched

  pub report : Crawled → CrawlOutcome
  report out_of_fuel = stuck
  report (aborted e) = failed e
  report (finished s) = crawled (record {
    mode = codes "crawl_mvp";
    seed = w.to_string seed;
    pages = s.pages;
    skipped = s.skipped;
    max_pages = env.options.max_pages;
    max_depth = env.options.max_depth;
  })

pub from_seed : (w : Urls) → Env w → Validated w.Url → CrawlOutcome
unfolding loop report
from_seed w env (Url.err e) = failed (url_error e)
from_seed w env (Url.ok seed) =
    report w env seed (loop w env seed env.options.max_pages ((seed, 0) ∷ []) fresh)

pub within_bounds : (w : Urls) → Env w → Text → Scraped (Unit {0}) → CrawlOutcome
unfolding from_seed
within_bounds w env seed (err e) = failed e
within_bounds w env seed (ok _) = from_seed w env (validate_url w seed)

unfoldable pub crawl : (w : Urls) → Env w → Text → CrawlOutcome
unfolding within_bounds
crawl w env seed =
    within_bounds w env seed (validate_bounds env.options.max_pages env.options.max_depth)
