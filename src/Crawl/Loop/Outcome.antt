-- ===== src/Crawl/Loop/Outcome.antt =====
-- What a crawl returns: it ends, and its result keeps the bounds.
use basecrawl.Prelude.{◌≤◌, List, [], ◌∷◌, Text, codes, length, ◌≡◌, refl, arith, All, map}
use basecrawl.Url.{Urls, Validated, UrlError, validate_url}
use basecrawl.Url
use basecrawl.Robots.Sitemaps.Bounds.{Distinct}
use basecrawl.Crawl.{
  Crawled, finished, aborted, out_of_fuel, ok, err, validate_bounds, normalize_visit_key,
}
use basecrawl.Crawl.Loop.{
  CrawlResult, CrawlOutcome, crawled, failed, stuck, fresh, Env, report, from_seed, within_bounds,
  crawl,
}
use basecrawl.Crawl.Loop.Bounds.{ArePages, HasEnded, loop-HasEnded}

-- What a result of a crawl holds.
pub record IsCrawl (w : Urls) (env : Env w) (seed : Text) (r : CrawlResult) : Type 0 where
  pub seed_url : w.Url
  pub valid : validate_url w seed ≡ Url.ok seed_url
  pub urls : List w.Url
  pub pages : ArePages w env seed_url urls r.pages
  pub distinct : Distinct (map (normalize_visit_key w) urls)
  pub count : length r.pages ≤ env.options.max_pages
  pub reasons : All (λ x. x.reason ≡ codes "outside_allow_domain") r.skipped

abbrev pub Returns : (w : Urls) → Env w → Text → CrawlOutcome → Type 0
Returns w env seed (crawled r) = IsCrawl w env seed r
Returns w env seed (failed e) = Unit
Returns w env seed stuck = ⊥

report-Returns :
    (w : Urls) (env : Env w) (text : Text) (seed : w.Url) (c : Crawled)
    → validate_url w text ≡ Url.ok seed
    → HasEnded w env seed c
    → Returns w env text (report w env seed c)
unfolding report
report-Returns w env text seed (finished s) v (h, n) = record {
  seed_url = seed;
  valid = v;
  urls = h.urls;
  pages = h.pages;
  distinct = h.distinct;
  count = n;
  reasons = h.reasons;
}
report-Returns w env text seed (aborted e) v h = tt
report-Returns w env text seed out_of_fuel v h = h

from_seed-Returns :
    (w : Urls) (env : Env w) (text : Text) (v : Validated w.Url)
    → validate_url w text ≡ v
    → Returns w env text (from_seed w env v)
unfolding from_seed
from_seed-Returns w env text (Url.err e) eq = tt
from_seed-Returns w env text (Url.ok seed) eq = report-Returns w env text seed _ eq (
    loop-HasEnded w env seed env.options.max_pages ((seed, 0) ∷ []) fresh (omega arith)
      (record { urls = []; pages = tt; distinct = tt; seen = tt; reasons = tt }) (omega arith, tt))

-- A crawl always ends. A result has at most `max_pages` pages, each within `max_depth` and from the
-- scrape of an allowed URL by a GET with no body that follows no pagination and is otherwise as the
-- caller's options say, no two of these URLs the same up to the fragment;
-- what it skipped was outside the allowed domain, and never too deep.
pub crawl-Returns : (w : Urls) (env : Env w) (seed : Text) → Returns w env seed (crawl w env seed)
unfolding crawl within_bounds
crawl-Returns w env seed =
    elim (validate_bounds env.options.max_pages env.options.max_depth)
      as (λ b. Returns w env seed (within_bounds w env seed b)) [
        | ok _ ↦ from_seed-Returns w env seed (validate_url w seed) refl
        | err e ↦ tt
      ]
