-- ===== src/Robots/Sitemaps.antt =====
-- `discover_sitemap_urls` and `parse_sitemap` of crates/basecrawl-core/src/robots.rs.
-- The fetch and the XML reader are arguments: the reader is `quick_xml`'s, as a list of events.
pub mod Events
pub mod Bounds
pub mod Seeding
pub mod Tour
pub mod Visits
pub mod Documents
pub mod Search
use basecrawl.Prelude.{
  ℕ, zero, suc, ◌+◌, Bool, true, false, not, ◌&&◌, ◌||◌, Option, none, some, List, [], ◌∷◌, ◌++◌,
  Text, codes, text_eq, length, leb, reverse, if◌then◌else◌, trim,
}
use basecrawl.Error.{Error, timeout}
use basecrawl.Url.{Urls, is_http}
use basecrawl.Robots.Policy.{Outcome, ok, err, is_success}

abbrev pub max_sitemaps : ℕ
max_sitemaps = 32

abbrev pub max_sitemap_urls : ℕ
max_sitemap_urls = 10000

-- `HashSet::contains`
unfoldable pub member : Text → List Text → Bool
member s [] = false
member s (t ∷ ts) = text_eq t s || member s ts

-- an event of the reader; the names are without their prefix, and `eof` stands for an error too
pub data Event : Type 0 where
  start finish : Text → Event
  text : Option Text → Event
  eof other : Event

pub data Parent : Type 0 where
  in_url in_sitemap : Parent

module _ (w : Urls) where
  open w use {Url}

  pub record SitemapDocument : Type 0 where
    pub url_seeds : List Text
    pub nested_sitemaps : List Url

  -- the variables of the loop of `parse_sitemap`
  pub record Reader : Type 0 where
    pub result : SitemapDocument
    pub parent : Option Parent
    pub in_loc : Bool
    pub location : Text

  abbrev pub reading : Reader
  reading = record {
    result = record { url_seeds = []; nested_sitemaps = [] };
    parent = none;
    in_loc = false;
    location = [];
  }

  abbrev is_some {ℓ} : {A : Type ℓ} → Option A → Bool
  is_some none = false
  is_some (some _) = true

  pub on_start : Text → Reader → Reader
  on_start name r =
      if text_eq name (codes "url")
      then record r { parent = some in_url }
      else if text_eq name (codes "sitemap")
      then record r { parent = some in_sitemap }
      else if text_eq name (codes "loc") && is_some r.parent
      then record r { in_loc = true; location = [] }
      else r

  pub on_text : Option Text → Reader → Reader
  on_text none r = r
  on_text (some t) r = if r.in_loc then record r { location = r.location ++ t } else r

  -- the location of an entry, once it is resolved
  pub add_location : Option Parent → Url → SitemapDocument → SitemapDocument
  add_location none u d = d
  add_location (some in_url) u d = record d { url_seeds = d.url_seeds ++ w.to_string u ∷ [] }
  add_location (some in_sitemap) u d = record d { nested_sitemaps = d.nested_sitemaps ++ u ∷ [] }

  pub resolve : Url → Reader → SitemapDocument
  unfolding add_location
  resolve base r = elim (w.join base (trim r.location)) [
    | none ↦ r.result
    | some u ↦ if is_http w u then add_location r.parent u r.result else r.result
  ]

  pub on_finish : Url → Text → Reader → Reader
  unfolding resolve
  on_finish base name r =
      if text_eq name (codes "loc") && r.in_loc
      then record r { result = resolve base r; in_loc = false }
      else if text_eq name (codes "url") || text_eq name (codes "sitemap")
      then record r { parent = none }
      else r

  pub read_events : Url → Reader → List Event → SitemapDocument
  unfolding on_start on_text on_finish
  read_events base r [] = r.result
  read_events base r (eof ∷ es) = r.result
  read_events base r (start name ∷ es) = read_events base (on_start name r) es
  read_events base r (finish name ∷ es) = read_events base (on_finish base name r) es
  read_events base r (text t ∷ es) = read_events base (on_text t r) es
  read_events base r (other ∷ es) = read_events base r es

  unfoldable pub parse_sitemap : Url → List Event → SitemapDocument
  unfolding read_events
  parse_sitemap base events = read_events base reading events

  pub default_sitemap_url : Url → Url
  default_sitemap_url target =
      w.without_fragment (w.without_query (w.set_path (codes "/sitemap.xml") target))

  -- what the fetch of a sitemap gave: a status and the events of its decoded body
  pub data SitemapFetch : Type 0 where
    got : ℕ → List Event → SitemapFetch
    timed_out : Text → SitemapFetch
    failed : SitemapFetch

  -- `seen_seeds` holds what `seeds` holds; `full` is a return in the middle
  pub data Seeds : Type 0 where
    going full : List Text → Seeds

  pub add_seeds : List Text → List Text → Seeds
  unfolding member
  add_seeds seeds [] = going seeds
  add_seeds seeds (url ∷ urls) =
      let rest = add_seeds (if member url seeds then seeds else seeds ++ url ∷ []) urls in
      if leb max_sitemap_urls (length seeds) then full seeds else rest

  pub data Found : Type 0 where
    found : List Text → Found
    stopped : Error → Found
    out_of_fuel : Found

  pub data Visited : Type 0 where
    skip : Visited
    abort : Text → Visited
    parsed : SitemapDocument → Visited

  pub visit : Url → SitemapFetch → Visited
  unfolding parse_sitemap
  visit u (timed_out message) = abort message
  visit u failed = skip
  visit u (got status events) = if is_success status then parsed (parse_sitemap u events) else skip

  module _ (fetch : Url → SitemapFetch) where
    -- a full list of seeds is returned at once
    pub after_seeds : (List Url → List Text → Found) → List Url → Seeds → Found
    after_seeds next queue (full seeds) = found seeds
    after_seeds next queue (going seeds) = next queue seeds

    -- what a visited sitemap does to the queue and the seeds, and the loop that goes on with them
    pub continue_with : (List Url → List Text → Found) → List Url → List Text → Visited → Found
    unfolding add_seeds after_seeds
    continue_with next queue seeds skip = next queue seeds
    continue_with next queue seeds (abort message) = stopped (timeout message)
    continue_with next queue seeds (parsed d) =
        after_seeds next (reverse d.nested_sitemaps ++ queue) (add_seeds seeds d.url_seeds)

    -- The loop over the queue, whose top is at the head. The number bounds how many sitemaps may
    -- still be seen.
    pub discover : ℕ → List Url → List Text → List Text → Found
    unfolding member visit continue_with
    discover k [] seen seeds = found seeds
    discover zero (u ∷ queue) seen seeds =
        if leb max_sitemaps (length seen) || not (is_http w u) then found seeds else out_of_fuel
    discover (suc k) (u ∷ queue) seen seeds =
        let again = discover (suc k) queue seen seeds in
        let visited =
          continue_with (λ queue' seeds'. discover k queue' (w.to_string u ∷ seen) seeds') queue
            seeds (visit u (fetch u)) in
        if leb max_sitemaps (length seen) || not (is_http w u)
        then found seeds
        else if member (w.to_string u) seen
        then again
        else visited

    pub discover_sitemap_urls : Url → List Url → Found
    unfolding discover default_sitemap_url
    discover_sitemap_urls target robots_sitemaps =
        discover max_sitemaps (reverse (default_sitemap_url target ∷ robots_sitemaps)) [] []
