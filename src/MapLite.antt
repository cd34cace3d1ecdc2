-- ===== src/MapLite.antt =====
-- crates/basecrawl-core/src/map_lite.rs: the inventory of a seed page. The scrape, the links of an
-- HTML text, the fetch of a sitemap and the deadline test are arguments.
pub mod Pushes
pub mod Run
use basecrawl.Prelude.{
  ℕ, zero, suc, ◌+◌, Bool, true, false, not, ◌&&◌, ◌||◌, Option, none, some, List, [], ◌∷◌, ◌++◌,
  Text, codes, text_eq, length, take, leb, ltb, ◌==◌, if◌then◌else◌,
}
use basecrawl.TextMap.{TextMap, get}
use basecrawl.Json.{Value, arr, items, as_str, get_field}
use basecrawl.Error.{Error, invalid_product_option}
use basecrawl.Proof.{ScrapeProof}
use basecrawl.Url.{
  Urls, Parsed, url, relative, malformed, is_http, same_origin, validate_url, Validated,
}
use basecrawl.Url
use basecrawl.Robots.Sitemaps.{member, SitemapFetch, Found, discover_sitemap_urls}
use basecrawl.Robots.Sitemaps
use basecrawl.Crawl.{Scraped, ok, err}
use basecrawl.Crawl.Loop.{url_error}
use basecrawl.Format.{Format, links, raw_html}
use basecrawl.Format.Sorting.{has}

-- the scrape options that the map sets; the others are kept
pub record MapScrape (Other : Type 0) : Type 0 where
  pub method : Text
  pub body : List ℕ
  pub formats : List Format
  pub render_enabled : Bool
  pub follow_pagination : Bool
  pub timeout_secs : ℕ
  pub other : Other

pub record MapOptions (Other : Type 0) : Type 0 where
  pub max_urls : ℕ
  pub use_sitemap : Bool
  pub same_origin_only : Bool
  pub timeout_secs : ℕ
  pub scrape : MapScrape Other

-- the note on the sitemaps, by its case
pub data SitemapNote : Type 0 where
  nothing_found unavailable : SitemapNote
  candidates : ℕ → SitemapNote

pub record MapResult : Type 0 where
  pub mode : Text
  pub seed : Text
  pub urls : List Text
  pub from_seed_links : ℕ
  pub from_sitemap : ℕ
  pub residual : Text
  pub max_urls : ℕ
  pub sitemap_discovery : Option SitemapNote

pub data Mapped : Type 0 where
  mapped : MapResult → Mapped
  failed : Error → Mapped
  stuck : Mapped

abbrev pub map_lite_description : Text
map_lite_description =
    codes
      "Map-lite inventory helper: same-origin link harvest and optional sitemap-first discovery. Not a guaranteed complete site graph or full search index."

unfoldable pub validate_max_urls : ℕ → Scraped (Unit {0})
validate_max_urls max_urls =
    if max_urls == 0
    then err (invalid_product_option (codes "map --max-urls must be >= 1"))
    else if ltb 50000 max_urls
    then err (invalid_product_option (codes "map --max-urls exceeds hard safety cap (50000)"))
    else ok tt

abbrev pub nonempty_formats : List Format → List Format
nonempty_formats [] = links ∷ raw_html ∷ []
nonempty_formats (f ∷ fs) =
    if not (has links (f ∷ fs)) && not (has raw_html (f ∷ fs))
    then f ∷ (fs ++ links ∷ [])
    else f ∷ fs

module _ {Other : Type 0} where
  unfoldable pub seed_options : MapOptions Other → MapScrape Other
  seed_options o =
      let s = o.scrape in
      record s {
        timeout_secs = o.timeout_secs;
        method = codes "GET";
        body = [];
        formats = nonempty_formats s.formats;
        render_enabled = false;
        follow_pagination = false;
      }

-- `ordered` and `seen`
pub record Inventory : Type 0 where
  pub ordered : List Text
  pub seen : List Text

unfoldable pub push_url : ℕ → Text → Inventory → Bool × Inventory
unfolding member
push_url max raw i =
    if leb max (length i.ordered)
    then (false, i)
    else if member raw i.seen
    then (false, i)
    else (true, record { ordered = i.ordered ++ raw ∷ []; seen = raw ∷ i.seen })

module _ (w : Urls) where
  open w use {Url}

  pub admit_parsed : Parsed Url → Url → Bool → Bool
  unfolding same_origin
  admit_parsed (url u) seed same_origin_only =
      is_http w u && (if same_origin_only then same_origin w u seed else true)
  admit_parsed relative seed same_origin_only = false
  admit_parsed malformed seed same_origin_only = false

  unfoldable pub admit : Text → Url → Bool → Bool
  unfolding admit_parsed
  admit raw seed same_origin_only = admit_parsed (w.parse raw) seed same_origin_only

  module _ (seed : Url) (same_origin_only : Bool) (max : ℕ) where
    -- a loop over links or sitemap seeds, which counts those that it adds
    pub add_all : List Text → ℕ × Inventory → ℕ × Inventory
    unfolding push_url
    add_all [] acc = acc
    add_all (s ∷ ss) (n, i) =
        let refused = add_all ss (n, i) in
        let (added, i') = push_url max s i in
        let pushed = add_all ss ((if added then suc n else n), i') in
        if admit s seed same_origin_only then pushed else refused

  -- the strings of an array
  pub strings : List Value → List Text
  strings [] = []
  strings (v ∷ vs) = let rest = strings vs in elim (as_str v) [ none ↦ rest | some s ↦ s ∷ rest ]

  pub array_strings : Option Value → List Text
  unfolding strings
  array_strings (some (arr vs)) = strings (items vs)
  array_strings _ = []

  abbrev pub text_of : Option Value → Option Text
  text_of none = none
  text_of (some v) = as_str v

  abbrev pub or_text : Option Text → Option Text → Option Text
  or_text none b = b
  or_text (some a) b = some a

  module _ (extract : Text → Url → List Text) where
    abbrev extract_from : Option Text → Url → List Text
    extract_from none base = []
    extract_from (some html) base = extract html base

    -- the links of the seed page: those it lists, or those of its HTML if it has no list
    pub page_links : TextMap Value → Option Value → Url → List Text
    unfolding array_strings
    page_links formats (some links_val) base = array_strings (get_field links_val (codes "links"))
    page_links formats none base =
        extract_from
          (or_text (text_of (get formats (codes "rawHtml"))) (text_of (get formats (codes "html"))))
          base

  abbrev pub parsed_or : Parsed Url → Url → Url
  parsed_or (url u) seed = u
  parsed_or _ seed = seed

  abbrev pub text_or : Option Text → Text → Text
  text_or none t = t
  text_or (some s) t = s
