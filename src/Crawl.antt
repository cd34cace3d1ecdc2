-- ===== src/Crawl.antt =====
-- crates/basecrawl-core/src/crawl.rs: the bounded crawl. A scrape and the extraction of links from
-- HTML are arguments; a scrape is a function of the URL and the options.
pub mod Loop
mod Tests
use basecrawl.Prelude.{
  eq_ignore_ascii_case, ℕ, zero, suc, ◌+◌, Bool, true, false, not, ◌||◌, ◌&&◌, Option, none, some,
  List, [], ◌∷◌, ◌++◌, Text, codes, text_eq, length, leb, ltb, ◌==◌, if◌then◌else◌, trim,
  to_ascii_lowercase, is_empty,
}
use basecrawl.TextMap.{TextMap, get}
use basecrawl.Json.{Value, arr, items, as_str, get_field}
use basecrawl.Error.{Error, invalid_product_option}
use basecrawl.Proof.{ScrapeProof}
use basecrawl.Url.{
  Urls, Parsed, url, relative, malformed, Validated, UrlError, same_origin, validate_url,
}
use basecrawl.Robots.Sitemaps.{member}

-- The scrape options that the crawl sets for each page; the others are kept as they are.
pub record ScrapeOptions (Other : Type 0) : Type 0 where
  pub method : Text
  pub body : List ℕ
  pub follow_pagination : Bool
  pub other : Other

pub record CrawlOptions (Other : Type 0) : Type 0 where
  pub scrape : ScrapeOptions Other
  pub max_pages : ℕ
  pub max_depth : ℕ
  pub allow_domain : Option Text

pub record CrawlPage : Type 0 where
  pub url : Text
  pub depth : ℕ
  pub result_hash : Option Text
  pub status_code : Option ℕ
  pub proof : ScrapeProof

pub record CrawlSkipped : Type 0 where
  pub url : Text
  pub reason : Text

-- `pages`, `skipped` and `visited`
pub record CrawlState : Type 0 where
  pub pages : List CrawlPage
  pub skipped : List CrawlSkipped
  pub visited : List Text

pub data Crawled : Type 0 where
  finished : CrawlState → Crawled
  aborted : Error → Crawled
  out_of_fuel : Crawled

pub data Scraped {ℓ} (A : Type ℓ) : Type ℓ where
  ok : A → Scraped A
  err : Error → Scraped A

unfoldable pub validate_bounds : ℕ → ℕ → Scraped (Unit {0})
validate_bounds max_pages max_depth =
    if max_pages == 0
    then err (invalid_product_option (codes "crawl --max-pages must be >= 1"))
    else if ltb 10000 max_pages
    then err (invalid_product_option (codes "crawl --max-pages exceeds hard safety cap (10000)"))
    else if ltb 32 max_depth
    then err (invalid_product_option (codes "crawl --max-depth exceeds hard safety cap (32)"))
    else ok tt

-- The options of each page: a GET with no body that follows no pagination.
module _ {Other : Type 0} where
  unfoldable pub page_options : ScrapeOptions Other → ScrapeOptions Other
  page_options o = record o { method = codes "GET"; body = []; follow_pagination = false }

abbrev pub non_empty : Text → Option Text
non_empty [] = none
non_empty (c ∷ s) = some (c ∷ s)

-- `allow_domain` trimmed and lowercased, if something is left
unfoldable pub allow_host : Option Text → Option Text
allow_host none = none
allow_host (some h) = non_empty (to_ascii_lowercase (trim h))

module _ (w : Urls) where
  open w use {Url}

  unfoldable pub normalize_visit_key : Url → Text
  normalize_visit_key u = w.to_string (w.without_fragment u)

  pub host_is : Option Text → Text → Bool
  host_is none host = false
  host_is (some h) host = eq_ignore_ascii_case h host

  unfoldable pub is_allowed : Url → Url → Option Text → Bool
  unfolding host_is
  is_allowed u seed none = same_origin w u seed
  is_allowed u seed (some host) = host_is (w.host_str u) host

  -- `if let Ok(u) = Url::parse(s) { out.push(u) }`
  pub push_parsed : Parsed Url → List Url → List Url
  push_parsed (url u) rest = u ∷ rest
  push_parsed relative rest = rest
  push_parsed malformed rest = rest

  pub parse_all : List Text → List Url
  unfolding push_parsed
  parse_all [] = []
  parse_all (s ∷ ss) = push_parsed (w.parse s) (parse_all ss)

  pub parse_items : List Value → List Url
  unfolding push_parsed
  parse_items [] = []
  parse_items (v ∷ vs) =
      let rest = parse_items vs in
      elim (as_str v) [ none ↦ rest | some s ↦ push_parsed (w.parse s) rest ]

  pub links_of : Option Value → List Url
  unfolding parse_items
  links_of (some (arr vs)) = parse_items (items vs)
  links_of _ = []

  abbrev and_then {ℓ} : {A B : Type ℓ} → Option A → (A → Option B) → Option B
  and_then none f = none
  and_then (some a) f = f a

  abbrev or_else {ℓ} : {A : Type ℓ} → Option A → Option A → Option A
  or_else none b = b
  or_else (some a) b = some a

  -- `find_next` and `extract` of pagination.rs and links.rs
  module _ (find_next : Text → Url → Option Url) (extract : Text → Url → List Text) where
    pub from_html : Option Text → Parsed Url → List Url
    unfolding parse_all
    from_html (some html) (url base) =
        let found = parse_all (extract html base) in
        elim (find_next html base) [ none ↦ found | some next ↦ next ∷ found ]
    from_html _ _ = []

    -- the second source of links is read only if the first gives none
    pub or_from_html : TextMap Value → Text → List Url → List Url
    unfolding from_html
    or_from_html formats page_url [] =
        from_html
          (or_else (and_then (get formats (codes "html")) as_str)
            (and_then (get formats (codes "rawHtml")) as_str))
          (w.parse page_url)
    or_from_html formats page_url (u ∷ us) = u ∷ us

    pub discover_links_from_page : CrawlPage → List Url
    unfolding links_of or_from_html
    discover_links_from_page page =
        let formats = page.proof.result.formats_produced in
        or_from_html formats page.url
          (links_of (and_then (get formats (codes "links")) (λ v. get_field v (codes "links"))))

  unfoldable pub add_skipped : Url → Text → CrawlState → CrawlState
  add_skipped u reason s = record s {
    skipped = s.skipped ++ record { url = w.to_string u; reason = reason } ∷ [];
  }

  abbrev pub Frontier : Type 0
  Frontier = List (Url × ℕ)

  module _ (seed : Url) (allowed_host : Option Text) where
    -- the loop over the links that a page at this depth gave
    pub expand : ℕ → List Url → CrawlState → Frontier → CrawlState × Frontier
    expand depth [] s frontier = (s, frontier)
    expand depth (next ∷ more) s frontier =
        let skipping =
          expand depth more (add_skipped next (codes "outside_allow_domain") s) frontier in
        let passing = expand depth more s frontier in
        let pushing = expand depth more s (frontier ++ (next, depth + 1) ∷ []) in
        if not (is_allowed next seed allowed_host)
        then skipping
        else if member (normalize_visit_key next) s.visited
        then passing
        else pushing
