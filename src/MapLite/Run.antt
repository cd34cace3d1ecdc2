-- ===== src/MapLite/Run.antt =====
-- `map_lite` of crates/basecrawl-core/src/map_lite.rs, from the scrape of the seed to the result.
pub mod Bounds
mod Tests
use basecrawl.Prelude.{
  ℕ, zero, suc, ◌+◌, Bool, true, false, not, ◌&&◌, ◌||◌, Option, none, some, List, [], ◌∷◌, ◌++◌,
  Text, codes, text_eq, length, take, leb, ltb, ◌==◌, if◌then◌else◌,
}
use basecrawl.TextMap.{TextMap, get}
use basecrawl.Json.{Value, arr, items, as_str, get_field}
use basecrawl.Error.{Error, invalid_product_option}
use basecrawl.Proof.{ScrapeProof}
use basecrawl.Url.{
  Urls, Parsed, url, relative, malformed, is_http, same_origin, validate_url, Validated,
}
use basecrawl.Url
use basecrawl.Robots.Sitemaps.{member, SitemapFetch, Found, discover_sitemap_urls}
use basecrawl.Robots.Sitemaps
use basecrawl.Crawl.{Scraped, ok, err}
use basecrawl.Crawl.Loop.{url_error}
use basecrawl.Format.{Format, links, raw_html}
use basecrawl.Format.Sorting.{has}
use basecrawl.MapLite.{
  MapScrape, MapOptions, SitemapNote, MapResult, Mapped, map_lite_description, validate_max_urls,
  nonempty_formats, seed_options, Inventory, push_url, admit_parsed, admit, strings, array_strings,
  text_of, or_text, parsed_or, text_or, add_all, page_links, nothing_found, unavailable, candidates,
  mapped, failed, stuck,
}

-- What a run is given beside its options.
pub record MapEnv (w : Urls) : Type 1 where
  pub Other : Type 0
  pub options : MapOptions Other
  pub scrape : Text → MapScrape Other → Scraped ScrapeProof
  pub extract : Text → w.Url → List Text
  pub fetch_sitemap : w.Url → SitemapFetch w
  pub before_deadline : Bool

module _ (w : Urls) (env : MapEnv w) (seed : w.Url) where
  pub result : ℕ → ℕ → Option SitemapNote → Inventory → Mapped
  result from_seed_links from_sitemap about i = mapped (record {
    mode = codes "map_lite";
    seed = w.to_string seed;
    urls = take env.options.max_urls i.ordered;
    from_seed_links = from_seed_links;
    from_sitemap = from_sitemap;
    residual = map_lite_description;
    max_urls = env.options.max_urls;
    sitemap_discovery = about;
  })

  abbrev pub note_of : List Text → SitemapNote
  note_of [] = nothing_found
  note_of (s ∷ ss) = candidates (length (s ∷ ss))

  pub with_sitemaps : ℕ → Inventory → Found w → Mapped
  unfolding result add_all
  with_sitemaps n i (Sitemaps.found seeds) =
      let (m, i') = add_all w seed env.options.same_origin_only env.options.max_urls seeds (0, i) in
      result n m (some (note_of seeds)) i'
  with_sitemaps n i (Sitemaps.stopped e) = result n 0 (some unavailable) i
  with_sitemaps n i Sitemaps.out_of_fuel = stuck

  pub after_links : ℕ × Inventory → Mapped
  unfolding with_sitemaps
  after_links (n, i) =
      let sitemaps = with_sitemaps n i (discover_sitemap_urls w env.fetch_sitemap seed []) in
      if env.options.use_sitemap
        && (ltb (length i.ordered) env.options.max_urls && env.before_deadline)
      then sitemaps
      else result n 0 none i

  -- the links of the seed's proof
  pub proof_links : ScrapeProof → List Text
  unfolding page_links
  proof_links proof =
      let formats = proof.result.formats_produced in
      let final_url = text_or w proof.response.final_url (w.to_string seed) in
      page_links w env.extract formats (get formats (codes "links"))
        (parsed_or w (w.parse final_url) seed)

  -- the inventory after the push of the seed
  pub first : Inventory
  unfolding push_url
  first = (push_url env.options.max_urls (w.to_string seed) (record { ordered = []; seen = [] })).1

  pub with_page : Scraped ScrapeProof → Mapped
  unfolding after_links proof_links first add_all
  with_page (err e) = failed e
  with_page (ok proof) = after_links (
      add_all w seed env.options.same_origin_only env.options.max_urls (proof_links proof)
        (0, first))

pub from_seed : (w : Urls) → MapEnv w → Validated w.Url → Mapped
unfolding with_page
from_seed w env (Url.err e) = failed (url_error e)
from_seed w env (Url.ok seed) =
    with_page w env seed (env.scrape (w.to_string seed) (seed_options env.options))

pub within_bounds : (w : Urls) → MapEnv w → Text → Scraped (Unit {0}) → Mapped
unfolding from_seed
within_bounds w env seed (err e) = failed e
within_bounds w env seed (ok _) = from_seed w env (validate_url w seed)

unfoldable pub map_lite : (w : Urls) → MapEnv w → Text → Mapped
unfolding within_bounds
map_lite w env seed = within_bounds w env seed (validate_max_urls env.options.max_urls)
