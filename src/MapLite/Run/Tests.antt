-- ===== src/MapLite/Run/Tests.antt =====
-- The theorem on the inventory at a small site.
use basecrawl.Prelude.{codes, [], true}
use basecrawl.Proof.Samples.{toy_proof}
use basecrawl.Url.Samples.{toy}
use basecrawl.Robots.Sitemaps.{failed}
use basecrawl.Crawl.{ok}
use basecrawl.MapLite.Run.{MapEnv, map_lite}
use basecrawl.MapLite.Run.Bounds.{Outcome, map_lite-Outcome}

abbrev site : MapEnv toy
site = record {
  Other = Unit;
  options = record {
    max_urls = 2;
    use_sitemap = true;
    same_origin_only = true;
    timeout_secs = 30;
    scrape = record {
      method = codes "GET";
      body = [];
      formats = [];
      render_enabled = true;
      follow_pagination = true;
      timeout_secs = 1;
      other = tt;
    };
  };
  scrape = λ _ _. ok toy_proof;
  extract = λ _ _. [];
  fetch_sitemap = λ _. failed;
  before_deadline = true;
}

map_lite_example : Outcome toy site (codes "https://a/") (map_lite toy site (codes "https://a/"))
map_lite_example = map_lite-Outcome toy site (codes "https://a/")
