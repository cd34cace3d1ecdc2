-- ===== src/Crawl/Tests.antt =====
-- The theorem on the crawl at a site whose pages link to one another.
use basecrawl.Prelude.{codes, none, [], true}
use basecrawl.Proof.Samples.{toy_proof}
use basecrawl.Url.Samples.{toy}
use basecrawl.Crawl.{ok}
use basecrawl.Crawl.Loop.{Env, crawl}
use basecrawl.Crawl.Loop.Outcome.{Returns, crawl-Returns}

abbrev site : Env toy
site = record {
  Other = Unit;
  options = record {
    scrape = record { method = codes "POST"; body = []; follow_pagination = true; other = tt };
    max_pages = 2;
    max_depth = 1;
    allow_domain = none;
  };
  scrape = λ _ _. ok toy_proof;
  find_next = λ _ _. none;
  extract = λ _ _. [];
}

crawl_example : Returns toy site (codes "https://a/") (crawl toy site (codes "https://a/"))
crawl_example = crawl-Returns toy site (codes "https://a/")
