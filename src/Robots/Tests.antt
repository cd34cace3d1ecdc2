-- ===== src/Robots/Tests.antt =====
-- The theorems on robots files, their rules and the sitemaps, at concrete ones.
use basecrawl.Prelude.{codes, ◌≡◌, List, [], ◌∷◌, Text, some}
use basecrawl.Url.Samples.{toy}
use basecrawl.Robots.Parse.{parse}
use basecrawl.Robots.Parse.Whole.{parse-IsText}
use basecrawl.Robots.Parse.Samples.{one_group, locations, source, source-IsText}
use basecrawl.Robots.Rules.{matching_rule}
use basecrawl.Robots.Rules.Best.{IsBest, applicable_rules, matching_rule-IsBest}
use basecrawl.Robots.Sitemaps.{Event, start, finish, text, SitemapFetch, got}

parse_example : parse source ≡ record { groups = one_group; sitemap_urls = locations }
parse_example = parse-IsText one_group locations source ((λ e. cc, λ e. cc), tt) source-IsText

matching_rule_example :
    IsBest
      (codes "/private/x")
      (applicable_rules one_group)
      (matching_rule (codes "/private/x") one_group)
matching_rule_example = matching_rule-IsBest (codes "/private/x") one_group

abbrev sitemap : List Event
sitemap =
    start (codes "url")
    ∷ start (codes "loc")
    ∷ text (some (codes "https://a/x"))
    ∷ finish (codes "loc")
    ∷ finish (codes "url")
    ∷ []

abbrev serve : Text → SitemapFetch toy
serve _ = got 200 sitemap
