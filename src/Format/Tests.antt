-- ===== src/Format/Tests.antt =====
-- The theorem on formats at concrete tokens.
use basecrawl.Prelude.{codes, [], ◌∷◌}
use basecrawl.Format.{parse_list}
use basecrawl.Format.Order.{IsParsed, parse_list-IsParsed}

parse_list_example :
    IsParsed
      (codes " metadata" ∷ codes "links" ∷ codes "links" ∷ [])
      (parse_list (codes " metadata" ∷ codes "links" ∷ codes "links" ∷ []))
parse_list_example = parse_list-IsParsed (codes " metadata" ∷ codes "links" ∷ codes "links" ∷ [])
