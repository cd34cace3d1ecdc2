-- ===== src/Robots/Wildcard/Tests.antt =====
-- Runs of the matcher, and its theorems at concrete patterns.
use basecrawl.Prelude.{codes, ◌≡◌, refl, true, false, Bool, some, Text, ◌++◌, ◌∷◌, [], ◌↔◌, text_eq}
use basecrawl.Robots.Wildcard.{rule_matches, wildcard_matches_prefix, star}
use basecrawl.Robots.Wildcard.Matching.{Matches}
use basecrawl.Robots.Wildcard.Fuel.{wildcard_matches_prefix_total}
use basecrawl.Robots.Wildcard.Prefix.{unanchored_iff}
use basecrawl.Robots.Wildcard.Anchored.{anchored_literal}

runs :
    (rule_matches (codes "/files/one.pdf") (codes "/files/*.pdf$") ≡ true)
    × (rule_matches (codes "/files/one.pdf/extra") (codes "/files/*.pdf$") ≡ false)
    × (rule_matches (codes "/anywhere") (codes "/*") ≡ true)
    × (rule_matches (codes "/files/one.pdf.pdf") (codes "/files/*.pdf$") ≡ false)
    × (rule_matches (codes "/") (codes "/private") ≡ true)
    × (rule_matches (codes "/index.html") (codes "/*.pdf") ≡ true)
unfolding rule_matches
runs = (refl, refl, refl, refl, refl, refl)

total_example :
    (b : Bool) × (wildcard_matches_prefix (codes "/a*b*c") (codes "/axbx") false ≡ some b)
total_example = wildcard_matches_prefix_total (codes "/a*b*c") (codes "/axbx") false

unanchored_example :
    (wildcard_matches_prefix (codes "/private") (codes "/") false ≡ some true)
    ↔ ((rest : Text) × Matches false (codes "/private") (codes "/" ++ rest))
unanchored_example = unanchored_iff (codes "/private") (codes "/")

accepts : wildcard_matches_prefix (codes "/a*b") (codes "/axyb") true ≡ some true
unfolding wildcard_matches_prefix
accepts = refl

literal_example :
    (wildcard_matches_prefix (codes "/a") (codes "/ab") true
      ≡ some (text_eq (codes "/a") (codes "/ab")))
    × (wildcard_matches_prefix (codes "/a" ++ star ∷ []) (codes "/ab") true
        ≡ some (text_eq (codes "/a") (codes "/ab")))
literal_example = anchored_literal (codes "/a") (codes "/ab") refl
