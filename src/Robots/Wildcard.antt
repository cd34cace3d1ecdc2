-- ===== src/Robots/Wildcard.antt =====
-- `rule_matches` and `wildcard_matches_prefix` of crates/basecrawl-core/src/robots.rs.
-- An index into the pattern or the value is the suffix that starts there.
pub mod Matching
pub mod Fuel
pub mod Anchored
pub mod Prefix
mod Tests
use basecrawl.Prelude.{
  ℕ, zero, suc, Bool, true, false, not, ◌||◌, Option, none, some, List, [], ◌∷◌, Text, length,
  as_bytes, ◌==◌, if◌then◌else◌,
}

abbrev pub star : ℕ
star = b'*'

abbrev pub dollar : ℕ
dollar = b'$'

-- `wildcard` (the pattern behind the last star) with `wildcard_value_index`
abbrev pub Back : Type 0
Back = Option (Text × Text)

-- the loop at the end that skips stars, and the final test
pub finish : Bool → Text → Bool
finish anchored [] = true
finish anchored (a ∷ p) = let rest = finish anchored p in if a == star then rest else not anchored

-- Back to the last star, which takes one byte more.
pub go_back : (Text → Text → Back → Option Bool) → Back → Option Bool
go_back again none = some false
go_back again (some (q, [])) = again q [] (some (q, []))
go_back again (some (q, x ∷ u)) = again q u (some (q, u))

-- The main loop. The number is how often it may still go back to a star; `none` is a loop that
-- ran out of it, which the model alone has.
pub scan : Bool → ℕ → Text → Text → Back → Option Bool
unfolding finish go_back
scan anchored k p [] w = some (finish anchored p)
scan anchored k [] (c ∷ v) w = some (not anchored)
scan anchored zero (a ∷ p) (c ∷ v) w =
    let at_star = scan anchored zero p (c ∷ v) (some (p, c ∷ v)) in
    let along = scan anchored zero p v w in
    if a == star then at_star else if a == c then along else go_back (λ _ _ _. none) w
scan anchored (suc k) (a ∷ p) (c ∷ v) w =
    let at_star = scan anchored (suc k) p (c ∷ v) (some (p, c ∷ v)) in
    let along = scan anchored (suc k) p v w in
    let back = go_back (scan anchored k) w in
    if a == star then at_star else if a == c then along else back

pub wildcard_matches_prefix : Text → Text → Bool → Option Bool
unfolding scan
wildcard_matches_prefix pattern value anchored = scan anchored (length value) pattern value none

-- `rule.strip_suffix('$')`, with whether the suffix was there
pub strip_anchor : Text → Text × Bool
strip_anchor [] = ([], false)
strip_anchor (c ∷ []) = if c == dollar then ([], true) else (c ∷ [], false)
strip_anchor (c ∷ d ∷ r) = let (p, anchored) = strip_anchor (d ∷ r) in (c ∷ p, anchored)

abbrev pub holds : Option Bool → Bool
holds none = false
holds (some b) = b

unfoldable pub rule_matches : Text → Text → Bool
unfolding wildcard_matches_prefix strip_anchor as_bytes
rule_matches path rule =
    let (pattern, anchored) = strip_anchor rule in
    holds (wildcard_matches_prefix (as_bytes pattern) (as_bytes path) anchored)
