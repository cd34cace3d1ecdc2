-- ===== src/Robots/Wildcard/Fuel.antt =====
-- The matcher returns on every input.
use basecrawl.Prelude.{
  ℕ, zero, suc, Bool, false, Option, none, some, Text, [], ◌∷◌, ◌≡◌, inl, inr, refl, arith, length,
  ◌≤◌, ◌==◌, Bool-cases, not,
}
use basecrawl.Robots.Wildcard.{star, finish, Back, go_back, scan, wildcard_matches_prefix}

-- The fuel: going back leaves a shorter value behind the star.
abbrev pub Fits : ℕ → Back → Type 0
Fits k none = Unit
Fits k (some (q, u)) = length u ≤ k

go_back_total :
    (again : Text → Text → Back → Option Bool) (k : ℕ) (w : Back)
    → Fits (suc k) w
    → ((q u : Text) → length u ≤ k → (b : Bool) × (again q u (some (q, u)) ≡ some b))
    → (b : Bool) × (go_back again w ≡ some b)
unfolding go_back
go_back_total again k none f h = (false, refl)
go_back_total again k (some (q, [])) f h = h q [] (omega arith)
go_back_total again k (some (q, x ∷ u)) f h = h q u (omega arith)

pub scan_total :
    (anchored : Bool) (k : ℕ) (p v : Text) (w : Back)
    → length v ≤ k
    → Fits k w
    → (b : Bool) × (scan anchored k p v w ≡ some b)
unfolding scan
scan_total anchored k p [] w h f = (finish anchored p, refl)
scan_total anchored k [] (c ∷ v) w h f = (not anchored, refl)
scan_total anchored zero (a ∷ p) (c ∷ v) w h f = absurd (omega arith)
scan_total anchored (suc k) (a ∷ p) (c ∷ v) w h f = elim (Bool-cases (a == star)) [
  | inl e ↦ rw e (scan_total anchored (suc k) p (c ∷ v) (some (p, c ∷ v)) h h)
  | inr e ↦ rw e (elim (Bool-cases (a == c)) [
    | inl e' ↦ rw e' (scan_total anchored (suc k) p v w (omega arith) f)
    | inr e' ↦ rw e' (
        go_back_total (scan anchored k) k w f
          (λ q u fits. scan_total anchored k q u (some (q, u)) fits fits))
  ])
]

-- The matcher always returns: it goes back to a star at most once for each byte of the value.
pub wildcard_matches_prefix_total :
    (pattern value : Text) (anchored : Bool)
    → (b : Bool) × (wildcard_matches_prefix pattern value anchored ≡ some b)
unfolding wildcard_matches_prefix
wildcard_matches_prefix_total pattern value anchored =
    scan_total anchored (length value) pattern value none (omega arith) tt
