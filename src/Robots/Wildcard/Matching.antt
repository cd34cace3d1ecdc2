-- ===== src/Robots/Wildcard/Matching.antt =====
-- What a robots pattern matches: with a trailing anchor the whole value, else a prefix of it.
use basecrawl.Prelude.{ℕ, Bool, true, false, Text, [], ◌∷◌, ◌≡◌, ◌≢◌, refl}
use basecrawl.Robots.Wildcard.{star}

pub data Matches (anchored : Bool) : Text → Text → Type 0 where
  ended : Matches anchored [] []
  prefix : {v : Text} → anchored ≡ false → Matches anchored [] v
  stop : {a : ℕ} {p v : Text} → a ≡ star → Matches anchored p v → Matches anchored (a ∷ p) v
  more :
      {a c : ℕ} {p v : Text}
      → a ≡ star
      → Matches anchored (a ∷ p) v
      → Matches anchored (a ∷ p) (c ∷ v)
  byte :
      {a c : ℕ} {p v : Text}
      → a ≢ star
      → a ≡ c
      → Matches anchored p v
      → Matches anchored (a ∷ p) (c ∷ v)

pub byte_inv :
    {anchored : Bool} {a c : ℕ} {p v : Text}
    → a ≢ star
    → Matches anchored (a ∷ p) (c ∷ v)
    → (a ≡ c) × Matches anchored p v
byte_inv n (stop e m) = absurd (n e)
byte_inv n (more e m) = absurd (n e)
byte_inv n (byte _ e m) = (e, m)

pub empty_inv : {c : ℕ} {v : Text} → ¬ Matches true [] (c ∷ v)
empty_inv m = go m refl
  where
    go : {anchored : Bool} {c : ℕ} {v : Text} → Matches anchored [] (c ∷ v) → anchored ≢ true
    go (prefix e) h = cc
