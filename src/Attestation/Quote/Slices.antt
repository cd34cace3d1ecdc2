-- ===== src/Attestation/Quote/Slices.antt =====
-- Slices of byte lists, and the numbers that are read in them.
use basecrawl.Prelude.{
  ℕ, zero, suc, ◌+◌, ◌-◌, ◌≤◌, List, [], ◌∷◌, length, take, drop, ◌≡◌, refl, ap, arith, sym, ◌∙◌,
}
use basecrawl.Attestation.Quote.{slice, from_le_bytes}

-- the number of `width` bytes at an offset
abbrev pub field : List ℕ → ℕ → ℕ → ℕ
field value offset width = from_le_bytes (slice value offset (offset + width))

drop-nil : (n : ℕ) → drop {A = ℕ} n [] ≡ []
drop-nil zero = refl
drop-nil (suc n) = refl

take-nil : (n : ℕ) → take {A = ℕ} n [] ≡ []
take-nil zero = refl
take-nil (suc n) = refl

drop-drop : (a b : ℕ) (xs : List ℕ) → drop a (drop b xs) ≡ drop (b + a) xs
drop-drop a zero xs = ap (λ n. drop n xs) {x = a} {y = 0 + a} (omega arith)
drop-drop a (suc b) [] = drop-nil a ∙ sym (drop-nil (suc b + a))
drop-drop a (suc b) (x ∷ xs) =
    drop-drop a b xs ∙ ap (λ n. drop n (x ∷ xs)) {x = suc (b + a)} {y = suc b + a} (omega arith)

drop-take : (a n : ℕ) (xs : List ℕ) → drop a (take n xs) ≡ take (n - a) (drop a xs)
drop-take zero n xs = ap (λ m. take m xs) {x = n} {y = n - 0} (omega arith)
drop-take (suc a) zero xs = ap (λ m. take m (drop (suc a) xs)) {x = 0} {y = 0 - suc a} (omega arith)
drop-take (suc a) (suc n) [] = sym (take-nil (suc n - suc a))
drop-take (suc a) (suc n) (x ∷ xs) =
    drop-take a n xs ∙ ap (λ m. take m (drop a xs)) {x = n - a} {y = suc n - suc a} (omega arith)

take-take : (m n : ℕ) (xs : List ℕ) → m ≤ n → take m (take n xs) ≡ take m xs
take-take zero n xs h = refl
take-take (suc m) zero xs h = absurd (omega arith)
take-take (suc m) (suc n) [] h = refl
take-take (suc m) (suc n) (x ∷ xs) h = ap (x ∷◌) (take-take m n xs (omega arith))

length-take : (n : ℕ) (xs : List ℕ) → n ≤ length xs → length (take n xs) ≡ n
length-take zero xs h = refl
length-take (suc n) [] h = absurd (omega arith)
length-take (suc n) (x ∷ xs) h = ap suc (length-take n xs (omega arith))

length-drop : (n : ℕ) (xs : List ℕ) → length (drop n xs) ≡ length xs - n
length-drop zero xs = omega arith
length-drop (suc n) [] = omega arith
length-drop (suc n) (x ∷ xs) = omega (arith, length-drop n xs)

pub length-slice :
    (xs : List ℕ) (from to : ℕ) → from ≤ to → to ≤ length xs → length (slice xs from to) ≡ to - from
length-slice xs from to h k =
    length-take (to - from) (drop from xs) (omega (arith, length-drop from xs))

-- Reading in a slice is reading past its start.
pub field-slice :
    (xs : List ℕ) (from to offset width : ℕ)
    → from + offset + width ≤ to
    → field (slice xs from to) offset width ≡ field xs (from + offset) width
field-slice xs from to offset width h =
    let start : drop offset (slice xs from to)
        ≡ take (to - from - offset) (drop (from + offset) xs) =
      drop-take offset (to - from) (drop from xs)
      ∙ ap (take (to - from - offset)) (drop-drop offset from xs) in
    ap from_le_bytes (
      ap (take (offset + width - offset)) start
      ∙ take-take (offset + width - offset) (to - from - offset) (drop (from + offset) xs)
          (omega arith)
      ∙ ap (λ n. take n (drop (from + offset) xs)) {x = offset + width - offset}
          {y = from + offset + width - (from + offset)} (omega arith))
