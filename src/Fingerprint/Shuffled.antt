-- ===== src/Fingerprint/Shuffled.antt =====
-- The shuffle of crates/basecrawl-fp/src/lib.rs, by which `permutation` orders what a profile lists.
use mathlib.Core.List.{Perm}
use mathlib.Core.List.Perm
use mathlib.Core.Option.{some-injective}
use native.Mathlib.Nat.{mod-lt}
use basecrawl.Prelude.{
  ℕ, zero, suc, ◌+◌, ◌-◌, ◌%◌, ◌≤◌, ◌<◌, Bool, true, false, Option, none, some, List, [], ◌∷◌,
  length, length-set, get_elem?, set, ◌==◌, if◌then◌else◌, ◌≡◌, refl, ap, ◌∙◌, subst, arith,
}
use basecrawl.Fingerprint.{Lane, swap, count_from, next_usize, and_then, shuffle, permutation}

-- an item that is put in the place of another stands in front of the rest in turn
exchange :
    (a : ℕ) (xs : List ℕ) (i : ℕ) {b : ℕ} → get_elem? xs i ≡ some b → Perm (a ∷ xs) (b ∷ set xs i a)
exchange a [] i e = cc
exchange a (c ∷ xs) zero {b} e =
    subst (λ (b : ℕ). Perm (a ∷ c ∷ xs) (b ∷ a ∷ xs)) (some-injective c b e) (Perm.swap c a xs)
exchange a (c ∷ xs) (suc i) {b} e =
    Perm.trans (Perm.swap c a xs)
      (Perm.trans (Perm.cons c (exchange a xs i e)) (Perm.swap b c (set xs i a)))

swap-Perm :
    (i j : ℕ) (xs : List ℕ) {a b : ℕ}
    → j ≤ i
    → get_elem? xs i ≡ some a
    → get_elem? xs j ≡ some b
    → Perm xs (set (set xs i b) j a)
swap-Perm i j [] low e e' = cc
swap-Perm zero zero (x ∷ xs) {a} low e e' =
    subst (λ (a : ℕ). Perm (x ∷ xs) (a ∷ xs)) (some-injective x a e) (Perm.refl (x ∷ xs))
swap-Perm zero (suc j) (x ∷ xs) low e e' = absurd (omega arith)
swap-Perm (suc i) zero (x ∷ xs) {a} {b} low e e' =
    subst (λ (b : ℕ). Perm (x ∷ xs) (a ∷ set xs i b)) (some-injective x b e') (exchange x xs i e)
swap-Perm (suc i) (suc j) (x ∷ xs) low e e' = Perm.cons x (swap-Perm i j xs (omega arith) e e')

in_range : (xs : List ℕ) (i : ℕ) → i < length xs → (a : ℕ) × (get_elem? xs i ≡ some a)
in_range [] i h = absurd (omega arith)
in_range (x ∷ xs) zero h = (x, refl)
in_range (x ∷ xs) (suc i) h = in_range xs i (omega arith)

swap-eq :
    (i j : ℕ) (xs : List ℕ) {a b : ℕ}
    → get_elem? xs i ≡ some a
    → get_elem? xs j ≡ some b
    → swap i j xs ≡ some (set (set xs i b) j a)
unfolding swap
swap-eq i j xs {a} e e' =
    ap
      (λ o. elim o [
        | none ↦ none
        | some a ↦ elim (get_elem? xs j) [ none ↦ none | some b ↦ some (set (set xs i b) j a) ]
      ])
      e
    ∙ ap (λ o. elim o [ none ↦ none | some b ↦ some (set (set xs i b) j a) ]) e'

drawn_below :
    (z : Bool) (bound d : ℕ) (l l' : Lane)
    → z ≡ false
    → 0 < bound
    → (let drawn : ℕ × Lane = if z then (0, l) else (d % bound, l') in drawn.0 < bound)
drawn_below true bound d l l' e h = cc
drawn_below false bound d l l' e h = mod-lt d h

-- The result of a run of the loop: it does not panic, and has the same items.
abbrev pub IsReordered : List ℕ → Option (List ℕ) → Type 0
IsReordered xs o = (ys : List ℕ) × (o ≡ some ys) × Perm xs ys

module _ (sha256 : List ℕ → List ℕ) where
  next_usize_below : (l : Lane) (bound : ℕ) → 0 < bound → (next_usize sha256 l bound).0 < bound
  unfolding next_usize
  next_usize_below l bound h = drawn_below (bound == 0) bound _ l _ (ground arith) h

  shuffle-IsReordered :
      (l : Lane) (i : ℕ) (xs : List ℕ) → (i < length xs) → IsReordered xs (shuffle sha256 l i xs)
  unfolding shuffle swap
  shuffle-IsReordered l zero xs h = (xs, refl, Perm.refl xs)
  shuffle-IsReordered l (suc i) xs h =
      let j : ℕ = (next_usize sha256 l (suc i + 1)).0 in
      let l' : Lane = (next_usize sha256 l (suc i + 1)).1 in
      let low : j < suc i + 1 = next_usize_below l (suc i + 1) (omega arith) in
      let (a, at) = in_range xs (suc i) h in
      let (b, at') = in_range xs j (omega arith) in
      let ys : List ℕ = set (set xs (suc i) b) j a in
      let same_1 = length-set (set xs (suc i) b) j a in
      let same_2 = length-set xs (suc i) b in
      let (zs, result, reordered) = shuffle-IsReordered l' i ys (omega arith) in
      (
        zs,
        ap (λ o. and_then sha256 o (shuffle sha256 l' i)) (swap-eq (suc i) j xs at at') ∙ result,
        Perm.trans (swap-Perm (suc i) j xs (omega arith) at at') reordered,
      )

  length-count_from : (first n : ℕ) → length (count_from first n) ≡ n
  unfolding count_from
  length-count_from first zero = refl
  length-count_from first (suc n) = ap suc (length-count_from (suc first) n)

  -- Whatever the digest gives, the shuffle of the numbers below a bound does not go out of bounds,
  -- and gives these numbers, each once, in some order.
  pub permutation-IsReordered :
      (l : Lane) (n : ℕ) → IsReordered (count_from 0 n) (permutation sha256 l n)
  unfolding permutation
  permutation-IsReordered l zero = ([], refl, Perm.refl [])
  permutation-IsReordered l (suc n) =
      let sized = length-count_from 0 (suc n) in
      let numbers : List ℕ = count_from 0 (suc n) in
      subst (λ (m : ℕ). IsReordered numbers (shuffle sha256 l m numbers)) {x = n} {y = suc n - 1}
        (omega arith) (shuffle-IsReordered l n numbers (omega arith))
