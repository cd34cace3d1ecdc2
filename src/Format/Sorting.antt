-- ===== src/Format/Sorting.antt =====
-- The sort and the removal of duplicates: what they keep and how they order it.
use basecrawl.Prelude.{
  subst, ==_iff, ℕ, ◌≤◌, ◌<◌, Bool, false, ◌||◌, Option, none, some, List, [], ◌∷◌, ◌++◌, Text,
  trim, leb, ◌==◌, ◌≡◌, refl, ap, sym, ◌∙◌, arith, Bool-cases, inl, inr,
}
use basecrawl.Format.{Format, rank, from_token, insert, sort, dedup}

abbrev pub has : Format → List Format → Bool
has f [] = false
has f (g ∷ gs) = rank g == rank f || has f gs

abbrev pub is_format : Format → Option Format → Bool
is_format f none = false
is_format f (some g) = rank g == rank f

abbrev pub named : Format → List Text → Bool
named f [] = false
named f (t ∷ ts) = is_format f (from_token (trim t)) || named f ts

pub or_swap : (a b c : Bool) → (a || (b || c)) ≡ (b || (a || c))
or_swap a b c = ground arith

pub or_false : (a : Bool) → (a || false) ≡ a
or_false a = ground arith

pub or_assoc : (a b c : Bool) → (a || (b || c)) ≡ ((a || b) || c)
or_assoc a b c = ground arith

or_same : (a b c : Bool) → a ≡ b → (b || c) ≡ (a || (b || c))
or_same a b c h = ground arith

has-insert :
    (f g : Format) (gs : List Format) → has f (insert g gs) ≡ (rank g == rank f || has f gs)
unfolding insert
has-insert f g [] = refl
has-insert f g (h ∷ hs) = elim (Bool-cases (leb (rank g) (rank h))) [
  | inl e ↦ rw e refl
  | inr e ↦ rw e (
      ap (λ b. rank h == rank f || b) (has-insert f g hs)
      ∙ or_swap (rank h == rank f) (rank g == rank f) (has f hs))
]

pub has-sort : (f : Format) (gs : List Format) → has f (sort gs) ≡ has f gs
unfolding sort
has-sort f [] = refl
has-sort f (g ∷ gs) = has-insert f g (sort gs) ∙ ap (λ b. rank g == rank f || b) (has-sort f gs)

pub has-dedup : (f : Format) (gs : List Format) → has f (dedup gs) ≡ has f gs
unfolding dedup
has-dedup f [] = refl
has-dedup f (g ∷ []) = refl
has-dedup f (g ∷ h ∷ hs) = elim (Bool-cases (rank g == rank h)) [
  | inl e ↦ rw e (
      has-dedup f (h ∷ hs)
      ∙ or_same (rank g == rank f) (rank h == rank f) (has f hs)
          (ap (λ n. n == rank f) ((==_iff (rank g) (rank h)).0 e)))
  | inr e ↦ rw e (ap (λ b. rank g == rank f || b) (has-dedup f (h ∷ hs)))
]

pub has-snoc :
    (f g : Format) (gs : List Format) → has f (gs ++ g ∷ []) ≡ (has f gs || rank g == rank f)
has-snoc f g [] = or_false (rank g == rank f)
has-snoc f g (h ∷ hs) =
    ap (λ b. rank h == rank f || b) (has-snoc f g hs)
    ∙ or_assoc (rank h == rank f) (has f hs) (rank g == rank f)

abbrev pub Above : ℕ → List Format → Type 0
Above b [] = Unit
Above b (g ∷ gs) = (b ≤ rank g) × Above (rank g) gs

pub insert-Above :
    (b : ℕ) (f : Format) (gs : List Format) → b ≤ rank f → Above b gs → Above b (insert f gs)
unfolding insert
insert-Above b f [] h a = (h, tt)
insert-Above b f (g ∷ gs) h (le, a) = elim (Bool-cases (leb (rank f) (rank g))) [
  | inl e ↦ rw e (h, (ground arith, a))
  | inr e ↦ rw e (le, insert-Above (rank g) f gs (ground arith) a)
]

pub sort-Above : (gs : List Format) → Above 0 (sort gs)
unfolding sort
sort-Above [] = tt
sort-Above (g ∷ gs) = insert-Above 0 g (sort gs) (omega arith) (sort-Above gs)

abbrev After : ℕ → List Format → Type 0
After b [] = Unit
After b (g ∷ gs) = (b < rank g) × After (rank g) gs

-- strictly ascending in the declaration order
abbrev pub IsCanonical : List Format → Type 0
IsCanonical [] = Unit
IsCanonical (f ∷ fs) = After (rank f) fs

abbrev Starts : ℕ → List Format → Type 0
Starts b [] = ⊥
Starts b (g ∷ gs) = (rank g ≡ b) × After b gs

Starts-cons : (b : ℕ) (f : Format) (xs : List Format) → rank f < b → Starts b xs → After (rank f) xs
Starts-cons b f [] h s = absurd s
Starts-cons b f (x ∷ xs) h (e, a) = (omega arith, subst (λ n. After n xs) (sym e) a)

dedup-Starts :
    (f : Format) (gs : List Format) → Above (rank f) gs → Starts (rank f) (dedup (f ∷ gs))
unfolding dedup
dedup-Starts f [] a = (refl, tt)
dedup-Starts f (g ∷ gs) (le, a) = elim (Bool-cases (rank f == rank g)) [
  | inl e ↦ rw e (subst (λ n. Starts n (dedup (g ∷ gs))) (ground arith) (dedup-Starts g gs a))
  | inr e ↦
      rw e (refl, Starts-cons (rank g) f (dedup (g ∷ gs)) (ground arith) (dedup-Starts g gs a))
]

Starts-IsCanonical : (b : ℕ) (xs : List Format) → Starts b xs → IsCanonical xs
Starts-IsCanonical b [] h = absurd h
Starts-IsCanonical b (x ∷ xs) (e, a) = subst (λ n. After n xs) (sym e) a

pub dedup-IsCanonical : (gs : List Format) → Above 0 gs → IsCanonical (dedup gs)
unfolding dedup
dedup-IsCanonical [] a = tt
dedup-IsCanonical (g ∷ gs) (le, a) =
    Starts-IsCanonical (rank g) (dedup (g ∷ gs)) (dedup-Starts g gs a)
