-- ===== src/Serve/Wire/Found.antt =====
-- Where `find` finds the first occurrence, in texts that go on.
use basecrawl.Prelude.{
  ℕ, suc, ◌+◌, ◌≤◌, true, ◌&&◌, Option, none, some, List, [], ◌∷◌, ◌++◌, Text, length, starts_with,
  find, ◌==◌, ◌≡◌, refl, sym, ap, ◌∙◌, arith, Bool-cases, inl, inr, if_true, if_false, &&-both,
  is_empty,
}
use mathlib.Core.Option.{some-injective}

starts_with-length : (s t : Text) → starts_with s t ≡ true → length t ≤ length s
unfolding starts_with
starts_with-length s [] h = omega arith
starts_with-length [] (d ∷ t) h = cc
starts_with-length (c ∷ s) (d ∷ t) h =
    omega (arith, starts_with-length s t (&&-both (c == d) (starts_with s t) h).1)

starts_with-append : (s t u : Text) → length t ≤ length s → starts_with (s ++ u) t ≡ starts_with s t
unfolding starts_with
starts_with-append s [] u h = refl
starts_with-append [] (d ∷ t) u h = absurd (omega arith)
starts_with-append (c ∷ s) (d ∷ t) u h = ap ((c == d) &&◌) (starts_with-append s t u (omega arith))

-- the place of an occurrence one further on
abbrev later : Option ℕ → Option ℕ
later o = elim o [ none ↦ none | some i ↦ some (suc i) ]

shifted_back : (o : Option ℕ) (i : ℕ) → later o ≡ some i → (j : ℕ) × (o ≡ some j) × (suc j ≡ i)
shifted_back none i h = cc
shifted_back (some j) i h = (j, refl, some-injective (suc j) i h)

pub find-bound :
    (s : Text) (d : ℕ) (t : Text) (i : ℕ) → find s (d ∷ t) ≡ some i → i + length (d ∷ t) ≤ length s
unfolding find is_empty
find-bound [] d t i h = cc
find-bound (c ∷ s) d t i h = elim (Bool-cases (starts_with (c ∷ s) (d ∷ t))) [
  | inl here ↦
      (let low = starts_with-length (c ∷ s) (d ∷ t) here in
        let same : 0 ≡ i =
          some-injective 0 i (sym (if_true (starts_with (c ∷ s) (d ∷ t)) (some 0) _ here) ∙ h) in
        omega arith)
  | inr other ↦
      (let (j, e, same) =
          shifted_back (find s (d ∷ t)) i
            (sym (if_false (starts_with (c ∷ s) (d ∷ t)) (some 0) _ other) ∙ h) in
        let low = find-bound s d t j e in omega arith)
]

pub find-append :
    (s : Text) (d : ℕ) (t u : Text) (i : ℕ)
    → find s (d ∷ t) ≡ some i
    → find (s ++ u) (d ∷ t) ≡ some i
unfolding find is_empty
find-append [] d t u i h = cc
find-append (c ∷ s) d t u i h = elim (Bool-cases (starts_with (c ∷ s) (d ∷ t))) [
  | inl here ↦
      (let low = starts_with-length (c ∷ s) (d ∷ t) here in
        if_true (starts_with (c ∷ s ++ u) (d ∷ t)) (some 0) _
          (starts_with-append (c ∷ s) (d ∷ t) u low ∙ here)
        ∙ sym (if_true (starts_with (c ∷ s) (d ∷ t)) (some 0) _ here)
        ∙ h)
  | inr other ↦
      (let (j, e, same) =
          shifted_back (find s (d ∷ t)) i
            (sym (if_false (starts_with (c ∷ s) (d ∷ t)) (some 0) _ other) ∙ h) in
        let low = find-bound s d t j e in
        if_false (starts_with (c ∷ s ++ u) (d ∷ t)) (some 0) _
          (starts_with-append (c ∷ s) (d ∷ t) u (omega arith) ∙ other)
        ∙ ap later (find-append s d t u j e)
        ∙ ap some same)
]

-- Two ways to cut a list: the longer front goes on with the shorter.
pub longer_front :
    (front rest s t : List ℕ)
    → s ++ t ≡ front ++ rest
    → length front ≤ length s
    → (u : List ℕ) × (s ≡ front ++ u) × (u ++ t ≡ rest)
longer_front [] rest s t e h = (s, refl, e)
longer_front (x ∷ front) rest [] t e h = absurd (omega arith)
longer_front (x ∷ front) rest (y ∷ s) t e h =
    let (first, others) = cons_eq y x (s ++ t) (front ++ rest) e in
    let (u, e', e'') = longer_front front rest s t others (omega arith) in
    (u, ap (y ∷◌) e' ∙ ap (λ (z : ℕ). z ∷ front ++ u) first, e'')
  where
    cons_eq : (y x : ℕ) (ys xs : List ℕ) → y ∷ ys ≡ x ∷ xs → (y ≡ x) × (ys ≡ xs)
    cons_eq y x ys xs h = (cc, cc)
