-- ===== src/TextMap.antt =====
-- `BTreeMap<String, V>`: an association list in the order of its keys, which is that of their bytes
-- (for UTF-8 that of the code points).
use basecrawl.Prelude.{
  Bool, true, false, ◌&&◌, ◌||◌, Option, none, some, List, [], ◌∷◌, Text, text_eq, text_eq_iff, ◌≡◌,
  refl, ltb, ◌==◌, if◌then◌else◌, arith, Bool-cases, inl, inr, subst,
}

unfoldable pub text_lt : Text → Text → Bool
text_lt [] [] = false
text_lt [] (d ∷ t) = true
text_lt (c ∷ s) [] = false
text_lt (c ∷ s) (d ∷ t) = ltb c d || (c == d && text_lt s t)

pub text_lt_irrefl : (s : Text) → text_lt s s ≡ false
unfolding text_lt
text_lt_irrefl [] = refl
text_lt_irrefl (c ∷ s) = ground (arith, text_lt_irrefl s)

pub text_lt_trans : (s t u : Text) → text_lt s t ≡ true → text_lt t u ≡ true → text_lt s u ≡ true
unfolding text_lt
text_lt_trans [] [] u h k = cc
text_lt_trans [] (d ∷ t) [] h k = cc
text_lt_trans [] (d ∷ t) (e ∷ u) h k = refl
text_lt_trans (c ∷ s) [] u h k = cc
text_lt_trans (c ∷ s) (d ∷ t) [] h k = cc
text_lt_trans (c ∷ s) (d ∷ t) (e ∷ u) h k = ground (arith, text_lt_trans s t u)

pub text_lt_total : (s t : Text) → text_lt s t ≡ false → text_eq s t ≡ false → text_lt t s ≡ true
unfolding text_lt
text_lt_total [] [] h k = cc
text_lt_total [] (d ∷ t) h k = cc
text_lt_total (c ∷ s) [] h k = refl
text_lt_total (c ∷ s) (d ∷ t) h k = ground (arith, text_lt_total s t)

eq_sym : (j k : Text) → text_eq j k ≡ false → text_eq k j ≡ false
eq_sym j k h = ground (arith, text_eq_iff j k, text_eq_iff k j)

abbrev pub TextMap {ℓ} : Type ℓ → Type ℓ
TextMap V = List (Text × V)

module _ {ℓ} {V : Type ℓ} where
  unfoldable pub get : TextMap V → Text → Option V
  get [] k = none
  get ((j, v) ∷ m) k = if text_eq j k then some v else get m k

  -- `insert`, which replaces the value of a key that is there
  unfoldable pub insert : Text → V → TextMap V → TextMap V
  insert k v [] = (k, v) ∷ []
  insert k v ((j, w) ∷ m) =
      if text_eq j k
      then (k, v) ∷ m
      else if text_lt k j
      then (k, v) ∷ (j, w) ∷ m
      else (j, w) ∷ insert k v m

  pub get-insert :
      (m : TextMap V) (k j : Text) (v : V)
      → get (insert k v m) j ≡ (if text_eq k j then some v else get m j)
  unfolding get insert
  get-insert [] k j v = refl
  get-insert ((i, w) ∷ m) k j v =
      ground (arith, get-insert m k j v, text_eq_iff i k, text_eq_iff i j, text_eq_iff k j)

  -- The keys stand in strictly ascending order above a bound.
  abbrev Above : Text → TextMap V → Type 0
  Above b [] = Unit
  Above b ((k, v) ∷ m) = (text_lt b k ≡ true) × Above k m

  abbrev pub IsOrdered : TextMap V → Type 0
  IsOrdered [] = Unit
  IsOrdered ((k, v) ∷ m) = Above k m

  insert-Above :
      (b k : Text) (v : V) (m : TextMap V) → text_lt b k ≡ true → Above b m → Above b (insert k v m)
  unfolding insert
  insert-Above b k v [] h a = (h, tt)
  insert-Above b k v ((j, w) ∷ m) h (lt, a) = elim (Bool-cases (text_eq j k)) [
    | inl e ↦ rw e (h, subst (λ x. Above x m) ((text_eq_iff j k).0 e) a)
    | inr e ↦ elim (Bool-cases (text_lt k j)) [
      | inl e' ↦ rw (e, e') (h, (e', a))
      | inr e' ↦ rw (e, e') (lt, insert-Above j k v m (text_lt_total k j e' (eq_sym j k e)) a)
    ]
  ]

  -- Inserting keeps the order of the keys.
  pub insert-IsOrdered : (k : Text) (v : V) (m : TextMap V) → IsOrdered m → IsOrdered (insert k v m)
  unfolding insert
  insert-IsOrdered k v [] h = tt
  insert-IsOrdered k v ((j, w) ∷ m) a = elim (Bool-cases (text_eq j k)) [
    | inl e ↦ rw e (subst (λ x. Above x m) ((text_eq_iff j k).0 e) a)
    | inr e ↦ elim (Bool-cases (text_lt k j)) [
      | inl e' ↦ rw (e, e') (e', a)
      | inr e' ↦ rw (e, e') (insert-Above j k v m (text_lt_total k j e' (eq_sym j k e)) a)
    ]
  ]
