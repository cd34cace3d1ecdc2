-- ===== src/MapLite/Pushes.antt =====
-- The inventory under its pushes: distinct admitted URLs behind the seed, within the cap.
use basecrawl.Prelude.{
  ℕ, suc, ◌+◌, ◌≤◌, ◌<◌, Bool, true, false, ◌||◌, List, [], ◌∷◌, ◌++◌, Text, text_eq, length,
  length-append, leb, ◌≡◌, refl, ap, sym, ◌∙◌, arith, Bool-cases, inl, inr, All, All-append,
}
use basecrawl.Url.{Urls}
use basecrawl.Robots.Sitemaps.{member}
use basecrawl.Robots.Sitemaps.Bounds.{Distinct, Distinct-snoc}
use basecrawl.MapLite.{Inventory, push_url, admit, add_all}

-- A URL that may stand in the inventory behind the seed.
abbrev IsAdmitted : (w : Urls) → w.Url → Bool → Text → Type 0
IsAdmitted w seed same_origin_only raw = admit w raw seed same_origin_only ≡ true

pub or_swap : (a b c : Bool) → (a || (b || c)) ≡ (b || (a || c))
or_swap a b c = ground arith

pub below : (n max : ℕ) → leb max n ≡ false → n < max
below n max h = ground arith

pub longer :
    (base n : ℕ) (xs : List Text) (x : Text)
    → length xs ≡ base + n
    → length (xs ++ x ∷ []) ≡ base + suc n
longer base n xs x e = omega (arith, length-append {0} xs (x ∷ []), e)

module _ (w : Urls) (seed : w.Url) (same_origin_only : Bool) (max : ℕ) where
  -- the seed's text stands first, and what follows it was admitted
  abbrev pub Listed : List Text → Type 0
  Listed [] = ⊥
  Listed (u ∷ us) = (u ≡ w.to_string seed) × All (IsAdmitted w seed same_origin_only) us

  pub record IsInventory (i : Inventory) : Type 0 where
    pub same : (x : Text) → member x i.seen ≡ member x i.ordered
    pub distinct : Distinct i.ordered
    pub cap : length i.ordered ≤ max
    pub listed : Listed i.ordered

  Listed-snoc :
      (us : List Text) (raw : Text)
      → Listed us
      → IsAdmitted w seed same_origin_only raw
      → Listed (us ++ raw ∷ [])
  Listed-snoc [] raw l a = absurd l
  Listed-snoc (u ∷ us) raw (e, l) a = (e, All-append _ us (raw ∷ []) l (a, tt))

  member-append :
      (x raw : Text) (us : List Text) → member x (us ++ raw ∷ []) ≡ (text_eq raw x || member x us)
  unfolding member
  member-append x raw [] = refl
  member-append x raw (u ∷ us) =
      ap (λ b. text_eq u x || b) (member-append x raw us)
      ∙ or_swap (text_eq u x) (text_eq raw x) (member x us)

  pushed-IsInventory :
      (i : Inventory) (raw : Text)
      → IsInventory i
      → IsAdmitted w seed same_origin_only raw
      → length i.ordered < max
      → member raw i.seen ≡ false
      → IsInventory (record { ordered = i.ordered ++ raw ∷ []; seen = raw ∷ i.seen })
  unfolding member
  pushed-IsInventory i raw h a lt n = record {
    same = λ x. ap (λ b. text_eq raw x || b) (h.same x) ∙ sym (member-append x raw i.ordered);
    distinct = Distinct-snoc raw i.ordered h.distinct (sym (h.same raw) ∙ n);
    cap = omega (arith, length-append {0} i.ordered (raw ∷ []), lt);
    listed = Listed-snoc i.ordered raw h.listed a;
  }

  -- An inventory with the count of what was added to the `base` that was there.
  abbrev pub Counted : ℕ → ℕ × Inventory → Type 0
  Counted base (n, i) = IsInventory i × (length i.ordered ≡ base + n)

  pub add_all-Counted :
      (base : ℕ) (ss : List Text) (acc : ℕ × Inventory)
      → Counted base acc
      → Counted base (add_all w seed same_origin_only max ss acc)
  unfolding add_all push_url
  add_all-Counted base [] acc h = h
  add_all-Counted base (s ∷ ss) (n, i) (h, e) =
      elim (Bool-cases (admit w s seed same_origin_only)) [
        | inr bad ↦ rw bad (add_all-Counted base ss (n, i) (h, e))
        | inl good ↦ elim (Bool-cases (leb max (length i.ordered))) [
          | inl full ↦ rw (good, full) (add_all-Counted base ss (n, i) (h, e))
          | inr room ↦ elim (Bool-cases (member s i.seen)) [
            | inl old ↦ rw (good, room, old) (add_all-Counted base ss (n, i) (h, e))
            | inr new ↦
                rw (good, room, new)
                  (add_all-Counted base ss
                    (suc n, record { ordered = i.ordered ++ s ∷ []; seen = s ∷ i.seen })
                    (
                      pushed-IsInventory i s h good (below (length i.ordered) max room) new,
                      longer base n i.ordered s e,
                    ))
          ]
        ]
      ]
