-- ===== src/Canonical/Manifest.antt =====
-- What the completeness manifest says of the requested formats.
use basecrawl.Prelude.{
  ℕ, ◌+◌, ◌≤◌, Option, none, some, List, [], ◌∷◌, Text, text_eq, text_eq_iff, length, ◌≡◌, ◌≢◌, ◌⊎◌,
  true, false, as_bytes, subst, refl, ap, arith, All, Bool-cases, inl, inr,
}
use basecrawl.TextMap.{TextMap, get, insert, get-insert}
use basecrawl.Json.{
  Value, null, bool, num, str, arr, obj, Items, Fields, items, fields, is_null,
  structural_field_count,
}
use basecrawl.Proof.{CompletenessManifest, FormatCompleteness}
use basecrawl.Canonical.{present_value, entry, count, tally, completeness_manifest}

-- What the spec says of a produced value, apart from the code: it is absent, or null, or there.
abbrev pub IsAbsent : Option Value → Type 0
IsAbsent o = (o ≡ none) ⊎ (o ≡ some null)

abbrev pub IsProduced : Option Value → Value → Type 0
IsProduced o v = (o ≡ some v) × (v ≢ null)

-- the number of fields of an object, of items of an array, and zero for any other value
pub data HasFields : Value → ℕ → Type 0 where
  object : (fs : Fields) → HasFields (obj fs) (length (fields fs))
  array : (vs : Items) → HasFields (arr vs) (length (items vs))
  scalar : {v : Value} → ((fs : Fields) → v ≢ obj fs) → ((vs : Items) → v ≢ arr vs) → HasFields v 0

-- the entry of a value that is absent, and of one that was produced
pub record IsMissing (e : FormatCompleteness) : Type 0 where
  pub requested : e.requested ≡ true
  pub present : e.present ≡ false
  pub byte_size : e.byte_size ≡ 0
  pub key_field_count : e.key_field_count ≡ 0

pub record IsThere (canonical_json : Value → Text) (v : Value) (e : FormatCompleteness)
    : Type 0 where
  pub requested : e.requested ≡ true
  pub present : e.present ≡ true
  pub byte_size : e.byte_size ≡ length (as_bytes (canonical_json v))
  pub key_field_count : HasFields v e.key_field_count

pub data IsEntry (canonical_json : Value → Text) (o : Option Value) (e : FormatCompleteness)
    : Type 0 where
  absent : IsAbsent o → IsMissing e → IsEntry canonical_json o e
  there : (v : Value) → IsProduced o v → IsThere canonical_json v e → IsEntry canonical_json o e

-- how many of the requested formats are there
pub data PresentCount (produced : TextMap Value) : List Text → ℕ → Type 0 where
  none_left : PresentCount produced [] 0
  absent :
      {f : Text} {fs : List Text} {n : ℕ}
      → IsAbsent (get produced f)
      → PresentCount produced fs n
      → PresentCount produced (f ∷ fs) n
  there :
      {f : Text} {fs : List Text} {n : ℕ} (v : Value)
      → IsProduced (get produced f) v
      → PresentCount produced fs n
      → PresentCount produced (f ∷ fs) (1 + n)

fields-HasFields : (v : Value) → HasFields v (structural_field_count v)
unfolding structural_field_count
fields-HasFields null = scalar (λ fs h. cc) (λ vs h. cc)
fields-HasFields (bool b) = scalar (λ fs h. cc) (λ vs h. cc)
fields-HasFields (num t) = scalar (λ fs h. cc) (λ vs h. cc)
fields-HasFields (str t) = scalar (λ fs h. cc) (λ vs h. cc)
fields-HasFields (arr vs) = array vs
fields-HasFields (obj fs) = object fs

-- what holds of a value either way: its entry, and what it adds to the count
abbrev Judged : (canonical_json : Value → Text) → Option Value → Type 0
Judged canonical_json o =
    let e = entry canonical_json (present_value canonical_json o) in
    let n = count canonical_json (present_value canonical_json o) in
    (IsAbsent o × IsMissing e × (n ≡ 0))
    ⊎ ((v : Value) × IsProduced o v × IsThere canonical_json v e × (n ≡ 1))

Judged-there :
    (canonical_json : Value → Text) (v : Value)
    → v ≢ null
    → is_null v ≡ false
    → Judged canonical_json (some v)
unfolding present_value entry count
Judged-there canonical_json v n e = rw e (
    inr (
      v,
      (refl, n),
      record {
        requested = refl;
        present = refl;
        byte_size = refl;
        key_field_count = fields-HasFields v;
      },
      refl,
    ))

judged : (canonical_json : Value → Text) (o : Option Value) → Judged canonical_json o
unfolding present_value entry count is_null
judged canonical_json none = inl (
  inl refl,
  record { requested = refl; present = refl; byte_size = refl; key_field_count = refl },
  refl,
)
judged canonical_json (some null) = inl (
  inr refl,
  record { requested = refl; present = refl; byte_size = refl; key_field_count = refl },
  refl,
)
judged canonical_json (some (bool b)) = Judged-there canonical_json (bool b) (λ h. cc) refl
judged canonical_json (some (num t)) = Judged-there canonical_json (num t) (λ h. cc) refl
judged canonical_json (some (str t)) = Judged-there canonical_json (str t) (λ h. cc) refl
judged canonical_json (some (arr vs)) = Judged-there canonical_json (arr vs) (λ h. cc) refl
judged canonical_json (some (obj fs)) = Judged-there canonical_json (obj fs) (λ h. cc) refl

module _ (canonical_json : Value → Text) (produced : TextMap Value) where
  abbrev said : Text → FormatCompleteness
  said f = entry canonical_json (present_value canonical_json (get produced f))

  said-IsEntry : (f : Text) → IsEntry canonical_json (get produced f) (said f)
  said-IsEntry f = elim (judged canonical_json (get produced f)) [
    | inl (a, m, n) ↦ absent a m
    | inr (v, p, t, n) ↦ there v p t
  ]

  abbrev present_count : List Text → ℕ
  present_count [] = 0
  present_count (f ∷ fs) =
      count canonical_json (present_value canonical_json (get produced f)) + present_count fs

  present_count-PresentCount : (fs : List Text) → PresentCount produced fs (present_count fs)
  present_count-PresentCount [] = none_left
  present_count-PresentCount (f ∷ fs) = elim (judged canonical_json (get produced f)) [
    | inl (a, m, n) ↦
        subst (PresentCount produced (f ∷ fs)) {x = present_count fs} (omega (arith, n))
          (absent a (present_count-PresentCount fs))
    | inr (v, p, t, n) ↦
        subst (PresentCount produced (f ∷ fs)) {x = 1 + present_count fs} (omega (arith, n))
          (there v p (present_count-PresentCount fs))
  ]

  PresentCount-le : (fs : List Text) (n : ℕ) → PresentCount produced fs n → n ≤ length fs
  PresentCount-le fs n none_left = omega arith
  PresentCount-le fs n (absent {fs = gs} {n = m} a c) = omega (arith, PresentCount-le gs m c)
  PresentCount-le fs n (there {fs = gs} {n = m} v p c) = omega (arith, PresentCount-le gs m c)

  tally-count :
      (fs : List Text) (n : ℕ) (formats : TextMap FormatCompleteness)
      → (tally canonical_json produced fs (n, formats)).0 ≡ n + present_count fs
  unfolding tally
  tally-count [] n formats = omega arith
  tally-count (f ∷ fs) n formats = omega (
    arith,
    tally-count fs (n + count canonical_json (present_value canonical_json (get produced f)))
        (insert f (said f) formats),
  )

  -- each entry that is there already, or that the list brings, is what is said of its format
  abbrev Says : TextMap FormatCompleteness → Text → Type 0
  Says formats f = get formats f ≡ some (said f)

  insert-Says :
      (formats : TextMap FormatCompleteness) (f g : Text)
      → Says formats g
      → Says (insert f (said f) formats) g
  insert-Says formats f g h = elim (Bool-cases (text_eq f g)) [
    | inl e ↦
        rw (get-insert formats f g (said f), e) (ap (λ x. some (said x)) ((text_eq_iff f g).0 e))
    | inr e ↦ rw (get-insert formats f g (said f), e) h
  ]

  insert-same :
      (formats : TextMap FormatCompleteness) (f : Text) → Says (insert f (said f) formats) f
  insert-same formats f = rw (get-insert formats f f (said f), (text_eq_iff f f).1 refl) refl

  tally-keeps :
      (fs : List Text) (n : ℕ) (formats : TextMap FormatCompleteness) (g : Text)
      → Says formats g
      → Says (tally canonical_json produced fs (n, formats)).1 g
  unfolding tally
  tally-keeps [] n formats g h = h
  tally-keeps (f ∷ fs) n formats g h =
      tally-keeps fs (n + count canonical_json (present_value canonical_json (get produced f)))
        (insert f (said f) formats) g (insert-Says formats f g h)

  tally-All :
      (fs : List Text) (n : ℕ) (formats : TextMap FormatCompleteness)
      → All (Says (tally canonical_json produced fs (n, formats)).1) fs
  unfolding tally
  tally-All [] n formats = tt
  tally-All (f ∷ fs) n formats =
      let m = n + count canonical_json (present_value canonical_json (get produced f)) in
      let next = insert f (said f) formats in
      (tally-keeps fs m next f (insert-same formats f), tally-All fs m next)

  -- a format that is not requested brings no entry
  abbrev pub IsOther : Text → List Text → Type 0
  IsOther name [] = Unit
  IsOther name (f ∷ fs) = (text_eq f name ≡ false) × IsOther name fs

  tally-only :
      (fs : List Text) (n : ℕ) (formats : TextMap FormatCompleteness) (g : Text)
      → IsOther g fs
      → get formats g ≡ none
      → get (tally canonical_json produced fs (n, formats)).1 g ≡ none
  unfolding tally
  tally-only [] n formats g o h = h
  tally-only (f ∷ fs) n formats g (e, o) h =
      tally-only fs (n + count canonical_json (present_value canonical_json (get produced f)))
        (insert f (said f) formats) g o (rw (get-insert formats f g (said f), e) h)

  pub record IsManifest (requested : List Text) (m : CompletenessManifest) : Type 0 where
    pub version : m.version ≡ 1
    pub requested_count : m.requested_format_count ≡ length requested
    pub present_count : PresentCount produced requested m.present_format_count
    pub at_most : m.present_format_count ≤ m.requested_format_count
    pub entries :
        All
          (λ f.
            (e : FormatCompleteness) × (get m.formats f ≡ some e)
            × IsEntry canonical_json (get produced f) e)
          requested
    pub only : (name : Text) → IsOther name requested → get m.formats name ≡ none

  entries_of :
      (fs : List Text) (formats : TextMap FormatCompleteness)
      → All (Says formats) fs
      → All
          (λ f.
            (e : FormatCompleteness) × (get formats f ≡ some e)
            × IsEntry canonical_json (get produced f) e)
          fs
  entries_of [] formats h = tt
  entries_of (f ∷ fs) formats (h, hs) = ((said f, h, said-IsEntry f), entries_of fs formats hs)

-- The manifest has an entry for each requested format and for no other: requested, absent and with
-- no size and no fields if nothing or null was produced; and else present, with the number of bytes
-- of the canonical JSON and the number of the fields of an object or the items of an array, or zero.
-- It counts the requested formats and those of them that are present, which are no more.
pub completeness_manifest-IsManifest :
    (canonical_json : Value → Text) (produced : TextMap Value) (requested : List Text)
    → IsManifest canonical_json produced requested
        (completeness_manifest canonical_json requested produced)
unfolding completeness_manifest get
completeness_manifest-IsManifest canonical_json produced requested =
    let n = tally-count canonical_json produced requested 0 [] in
    let counted : PresentCount produced requested
        (tally canonical_json produced requested (0, [])).0 =
      subst (PresentCount produced requested) {x = present_count canonical_json produced requested}
        (omega (arith, n)) (present_count-PresentCount canonical_json produced requested) in
    record {
      version = refl;
      requested_count = refl;
      present_count = counted;
      at_most =
          PresentCount-le canonical_json produced requested
            (tally canonical_json produced requested (0, [])).0 counted;
      entries =
          entries_of canonical_json produced requested
            (tally canonical_json produced requested (0, [])).1
            (tally-All canonical_json produced requested 0 []);
      only = λ name o. tally-only canonical_json produced requested 0 [] name o refl;
    }
