-- ===== src/Canonical/Agreement.antt =====
-- What the result hash of crates/basecrawl-core/src/canonical.rs tells apart: the five formats of
-- the deterministic surface, and nothing else.
use mathlib.Core.List.{append_assoc}
use basecrawl.Prelude.{
  ℕ, Bool, false, true, Option, none, some, List, codes, [], ◌∷◌, ◌++◌, Text, as_bytes, text_eq,
  text_eq_iff, ◌≡◌, ◌≢◌, ◌↔◌, refl, ap, sym, ◌∙◌,
}
use basecrawl.TextMap.{TextMap, get}
use basecrawl.Json.{Value}
use basecrawl.Canonical.{deterministic_formats, folded, surface, result_hash}
use basecrawl.Canonical.Surface.{IsClean, AllClean, boundary, no_zeros}

-- no byte list of names is that of another name
abbrev IsApart : Text → List Text → Type 0
IsApart name [] = Unit
IsApart name (n ∷ ns) = (text_eq (as_bytes name) (as_bytes n) ≡ false) × IsApart name ns

abbrev AllApart : List Text → Type 0
AllApart [] = Unit
AllApart (n ∷ ns) = IsApart n ns × AllApart ns

-- the preimage of the result hash, from the bytes of each value
abbrev piece : Text → Option (List ℕ) → List ℕ
piece name none = []
piece name (some bytes) = as_bytes name ++ (0 ∷ (bytes ++ 0 ∷ []))

abbrev pieces : List Text → (Text → Option (List ℕ)) → List ℕ
pieces [] p = []
pieces (n ∷ ns) p = piece n (p n) ++ pieces ns p

abbrev OptionClean : Option (List ℕ) → Type 0
OptionClean none = Unit
OptionClean (some bytes) = IsClean bytes

piece-some :
    (name : Text) (bytes rest : List ℕ)
    → piece name (some bytes) ++ rest ≡ as_bytes name ++ 0 ∷ (bytes ++ 0 ∷ rest)
piece-some name bytes rest =
    append_assoc (as_bytes name) (0 ∷ (bytes ++ 0 ∷ [])) rest
    ∙ ap (λ (r : List ℕ). as_bytes name ++ 0 ∷ r) (append_assoc bytes (0 ∷ []) rest)

empty_front : (xs us : List ℕ) → [] ≢ xs ++ 0 ∷ us
empty_front [] us h = cc
empty_front (x ∷ xs) us h = cc

true_or_false : {b : Bool} → b ≡ true → b ≢ false
true_or_false h k = cc

-- a component in front is told from those of other names
front_apart :
    (name : Text) (ns : List Text) (p : Text → Option (List ℕ)) (us : List ℕ)
    → IsClean (as_bytes name)
    → AllClean ns
    → IsApart name ns
    → pieces ns p ≢ as_bytes name ++ 0 ∷ us
front_apart name [] p us c cs apart h = empty_front (as_bytes name) us h
front_apart name (n ∷ ns) p us c (d, cs) (apart, aparts) h =
    at (front_apart name ns p us c cs aparts) (p n) h
  where
    at :
        pieces ns p ≢ as_bytes name ++ 0 ∷ us
        → (o : Option (List ℕ)) → piece n o ++ pieces ns p ≢ as_bytes name ++ 0 ∷ us
    at behind none h = behind h
    at behind (some bytes) h =
        let (same, rest) =
          boundary (as_bytes n) (as_bytes name) (bytes ++ 0 ∷ pieces ns p) us d c
            (sym (piece-some n bytes (pieces ns p)) ∙ h) in
        true_or_false ((text_eq_iff (as_bytes name) (as_bytes n)).1 (sym same)) apart

abbrev Agree : List Text → (p q : Text → Option (List ℕ)) → Type 0
Agree [] p q = Unit
Agree (n ∷ ns) p q = (p n ≡ q n) × Agree ns p q

pieces-injective :
    (ns : List Text) (p q : Text → Option (List ℕ))
    → ((n : Text) → OptionClean (p n))
    → ((n : Text) → OptionClean (q n))
    → AllClean ns
    → AllApart ns
    → pieces ns p ≡ pieces ns q
    → Agree ns p q
pieces-injective [] p q a b cs aparts h = tt
pieces-injective (n ∷ ns) p q a b (c, cs) (apart, aparts) h =
    let (same, rest) = at (p n) (q n) (a n) (b n) h in
    (same, pieces-injective ns p q a b cs aparts rest)
  where
    at :
        (o o' : Option (List ℕ))
        → OptionClean o
        → OptionClean o'
        → piece n o ++ pieces ns p ≡ piece n o' ++ pieces ns q
        → (o ≡ o') × (pieces ns p ≡ pieces ns q)
    at none none d d' h = (refl, h)
    at none (some bytes) d d' h = absurd (
        front_apart n ns p (bytes ++ 0 ∷ pieces ns q) c cs apart
          (h ∙ piece-some n bytes (pieces ns q)))
    at (some bytes) none d d' h = absurd (
        front_apart n ns q (bytes ++ 0 ∷ pieces ns p) c cs apart
          (sym h ∙ piece-some n bytes (pieces ns p)))
    at (some bytes) (some bytes') d d' h =
        let (same, rest) =
          boundary (as_bytes n) (as_bytes n) (bytes ++ 0 ∷ pieces ns p) (bytes' ++ 0 ∷ pieces ns q)
            c c (sym (piece-some n bytes (pieces ns p)) ∙ h ∙ piece-some n bytes' (pieces ns q)) in
        let (equal, rest') = boundary bytes bytes' (pieces ns p) (pieces ns q) d d' rest in
        (ap some equal, rest')

pieces-Agree :
    (ns : List Text) (p q : Text → Option (List ℕ)) → Agree ns p q → pieces ns p ≡ pieces ns q
pieces-Agree [] p q h = refl
pieces-Agree (n ∷ ns) p q (e, h) =
    ap (λ o. piece n o ++ pieces ns p) e ∙ ap (piece n (q n) ++◌) (pieces-Agree ns p q h)

module _ (canonical_json : Value → Text) where
  abbrev option_bytes : Option Value → Option (List ℕ)
  option_bytes none = none
  option_bytes (some v) = some (as_bytes (canonical_json v))

  -- the bytes of the canonical JSON of a format, if it was produced
  abbrev pub printed : TextMap Value → Text → Option (List ℕ)
  printed formats name = option_bytes (get formats name)

  -- agreement on the five formats of the deterministic surface
  pub record IsSameSurface (f g : TextMap Value) : Type 0 where
    pub markdown : printed f (codes "markdown") ≡ printed g (codes "markdown")
    pub html : printed f (codes "html") ≡ printed g (codes "html")
    pub raw_html : printed f (codes "rawHtml") ≡ printed g (codes "rawHtml")
    pub links : printed f (codes "links") ≡ printed g (codes "links")
    pub metadata : printed f (codes "metadata") ≡ printed g (codes "metadata")

  folded-piece :
      (name : Text) (o : Option Value) → folded canonical_json name o ≡ piece name (option_bytes o)
  unfolding folded
  folded-piece name none = refl
  folded-piece name (some v) =
      append_assoc (as_bytes name) (0 ∷ as_bytes (canonical_json v)) (0 ∷ [])

  surface-pieces :
      (ns : List Text) (f : TextMap Value) → surface canonical_json ns f ≡ pieces ns (printed f)
  unfolding surface
  surface-pieces [] f = refl
  surface-pieces (n ∷ ns) f =
      ap (λ bytes. bytes ++ surface canonical_json ns f) (folded-piece n (get f n))
      ∙ ap (piece n (printed f n) ++◌) (surface-pieces ns f)

  printed-OptionClean :
      (clean : (v : Value) → IsClean (as_bytes (canonical_json v))) (f : TextMap Value) (n : Text)
      → OptionClean (printed f n)
  printed-OptionClean clean f n = at (get f n)
    where
      at : (o : Option Value) → OptionClean (option_bytes o)
      at none = tt
      at (some v) = clean v

names_clean : AllClean deterministic_formats
unfolding as_bytes
names_clean = (
  no_zeros (as_bytes (codes "markdown")) refl,
  (
    no_zeros (as_bytes (codes "html")) refl,
    (
      no_zeros (as_bytes (codes "rawHtml")) refl,
      (no_zeros (as_bytes (codes "links")) refl, (no_zeros (as_bytes (codes "metadata")) refl, tt)),
    ),
  ),
)

names_apart : AllApart deterministic_formats
unfolding as_bytes
names_apart = (
  (refl, (refl, (refl, (refl, tt)))),
  ((refl, (refl, (refl, tt))), ((refl, (refl, tt)), ((refl, tt), (tt, tt)))),
)

-- For a digest without collisions, and a JSON text without NUL: two results have the same hash
-- exactly if they agree on markdown, html, rawHtml, links and metadata, each produced in both or in
-- neither, up to its canonical JSON. No other format, such as `screenshot` or `json`, plays a part.
pub result_hash_iff :
    (canonical_json : Value → Text) (sha256 : List ℕ → Text)
    (separates : (a b : List ℕ) → sha256 a ≡ sha256 b → a ≡ b)
    (clean : (v : Value) → IsClean (as_bytes (canonical_json v))) (f g : TextMap Value)
    → (result_hash canonical_json sha256 f ≡ result_hash canonical_json sha256 g)
      ↔ IsSameSurface canonical_json f g
unfolding result_hash
result_hash_iff canonical_json sha256 separates clean f g = (to, from)
  where
    to :
        sha256 (surface canonical_json deterministic_formats f)
          ≡ sha256 (surface canonical_json deterministic_formats g)
        → IsSameSurface canonical_json f g
    to h =
        let (a, (b, (c, (d, (e, u))))) =
          pieces-injective deterministic_formats (printed canonical_json f)
            (printed canonical_json g) (printed-OptionClean canonical_json clean f)
            (printed-OptionClean canonical_json clean g) names_clean names_apart
            (sym (surface-pieces canonical_json deterministic_formats f)
              ∙ separates _ _ h
              ∙ surface-pieces canonical_json deterministic_formats g) in
        record { markdown = a; html = b; raw_html = c; links = d; metadata = e }

    from :
        IsSameSurface canonical_json f g
        → sha256 (surface canonical_json deterministic_formats f)
          ≡ sha256 (surface canonical_json deterministic_formats g)
    from same = ap sha256 (
        surface-pieces canonical_json deterministic_formats f
        ∙ pieces-Agree deterministic_formats (printed canonical_json f) (printed canonical_json g)
            (same.markdown, (same.html, (same.raw_html, (same.links, (same.metadata, tt)))))
        ∙ sym (surface-pieces canonical_json deterministic_formats g))
