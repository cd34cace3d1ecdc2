-- ===== src/Seal/Dns/Queries.antt =====
-- The query that the resolver builds, against the layout of RFC 1035.
use mathlib.Core.List.{append_assoc}
use basecrawl.Prelude.{
  ℕ, ◌+◌, ◌-◌, ◌*◌, ◌%◌, ◌≤◌, ◌<◌, true, false, ◌||◌, List, [], ◌∷◌, ◌++◌, length, All, Text, codes,
  as_bytes, split, join, is_empty, leb, ltb, ◌==◌, ==_iff, ◌≡◌, refl, sym, ap, ◌∙◌, arith,
  length-append, subst, Bool-cases, inl, inr, encode_utf8,
}
use basecrawl.Seal.{ok, unless, ok_of_bind, unless_passed}
use basecrawl.Seal.Dns.{
  is_dns_name, trimmed, normalize_name, encode_labels, encode_name, query_header, be_bytes,
  build_query, skip_name,
}
use basecrawl.Seal.Dns.Names.{IsLabel, root, wire, wire_length, length-wire, skip_name-wire}

split-cons :
    (sep : ℕ) (s : Text) → (piece : Text) × (pieces : List Text) × (split sep s ≡ piece ∷ pieces)
unfolding split
split-cons sep [] = ([], [], refl)
split-cons sep (c ∷ s) =
    let (piece, pieces, e) = split-cons sep s in
    elim (Bool-cases (c == sep)) [
      | inl here ↦ ([], split sep s, rw here refl)
      | inr other ↦ (c ∷ piece, pieces, rw (other, e) refl)
    ]

join-first :
    (sep : Text) (c : ℕ) (piece : Text) (pieces : List Text)
    → join sep ((c ∷ piece) ∷ pieces) ≡ c ∷ join sep (piece ∷ pieces)
unfolding join
join-first sep c piece [] = refl
join-first sep c piece (p ∷ ps) = refl

join-empty :
    (sep : Text) (piece : Text) (pieces : List Text)
    → join sep ([] ∷ piece ∷ pieces) ≡ sep ++ join sep (piece ∷ pieces)
unfolding join
join-empty sep piece pieces = refl

-- Joining the pieces of a text gives the text.
join-split : (sep : ℕ) (s : Text) → join (sep ∷ []) (split sep s) ≡ s
unfolding split
join-split sep [] = unfold join in refl
join-split sep (c ∷ s) =
    let (piece, pieces, e) = split-cons sep s in
    let joined : join (sep ∷ []) (piece ∷ pieces) ≡ s =
      ap (join (sep ∷ [])) (sym e) ∙ join-split sep s in
    elim (Bool-cases (c == sep)) [
      | inl here ↦
          rw (here, e)
            (join-empty (sep ∷ []) piece pieces
              ∙ ap (sep ∷◌) joined
              ∙ ap (◌∷ s) (sym ((==_iff c sep).0 here)))
      | inr other ↦ rw (other, e) (join-first (sep ∷ []) c piece pieces ∙ ap (c ∷◌) joined)
    ]

length-encode_utf8 : (c : ℕ) → 0 < length (encode_utf8 c)
unfolding encode_utf8
length-encode_utf8 c = ground arith

length-as_bytes : (s : Text) → length s ≤ length (as_bytes s)
unfolding as_bytes
length-as_bytes [] = omega arith
length-as_bytes (c ∷ s) =
    omega (
      arith,
      length-append {0} (encode_utf8 c) (as_bytes s),
      length-as_bytes s,
      length-encode_utf8 c,
    )

abbrev pub byte_labels : List Text → List (List ℕ)
byte_labels [] = []
byte_labels (l ∷ ls) = as_bytes l ∷ byte_labels ls

filled : (l : Text) → is_empty l ≡ false → 0 < length (as_bytes l)
unfolding is_empty
filled [] h = cc
filled (c ∷ l) h = omega (arith, length-as_bytes (c ∷ l))

ok_inj : {A : Type 0} {x y : A} → ok x ≡ ok y → x ≡ y
ok_inj h = cc

encode_labels-wire :
    (ls : List Text) (bytes : List ℕ)
    → encode_labels ls ≡ ok bytes
    → All IsLabel (byte_labels ls) × (bytes ≡ wire (byte_labels ls) root [])
unfolding encode_labels
encode_labels-wire [] bytes h = (tt, cc)
encode_labels-wire (l ∷ ls) bytes h =
    elim (Bool-cases (is_empty l || ltb 63 (length (as_bytes l)))) [
      | inl bad ↦ absurd (ground (arith, h))
      | inr good ↦
          let (later, same, e) =
            ok_of_bind (encode_labels ls)
              {next = λ x. ok ((length (as_bytes l) % 256 ∷ as_bytes l) ++ x)} (rw good at h) in
          let (all, laid) = encode_labels-wire ls later e in
          let low : length (as_bytes l) < 64 = ground (arith, good) in
          let exact : length (as_bytes l) % 256 ≡ length (as_bytes l) = omega arith in
          (
            ((filled l (ground (arith, good)), low), all),
            ok_inj (sym same)
                ∙ ap (λ n. n ∷ (as_bytes l ++ later)) exact
                ∙ ap (λ x. length (as_bytes l) ∷ (as_bytes l ++ x)) laid,
          )
    ]

as_bytes-append : (s t : Text) → as_bytes (s ++ t) ≡ as_bytes s ++ as_bytes t
unfolding as_bytes
as_bytes-append [] t = refl
as_bytes-append (c ∷ s) t =
    ap (encode_utf8 c ++◌) (as_bytes-append s t)
    ∙ sym (append_assoc (encode_utf8 c) (as_bytes s) (as_bytes t))

length-dot :
    (s t : Text)
    → length (as_bytes (s ++ (codes "." ++ t))) ≡ length (as_bytes s) + (1 + length (as_bytes t))
unfolding as_bytes
length-dot s t = omega (
  arith,
  ap length (as_bytes-append s (codes "." ++ t)),
  length-append {0} (as_bytes s) (as_bytes (codes "." ++ t)),
)

wire_length-join :
    (l : Text) (ls : List Text)
    → wire_length (byte_labels (l ∷ ls)) root ≡ length (as_bytes (join (codes ".") (l ∷ ls))) + 2
unfolding join
wire_length-join l [] = omega arith
wire_length-join l (m ∷ ls) =
    omega (arith, length-dot l (join (codes ".") (m ∷ ls)), wire_length-join m ls)

wire-append : (ls : List (List ℕ)) (rest : List ℕ) → wire ls root [] ++ rest ≡ wire ls root rest
wire-append [] rest = refl
wire-append (l ∷ ls) rest =
    ap (length l ∷◌) (append_assoc l (wire ls root []) rest ∙ ap (l ++◌) (wire-append ls rest))

leb_lem : (n : ℕ) → leb n 253 ≡ true → n ≤ 253
leb_lem n h = ground arith

twice-le : (ls : List (List ℕ)) → All IsLabel ls → 2 * length ls + 1 ≤ wire_length ls root
twice-le [] w = omega arith
twice-le (l ∷ ls) (i, w) = omega (arith, twice-le ls w)

-- A query for a name: its question has the labels of the normalised name, which are 1 to 63 bytes
-- long each, and it ends with the type and the class IN.
pub record IsQuery (name : Text) (qtype id : ℕ) (message : List ℕ) : Type 0 where
  pub labels : List Text
  pub spelled : join (codes ".") labels ≡ trimmed name
  pub sized : All IsLabel (byte_labels labels)
  pub laid :
      message ≡ query_header id ++ wire (byte_labels labels) root (be_bytes qtype ++ 0 ∷ 1 ∷ [])
  pub skipped : skip_name message 12 ≡ ok (length message - 4)
  pub bounded : length message ≤ 271

normalized :
    (name host : Text)
    → normalize_name name ≡ ok host
    → (length (as_bytes (trimmed name)) ≤ 253) × (host ≡ trimmed name)
unfolding normalize_name
normalized name host h =
    let (done, same, e) = ok_of_bind (unless (is_dns_name (trimmed name)) _) h in
    let valid : is_dns_name (trimmed name) ≡ true =
      unless_passed (is_dns_name (trimmed name)) _ e in
    (leb_lem _ (ground (arith, valid)), sym (ok_inj same))

module _ (name : Text) (qtype id : ℕ) where
  -- from the labels and the length of the name
  labels-IsQuery :
      (labels : List Text) (bytes : List ℕ)
      → join (codes ".") labels ≡ trimmed name
      → wire_length (byte_labels labels) root ≤ 255
      → encode_labels labels ≡ ok bytes
      → IsQuery name qtype id (query_header id ++ (bytes ++ (be_bytes qtype ++ 0 ∷ 1 ∷ [])))
  labels-IsQuery labels bytes spelled short e =
      let end = be_bytes qtype ++ 0 ∷ 1 ∷ [] in
      let (sized, wired) = encode_labels-wire labels bytes e in
      let laid : query_header id ++ (bytes ++ end)
          ≡ query_header id ++ wire (byte_labels labels) root end =
        ap (query_header id ++◌) (ap (◌++ end) wired ∙ wire-append (byte_labels labels) end) in
      let total : length (query_header id ++ (bytes ++ end))
          ≡ 12 + (wire_length (byte_labels labels) root + 4) =
        omega (arith, ap length laid, length-wire (byte_labels labels) root end) in
      record {
        labels = labels;
        spelled = spelled;
        sized = sized;
        laid = laid;
        skipped =
            ap (λ m. skip_name m 12) laid
            ∙ skip_name-wire (query_header id) (byte_labels labels) root end sized tt
                (omega (arith, twice-le (byte_labels labels) sized))
                (omega (arith, length-wire (byte_labels labels) root end))
            ∙ ap ok (omega (arith, total));
        bounded = omega (arith, total);
      }

-- The query for a name is laid out by RFC 1035: after a header with one question, the labels of the
-- trimmed, lower-case name, which give the name when they are joined by dots, are 1 to 63 bytes long
-- and are skipped as one name; then the type and the class. It has at most 271 bytes.
pub build_query-IsQuery :
    (name : Text) (qtype id : ℕ) (message : List ℕ)
    → build_query name qtype id ≡ ok message
    → IsQuery name qtype id message
unfolding build_query
build_query-IsQuery name qtype id message h =
    let (host, h', named) = ok_of_bind (normalize_name name) h in
    let (bytes, built, encoded) = ok_of_bind (encode_name host) h' in
    let (short, same) = normalized name host named in
    let (first, more, pieces) = split-cons b'.' host in
    let spelled : join (codes ".") (split b'.' host) ≡ trimmed name = join-split b'.' host ∙ same in
    let bound : wire_length (byte_labels (first ∷ more)) root ≤ 255 = omega (
      arith,
      wire_length-join first more,
      ap (λ (ls : List Text). length (as_bytes (join (codes ".") ls))) pieces,
      ap (λ (s : Text). length (as_bytes s)) spelled,
      short,
    ) in
    subst (IsQuery name qtype id) (ok_inj built) (
      labels-IsQuery name qtype id (split b'.' host) bytes spelled
        (subst (λ ls. wire_length (byte_labels ls) root ≤ 255) (sym pieces) bound) encoded)
