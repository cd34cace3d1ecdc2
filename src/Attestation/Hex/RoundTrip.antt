-- ===== src/Attestation/Hex/RoundTrip.antt =====
-- Encoding then decoding gives the bytes, and decoding then encoding gives the text in lower case.
use mathlib.Core.Option.{some-injective}
use basecrawl.Prelude.{
  subst, suc, ℕ, ◌+◌, ◌*◌, ◌/◌, ◌%◌, ◌<◌, Bool, true, false, Option, none, some, List, [], ◌∷◌,
  Text, as_bytes, encode_utf8, to_ascii_lower, to_ascii_lowercase, length, ◌==◌, if◌then◌else◌, ◌≡◌,
  refl, ap, arith, Bool-cases, inl, inr, All,
}
use basecrawl.Attestation.Hex.{
  hex_nibble, join_pair, decode_pairs, decode_hex, hex_digit, encode_hex,
}

abbrev pub IsByte : ℕ → Type 0
IsByte b = b < 256

abbrev IsAscii : ℕ → Type 0
IsAscii c = c < 128

hex_nibble-hex_digit : (n : ℕ) → n < 16 → hex_nibble (hex_digit n) ≡ some n
unfolding hex_nibble hex_digit
hex_nibble-hex_digit n h = ground arith

hex_digit-IsAscii : (n : ℕ) → n < 16 → hex_digit n < 128
unfolding hex_digit
hex_digit-IsAscii n h = ground arith

pub as_bytes-ascii : (s : Text) → All IsAscii s → as_bytes s ≡ s
unfolding as_bytes encode_utf8
as_bytes-ascii [] h = refl
as_bytes-ascii (c ∷ s) (lt, h) = ground (arith, as_bytes-ascii s h)

pub encode_hex-IsAscii : (bs : List ℕ) → All IsByte bs → All IsAscii (encode_hex bs)
unfolding encode_hex
encode_hex-IsAscii [] h = tt
encode_hex-IsAscii (b ∷ bs) (lt, h) = (
  hex_digit-IsAscii (b / 16) (omega arith),
  (hex_digit-IsAscii (b % 16) (omega arith), encode_hex-IsAscii bs h),
)

pub length-encode_hex : (bs : List ℕ) → length (encode_hex bs) ≡ 2 * length bs
unfolding encode_hex
length-encode_hex [] = refl
length-encode_hex (b ∷ bs) = omega (arith, length-encode_hex bs)

decode_pairs-encode_hex : (bs : List ℕ) → All IsByte bs → decode_pairs (encode_hex bs) ≡ some bs
unfolding decode_pairs encode_hex join_pair
decode_pairs-encode_hex [] h = refl
decode_pairs-encode_hex (b ∷ bs) (lt, h) =
    rw
      (
        hex_nibble-hex_digit (b / 16) (omega arith),
        hex_nibble-hex_digit (b % 16) (omega arith),
        decode_pairs-encode_hex bs h,
      )
      (ap (λ x. some (x ∷ bs)) (omega arith))

even : (n m : ℕ) → n ≡ 2 * m → (n % 2 == 0) ≡ true
even n m e = ground arith

-- Decoding the hexadecimal text of a list of bytes gives those bytes.
pub decode_hex-encode_hex : (bs : List ℕ) → All IsByte bs → decode_hex (encode_hex bs) ≡ some bs
unfolding decode_hex
decode_hex-encode_hex bs h =
    rw
      (
        as_bytes-ascii (encode_hex bs) (encode_hex-IsAscii bs h),
        even (length (encode_hex bs)) (length bs) (length-encode_hex bs),
      )
      (decode_pairs-encode_hex bs h)

hex_nibble-lt : (c n : ℕ) → hex_nibble c ≡ some n → (n < 16) × (c < 128)
unfolding hex_nibble
hex_nibble-lt c n e = ground arith

hex_digit-hex_nibble : (c n : ℕ) → hex_nibble c ≡ some n → hex_digit n ≡ to_ascii_lower c
unfolding hex_nibble hex_digit to_ascii_lower
hex_digit-hex_nibble c n e = ground arith

-- what a pair of nibbles that decodes says of each part
join_pair-inv :
    (high low : Option ℕ) (rest : Option (List ℕ)) {bs : List ℕ}
    → join_pair high low rest ≡ some bs
    → (h : ℕ) × (l : ℕ) × (r : List ℕ) × (high ≡ some h)
      × (low ≡ some l)
      × (rest ≡ some r)
      × ((h * 16 % 256 + l) ∷ r ≡ bs)
unfolding join_pair
join_pair-inv (some h) (some l) (some r) e = (h, l, r, refl, refl, refl, some-injective _ _ e)
join_pair-inv none l r e = cc
join_pair-inv (some h) none r e = cc
join_pair-inv (some h) (some l) none e = cc

record IsDecoded (bytes bs : List ℕ) : Type 0 where
  ascii : All IsAscii bytes
  bound : All IsByte bs
  text : encode_hex bs ≡ to_ascii_lowercase bytes

digits : (h l : ℕ) → h < 16 → l < 16 → ((h * 16 % 256 + l) / 16 ≡ h) × ((h * 16 % 256 + l) % 16 ≡ l)
digits h l a b = (omega arith, omega arith)

even_pred : (n : ℕ) → ((suc (suc n)) % 2 == 0) ≡ true → (n % 2 == 0) ≡ true
even_pred n h = ground arith

decode_pairs-IsDecoded :
    (bytes : List ℕ) {bs : List ℕ}
    → (length bytes % 2 == 0) ≡ true
    → decode_pairs bytes ≡ some bs
    → IsDecoded bytes bs
unfolding decode_pairs encode_hex to_ascii_lowercase
decode_pairs-IsDecoded [] p e =
    subst (λ x. IsDecoded [] x) (some-injective _ _ e)
      (record { ascii = tt; bound = tt; text = refl })
decode_pairs-IsDecoded (c ∷ []) p e = absurd (ground arith)
decode_pairs-IsDecoded (c ∷ d ∷ rest) p e =
    let (h, l, r, eh, el, er, eb) =
      join_pair-inv (hex_nibble c) (hex_nibble d) (decode_pairs rest) e in
    let (h16, c128) = hex_nibble-lt c h eh in
    let (l16, d128) = hex_nibble-lt d l el in
    let (q, m) = digits h l h16 l16 in
    let ih = decode_pairs-IsDecoded rest (even_pred (length rest) p) er in
    subst (λ x. IsDecoded (c ∷ d ∷ rest) x) eb
      (record {
        ascii = (c128, (d128, ih.ascii));
        bound = (omega arith, ih.bound);
        text = rw (q, m, hex_digit-hex_nibble c h eh, hex_digit-hex_nibble d l el, ih.text) refl;
      })

as_bytes-IsAscii : (s : Text) → All IsAscii (as_bytes s) → All IsAscii s
unfolding as_bytes encode_utf8
as_bytes-IsAscii [] h = tt
as_bytes-IsAscii (c ∷ s) h = ground (arith, as_bytes-IsAscii s)

pub record IsHex (s : Text) (bs : List ℕ) : Type 0 where
  pub text : encode_hex bs ≡ to_ascii_lowercase s
  pub bound : All IsByte bs
  pub size : length s ≡ 2 * length bs

length-to_ascii_lowercase : (s : Text) → length (to_ascii_lowercase s) ≡ length s
unfolding to_ascii_lowercase
length-to_ascii_lowercase [] = refl
length-to_ascii_lowercase (c ∷ s) = omega (arith, length-to_ascii_lowercase s)

of_checked :
    (b : Bool) (o : Option (List ℕ)) {bs : List ℕ}
    → b ≡ true
    → (if b then o else none) ≡ some bs
    → o ≡ some bs
of_checked true o p e = e
of_checked false o p e = cc

-- If a text decodes, each value is a byte, there is one for two characters, and encoding them gives
-- the text in lower case.
pub decode_hex-IsHex : (s : Text) (bs : List ℕ) → decode_hex s ≡ some bs → IsHex s bs
unfolding decode_hex
decode_hex-IsHex s bs e = elim (Bool-cases (length (as_bytes s) % 2 == 0)) [
  | inr odd ↦ absurd (ground arith)
  | inl p ↦
      let d =
        decode_pairs-IsDecoded (as_bytes s) p
          (of_checked (length (as_bytes s) % 2 == 0) (decode_pairs (as_bytes s)) p e) in
      let same = as_bytes-ascii s (as_bytes-IsAscii s d.ascii) in
      let text = subst (λ x. encode_hex bs ≡ to_ascii_lowercase x) same d.text in
      record {
        text = text;
        bound = d.bound;
        size = omega (arith, length-encode_hex bs, length-to_ascii_lowercase s, ap length text);
      }
]
