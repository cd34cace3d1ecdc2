-- ===== src/Attestation/Quote/ReportData.antt =====
-- The normalised report data is the hexadecimal text of 64 bytes, and normalising keeps it.
use mathlib.Core.List.{reverse-cons, reverse-reverse, append-nil}
use basecrawl.Prelude.{
  ℕ, zero, suc, ◌+◌, ◌*◌, ◌-◌, ◌/◌, ◌%◌, ◌≤◌, ◌<◌, Bool, true, false, not, ◌||◌, Option, none, some,
  List, [], ◌∷◌, ◌++◌, reverse, Text, trim, trim_start, is_whitespace, is_empty, as_bytes, length,
  drop, replicate, all, All, All-append, length-append, ltb, ◌==◌, if◌then◌else◌, ◌≡◌, refl, ap,
  sym, ◌∙◌, arith, subst, Bool-cases, inl, inr,
}
use basecrawl.Attestation.Hex.{decode_hex, encode_hex, hex_digit, hex_nibble}
use basecrawl.Attestation.Hex.RoundTrip.{
  IsByte, decode_hex-encode_hex, decode_hex-IsHex, length-encode_hex, as_bytes-ascii,
  encode_hex-IsAscii,
}
use basecrawl.Attestation.Quoted.{ok, err, empty_report_data, invalid_report_data}
use basecrawl.Attestation.Quote.{is_ascii_hexdigit, field_value, normalize_report_data}

abbrev IsVisible : ℕ → Type 0
IsVisible c = is_whitespace c ≡ false

hex_digit-IsVisible : (n : ℕ) → n < 16 → IsVisible (hex_digit n)
unfolding hex_digit is_whitespace
hex_digit-IsVisible n h = ground arith

hex_digit-is_ascii_hexdigit : (n : ℕ) → n < 16 → is_ascii_hexdigit (hex_digit n) ≡ true
unfolding hex_digit hex_nibble
hex_digit-is_ascii_hexdigit n h = ground arith

encode_hex-IsVisible : (bs : List ℕ) → All IsByte bs → All IsVisible (encode_hex bs)
unfolding encode_hex
encode_hex-IsVisible [] h = tt
encode_hex-IsVisible (b ∷ bs) (lt, h) = (
  hex_digit-IsVisible (b / 16) (omega arith),
  (hex_digit-IsVisible (b % 16) (omega arith), encode_hex-IsVisible bs h),
)

all-encode_hex : (bs : List ℕ) → All IsByte bs → all is_ascii_hexdigit (encode_hex bs) ≡ true
unfolding encode_hex
all-encode_hex [] h = refl
all-encode_hex (b ∷ bs) (lt, h) =
    rw
      (
        hex_digit-is_ascii_hexdigit (b / 16) (omega arith),
        hex_digit-is_ascii_hexdigit (b % 16) (omega arith),
      )
      (all-encode_hex bs h)

trim_start-IsVisible : (s : Text) → All IsVisible s → trim_start s ≡ s
unfolding trim_start
trim_start-IsVisible [] h = refl
trim_start-IsVisible (c ∷ s) (v, h) = rw v refl

reverse-IsVisible : (s : Text) → All IsVisible s → All IsVisible (reverse s)
reverse-IsVisible [] h = tt
reverse-IsVisible (c ∷ s) (v, h) =
    subst (All IsVisible) (sym (reverse-cons c s))
      (All-append IsVisible (reverse s) (c ∷ []) (reverse-IsVisible s h) (v, tt))

trim-IsVisible : (s : Text) → All IsVisible s → trim s ≡ s
unfolding trim
trim-IsVisible s h =
    ap (λ x. reverse (trim_start (reverse x))) (trim_start-IsVisible s h)
    ∙ ap reverse (trim_start-IsVisible (reverse s) (reverse-IsVisible s h))
    ∙ reverse-reverse s

-- sixty-four bytes
pub record IsField (bs : List ℕ) : Type 0 where
  pub size : length bs ≡ 64
  pub bound : All IsByte bs

double : (n m : ℕ) → n ≡ 2 * m → (n % 2 == 0) ≡ true
double n m e = ground arith

not_empty : (s : Text) (n : ℕ) → length s ≡ 2 * n → n ≡ 64 → is_empty s ≡ false
unfolding is_empty
not_empty [] n e k = absurd (omega arith)
not_empty (c ∷ s) n e k = refl

module _ (sha256 : List ℕ → List ℕ) where
  pad : (bs : List ℕ) → length bs ≡ 64 → bs ++ drop (length bs) (replicate 64 0) ≡ bs
  pad bs e = rw e (append-nil bs)

  -- Normalising the text of 64 bytes gives that text.
  normalize-field :
      (bs : List ℕ) → IsField bs → normalize_report_data sha256 (encode_hex bs) ≡ ok (encode_hex bs)
  unfolding normalize_report_data
  normalize-field bs f =
      let size : length bs ≡ 64 = f.size in
      let len : length (encode_hex bs) ≡ 2 * length bs = length-encode_hex bs in
      rw
        (
          trim-IsVisible (encode_hex bs) (encode_hex-IsVisible bs f.bound),
          not_empty (encode_hex bs) (length bs) len size,
          as_bytes-ascii (encode_hex bs) (encode_hex-IsAscii bs f.bound),
          double (length (encode_hex bs)) (length bs) len,
          all-encode_hex bs f.bound,
          decode_hex-encode_hex bs f.bound,
          size,
        )
        (ap (λ x. ok (encode_hex x)) (pad bs size))

  drop-All : (n : ℕ) (xs : List ℕ) → All IsByte xs → All IsByte (drop n xs)
  drop-All zero xs h = h
  drop-All (suc n) [] h = tt
  drop-All (suc n) (x ∷ xs) (b, h) = drop-All n xs h

  zeros-All : (m : ℕ) → All IsByte (replicate m 0)
  zeros-All zero = tt
  zeros-All (suc m) = (omega arith, zeros-All m)

  length-zeros : (n m : ℕ) → length (drop n (replicate {A = ℕ} m 0)) ≡ m - n
  length-zeros zero zero = omega arith
  length-zeros zero (suc m) = omega (arith, length-zeros zero m)
  length-zeros (suc n) zero = omega arith
  length-zeros (suc n) (suc m) = omega (arith, length-zeros n m)

  abbrev padded : List ℕ → List ℕ
  padded bs = bs ++ drop (length bs) (replicate 64 0)

  padded-IsField : (bs : List ℕ) → All IsByte bs → length bs ≤ 64 → IsField (padded bs)
  padded-IsField bs h le = record {
    size =
        length-append bs (drop (length bs) (replicate 64 0))
        ∙ ap (λ n. length bs + n) (length-zeros (length bs) 64)
        ∙ omega arith;
    bound =
        All-append IsByte bs (drop (length bs) (replicate 64 0)) h
          (drop-All (length bs) (replicate 64 0) (zeros-All 64));
  }

  module _ (digest : (bs : List ℕ) → (length (sha256 bs) ≡ 32) × All IsByte (sha256 bs)) where
    field_value-fits :
        (bs : List ℕ)
        → All IsByte bs
        → (length (field_value sha256 bs) ≤ 64) × All IsByte (field_value sha256 bs)
    field_value-fits bs h = elim (Bool-cases (ltb 64 (length bs))) [
      | inl e ↦ rw e (omega (arith, (digest bs).0), (digest bs).1)
      | inr e ↦ rw e (ground arith, h)
    ]

    -- the branch of a call that gives a text
    decoded :
        (input : Text) (o : Option (List ℕ)) {t : Text} (b c : Bool)
        → o ≡ decode_hex input
        → (if b then err empty_report_data else if c then err invalid_report_data else elim o [
          | none ↦ err invalid_report_data
          | some bytes ↦ ok (encode_hex (padded (field_value sha256 bytes)))
        ])
          ≡ ok t
        → (bytes : List ℕ) × (decode_hex input ≡ some bytes)
          × (encode_hex (padded (field_value sha256 bytes)) ≡ t)
    decoded input o true c s e = cc
    decoded input o false true s e = cc
    decoded input none false false s e = cc
    decoded input (some bytes) false false s e = (bytes, sym s, cc)

-- What the normalised text is.
pub record IsNormal (sha256 : List ℕ → List ℕ) (raw t : Text) (bytes : List ℕ) : Type 0 where
  pub decoded_input : decode_hex (trim raw) ≡ some bytes
  pub decoded_output :
      decode_hex t
      ≡ some (field_value sha256 bytes ++ drop (length (field_value sha256 bytes)) (replicate 64 0))
  pub size : length t ≡ 128
  pub again : normalize_report_data sha256 t ≡ ok t

-- For a digest of 32 bytes: if a report data is normalised, then its trimmed text decodes to bytes,
-- and the result is 128 characters long and decodes to those bytes, or to their digest if they are
-- more than 64, filled up with zeros; and normalising the result gives it back.
pub normalize_report_data-IsNormal :
    (sha256 : List ℕ → List ℕ)
    (digest : (bs : List ℕ) → (length (sha256 bs) ≡ 32) × All IsByte (sha256 bs)) (raw t : Text)
    → normalize_report_data sha256 raw ≡ ok t
    → (bytes : List ℕ) × IsNormal sha256 raw t bytes
unfolding normalize_report_data
normalize_report_data-IsNormal sha256 digest raw t h =
    let (bytes, e, same) =
      decoded sha256 digest (trim raw) (decode_hex (trim raw)) (is_empty (trim raw))
        (not (length (as_bytes (trim raw)) % 2 == 0)
          || not (all is_ascii_hexdigit (as_bytes (trim raw))))
        refl h in
    let (le, bound) =
      field_value-fits sha256 digest bytes (decode_hex-IsHex (trim raw) bytes e).bound in
    let field = padded-IsField sha256 (field_value sha256 bytes) bound le in
    let out = padded sha256 (field_value sha256 bytes) in
    (
      bytes,
      record {
        decoded_input = e;
        decoded_output = ap decode_hex (sym same) ∙ decode_hex-encode_hex out field.bound;
        size = ap length (sym same) ∙ length-encode_hex out ∙ ap (λ n. 2 * n) field.size;
        again =
            subst (λ x. normalize_report_data sha256 x ≡ ok x) same
              (normalize-field sha256 out field);
      },
    )
