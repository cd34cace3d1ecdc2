-- ===== src/Fetch/Chunked/Sizes.antt =====
-- The sizes that the lines of a chunked body announce: the hexadecimal numbers that
-- `decode_chunked` of crates/basecrawl-core/src/fetch.rs reads with `from_str_radix`.
use basecrawl.Prelude.{
  ℕ, ◌+◌, ◌*◌, ◌≤◌, ◌<◌, true, false, Option, if◌then◌else◌, none, some, List, [], ◌∷◌, Text, ◌==◌,
  ◌≡◌, ◌≢◌, ◌⊎◌, ◌↔◌, refl, sym, ap, ◌∙◌, subst, arith, inl, inr, Bool-cases, before, trim,
  from_utf8, to_digit, read_digits, unsigned, from_str_radix, word_mod, ltb,
}
use basecrawl.Fetch.Chunked.{chunk_size}

-- a digit, in either case, and its value
abbrev pub IsHexDigit : ℕ → ℕ → Type 0
IsHexDigit c d =
    ((d ≤ 9) × (c ≡ b'0' + d))
    ⊎ ((10 ≤ d) × (d ≤ 15) × (c + 10 ≡ b'a' + d))
    ⊎ ((10 ≤ d) × (d ≤ 15) × (c + 10 ≡ b'A' + d))

-- what digits behind a number of this value make of it
abbrev pub Extends : ℕ → Text → ℕ → Type 0
Extends value [] n = n ≡ value
Extends value (c ∷ s) n = (d : ℕ) × IsHexDigit c d × Extends (16 * value + d) s n

-- The size in front of the extensions of a line: hexadecimal digits, perhaps behind a plus sign, of
-- a number that fits into a word.
pub record IsSize (line : List ℕ) (n : ℕ) : Type 0 where
  pub text : Text
  pub digits : Text
  pub utf8 : from_utf8 line ≡ some text
  pub written : (trim (before b';' text) ≡ digits) ⊎ (trim (before b';' text) ≡ b'+' ∷ digits)
  pub some_digits : digits ≢ []
  pub value : Extends 0 digits n
  pub fits : n < word_mod

to_digit_of : (c d : ℕ) → IsHexDigit c d → to_digit 16 c ≡ some d
unfolding to_digit
to_digit_of c d (inl (high, e)) = ground arith
to_digit_of c d (inr (inl (low, high, e))) = ground arith
to_digit_of c d (inr (inr (low, high, e))) = ground arith

to_digit-IsHexDigit : (c d : ℕ) → to_digit 16 c ≡ some d → IsHexDigit c d
unfolding to_digit
to_digit-IsHexDigit c d h = ground arith

Extends-le : (v : ℕ) (s : Text) (n : ℕ) → Extends v s n → v ≤ n
Extends-le v [] n h = omega arith
Extends-le v (c ∷ s) n (d, digit, h) = omega (arith, Extends-le (16 * v + d) s n h)

abbrev next : ℕ → Text → Option ℕ → Option ℕ
next v s o = elim o [
  | none ↦ none
  | some d ↦
      (let rest = read_digits word_mod 16 (v * 16 + d) s in
        if ltb (v * 16 + d) word_mod then rest else none)
]

read_digits-cons :
    (v c : ℕ) (s : Text) → read_digits word_mod 16 v (c ∷ s) ≡ next v s (to_digit 16 c)
unfolding read_digits
read_digits-cons v c s = refl

to_digits :
    (v : ℕ) (s : Text) (n : ℕ) → Extends v s n → n < word_mod → read_digits word_mod 16 v s ≡ some n
unfolding read_digits
to_digits v [] n e b = ap some (sym e)
to_digits v (c ∷ s) n (d, digit, e) b =
    let most = Extends-le (16 * v + d) s n e in
    let low : ltb (v * 16 + d) word_mod ≡ true = ground arith in
    let same : 16 * v + d ≡ v * 16 + d = omega arith in
    read_digits-cons v c s
    ∙ ap (next v s) (to_digit_of c d digit)
    ∙ rw low (to_digits (v * 16 + d) s n (subst (λ x. Extends x s n) same e) b)

none_no : {n : ℕ} → none ≢ some n
none_no h = cc

next-some :
    (v : ℕ) (s : Text) (n : ℕ) (o : Option ℕ)
    → next v s o ≡ some n
    → (d : ℕ) × (o ≡ some d)
      × (v * 16 + d < word_mod)
      × (read_digits word_mod 16 (v * 16 + d) s ≡ some n)
next-some v s n none h = cc
next-some v s n (some d) h = elim (Bool-cases (ltb (v * 16 + d) word_mod)) [
  | inl low ↦ (
    d,
    refl,
    ground arith,
    sym (ap (λ b. if b then read_digits word_mod 16 (v * 16 + d) s else none) low) ∙ h,
  )
  | inr high ↦ absurd (
      none_no (sym (ap (λ b. if b then read_digits word_mod 16 (v * 16 + d) s else none) high) ∙ h))
]

of_digits :
    (v : ℕ) (s : Text) (n : ℕ)
    → v < word_mod
    → read_digits word_mod 16 v s ≡ some n
    → Extends v s n × (n < word_mod)
unfolding read_digits
of_digits v [] n h e = ground arith
of_digits v (c ∷ s) n h e =
    let (d, digit, low, more) =
      next-some v s n (to_digit 16 c) (sym (read_digits-cons v c s) ∙ e) in
    let (ext, b) = of_digits (v * 16 + d) s n low more in
    let same : v * 16 + d ≡ 16 * v + d = omega arith in
    ((d, to_digit-IsHexDigit c d digit, subst (λ x. Extends x s n) same ext), b)

unsigned_of :
    (s : Text) (n : ℕ) → s ≢ [] → Extends 0 s n → n < word_mod → unsigned word_mod 16 s ≡ some n
unfolding unsigned
unsigned_of [] n h e b = absurd (h refl)
unsigned_of (c ∷ s) n h e b = to_digits 0 (c ∷ s) n e b

of_unsigned :
    (s : Text) (n : ℕ) → unsigned word_mod 16 s ≡ some n → (s ≢ []) × Extends 0 s n × (n < word_mod)
unfolding unsigned
of_unsigned [] n e = cc
of_unsigned (c ∷ s) n e =
    let (value, fits) = of_digits 0 (c ∷ s) n (omega arith) e in (λ h. cc, value, fits)

not_plus : (c d : ℕ) → IsHexDigit c d → (c == b'+') ≡ false
not_plus c d (inl h) = ground arith
not_plus c d (inr (inl h)) = ground arith
not_plus c d (inr (inr h)) = ground arith

radix_of :
    (t digits : Text) (n : ℕ)
    → (t ≡ digits) ⊎ (t ≡ b'+' ∷ digits)
    → digits ≢ []
    → Extends 0 digits n
    → n < word_mod
    → from_str_radix word_mod 16 t ≡ some n
unfolding from_str_radix
radix_of t digits n (inr e) h x b = rw e (unsigned_of digits n h x b)
radix_of t [] n (inl e) h x b = absurd (h refl)
radix_of t (c ∷ s) n (inl e) h (d, digit, x) b =
    rw e (rw (not_plus c d digit) (unsigned_of (c ∷ s) n h (d, digit, x) b))

of_radix :
    (t : Text) (n : ℕ)
    → from_str_radix word_mod 16 t ≡ some n
    → (digits : Text) × ((t ≡ digits) ⊎ (t ≡ b'+' ∷ digits))
      × (unsigned word_mod 16 digits ≡ some n)
unfolding from_str_radix
of_radix [] n e = cc
of_radix (c ∷ s) n e = elim (Bool-cases (c == b'+')) [
  | inl plus ↦ (
    s,
    inr (ground arith),
    sym (ap (λ b. if b then unsigned word_mod 16 s else unsigned word_mod 16 (c ∷ s)) plus) ∙ e,
  )
  | inr other ↦ (
    c ∷ s,
    inl refl,
    sym (ap (λ b. if b then unsigned word_mod 16 s else unsigned word_mod 16 (c ∷ s)) other) ∙ e,
  )
]

abbrev size_of : Option Text → Option ℕ
size_of o = elim o [ none ↦ none | some s ↦ from_str_radix word_mod 16 (trim (before b';' s)) ]

size_of-IsSize :
    (line : List ℕ) (n : ℕ) (o : Option Text)
    → from_utf8 line ≡ o
    → size_of o ≡ some n
    → IsSize line n
size_of-IsSize line n none e h = cc
size_of-IsSize line n (some text) e h =
    let (digits, written, read) = of_radix (trim (before b';' text)) n h in
    let (some_digits, value, fits) = of_unsigned digits n read in
    record {
      text = text;
      digits = digits;
      utf8 = e;
      written = written;
      some_digits = some_digits;
      value = value;
      fits = fits;
    }

-- The decoder reads from a line the size that stands there, and no other.
pub chunk_size_iff : (line : List ℕ) (n : ℕ) → (chunk_size line ≡ some n) ↔ IsSize line n
unfolding chunk_size
chunk_size_iff line n = (
  size_of-IsSize line n (from_utf8 line) refl,
  λ s.
      ap size_of s.utf8
      ∙ radix_of (trim (before b';' s.text)) s.digits n s.written s.some_digits s.value s.fits,
)
