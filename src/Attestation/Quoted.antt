-- ===== src/Attestation/Quoted.antt =====
-- The results of crates/basecrawl-core/src/attestation.rs: `QuoteRequestError` and the results that
-- carry it. An `std::io::Error` or a `serde_json::Error` is the text it prints.
use basecrawl.Prelude.{ℕ, ◌+◌, Bool, true, false, Text, ltb, if◌then◌else◌, ◌≡◌, refl}

pub data QuoteRequestError : Type 0 where
  empty_report_data invalid_report_data : QuoteRequestError
  socket_unavailable : Text → Text → QuoteRequestError
  io : Text → QuoteRequestError
  http_status : ℕ → QuoteRequestError
  invalid_json : Text → QuoteRequestError
  missing_field : Text → QuoteRequestError
  invalid_quote : QuoteRequestError
  quote_too_short : ℕ → ℕ → QuoteRequestError
  invalid_quote_header : QuoteRequestError
  malformed_quote : Text → QuoteRequestError
  quote_report_data_mismatch : QuoteRequestError
  report_data_mismatch : Text → Text → QuoteRequestError

pub data Quoted {ℓ} (A : Type ℓ) : Type ℓ where
  ok : A → Quoted A
  err : QuoteRequestError → Quoted A

infixl 5 ◌>>=◌ ◌>>◌
abbrev pub ◌>>=◌ : {A B : Type 0} → Quoted A → (A → Quoted B) → Quoted B
err error >>= next = err error
ok value >>= next = next value

abbrev pub ◌>>◌ : {B : Type 0} → Quoted (Unit {0}) → Quoted B → Quoted B
first >> rest = first >>= λ _. rest

-- `if test { return Err(e) }`
abbrev pub refuse : Bool → QuoteRequestError → Quoted (Unit {0})
refuse true e = err e
refuse false e = ok tt

-- `checked_add` of `usize`
abbrev pub checked_add : ℕ → ℕ → QuoteRequestError → Quoted ℕ
checked_add a b e = if ltb (a + b) 18446744073709551616 then ok (a + b) else err e

-- the two halves of a chain that gives a value
pub bind_parts :
    {A B : Type 0} {out : B} (first : Quoted A) (next : A → Quoted B)
    → (first >>= next) ≡ ok out
    → (value : A) × (first ≡ ok value) × (next value ≡ ok out)
bind_parts (err error) next given = cc
bind_parts (ok value) next given = (value, refl, given)

pub refuse-eq-ok :
    {B : Type 0} (test : Bool) (e : QuoteRequestError) (k : Quoted B) {b : B}
    → (refuse test e >> k) ≡ ok b
    → (test ≡ false) × (k ≡ ok b)
refuse-eq-ok true e k h = cc
refuse-eq-ok false e k h = (refl, h)
