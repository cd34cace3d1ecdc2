-- ===== src/Seal.antt =====
-- crates/basecrawl-seal: the errors of src/error.rs, and sealed results in Result.
pub mod Result
pub mod Task
pub mod Dns
use basecrawl.Prelude.{Bool, true, false, Text, codes, ◌≡◌, refl}

pub data SealError : Type 0 where
  key_release_denied key_release_protocol : Text → SealError
  key_release_unreachable key_release_mid_exchange key_not_released : SealError
  authentication_failed malformed_plaintext : SealError
  invalid_envelope invalid_identity quote_failed transport dns : Text → SealError

unfoldable pub seal_kind : SealError → Text
seal_kind (key_release_denied _) = codes "key_release_denied"
seal_kind key_release_unreachable = codes "key_release_unreachable"
seal_kind key_release_mid_exchange = codes "key_release_mid_exchange"
seal_kind (key_release_protocol _) = codes "key_release_protocol"
seal_kind key_not_released = codes "key_not_released"
seal_kind authentication_failed = codes "authentication_failed"
seal_kind (invalid_envelope _) = codes "invalid_envelope"
seal_kind malformed_plaintext = codes "malformed_plaintext"
seal_kind (invalid_identity _) = codes "invalid_identity"
seal_kind (quote_failed _) = codes "quote_failed"
seal_kind (transport _) = codes "transport"
seal_kind (dns _) = codes "dns"

unfoldable pub is_auth_failure : SealError → Bool
is_auth_failure authentication_failed = true
is_auth_failure key_not_released = true
is_auth_failure malformed_plaintext = true
is_auth_failure _ = false

pub data Sealed (A : Type 0) : Type 0 where
  ok : A → Sealed A
  err : SealError → Sealed A

infixl 5 ◌>>=◌ ◌>>◌
abbrev pub ◌>>=◌ : {A B : Type 0} → Sealed A → (A → Sealed B) → Sealed B
err error >>= next = err error
ok value >>= next = next value

abbrev pub ◌>>◌ : {B : Type 0} → Sealed (Unit {0}) → Sealed B → Sealed B
first >> rest = first >>= λ _. rest

-- `if !test { return Err(e) }`
abbrev pub unless : Bool → SealError → Sealed (Unit {0})
unless true error = ok tt
unless false error = err error

-- The value between the two halves of a `?` that was passed.
pub ok_of_bind :
    {A B : Type 0} (first : Sealed A) {next : A → Sealed B} {result : B}
    → first >>= next ≡ ok result
    → (middle : A) × (next middle ≡ ok result) × (first ≡ ok middle)
ok_of_bind (err error) passed = cc
ok_of_bind (ok middle) passed = (middle, passed, refl)

pub unless_passed : (test : Bool) (error : SealError) → unless test error ≡ ok tt → test ≡ true
unless_passed true error h = refl
unless_passed false error h = cc
