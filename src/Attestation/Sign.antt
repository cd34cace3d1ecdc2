-- ===== src/Attestation/Sign.antt =====
-- The signatures of crates/basecrawl-core/src/attestation.rs: the check of the guest agent's answer
-- and the verification. The Ed25519 curve is an argument: which 32 bytes are a key, and whether a
-- key verifies a signature of a message.
pub mod Accepted
mod Tests
use basecrawl.Prelude.{
  ℕ, Bool, true, false, not, Option, none, some, List, Text, codes, length, is_empty,
  to_ascii_lowercase, ◌==◌, if◌then◌else◌,
}
use basecrawl.Attestation.Hex.{decode_hex}

pub data SignRequestError : Type 0 where
  empty_payload : SignRequestError
  http_status : ℕ → SignRequestError
  invalid_json invalid_field socket_unavailable io : Text → SignRequestError

pub data Signed (A : Type 0) : Type 0 where
  ok : A → Signed A
  err : SignRequestError → Signed A

infixl 5 ◌>>=◌ ◌>>◌
abbrev pub ◌>>=◌ : {A B : Type 0} → Signed A → (A → Signed B) → Signed B
err error >>= next = err error
ok value >>= next = next value

abbrev pub ◌>>◌ : {B : Type 0} → Signed (Unit {0}) → Signed B → Signed B
first >> rest = first >>= λ _. rest

-- `InvalidField(name)` unless the test holds
abbrev pub demand : Bool → Text → Signed (Unit {0})
demand true name = ok tt
demand false name = err (invalid_field name)

-- `ok_or(InvalidField(name))`
abbrev pub field_of : Option (List ℕ) → Text → Signed (List ℕ)
field_of none name = err (invalid_field name)
field_of (some bytes) name = ok bytes

pub record SignResponse : Type 0 where
  pub signature : Text
  pub signature_chain : List Text
  pub public_key : Text

abbrev pub signature_name : Text
signature_name = codes "signature"

abbrev pub key_name : Text
key_name = codes "public_key"

module _ (is_key : List ℕ → Bool) where
  unfoldable pub validate_sign_response : SignResponse → Signed SignResponse
  validate_sign_response response = do
    demand (not (is_empty response.signature)) signature_name
    demand (not (is_empty response.public_key)) key_name
    signature ← field_of (decode_hex response.signature) signature_name
    demand (length signature == 64) signature_name
    public_key ← field_of (decode_hex response.public_key) key_name
    demand (length public_key == 32) key_name
    demand (is_key public_key) key_name
    ok (record {
      signature = to_ascii_lowercase response.signature;
      signature_chain = response.signature_chain;
      public_key = to_ascii_lowercase response.public_key;
    })

  module _ (verify : (key message signature : List ℕ) → Bool) where
    unfoldable pub verify_signature : Text → Text → List ℕ → Signed (Unit {0})
    verify_signature public_key_hex signature_hex message = do
      public_key ← field_of (decode_hex public_key_hex) key_name
      signature ← field_of (decode_hex signature_hex) signature_name
      demand (length public_key == 32) key_name
      demand (length signature == 64) signature_name
      demand (is_key public_key) key_name
      demand (verify public_key message signature) signature_name
