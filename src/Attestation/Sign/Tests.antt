-- ===== src/Attestation/Sign/Tests.antt =====
-- The theorems on signatures at a field of zeros.
use basecrawl.Prelude.{
  ℕ, Bool, true, List, [], Text, replicate, ◌≡◌, refl, ◌↔◌, as_bytes, is_empty, to_ascii_lowercase,
}
use basecrawl.Attestation.Hex.{decode_hex}
use basecrawl.Attestation.Sign.{ok, SignResponse, validate_sign_response, verify_signature}
use basecrawl.Attestation.Sign.Accepted.{
  IsSigned, verify_signature_iff, IsAccepted, validate_sign_response-IsAccepted,
}

abbrev any_key : List ℕ → Bool
any_key _ = true

abbrev any_message : (key message signature : List ℕ) → Bool
any_message _ _ _ = true

abbrev zeros : ℕ → Text
zeros n = replicate n b'0'

verify_example : (verify_signature any_key any_message (zeros 64) (zeros 128) [] ≡ ok tt) ↔ (
    (key : List ℕ) × (signature : List ℕ) × IsSigned any_key any_message
      (zeros 64)
      (zeros 128)
      key
      signature
    × (any_message key [] signature ≡ true))
verify_example = verify_signature_iff any_key any_message (zeros 64) (zeros 128) []

abbrev response : SignResponse
response = record {
  signature = replicate 128 b'A';
  signature_chain = [];
  public_key = replicate 64 b'B';
}

abbrev lowered : SignResponse
lowered = record {
  signature = replicate 128 b'a';
  signature_chain = [];
  public_key = replicate 64 b'b';
}

accepted : validate_sign_response any_key response ≡ ok lowered
unfolding validate_sign_response decode_hex as_bytes is_empty to_ascii_lowercase
accepted = refl

accepted_example : IsAccepted any_key any_message response lowered
accepted_example = validate_sign_response-IsAccepted any_key any_message response lowered accepted
