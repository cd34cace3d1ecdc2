-- ===== src/Seal/Result.antt =====
-- crates/basecrawl-seal/src/result.rs: the envelope of a sealed result, how it is opened, and how the
-- miner and a foreign key fail. The sealed box, the digest, base64 and the JSON of a plaintext are
-- arguments.
pub mod Opened
pub mod Routed
pub mod RoundTrip
mod Tests
use basecrawl.Prelude.{
  ℕ, ◌+◌, ◌%◌, Bool, true, false, not, ◌&&◌, ◌||◌, Option, none, some, List, [], ◌∷◌, ◌++◌, Text,
  codes, text_eq, length, is_empty, to_ascii_lowercase, as_bytes, starts_with, drop, all, ltb, leb,
  ◌==◌, if◌then◌else◌, replicate,
}
use basecrawl.TextMap.{TextMap}
use basecrawl.Json.{Value}
use basecrawl.Attestation.Hex.{encode_hex, decode_hex}
use basecrawl.Attestation.Quote.{is_ascii_hexdigit}
use basecrawl.Seal.{
  SealError, authentication_failed, malformed_plaintext, key_not_released, invalid_envelope,
  invalid_identity, Sealed, ok, err, ◌>>=◌, ◌>>◌, unless,
}

pub record SealedResultEnvelope : Type 0 where
  pub version : ℕ
  pub suite : Text
  pub kind : Text
  pub recipient : Text
  pub recipient_key_id : Text
  pub task_id : Text
  pub nonce : Text
  pub result_hash : Text
  pub ciphertext : Text

pub record ResultSealPlaintext : Type 0 where
  pub task_id : Text
  pub nonce : Text
  pub result_hash : Text
  pub formats_produced : TextMap Value

abbrev pub result_seal_suite : Text
result_seal_suite = codes "libsodium-sealed-box-x25519-xsalsa20-poly1305"

abbrev pub result_seal_domain : Text
result_seal_domain = codes "relay/result-seal/v1"

abbrev pub result_seal_kind : Text
result_seal_kind = codes "result"

abbrev pub result_recipient_role : Text
result_recipient_role = codes "committee-threshold"

-- `b'0'..=b'9' | b'a'..=b'f'`
abbrev pub is_lower_hex : ℕ → Bool
is_lower_hex c = (leb b'0' c && leb c b'9') || (leb b'a' c && leb c b'f')

abbrev pub is_lower_hex_text : Text → Bool
is_lower_hex_text t = all is_lower_hex (as_bytes t) && text_eq t (to_ascii_lowercase t)

-- `strip_prefix("sha256:")` and the test of what is left
unfoldable pub is_key_id : Text → Bool
unfolding starts_with
is_key_id value =
    starts_with value (codes "sha256:")
    && (length (as_bytes (drop 7 value)) == 64 && is_lower_hex_text (drop 7 value))

unfoldable pub is_hex_digest : Text → Bool
is_hex_digest value =
    (length (as_bytes value) == 64 || length (as_bytes value) == 96) && is_lower_hex_text value

unfoldable pub validate_envelope_shape : SealedResultEnvelope → Sealed (Unit {0})
unfolding is_key_id is_hex_digest
validate_envelope_shape e = do
  unless (e.version == 1) (invalid_envelope (codes "unsupported version"))
  unless (text_eq e.suite result_seal_suite) (invalid_envelope (codes "unsupported suite"))
  unless (text_eq e.kind result_seal_kind) (invalid_envelope (codes "envelope kind is not result"))
  unless (text_eq e.recipient result_recipient_role)
      (invalid_envelope (codes "result envelope is not addressed to the committee-threshold role"))
  unless (is_key_id e.recipient_key_id) (invalid_envelope (codes "recipient_key_id is malformed"))
  unless (not (is_empty e.task_id || is_empty e.nonce))
      (invalid_envelope (codes "result seal envelope is missing routing ids"))
  unless (is_hex_digest e.result_hash) (invalid_envelope (codes "result_hash is malformed"))
  unless (not (is_empty e.ciphertext)) (invalid_envelope (codes "ciphertext is empty"))

unfoldable pub build_result_aad : Text → Text → Text → Text → Sealed (List ℕ)
unfolding is_key_id
build_result_aad task_id nonce result_hash recipient_key_id =
    if is_empty task_id
      || (is_empty nonce || (is_empty result_hash || not (is_key_id recipient_key_id)))
    then err (invalid_envelope (codes "result sealing metadata is malformed"))
    else ok (
        as_bytes (
          result_seal_domain
          ++ (codes "|task_id="
              ++ (task_id
                  ++ (codes "|nonce="
                      ++ (nonce
                          ++ (codes "|result_hash="
                              ++ (result_hash
                                  ++ (codes "|recipient_key_id="
                                      ++ (recipient_key_id
                                          ++ (codes "|recipient="
                                              ++ result_recipient_role)))))))))))

-- the parts before and behind the first zero byte
unfoldable pub split_aad_plaintext : List ℕ → Sealed (List ℕ × List ℕ)
split_aad_plaintext [] = err malformed_plaintext
split_aad_plaintext (b ∷ bs) =
    let rest = (do (aad, body) ← split_aad_plaintext bs; ok (b ∷ aad, body)) in
    if b == 0 then ok ([], bs) else rest

-- no byte differs from its partner: the accumulated difference of the source is then zero
abbrev pub no_difference : List ℕ → List ℕ → Bool
no_difference (x ∷ xs) (y ∷ ys) = x == y && no_difference xs ys
no_difference _ _ = true

unfoldable pub constant_time_eq : List ℕ → List ℕ → Bool
constant_time_eq a b = if length a == length b then no_difference a b else false

unfoldable pub validate_plaintext : ResultSealPlaintext → Sealed (Unit {0})
validate_plaintext p = do
  unless (not (is_empty p.task_id || is_empty p.nonce))
      (invalid_envelope (codes "result plaintext is missing task_id/nonce"))
  unless (not (length p.formats_produced == 0))
      (invalid_envelope (codes "result plaintext carries no formats_produced entries"))

pub record CommitteeThresholdPublicKey : Type 0 where
  pub public_key : Text
  pub key_id : Text

-- the hexadecimal text of 32 bytes, in lower case
unfoldable pub decode_hex_32 : Text → Sealed (List ℕ)
decode_hex_32 hex = do
  unless (length (as_bytes hex) == 64 && all is_ascii_hexdigit (as_bytes hex))
      (invalid_identity (codes "committee public key must be 32 lowercase hex bytes"))
  unless (text_eq hex (to_ascii_lowercase hex))
      (invalid_identity (codes "committee public key hex must be lowercase"))
  elim (decode_hex hex) [
    | none ↦ err (invalid_identity (codes "committee public key is not hexadecimal"))
    | some bytes ↦ ok bytes
  ]

-- the alphabet of base64url
abbrev pub is_b64url : ℕ → Bool
is_b64url c =
    (leb b'A' c && leb c b'Z')
    || ((leb b'a' c && leb c b'z') || ((leb b'0' c && leb c b'9') || (c == b'-' || c == b'_')))

-- the `=` signs up to a multiple of four; a rest of one is refused before
abbrev pub padded : Text → Text
padded value =
    if length value % 4 == 2
    then value ++ replicate 2 b'='
    else if length value % 4 == 3
    then value ++ replicate 1 b'='
    else value

-- What the crate takes from others: a sealed box with the randomness of a run, SHA-256, base64url
-- and the JSON of a plaintext.
pub record Crypto : Type 0 where
  pub seal : (public_key message : List ℕ) → Option (List ℕ)
  pub unseal : (secret box : List ℕ) → Option (List ℕ)
  pub public_of : List ℕ → List ℕ
  pub sha256 : List ℕ → List ℕ
  pub b64_encode : List ℕ → Text
  pub b64_decode : Text → Option (List ℕ)
  pub write : ResultSealPlaintext → Option (List ℕ)
  pub read : List ℕ → Option ResultSealPlaintext

abbrev pub of_option : {A : Type 0} → Option A → SealError → Sealed A
of_option none error = err error
of_option (some a) error = ok a

module _ (c : Crypto) where
  -- `key_id_for` and `recipient_key_id`
  unfoldable pub key_id_for : List ℕ → Text
  key_id_for public_key = codes "sha256:" ++ encode_hex (c.sha256 public_key)

  unfoldable pub decode_b64url : Text → Sealed (List ℕ)
  decode_b64url value = do
    unless (not (is_empty value)) (invalid_envelope (codes "ciphertext is empty"))
    unless (all is_b64url (as_bytes value) && not (length (as_bytes value) % 4 == 1))
        (invalid_envelope (codes "ciphertext is not valid base64url"))
    of_option (c.b64_decode (padded value))
        (invalid_envelope (codes "ciphertext is not valid base64url"))

  unfoldable pub seal_result_to_committee :
      ResultSealPlaintext → CommitteeThresholdPublicKey → Sealed SealedResultEnvelope
  unfolding validate_plaintext is_hex_digest decode_hex_32 key_id_for build_result_aad
  seal_result_to_committee plaintext committee = do
    validate_plaintext plaintext
    unless (not (is_empty plaintext.result_hash) && is_hex_digest plaintext.result_hash)
        (invalid_envelope (codes "result_hash must be a lowercase hex digest"))
    checked ← decode_hex_32 committee.public_key
    unless (text_eq committee.key_id (key_id_for checked))
        (invalid_envelope (codes "committee key_id does not match public key"))
    aad ← build_result_aad plaintext.task_id plaintext.nonce plaintext.result_hash committee.key_id
    body ← of_option (c.write plaintext) malformed_plaintext
    public_key ← decode_hex_32 committee.public_key
    ciphertext ← of_option (c.seal public_key (aad ++ 0 ∷ body)) authentication_failed
    ok (record {
      version = 1;
      suite = result_seal_suite;
      kind = result_seal_kind;
      recipient = result_recipient_role;
      recipient_key_id = committee.key_id;
      task_id = plaintext.task_id;
      nonce = plaintext.nonce;
      result_hash = plaintext.result_hash;
      ciphertext = c.b64_encode ciphertext;
    })

  -- the miner's attempt, whatever identity it holds
  unfoldable pub decrypt_result_as_miner_host : SealedResultEnvelope → Sealed ResultSealPlaintext
  unfolding validate_envelope_shape
  decrypt_result_as_miner_host envelope = do validate_envelope_shape envelope; err key_not_released

  -- the attempt with a key that is not the committee's: an opened box is refused all the same
  unfoldable pub decrypt_result_with_foreign_key :
      SealedResultEnvelope → List ℕ → Sealed ResultSealPlaintext
  unfolding validate_envelope_shape decode_b64url
  decrypt_result_with_foreign_key envelope secret = do
    validate_envelope_shape envelope
    ciphertext ← decode_b64url envelope.ciphertext
    unless (not (leb (length ciphertext) 48)) authentication_failed
    elim (c.unseal secret ciphertext) [
      | none ↦ err authentication_failed
      | some _ ↦ err authentication_failed
    ]

  unfoldable pub unseal_result_with_committee_secret :
      SealedResultEnvelope → List ℕ → Sealed ResultSealPlaintext
  unfolding validate_envelope_shape decode_b64url key_id_for split_aad_plaintext build_result_aad
      constant_time_eq
  unseal_result_with_committee_secret envelope secret = do
    validate_envelope_shape envelope
    ciphertext ← decode_b64url envelope.ciphertext
    unless (not (leb (length ciphertext) 48)) authentication_failed
    unless (text_eq (key_id_for (c.public_of secret)) envelope.recipient_key_id)
        (invalid_envelope (codes "committee secret does not match recipient_key_id"))
    authenticated ← of_option (c.unseal secret ciphertext) authentication_failed
    parts ← split_aad_plaintext authenticated
    expected ←
        build_result_aad envelope.task_id envelope.nonce envelope.result_hash
          envelope.recipient_key_id
    unless (constant_time_eq parts.0 expected) authentication_failed
    plaintext ← of_option (c.read parts.1) malformed_plaintext
    unless
        (text_eq plaintext.task_id envelope.task_id
          && (text_eq plaintext.nonce envelope.nonce
              && text_eq plaintext.result_hash envelope.result_hash))
        malformed_plaintext
    ok plaintext
