-- ===== src/Seal/Task.antt =====
-- crates/basecrawl-seal/src/identity.rs and src/task.rs: the enclave's identity, the envelope of a
-- sealed task and how it is opened. The sealed box, the digest, base64 and the reader of JSON are
-- arguments.
pub mod Opened
pub mod Plain
pub mod RoundTrip
mod Tests
use basecrawl.Prelude.{
  ℕ, Bool, true, false, not, ◌&&◌, ◌||◌, Option, none, some, List, [], ◌∷◌, ◌++◌, Text, codes,
  text_eq, length, is_empty, as_bytes, starts_with, drop, leb, ◌==◌, if◌then◌else◌, split,
  from_utf8,
}
use basecrawl.TextMap.{TextMap, get}
use basecrawl.Json.{Value, null, obj, fields, as_str, is_null}
use basecrawl.Attestation.Hex.{encode_hex}
use basecrawl.Seal.{
  SealError, authentication_failed, malformed_plaintext, key_not_released, invalid_envelope, Sealed,
  ok, err, ◌>>=◌, ◌>>◌, unless,
}
use basecrawl.Seal.Result.{
  Crypto, of_option, is_key_id, decode_b64url, split_aad_plaintext, constant_time_eq, key_id_for,
}

abbrev pub task_seal_domain : Text
task_seal_domain = codes "relay/task-seal/v1"

abbrev pub task_seal_suite : Text
task_seal_suite = codes "libsodium-sealed-box-x25519-xsalsa20-poly1305"

abbrev pub min_sealed_ciphertext_len : ℕ
min_sealed_ciphertext_len = 48

pub record EnclaveIdentity : Type 0 where
  pub secret : List ℕ
  pub public : List ℕ
  pub key_id : Text
  pub report_data : Text

pub record SealedTaskEnvelope : Type 0 where
  pub version : ℕ
  pub suite : Text
  pub recipient_key_id : Text
  pub enc : Option Value
  pub ciphertext : Text

pub record DecryptedTask : Type 0 where
  pub task : Value
  pub task_id : Text
  pub nonce : Text

-- `None`, or the `null` of JSON
abbrev pub is_unset : Option Value → Bool
is_unset none = true
is_unset (some value) = is_null value

-- the comparison with the key of the identity, where there is one
abbrev pub is_expected : Option Text → Text → Bool
is_expected none key_id = true
is_expected (some expected) key_id = text_eq key_id expected

unfoldable pub validate_envelope_shape : SealedTaskEnvelope → Option Text → Sealed (Unit {0})
unfolding is_key_id is_null
validate_envelope_shape e expected_key_id = do
  unless (e.version == 1) (invalid_envelope (codes "unsupported version"))
  unless (text_eq e.suite task_seal_suite) (invalid_envelope (codes "unsupported suite"))
  unless (is_key_id e.recipient_key_id) (invalid_envelope (codes "recipient_key_id is malformed"))
  unless (is_expected expected_key_id e.recipient_key_id)
      (invalid_envelope (codes "recipient_key_id does not match enclave identity"))
  unless (is_unset e.enc)
      (invalid_envelope (codes "envelope contains unsupported ephemeral key material"))
  unless (not (is_empty e.ciphertext)) (invalid_envelope (codes "ciphertext is empty"))

unfoldable pub build_aad : Text → Text → Text → Sealed (List ℕ)
unfolding is_key_id
build_aad task_id nonce recipient_key_id =
    if is_empty task_id || (is_empty nonce || not (is_key_id recipient_key_id))
    then err (invalid_envelope (codes "task sealing metadata is malformed"))
    else ok (
        as_bytes (
          task_seal_domain
          ++ (codes "|task_id="
              ++ (task_id
                  ++ (codes "|nonce="
                      ++ (nonce ++ (codes "|recipient_key_id=" ++ recipient_key_id)))))))

-- `strip_prefix`
unfoldable pub strip_prefix : Text → Text → Option Text
unfolding starts_with
strip_prefix text prefix =
    if starts_with text prefix then some (drop (length prefix) text) else none

-- the three variables of the loop over the parts
pub record Bindings : Type 0 where
  pub task_id : Option Text
  pub nonce : Option Text
  pub key_id : Option Text

abbrev pub nothing_bound : Bindings
nothing_bound = record { task_id = none; nonce = none; key_id = none }

abbrev pub bind_key_id : Bindings → Option Text → Bindings
bind_key_id found none = found
bind_key_id found (some v) = record {
  task_id = found.task_id;
  nonce = found.nonce;
  key_id = some v;
}

abbrev pub bind_nonce : Bindings → Text → Option Text → Bindings
bind_nonce found part none = bind_key_id found (strip_prefix part (codes "recipient_key_id="))
bind_nonce found part (some v) = record {
  task_id = found.task_id;
  nonce = some v;
  key_id = found.key_id;
}

abbrev pub bind_task_id : Bindings → Text → Option Text → Bindings
bind_task_id found part none = bind_nonce found part (strip_prefix part (codes "nonce="))
bind_task_id found part (some v) = record {
  task_id = some v;
  nonce = found.nonce;
  key_id = found.key_id;
}

unfoldable pub bind_part : Bindings → Text → Bindings
unfolding strip_prefix
bind_part found part = bind_task_id found part (strip_prefix part (codes "task_id="))

unfoldable pub bind_parts : Bindings → List Text → Bindings
unfolding bind_part
bind_parts found [] = found
bind_parts found (part ∷ parts) = bind_parts (bind_part found part) parts

unfoldable pub bound_ids : Option Text → Option Text → Option Text → Sealed (Text × Text × Text)
unfolding is_key_id
bound_ids (some t) (some n) (some k) =
    if not (is_empty t) && (not (is_empty n) && is_key_id k)
    then ok (t, n, k)
    else err malformed_plaintext
bound_ids _ _ _ = err malformed_plaintext

-- the parts of a text, of which the first is the domain
unfoldable pub read_parts : List Text → Sealed (Text × Text × Text)
unfolding bind_parts bound_ids
read_parts [] = err malformed_plaintext
read_parts (domain ∷ parts) = do
  unless (text_eq (as_bytes domain) task_seal_domain) authentication_failed
  let found = bind_parts nothing_bound parts in bound_ids found.task_id found.nonce found.key_id

unfoldable pub parse_aad : List ℕ → Sealed (Text × Text × Text)
unfolding read_parts
parse_aad aad = do
  text ← of_option (from_utf8 aad) malformed_plaintext
  read_parts (split b'|' text)

-- `as_object`
unfoldable pub as_object : Value → Option (TextMap Value)
as_object (obj fs) = some (fields fs)
as_object _ = none

-- `get(key).and_then(|v| v.as_str())`
unfoldable pub str_field : TextMap Value → Text → Option Text
str_field object key = elim (get object key) [ none ↦ none | some value ↦ as_str value ]

-- the end of `decrypt_sealed_task`: the object in the plaintext, which names the bound ids
unfoldable pub read_task : (List ℕ → Option Value) → Text → Text → List ℕ → Sealed DecryptedTask
unfolding as_object str_field
read_task from_slice task_id nonce plaintext = do
  task ← of_option (from_slice plaintext) malformed_plaintext
  task_obj ← of_option (as_object task) malformed_plaintext
  recovered_id ← of_option (str_field task_obj (codes "task_id")) malformed_plaintext
  recovered_nonce ← of_option (str_field task_obj (codes "nonce")) malformed_plaintext
  unless (text_eq recovered_id task_id && text_eq recovered_nonce nonce) malformed_plaintext
  ok (record { task = task; task_id = task_id; nonce = nonce })

-- its middle: what is bound in front of the plaintext, against the identity and the envelope
unfoldable pub open_bound :
    (List ℕ → Option Value)
    → SealedTaskEnvelope
    → EnclaveIdentity
    → List ℕ × List ℕ
    → Sealed DecryptedTask
unfolding parse_aad build_aad constant_time_eq read_task
open_bound from_slice envelope identity parts = do
  bound ← parse_aad parts.0
  expected_aad ← build_aad bound.0 bound.1 identity.key_id
  unless (constant_time_eq parts.0 expected_aad && text_eq bound.2 identity.key_id)
      authentication_failed
  unless (text_eq bound.2 envelope.recipient_key_id) authentication_failed
  read_task from_slice bound.0 bound.1 parts.1

module _ (c : Crypto) where
  unfoldable pub task_seal_report_data_for : List ℕ → Text
  task_seal_report_data_for public_key = encode_hex (c.sha256 (task_seal_domain ++ public_key))

  unfoldable pub from_secret_bytes : List ℕ → Sealed EnclaveIdentity
  unfolding key_id_for task_seal_report_data_for
  from_secret_bytes secret =
      let public = c.public_of secret in
      ok (record {
        secret = secret;
        public = public;
        key_id = key_id_for c public;
        report_data = task_seal_report_data_for public;
      })

  unfoldable pub open_sealed_box : List ℕ → List ℕ → Sealed (List ℕ)
  open_sealed_box secret ciphertext = of_option (c.unseal secret ciphertext) authentication_failed

  unfoldable pub decrypt_sealed_task :
      (List ℕ → Option Value) → SealedTaskEnvelope → EnclaveIdentity → Sealed DecryptedTask
  unfolding validate_envelope_shape decode_b64url open_sealed_box split_aad_plaintext open_bound
  decrypt_sealed_task from_slice envelope identity = do
    validate_envelope_shape envelope (some identity.key_id)
    ciphertext ← decode_b64url c envelope.ciphertext
    unless (not (leb (length ciphertext) min_sealed_ciphertext_len)) authentication_failed
    authenticated ← open_sealed_box identity.secret ciphertext
    parts ← split_aad_plaintext authenticated
    open_bound from_slice envelope identity parts

  unfoldable pub decrypt_with_foreign_key :
      (List ℕ → Option Value) → SealedTaskEnvelope → EnclaveIdentity → Sealed DecryptedTask
  unfolding decrypt_sealed_task
  decrypt_with_foreign_key from_slice envelope foreign =
      decrypt_sealed_task from_slice envelope foreign

unfoldable pub decrypt_without_released_key : SealedTaskEnvelope → Sealed DecryptedTask
unfolding validate_envelope_shape
decrypt_without_released_key envelope = do
  validate_envelope_shape envelope none
  err key_not_released
