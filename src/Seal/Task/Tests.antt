-- ===== src/Seal/Task/Tests.antt =====
-- The theorems on sealed tasks, with a box that only marks its message.
use basecrawl.Prelude.{
  ℕ, Option, some, none, List, [], ◌∷◌, ◌++◌, Text, codes, drop, replicate, ◌≡◌, refl, as_bytes,
  is_empty, starts_with, to_ascii_lowercase, split, from_utf8,
}
use basecrawl.TextMap.{get}
use basecrawl.Json.{as_str, Value, obj, field, end, str}
use basecrawl.Attestation.Hex.{encode_hex}
use basecrawl.Seal.{ok, err, authentication_failed, key_not_released}
use basecrawl.Seal.Result.{Crypto, decode_b64url}
use basecrawl.Seal.Task.{
  EnclaveIdentity, SealedTaskEnvelope, DecryptedTask, task_seal_suite, from_secret_bytes, build_aad,
  validate_envelope_shape, as_object, str_field, decrypt_sealed_task, decrypt_without_released_key,
}
use basecrawl.Seal.Task.Opened.{IsUnsealed, decrypt_sealed_task-IsUnsealed}
use basecrawl.Seal.Task.RoundTrip.{decrypt_sealed_task-opens}

abbrev id : Text
id = codes "sha256:" ++ replicate 64 b'0'

-- the message of a task with the given id, whose text is empty
abbrev message : Text → List ℕ
message task_id =
    codes "relay/task-seal/v1|task_id="
    ++ task_id
    ++ codes "|nonce=n|recipient_key_id="
    ++ id
    ++ 0 ∷ []

abbrev crypto : Text → Crypto
crypto task_id = record {
  seal = λ _ m. some (replicate 48 1 ++ m);
  unseal = λ _ box. some (drop 48 box);
  public_of = λ secret. secret;
  sha256 = λ _. replicate 32 0;
  b64_encode = λ _. codes "AAAA";
  b64_decode = λ _. some (replicate 48 1 ++ message task_id);
  write = λ _. none;
  read = λ _. none;
}

abbrev json : Text → List ℕ → Option Value
json task_id _ =
    some (obj (field (codes "nonce") (str (codes "n")) (field (codes "task_id") (str task_id) end)))

abbrev identity : EnclaveIdentity
identity = record {
  secret = replicate 32 0;
  public = replicate 32 0;
  key_id = id;
  report_data = replicate 64 b'0';
}

abbrev envelope : SealedTaskEnvelope
envelope = record {
  version = 1;
  suite = task_seal_suite;
  recipient_key_id = id;
  enc = none;
  ciphertext = codes "AAAA";
}

abbrev decrypted : DecryptedTask
decrypted = record {
  task =
      obj (field (codes "nonce") (str (codes "n")) (field (codes "task_id") (str (codes "t")) end));
  task_id = codes "t";
  nonce = codes "n";
}

provisioned : from_secret_bytes (crypto []) (replicate 32 0) ≡ ok identity
unfolding from_secret_bytes encode_hex
provisioned = refl

opens : decrypt_sealed_task (crypto (codes "t")) (json (codes "t")) envelope identity ≡ ok decrypted
unfolding decrypt_sealed_task as_bytes is_empty starts_with to_ascii_lowercase from_utf8 split get
    as_str
opens = refl

enclave_example : IsUnsealed (crypto (codes "t")) (json (codes "t")) envelope identity decrypted
enclave_example =
    decrypt_sealed_task-IsUnsealed (crypto (codes "t")) (json (codes "t")) envelope identity
      decrypted opens

sealed : IsUnsealed (crypto (codes "t")) (json (codes "t")) envelope identity decrypted
unfolding validate_envelope_shape decode_b64url build_aad as_object str_field as_bytes is_empty
    starts_with to_ascii_lowercase get as_str
sealed = record {
  shape = refl;
  recipient = refl;
  box = replicate 48 1 ++ message (codes "t");
  decoded = refl;
  large = refl;
  aad =
      codes "relay/task-seal/v1|task_id=" ++ codes "t" ++ codes "|nonce=n|recipient_key_id=" ++ id;
  body = [];
  opened = refl;
  bound = refl;
  content = record {
    parsed = refl;
    object = (codes "nonce", str (codes "n")) ∷ (codes "task_id", str (codes "t")) ∷ [];
    is_object = refl;
    task_id = refl;
    nonce = refl;
  };
}

opened_task_example :
    decrypt_sealed_task (crypto (codes "t")) (json (codes "t")) envelope identity ≡ ok decrypted
opened_task_example =
    decrypt_sealed_task-opens (crypto (codes "t")) (json (codes "t")) envelope identity decrypted
      refl refl sealed

-- An id with a `|` is bound by `build_aad`, and what is sealed under it is refused.
piped :
    build_aad (codes "t|u") (codes "n") id
    ≡ ok (codes "relay/task-seal/v1|task_id=t|u|nonce=n|recipient_key_id=" ++ id)
unfolding build_aad is_empty starts_with as_bytes to_ascii_lowercase
piped = refl

piped_is_refused :
    decrypt_sealed_task (crypto (codes "t|u")) (json (codes "t|u")) envelope identity
    ≡ err authentication_failed
unfolding decrypt_sealed_task as_bytes is_empty starts_with to_ascii_lowercase from_utf8 split get
piped_is_refused = refl

unreleased : decrypt_without_released_key envelope ≡ err key_not_released
unfolding decrypt_without_released_key as_bytes is_empty starts_with to_ascii_lowercase
unreleased = refl
