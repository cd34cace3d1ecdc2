-- ===== src/Seal/Result/Tests.antt =====
-- The theorems on sealed results with a box that only marks its message.
use mathlib.Core.Option.{some-injective}
use basecrawl.Prelude.{
  Option, none, Bool, true, text_eq, text_eq_iff, length, length-append, all, ◌%◌, ◌==◌, ◌+◌, sym,
  ap, ◌∙◌, if◌then◌else◌, ℕ, some, List, [], ◌∷◌, ◌++◌, Text, codes, drop, replicate, ◌≡◌, refl,
  as_bytes, is_empty, starts_with, to_ascii_lowercase, false,
}
use basecrawl.Json.{str}
use basecrawl.Attestation.Hex.{decode_hex, encode_hex, hex_nibble}
use basecrawl.Seal.{ok}
use basecrawl.Seal.Result.RoundTrip.{unseal_result-seal_result}
use basecrawl.Seal.Result.{
  decode_hex_32, is_b64url, Crypto, ResultSealPlaintext, SealedResultEnvelope,
  CommitteeThresholdPublicKey, seal_result_to_committee, unseal_result_with_committee_secret,
  result_seal_suite, result_seal_kind, result_recipient_role,
}
use basecrawl.Seal.Result.Opened.{IsOpened, unseal_result-IsOpened}

abbrev plaintext : ResultSealPlaintext
plaintext = record {
  task_id = codes "t";
  nonce = codes "n";
  result_hash = replicate 64 b'a';
  formats_produced = (codes "markdown", str (codes "x")) ∷ [];
}

abbrev id : Text
id = codes "sha256:" ++ replicate 64 b'0'

-- the message of the plaintext: its binding, a zero and an empty text
abbrev message : List ℕ
message =
    codes "relay/result-seal/v1|task_id=t|nonce=n|result_hash="
    ++ replicate 64 b'a'
    ++ codes "|recipient_key_id="
    ++ id
    ++ codes "|recipient=committee-threshold"
    ++ 0 ∷ []

abbrev crypto : Crypto
crypto = record {
  seal = λ _ m. some (replicate 48 1 ++ m);
  unseal = λ _ box. some (drop 48 box);
  public_of = λ secret. secret;
  sha256 = λ _. replicate 32 0;
  b64_encode = λ _. codes "AAAA";
  b64_decode = λ _. some (replicate 48 1 ++ message);
  write = λ _. some [];
  read = λ _. some plaintext;
}

abbrev committee : CommitteeThresholdPublicKey
committee = record { public_key = replicate 64 b'0'; key_id = id }

abbrev envelope : SealedResultEnvelope
envelope = record {
  version = 1;
  suite = result_seal_suite;
  kind = result_seal_kind;
  recipient = result_recipient_role;
  recipient_key_id = id;
  task_id = codes "t";
  nonce = codes "n";
  result_hash = replicate 64 b'a';
  ciphertext = codes "AAAA";
}

opens : unseal_result_with_committee_secret crypto envelope (replicate 32 0) ≡ ok plaintext
unfolding unseal_result_with_committee_secret as_bytes is_empty starts_with to_ascii_lowercase
    encode_hex
opens = refl

opened_example : IsOpened crypto envelope (replicate 32 0) plaintext
opened_example = unseal_result-IsOpened crypto envelope (replicate 32 0) plaintext opens

encodes : is_empty (codes "AAAA") ≡ false
unfolding is_empty
encodes = refl

-- the box of one message only
abbrev of_message : List ℕ → Option (List ℕ)
of_message m = if text_eq m message then some (replicate 48 1 ++ m) else none

of_message-some :
    (m box : List ℕ) → of_message m ≡ some box → (m ≡ message) × (box ≡ replicate 48 1 ++ m)
of_message-some m box h = picked (text_eq m message) refl h
  where
    picked :
        (b : Bool)
        → text_eq m message ≡ b
        → (if b then some (replicate 48 1 ++ m) else none) ≡ some box
        → (m ≡ message) × (box ≡ replicate 48 1 ++ m)
    picked true e h =
        ((text_eq_iff m message).0 e, sym (some-injective (replicate 48 1 ++ m) box h))
    picked false e h = cc

abbrev committee_crypto : Crypto
committee_crypto = record crypto { seal = λ _ m. of_message m }

box_opens : (m box : List ℕ) → of_message m ≡ some box → some (drop 48 box) ≡ some m
box_opens m box h = ap (λ (b : List ℕ). some (drop 48 b)) (of_message-some m box h).1

box_grows : (m box : List ℕ) → of_message m ≡ some box → length box ≡ 48 + length m
box_grows m box h = ap length (of_message-some m box h).1 ∙ length-append (replicate 48 1) m

box_decodes :
    (m box : List ℕ) → of_message m ≡ some box → some (replicate 48 1 ++ message) ≡ some box
box_decodes m box h =
    let (same, boxed) = of_message-some m box h in
    ap (λ (n : List ℕ). some (replicate 48 1 ++ n)) (sym same) ∙ ap some (sym boxed)

committee_key : decode_hex_32 committee.public_key ≡ ok (replicate 32 0)
unfolding decode_hex_32 as_bytes to_ascii_lowercase decode_hex hex_nibble
committee_key = refl

committee_seals : seal_result_to_committee committee_crypto plaintext committee ≡ ok envelope
unfolding seal_result_to_committee as_bytes is_empty starts_with to_ascii_lowercase encode_hex
    decode_hex hex_nibble
committee_seals = refl

in_alphabet : all is_b64url (as_bytes (codes "AAAA")) ≡ true
unfolding as_bytes
in_alphabet = refl

not_one_over : (length (as_bytes (codes "AAAA")) % 4 == 1) ≡ false
unfolding as_bytes
not_one_over = refl

committee_example :
    unseal_result_with_committee_secret committee_crypto envelope (replicate 32 0) ≡ ok plaintext
committee_example =
    unseal_result-seal_result committee_crypto (replicate 32 0) box_opens box_grows (λ bs. encodes)
      (λ bs. in_alphabet) (λ bs. not_one_over) box_decodes plaintext committee envelope
      (λ bs h. refl) committee_key refl refl committee_seals
