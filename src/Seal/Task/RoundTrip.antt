-- ===== src/Seal/Task/RoundTrip.antt =====
-- src/task.rs of crates/basecrawl-seal: the binding that `build_aad` writes is read back by
-- `parse_aad`, and a sealed task whose binding is plain is opened.
use basecrawl.Prelude.{
  ℕ, Bool, true, false, not, ◌&&◌, ◌||◌, Option, some, List, [], ◌∷◌, ◌++◌, Text, codes, text_eq,
  text_eq_iff, is_empty, length, all, as_bytes, leb, if◌then◌else◌, split, from_utf8,
  from_utf8-ascii, if_true, ◌≡◌, refl, ap, sym, ◌∙◌, subst, arith,
}
use basecrawl.Json.{Value}
use basecrawl.Seal.{SealError, malformed_plaintext, Sealed, ok, err, ◌>>=◌, ◌>>◌, unless}
use basecrawl.Seal.Result.{
  Crypto, of_option, is_key_id, decode_b64url, split_aad_plaintext, constant_time_eq,
}
use basecrawl.Seal.Result.Opened.{ok-injective}
use basecrawl.Seal.Task.{
  EnclaveIdentity, SealedTaskEnvelope, DecryptedTask, validate_envelope_shape, build_aad, parse_aad,
  read_parts, task_seal_domain, as_object, str_field, open_sealed_box, open_bound, read_task,
  decrypt_sealed_task,
}
use basecrawl.Seal.Task.Opened.{IsTask, IsUnsealed}
use basecrawl.Seal.Task.Plain

abbrev binding : Text → Text → Text → Text
binding t n k =
    task_seal_domain
    ++ (codes "|task_id=" ++ (t ++ (codes "|nonce=" ++ (n ++ (codes "|recipient_key_id=" ++ k)))))

same_domain : text_eq (as_bytes task_seal_domain) task_seal_domain ≡ true
unfolding as_bytes
same_domain = refl

pub pass :
    {B : Type 0} (test : Bool) (error : SealError) (rest : Sealed B)
    → test ≡ true
    → (unless test error >> rest) ≡ rest
pass true error rest h = refl
pass false error rest h = cc

pub take_result :
    {A B : Type 0} (first : Sealed A) (next : A → Sealed B) {a : A}
    → first ≡ ok a
    → (first >>= next) ≡ next a
take_result first next h = ap (λ r. r >>= next) h

built-parts :
    (t n k : Text) {aad : List ℕ}
    → build_aad t n k ≡ ok aad
    → (is_empty t ≡ false)
      × (is_empty n ≡ false)
      × (is_key_id k ≡ true)
      × (as_bytes (binding t n k) ≡ aad)
unfolding build_aad
built-parts t n k {aad} h =
    built (is_empty t) (is_empty n) (is_key_id k) (as_bytes (binding t n k)) _ h
  where
    built :
        (a b c : Bool) (bytes : List ℕ) (error : SealError)
        → (if a || (b || not c) then err error else ok bytes) ≡ ok aad
        → (a ≡ false) × (b ≡ false) × (c ≡ true) × (bytes ≡ aad)
    built true b c bytes error h = cc
    built false true c bytes error h = cc
    built false false false bytes error h = cc
    built false false true bytes error h = (refl, refl, refl, ok-injective bytes aad h)

module _ (t n k : Text) (t_plain : all Plain.is_plain t ≡ true)
    (n_plain : all Plain.is_plain n ≡ true) (k_id : is_key_id k ≡ true) where
  binding-IsAscii : all Plain.is_ascii (binding t n k) ≡ true
  binding-IsAscii =
      Plain.all-append Plain.is_ascii t
        (codes "|nonce=" ++ (n ++ (codes "|recipient_key_id=" ++ k)))
        (Plain.ascii_of_plain t t_plain)
        (Plain.all-append Plain.is_ascii n (codes "|recipient_key_id=" ++ k)
          (Plain.ascii_of_plain n n_plain) (Plain.ascii_of_plain k (Plain.is_key_id-plain k k_id)))

  split-binding :
      split b'|' (binding t n k)
      ≡ task_seal_domain
        ∷ (codes "task_id=" ++ t)
        ∷ (codes "nonce=" ++ n)
        ∷ (codes "recipient_key_id=" ++ k)
        ∷ []
  split-binding =
      Plain.split-front task_seal_domain
        (codes "task_id=" ++ (t ++ (codes "|nonce=" ++ (n ++ (codes "|recipient_key_id=" ++ k)))))
        refl
      ∙ ap (task_seal_domain ∷◌) (
          Plain.split-front (codes "task_id=" ++ t)
            (codes "nonce=" ++ (n ++ (codes "|recipient_key_id=" ++ k))) t_plain
          ∙ ap ((codes "task_id=" ++ t) ∷◌) (
              Plain.split-front (codes "nonce=" ++ n) (codes "recipient_key_id=" ++ k) n_plain
              ∙ ap ((codes "nonce=" ++ n) ∷◌) (
                  Plain.split-plain (codes "recipient_key_id=" ++ k)
                    (Plain.is_key_id-plain k k_id))))

  read_binding :
      is_empty t ≡ false
      → is_empty n ≡ false
      → read_parts (
          task_seal_domain
          ∷ (codes "task_id=" ++ t)
          ∷ (codes "nonce=" ++ n)
          ∷ (codes "recipient_key_id=" ++ k)
          ∷ [])
        ≡ ok (t, n, k)
  unfolding read_parts
  read_binding t_some n_some =
      pass (text_eq (as_bytes task_seal_domain) task_seal_domain) _ _ same_domain
      ∙ if_true (not (is_empty t) && (not (is_empty n) && is_key_id k)) _ _ (ground arith)

pub parse_aad-build_aad :
    (t n k : Text) {aad : List ℕ}
    → all Plain.is_plain t ≡ true
    → all Plain.is_plain n ≡ true
    → build_aad t n k ≡ ok aad
    → (all Plain.is_ascii aad ≡ true) × (parse_aad aad ≡ ok (t, n, k))
unfolding parse_aad
parse_aad-build_aad t n k {aad} t_plain n_plain h =
    let (t_some, n_some, k_id, bytes) = built-parts t n k h in
    let ascii = binding-IsAscii t n k t_plain n_plain k_id in
    let same : aad ≡ binding t n k = sym bytes ∙ Plain.as_bytes-ascii (binding t n k) ascii in
    (
      subst (λ (a : List ℕ). all Plain.is_ascii a ≡ true) (sym same) ascii,
      ap
            (λ (a : List ℕ).
              of_option (from_utf8 a) malformed_plaintext >>= λ text. read_parts (split b'|' text))
            same
          ∙ ap
              (λ (o : Option Text).
                of_option o malformed_plaintext >>= λ text. read_parts (split b'|' text))
              (from_utf8-ascii (binding t n k) (Plain.all_low (binding t n k) ascii))
          ∙ ap read_parts (split-binding t n k t_plain n_plain k_id)
          ∙ read_binding t n k t_plain n_plain k_id t_some n_some,
    )

pub some_result :
    {A B : Type 0} (o : Option A) (error : SealError) (next : A → Sealed B) {a : A}
    → o ≡ some a
    → (of_option o error >>= next) ≡ next a
some_result o error next h = ap (λ o. of_option o error >>= next) h

pub text_eq_refl : (t : Text) → text_eq t t ≡ true
text_eq_refl t = (text_eq_iff t t).1 refl

pub both_true : (a b : Bool) → a ≡ true → b ≡ true → (a && b) ≡ true
both_true a b h k = ap (λ a. a && b) h ∙ k

read_task-opens :
    (from_slice : List ℕ → Option Value) (d : DecryptedTask) (body : List ℕ)
    → IsTask from_slice d body
    → read_task from_slice d.task_id d.nonce body ≡ ok d
unfolding read_task
read_task-opens from_slice d body is =
    some_result (from_slice body) _ _ is.parsed
    ∙ some_result (as_object d.task) _ _ is.is_object
    ∙ some_result (str_field is.object (codes "task_id")) _ _ is.task_id
    ∙ some_result (str_field is.object (codes "nonce")) _ _ is.nonce
    ∙ pass (text_eq d.task_id d.task_id && text_eq d.nonce d.nonce) _ _ (
        both_true (text_eq d.task_id d.task_id) (text_eq d.nonce d.nonce) (text_eq_refl d.task_id)
          (text_eq_refl d.nonce))

open_bound-opens :
    (from_slice : List ℕ → Option Value) (e : SealedTaskEnvelope) (identity : EnclaveIdentity)
    (d : DecryptedTask) (aad body : List ℕ)
    → parse_aad aad ≡ ok (d.task_id, d.nonce, identity.key_id)
    → build_aad d.task_id d.nonce identity.key_id ≡ ok aad
    → e.recipient_key_id ≡ identity.key_id
    → IsTask from_slice d body
    → open_bound from_slice e identity (aad, body) ≡ ok d
unfolding open_bound
open_bound-opens from_slice e identity d aad body parsed bound key is =
    take_result (parse_aad aad) _ parsed
    ∙ take_result (build_aad d.task_id d.nonce identity.key_id) _ bound
    ∙ pass (constant_time_eq aad aad && text_eq identity.key_id identity.key_id) _ _ (
        both_true (constant_time_eq aad aad) (text_eq identity.key_id identity.key_id)
          (Plain.constant_time_eq_refl aad) (text_eq_refl identity.key_id))
    ∙ pass (text_eq identity.key_id e.recipient_key_id) _ _
        ((text_eq_iff identity.key_id e.recipient_key_id).1 (sym key))
    ∙ read_task-opens from_slice d body is

-- A sealed task is opened if its task and nonce are ASCII without NUL and `|`, its envelope has the
-- shape and the key of the enclave, and its box opens to the binding of the task, the nonce and that
-- key, a zero byte and the text of an object that names this task and this nonce.
pub decrypt_sealed_task-opens :
    (c : Crypto) (from_slice : List ℕ → Option Value) (e : SealedTaskEnvelope)
    (identity : EnclaveIdentity) (d : DecryptedTask)
    → all Plain.is_plain d.task_id ≡ true
    → all Plain.is_plain d.nonce ≡ true
    → IsUnsealed c from_slice e identity d
    → decrypt_sealed_task c from_slice e identity ≡ ok d
unfolding decrypt_sealed_task open_sealed_box
decrypt_sealed_task-opens c from_slice e identity d t_plain n_plain is =
    let (ascii, parsed) =
      parse_aad-build_aad d.task_id d.nonce identity.key_id t_plain n_plain is.bound in
    take_result (validate_envelope_shape e (some identity.key_id)) _ is.shape
    ∙ take_result (decode_b64url c e.ciphertext) _ is.decoded
    ∙ pass (not (leb (length is.box) 48)) _ _ (ap not is.large)
    ∙ some_result (c.unseal identity.secret is.box) _ _ is.opened
    ∙ take_result (split_aad_plaintext (is.aad ++ 0 ∷ is.body)) _
        (Plain.split_aad_plaintext-message is.aad is.body ascii)
    ∙ open_bound-opens from_slice e identity d is.aad is.body parsed is.bound is.recipient
        is.content
