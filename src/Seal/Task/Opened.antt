-- ===== src/Seal/Task/Opened.antt =====
-- src/task.rs of crates/basecrawl-seal: what the opening of a sealed task checks.
use basecrawl.Prelude.{
  &&-both, ℕ, Bool, true, false, not, ◌&&◌, Option, none, some, List, ◌∷◌, ◌++◌, Text, codes,
  text_eq, text_eq_iff, length, leb, ◌≡◌, refl, ap, sym, ◌∙◌, subst,
}
use basecrawl.Json.{Value}
use basecrawl.TextMap.{TextMap}
use basecrawl.Seal.{SealError, ok}
use basecrawl.Seal.Result.{Crypto, of_option, decode_b64url, split_aad_plaintext, constant_time_eq}
use basecrawl.Seal.Result.Opened.{
  after_unless, seal_parts, after_option, ok-injective, constant_time_eq-eq, split-parts,
}
use basecrawl.Seal.Task.{
  EnclaveIdentity, SealedTaskEnvelope, DecryptedTask, validate_envelope_shape, build_aad, parse_aad,
  as_object, str_field, open_sealed_box, read_task, open_bound, decrypt_sealed_task,
  min_sealed_ciphertext_len,
}

pub record IsTask (from_slice : List ℕ → Option Value) (d : DecryptedTask) (body : List ℕ)
    : Type 0 where
  pub parsed : from_slice body ≡ some d.task
  pub object : TextMap Value
  pub is_object : as_object d.task ≡ some object
  pub task_id : str_field object (codes "task_id") ≡ some d.task_id
  pub nonce : str_field object (codes "nonce") ≡ some d.nonce

pub record IsUnsealed (c : Crypto) (from_slice : List ℕ → Option Value) (e : SealedTaskEnvelope)
    (identity : EnclaveIdentity) (d : DecryptedTask) : Type 0 where
  pub shape : validate_envelope_shape e (some identity.key_id) ≡ ok tt
  pub recipient : e.recipient_key_id ≡ identity.key_id
  pub box : List ℕ
  pub decoded : decode_b64url c e.ciphertext ≡ ok box
  pub large : leb (length box) min_sealed_ciphertext_len ≡ false
  pub aad : List ℕ
  pub body : List ℕ
  pub opened : c.unseal identity.secret box ≡ some (aad ++ 0 ∷ body)
  pub bound : build_aad d.task_id d.nonce identity.key_id ≡ ok aad
  pub content : IsTask from_slice d body

passed_not : (b : Bool) → not b ≡ true → b ≡ false
passed_not true h = cc
passed_not false h = refl

of_option-some :
    {A : Type 0} (o : Option A) (error : SealError) {a : A} → of_option o error ≡ ok a → o ≡ some a
of_option-some none error h = cc
of_option-some (some b) error {a} h = ap some (ok-injective b a h)

open_sealed_box-some :
    (c : Crypto) (secret box : List ℕ) {message : List ℕ}
    → open_sealed_box c secret box ≡ ok message
    → c.unseal secret box ≡ some message
unfolding open_sealed_box
open_sealed_box-some c secret box h = of_option-some (c.unseal secret box) _ h

read_task-IsTask :
    (from_slice : List ℕ → Option Value) (t n : Text) (body : List ℕ) (d : DecryptedTask)
    → read_task from_slice t n body ≡ ok d
    → IsTask from_slice d body × (d.task_id ≡ t) × (d.nonce ≡ n)
unfolding read_task
read_task-IsTask from_slice t n body d h =
    let (task, e9, h9) = after_option (from_slice body) _ _ h in
    let (object, e10, h10) = after_option (as_object task) _ _ h9 in
    let (id, e11, h11) = after_option (str_field object (codes "task_id")) _ _ h10 in
    let (nonce, e12, h12) = after_option (str_field object (codes "nonce")) _ _ h11 in
    let (t13, h13) = after_unless (text_eq id t && text_eq nonce n) _ _ h12 in
    let (same_id, same_nonce) = &&-both (text_eq id t) (text_eq nonce n) t13 in
    subst (λ (d : DecryptedTask). IsTask from_slice d body × (d.task_id ≡ t) × (d.nonce ≡ n))
      (ok-injective (record { task = task; task_id = t; nonce = n }) d h13)
      (
        record {
          parsed = e9;
          object = object;
          is_object = e10;
          task_id = e11 ∙ ap some ((text_eq_iff id t).0 same_id);
          nonce = e12 ∙ ap some ((text_eq_iff nonce n).0 same_nonce);
        },
        refl,
        refl,
      )

-- the checks behind the box
open_bound-IsTask :
    (from_slice : List ℕ → Option Value) (e : SealedTaskEnvelope) (identity : EnclaveIdentity)
    (d : DecryptedTask) (parts : List ℕ × List ℕ)
    → open_bound from_slice e identity parts ≡ ok d
    → (e.recipient_key_id ≡ identity.key_id)
      × (build_aad d.task_id d.nonce identity.key_id ≡ ok parts.0)
      × IsTask from_slice d parts.1
unfolding open_bound
open_bound-IsTask from_slice e identity d parts h =
    let (ids, e5, h5) = seal_parts (parse_aad parts.0) _ h in
    let (expected, e6, h6) = seal_parts (build_aad ids.0 ids.1 identity.key_id) _ h5 in
    let (t7, h7) =
      after_unless (constant_time_eq parts.0 expected && text_eq ids.2 identity.key_id) _ _ h6 in
    let (t8, h8) = after_unless (text_eq ids.2 e.recipient_key_id) _ _ h7 in
    let (same_aad, same_key) =
      &&-both (constant_time_eq parts.0 expected) (text_eq ids.2 identity.key_id) t7 in
    let (content, id, nonce) = read_task-IsTask from_slice ids.0 ids.1 parts.1 d h8 in
    (
      sym ((text_eq_iff ids.2 e.recipient_key_id).0 t8)
          ∙ (text_eq_iff ids.2 identity.key_id).0 same_key,
      ap (λ (t : Text). build_aad t d.nonce identity.key_id) id
          ∙ ap (λ (n : Text). build_aad ids.0 n identity.key_id) nonce
          ∙ e6
          ∙ ap ok (sym (constant_time_eq-eq parts.0 expected same_aad)),
      content,
    )

-- A sealed task that is opened was addressed to the key of the enclave. Its box was opened with the
-- enclave's secret, and holds the binding of a task, a nonce and that key, then the text of an
-- object; the result is this object, whose own task and nonce are the bound ones.
pub decrypt_sealed_task-IsUnsealed :
    (c : Crypto) (from_slice : List ℕ → Option Value) (e : SealedTaskEnvelope)
    (identity : EnclaveIdentity) (d : DecryptedTask)
    → decrypt_sealed_task c from_slice e identity ≡ ok d
    → IsUnsealed c from_slice e identity d
unfolding decrypt_sealed_task
decrypt_sealed_task-IsUnsealed c from_slice e identity d h =
    let (u, e0, h0) = seal_parts (validate_envelope_shape e (some identity.key_id)) _ h in
    let (box, e1, h1) = seal_parts (decode_b64url c e.ciphertext) _ h0 in
    let (t2, h2) = after_unless (not (leb (length box) min_sealed_ciphertext_len)) _ _ h1 in
    let (message, e3, h3) = seal_parts (open_sealed_box c identity.secret box) _ h2 in
    let (parts, e4, h4) = seal_parts (split_aad_plaintext message) _ h3 in
    let (key, bound, content) = open_bound-IsTask from_slice e identity d parts h4 in
    record {
      shape = e0;
      recipient = key;
      box = box;
      decoded = e1;
      large = passed_not (leb (length box) min_sealed_ciphertext_len) t2;
      aad = parts.0;
      body = parts.1;
      opened =
          open_sealed_box-some c identity.secret box e3 ∙ ap some (split-parts message parts e4);
      bound = bound;
      content = content;
    }
