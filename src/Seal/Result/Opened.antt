-- ===== src/Seal/Result/Opened.antt =====
-- What opening a sealed result checks.
use basecrawl.Prelude.{
  ℕ, Bool, true, false, not, ◌&&◌, Option, none, some, List, [], ◌∷◌, ◌++◌, text_eq, text_eq_iff,
  length, leb, ◌==◌, ==_iff, ◌≡◌, refl, ap, sym, ◌∙◌, subst, arith, Bool-cases, inl, inr,
  if◌then◌else◌,
}
use basecrawl.Seal.{SealError, Sealed, ok, err, ◌>>=◌, ◌>>◌, unless}
use basecrawl.Seal.Result.{
  SealedResultEnvelope, ResultSealPlaintext, Crypto, of_option, validate_envelope_shape,
  decode_b64url, split_aad_plaintext, build_result_aad, constant_time_eq, no_difference, key_id_for,
  unseal_result_with_committee_secret,
}

pub after_unless :
    {B : Type 0} (test : Bool) (error : SealError) (rest : Sealed B) {b : B}
    → (unless test error >> rest) ≡ ok b
    → (test ≡ true) × (rest ≡ ok b)
after_unless true error rest h = (refl, h)
after_unless false error rest h = cc

pub seal_parts :
    {A B : Type 0} {out : B} (first : Sealed A) (next : A → Sealed B)
    → (first >>= next) ≡ ok out
    → (value : A) × (first ≡ ok value) × (next value ≡ ok out)
seal_parts (err error) next given = cc
seal_parts (ok value) next given = (value, refl, given)

pub after_option :
    {A B : Type 0} (o : Option A) (error : SealError) (rest : A → Sealed B) {b : B}
    → (of_option o error >>= rest) ≡ ok b
    → (a : A) × (o ≡ some a) × (rest a ≡ ok b)
after_option none error rest h = cc
after_option (some a) error rest h = (a, refl, h)

no_difference-eq : (xs ys : List ℕ) → length xs ≡ length ys → no_difference xs ys ≡ true → xs ≡ ys
no_difference-eq [] [] e h = refl
no_difference-eq [] (y ∷ ys) e h = absurd (omega arith)
no_difference-eq (x ∷ xs) [] e h = absurd (omega arith)
no_difference-eq (x ∷ xs) (y ∷ ys) e h = ground (arith, no_difference-eq xs ys)

of_same : (b d : Bool) → b ≡ true → (if b then d else false) ≡ true → d ≡ true
of_same true d e h = h
of_same false d e h = cc

pub constant_time_eq-eq : (xs ys : List ℕ) → constant_time_eq xs ys ≡ true → xs ≡ ys
unfolding constant_time_eq
constant_time_eq-eq xs ys h = elim (Bool-cases (length xs == length ys)) [
  | inl e ↦
      no_difference-eq xs ys ((==_iff (length xs) (length ys)).0 e)
        (of_same (length xs == length ys) (no_difference xs ys) e h)
  | inr e ↦ absurd (ground arith)
]

pub ok-injective : {A : Type 0} (a b : A) → ok a ≡ ok b → a ≡ b
ok-injective a b h = cc

-- the message that a pair of parts came from
abbrev rejoined : List ℕ × List ℕ → List ℕ
rejoined parts = parts.0 ++ 0 ∷ parts.1

split_cons :
    (z : Bool) (b : ℕ) (bs : List ℕ) (rest : Sealed (List ℕ × List ℕ)) (parts : List ℕ × List ℕ)
    → (b == 0) ≡ z
    → ((q : List ℕ × List ℕ) → rest ≡ ok q → bs ≡ rejoined q)
    → (if z then ok ([], bs) else (rest >>= λ (aad, body). ok (b ∷ aad, body))) ≡ ok parts
    → b ∷ bs ≡ rejoined parts
split_cons true b bs rest parts e ih h =
    ap (λ x. x ∷ bs) ((==_iff b 0).0 e) ∙ ap rejoined (ok-injective ([], bs) parts h)
split_cons false b bs rest parts e ih h =
    let (q, e', h') = seal_parts rest _ h in
    ap (b ∷◌) (ih q e') ∙ ap rejoined (ok-injective (b ∷ q.0, q.1) parts h')

pub split-parts :
    (bs : List ℕ) (parts : List ℕ × List ℕ)
    → split_aad_plaintext bs ≡ ok parts
    → bs ≡ rejoined parts
unfolding split_aad_plaintext
split-parts [] parts h = cc
split-parts (b ∷ bs) parts h =
    split_cons (b == 0) b bs (split_aad_plaintext bs) parts refl (split-parts bs) h

pub record IsOpened (c : Crypto) (e : SealedResultEnvelope) (secret : List ℕ)
    (p : ResultSealPlaintext) : Type 0 where
  pub shape : validate_envelope_shape e ≡ ok tt
  pub recipient : e.recipient_key_id ≡ key_id_for c (c.public_of secret)
  pub box : List ℕ
  pub decoded : decode_b64url c e.ciphertext ≡ ok box
  pub aad : List ℕ
  pub body : List ℕ
  pub opened : c.unseal secret box ≡ some (aad ++ 0 ∷ body)
  pub bound : build_result_aad e.task_id e.nonce e.result_hash e.recipient_key_id ≡ ok aad
  pub parsed : c.read body ≡ some p
  pub task_id : p.task_id ≡ e.task_id
  pub nonce : p.nonce ≡ e.nonce
  pub result_hash : p.result_hash ≡ e.result_hash

both : (a b c : Bool) → (a && (b && c)) ≡ true → (a ≡ true) × (b ≡ true) × (c ≡ true)
both true true true h = (refl, refl, refl)
both true true false h = cc
both true false c h = cc
both false b c h = cc

-- A sealed result that is opened was addressed to the committee by the key of the secret; its box
-- holds the binding of the envelope's own task, nonce, result hash and recipient, then the text of
-- the plaintext that is returned, which names the same task, nonce and result hash.
pub unseal_result-IsOpened :
    (c : Crypto) (e : SealedResultEnvelope) (secret : List ℕ) (p : ResultSealPlaintext)
    → unseal_result_with_committee_secret c e secret ≡ ok p
    → IsOpened c e secret p
unfolding unseal_result_with_committee_secret
unseal_result-IsOpened c e secret p h =
    let (u, e0, h0) = seal_parts (validate_envelope_shape e) _ h in
    let (box, e1, h1) = seal_parts (decode_b64url c e.ciphertext) _ h0 in
    let (t2, h2) = after_unless (not (leb (length box) 48)) _ _ h1 in
    let (t3, h3) =
      after_unless (text_eq (key_id_for c (c.public_of secret)) e.recipient_key_id) _ _ h2 in
    let (message, e4, h4) = after_option (c.unseal secret box) _ _ h3 in
    let (parts, e5, h5) = seal_parts (split_aad_plaintext message) _ h4 in
    let (expected, e6, h6) =
      seal_parts (build_result_aad e.task_id e.nonce e.result_hash e.recipient_key_id) _ h5 in
    let (t7, h7) = after_unless (constant_time_eq parts.0 expected) _ _ h6 in
    let (q, e8, h8) = after_option (c.read parts.1) _ _ h7 in
    let (t9, h9) =
      after_unless
        (text_eq q.task_id e.task_id
          && (text_eq q.nonce e.nonce && text_eq q.result_hash e.result_hash))
        _ _ h8 in
    let same : q ≡ p = ok-injective q p h9 in
    let (a, b, d) =
      both (text_eq q.task_id e.task_id) (text_eq q.nonce e.nonce)
        (text_eq q.result_hash e.result_hash) t9 in
    let aad_same : parts.0 ≡ expected = constant_time_eq-eq parts.0 expected t7 in
    subst (IsOpened c e secret) same (record {
      shape = e0;
      recipient = sym ((text_eq_iff (key_id_for c (c.public_of secret)) e.recipient_key_id).0 t3);
      box = box;
      decoded = e1;
      aad = parts.0;
      body = parts.1;
      opened = e4 ∙ ap some (split-parts message parts e5);
      bound = e6 ∙ ap ok (sym aad_same);
      parsed = e8;
      task_id = (text_eq_iff q.task_id e.task_id).0 a;
      nonce = (text_eq_iff q.nonce e.nonce).0 b;
      result_hash = (text_eq_iff q.result_hash e.result_hash).0 d;
    })
