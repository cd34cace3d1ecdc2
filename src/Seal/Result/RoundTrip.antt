-- ===== src/Seal/Result/RoundTrip.antt =====
-- The committee opens what `seal_result_to_committee` of crates/basecrawl-seal/src/result.rs seals.
use basecrawl.Prelude.{
  ℕ, ◌+◌, ◌%◌, Bool, true, false, not, ◌&&◌, ◌||◌, some, List, ◌∷◌, ◌++◌, Text, codes, text_eq,
  text_eq_iff, is_empty, length, length-append, all, as_bytes, leb, ◌==◌, if◌then◌else◌, &&-both,
  ◌≡◌, refl, ap, sym, ◌∙◌, subst, arith,
}
use basecrawl.Seal.{SealError, invalid_envelope, ok, err}
use basecrawl.Seal.Result.{
  of_option, result_seal_suite, result_seal_kind, seal_result_to_committee, decode_hex_32,
  CommitteeThresholdPublicKey, SealedResultEnvelope, ResultSealPlaintext, Crypto,
  validate_envelope_shape, build_result_aad, key_id_for, split_aad_plaintext, constant_time_eq,
  decode_b64url, is_b64url, padded, is_key_id, is_hex_digest, result_seal_domain,
  result_recipient_role, is_lower_hex, unseal_result_with_committee_secret,
}
use basecrawl.Seal.Result.Opened.{ok-injective, after_unless}
use basecrawl.Seal.Result.Routed.{aad-is_key_id, seal_result-IsRouted}
use basecrawl.Seal.Task.Plain
use basecrawl.Seal.Task.RoundTrip.{pass, take_result, some_result, both_true}

built :
    (refused : Bool) (error : SealError) (bytes : List ℕ) {aad : List ℕ}
    → (if refused then err error else ok bytes) ≡ ok aad
    → bytes ≡ aad
built true error bytes h = cc
built false error bytes {aad} h = ok-injective bytes aad h

-- the binding of ASCII fields has no zero byte
aad-IsAscii :
    (t n r k : Text) {aad : List ℕ}
    → all Plain.is_ascii t ≡ true
    → all Plain.is_ascii n ≡ true
    → all Plain.is_ascii r ≡ true
    → all Plain.is_ascii k ≡ true
    → build_result_aad t n r k ≡ ok aad
    → all Plain.is_ascii aad ≡ true
unfolding build_result_aad
aad-IsAscii t n r k {aad} tp np rp kp h =
    let after_key : Text = codes "|recipient=" ++ result_recipient_role in
    let after_hash : Text = codes "|recipient_key_id=" ++ (k ++ after_key) in
    let after_nonce : Text = codes "|result_hash=" ++ (r ++ after_hash) in
    let after_task : Text = codes "|nonce=" ++ (n ++ after_nonce) in
    let text : Text = result_seal_domain ++ (codes "|task_id=" ++ (t ++ after_task)) in
    let ascii : all Plain.is_ascii text ≡ true = Plain.all-append Plain.is_ascii t after_task tp (
      Plain.all-append Plain.is_ascii n after_nonce np (
        Plain.all-append Plain.is_ascii r after_hash rp
          (Plain.all-append Plain.is_ascii k after_key kp refl))) in
    subst (λ (a : List ℕ). all Plain.is_ascii a ≡ true)
      (sym (Plain.as_bytes-ascii text ascii) ∙ built _ _ (as_bytes text) h) ascii

digest_of_shape :
    (e : SealedResultEnvelope)
    → validate_envelope_shape e ≡ ok tt
    → is_hex_digest e.result_hash ≡ true
unfolding validate_envelope_shape
digest_of_shape e h =
    let (t1, h1) = after_unless (e.version == 1) _ _ h in
    let (t2, h2) = after_unless (text_eq e.suite result_seal_suite) _ _ h1 in
    let (t3, h3) = after_unless (text_eq e.kind result_seal_kind) _ _ h2 in
    let (t4, h4) = after_unless (text_eq e.recipient result_recipient_role) _ _ h3 in
    let (t5, h5) = after_unless (is_key_id e.recipient_key_id) _ _ h4 in
    let (t6, h6) = after_unless (not (is_empty e.task_id || is_empty e.nonce)) _ _ h5 in
    (after_unless (is_hex_digest e.result_hash) _ _ h6).0

digest-IsAscii : (r : Text) → is_hex_digest r ≡ true → all Plain.is_ascii r ≡ true
unfolding is_hex_digest
digest-IsAscii r h =
    let (sized, hex) = &&-both (length (as_bytes r) == 64 || length (as_bytes r) == 96) _ h in
    let (digits, low) = &&-both (all is_lower_hex (as_bytes r)) _ hex in
    Plain.ascii_of_plain r (Plain.lower_hex-plain r digits)

longer : (n m a b : ℕ) → n ≡ 48 + m → m ≡ a + (1 + b) → not (leb n 48) ≡ true
longer n m a b e e' = ground arith

decoded :
    (c : Crypto) (bs : List ℕ)
    → is_empty (c.b64_encode bs) ≡ false
    → all is_b64url (as_bytes (c.b64_encode bs)) ≡ true
    → (length (as_bytes (c.b64_encode bs)) % 4 == 1) ≡ false
    → c.b64_decode (padded (c.b64_encode bs)) ≡ some bs
    → decode_b64url c (c.b64_encode bs) ≡ ok bs
unfolding decode_b64url
decoded c bs filled alphabet sized e =
    pass (not (is_empty (c.b64_encode bs))) _ _ (ap not filled)
    ∙ pass
        (all is_b64url (as_bytes (c.b64_encode bs))
          && not (length (as_bytes (c.b64_encode bs)) % 4 == 1))
        _ _
        (both_true (all is_b64url (as_bytes (c.b64_encode bs)))
          (not (length (as_bytes (c.b64_encode bs)) % 4 == 1)) alphabet (ap not sized))
    ∙ ap (λ o. of_option o (invalid_envelope (codes "ciphertext is not valid base64url"))) e

-- What the crate relies on of others: a box opens to the message that was sealed for its key, and is
-- 48 bytes longer; base64url is not empty, keeps to its alphabet, is never one over a multiple of
-- four, and is decoded to the box.
module _ (c : Crypto) (secret : List ℕ)
    (opens : (m box : List ℕ)
      → c.seal (c.public_of secret) m ≡ some box
      → c.unseal secret box ≡ some m)
    (grows : (m box : List ℕ)
      → c.seal (c.public_of secret) m ≡ some box
      → length box ≡ 48 + length m)
    (filled : (bs : List ℕ) → is_empty (c.b64_encode bs) ≡ false)
    (alphabet : (bs : List ℕ) → all is_b64url (as_bytes (c.b64_encode bs)) ≡ true)
    (sized : (bs : List ℕ) → (length (as_bytes (c.b64_encode bs)) % 4 == 1) ≡ false)
    (decodes : (m box : List ℕ)
      → c.seal (c.public_of secret) m ≡ some box
      → c.b64_decode (padded (c.b64_encode box)) ≡ some box) where
  -- With such a box and encoding: a result whose task and nonce are ASCII without NUL, whose JSON is
  -- read back as it was written, and which is sealed for the public key of a secret, is opened with
  -- this secret to itself.
  pub unseal_result-seal_result :
      (p : ResultSealPlaintext) (k : CommitteeThresholdPublicKey) (e : SealedResultEnvelope)
      → ((bs : List ℕ) → c.write p ≡ some bs → c.read bs ≡ some p)
      → decode_hex_32 k.public_key ≡ ok (c.public_of secret)
      → all Plain.is_ascii p.task_id ≡ true
      → all Plain.is_ascii p.nonce ≡ true
      → seal_result_to_committee c p k ≡ ok e
      → unseal_result_with_committee_secret c e secret ≡ ok p
  unfolding unseal_result_with_committee_secret
  unseal_result-seal_result p k e reads key tp np h =
      let is = seal_result-IsRouted c filled p k e h in
      let (same_task, same_nonce, same_hash) = is.same_ids in
      let same_key : is.key ≡ c.public_of secret =
        ok-injective is.key (c.public_of secret) (sym is.key_bytes ∙ key) in
      let sealed : c.seal (c.public_of secret) (is.aad ++ 0 ∷ is.body) ≡ some is.box =
        ap (λ (x : List ℕ). c.seal x (is.aad ++ 0 ∷ is.body)) (sym same_key) ∙ is.sealed in
      let ascii : all Plain.is_ascii is.aad ≡ true =
        aad-IsAscii e.task_id e.nonce e.result_hash e.recipient_key_id
          (ap (all Plain.is_ascii) same_task ∙ tp) (ap (all Plain.is_ascii) same_nonce ∙ np)
          (digest-IsAscii e.result_hash (digest_of_shape e is.shape))
          (Plain.ascii_of_plain e.recipient_key_id (
            Plain.is_key_id-plain e.recipient_key_id
              (aad-is_key_id e.task_id e.nonce e.result_hash e.recipient_key_id is.bound)))
          is.bound in
      take_result (validate_envelope_shape e) _ is.shape
      ∙ take_result (decode_b64url c e.ciphertext) _ (
          ap (decode_b64url c) is.ciphertext
          ∙ decoded c is.box (filled is.box) (alphabet is.box) (sized is.box)
              (decodes (is.aad ++ 0 ∷ is.body) is.box sealed))
      ∙ pass (not (leb (length is.box) 48)) _ _ (
          longer (length is.box) (length (is.aad ++ 0 ∷ is.body)) (length is.aad) (length is.body)
            (grows (is.aad ++ 0 ∷ is.body) is.box sealed)
            (length-append is.aad (0 ∷ is.body) ∙ ap (length is.aad +◌) (omega arith)))
      ∙ pass (text_eq (key_id_for c (c.public_of secret)) e.recipient_key_id) _ _ (
          (text_eq_iff (key_id_for c (c.public_of secret)) e.recipient_key_id).1
            (ap (key_id_for c) (sym same_key) ∙ sym is.key_id ∙ sym is.recipient))
      ∙ some_result (c.unseal secret is.box) _ _ (opens (is.aad ++ 0 ∷ is.body) is.box sealed)
      ∙ take_result (split_aad_plaintext (is.aad ++ 0 ∷ is.body)) _
          (Plain.split_aad_plaintext-message is.aad is.body ascii)
      ∙ take_result (build_result_aad e.task_id e.nonce e.result_hash e.recipient_key_id) _ is.bound
      ∙ pass (constant_time_eq is.aad is.aad) _ _ (Plain.constant_time_eq_refl is.aad)
      ∙ some_result (c.read is.body) _ _ (reads is.body is.written)
      ∙ pass
          (text_eq p.task_id e.task_id
            && (text_eq p.nonce e.nonce && text_eq p.result_hash e.result_hash))
          _ _
          (both_true (text_eq p.task_id e.task_id) _
            ((text_eq_iff p.task_id e.task_id).1 (sym same_task))
            (both_true (text_eq p.nonce e.nonce) (text_eq p.result_hash e.result_hash)
              ((text_eq_iff p.nonce e.nonce).1 (sym same_nonce))
              ((text_eq_iff p.result_hash e.result_hash).1 (sym same_hash))))
