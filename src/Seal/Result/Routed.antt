-- ===== src/Seal/Result/Routed.antt =====
-- What a sealed envelope is addressed to and what its box holds.
use basecrawl.Prelude.{
  ℕ, Bool, true, false, not, ◌&&◌, ◌||◌, some, List, ◌∷◌, ◌++◌, Text, text_eq, text_eq_iff,
  is_empty, ◌≡◌, refl, ap, sym, ◌∙◌, subst, arith, if◌then◌else◌,
}
use basecrawl.Seal.{SealError, Sealed, ok, err}
use basecrawl.Seal.Result.{
  seal_result_to_committee, validate_plaintext, decode_hex_32, CommitteeThresholdPublicKey,
  SealedResultEnvelope, ResultSealPlaintext, Crypto, validate_envelope_shape, build_result_aad,
  key_id_for, result_seal_kind, result_recipient_role, result_seal_suite, is_key_id, is_hex_digest,
}
use basecrawl.Seal.Result.Opened.{after_unless, seal_parts, after_option, ok-injective}

of_refused :
    (b : Bool) (error : SealError) (r : Sealed (List ℕ)) {aad : List ℕ}
    → (if b then err error else r) ≡ ok aad
    → b ≡ false
of_refused true error r h = cc
of_refused false error r h = refl

last_or : (a b d e : Bool) → (a || (b || (d || not e))) ≡ false → e ≡ true
last_or a b d e h = ground arith

-- The metadata that is bound has a well-formed key id.
pub aad-is_key_id :
    (t n r k : Text) {aad : List ℕ} → build_result_aad t n r k ≡ ok aad → is_key_id k ≡ true
unfolding build_result_aad
aad-is_key_id t n r k h =
    last_or (is_empty t) (is_empty n) (is_empty r) (is_key_id k)
      (of_refused (is_empty t || (is_empty n || (is_empty r || not (is_key_id k)))) _ _ h)

second : (a b : Bool) → (a && b) ≡ true → b ≡ true
second true b h = h
second false b h = cc

routed_ids :
    (p : ResultSealPlaintext) {u : Unit {0}}
    → validate_plaintext p ≡ ok u
    → not (is_empty p.task_id || is_empty p.nonce) ≡ true
unfolding validate_plaintext
routed_ids p h = (after_unless (not (is_empty p.task_id || is_empty p.nonce)) _ _ h).0

-- the envelope that a seal makes has the shape that opening demands
shape_of :
    (key_id task_id nonce result_hash ciphertext : Text)
    → is_key_id key_id ≡ true
    → not (is_empty task_id || is_empty nonce) ≡ true
    → is_hex_digest result_hash ≡ true
    → is_empty ciphertext ≡ false
    → validate_envelope_shape (record {
      version = 1;
      suite = result_seal_suite;
      kind = result_seal_kind;
      recipient = result_recipient_role;
      recipient_key_id = key_id;
      task_id = task_id;
      nonce = nonce;
      result_hash = result_hash;
      ciphertext = ciphertext;
    })
      ≡ ok tt
unfolding validate_envelope_shape
shape_of key_id task_id nonce result_hash ciphertext a b d e = rw (a, b, d, e) refl

-- What a sealed envelope says of the plaintext and the committee.
pub record IsRouted (c : Crypto) (p : ResultSealPlaintext) (k : CommitteeThresholdPublicKey)
    (e : SealedResultEnvelope) : Type 0 where
  pub shape : validate_envelope_shape e ≡ ok tt
  pub recipient : e.recipient_key_id ≡ k.key_id
  pub key : List ℕ
  pub key_bytes : decode_hex_32 k.public_key ≡ ok key
  pub key_id : k.key_id ≡ key_id_for c key
  pub aad : List ℕ
  pub bound : build_result_aad e.task_id e.nonce e.result_hash e.recipient_key_id ≡ ok aad
  pub body : List ℕ
  pub written : c.write p ≡ some body
  pub box : List ℕ
  pub sealed : c.seal key (aad ++ 0 ∷ body) ≡ some box
  pub ciphertext : e.ciphertext ≡ c.b64_encode box
  pub same_ids : (e.task_id ≡ p.task_id) × (e.nonce ≡ p.nonce) × (e.result_hash ≡ p.result_hash)

-- With an encoding that is never empty: an envelope that is sealed has the shape that opening
-- demands, is addressed to the committee's key, whose id is that of its bytes, and its box is the
-- seal, under that key, of the binding of the envelope's fields and the text of the plaintext.
pub seal_result-IsRouted :
    (c : Crypto) (encodes : (bs : List ℕ) → is_empty (c.b64_encode bs) ≡ false)
    (p : ResultSealPlaintext) (k : CommitteeThresholdPublicKey) (e : SealedResultEnvelope)
    → seal_result_to_committee c p k ≡ ok e
    → IsRouted c p k e
unfolding seal_result_to_committee
seal_result-IsRouted c encodes p k e h =
    let (u, e0, h0) = seal_parts (validate_plaintext p) _ h in
    let (t1, h1) =
      after_unless (not (is_empty p.result_hash) && is_hex_digest p.result_hash) _ _ h0 in
    let (key, e2, h2) = seal_parts (decode_hex_32 k.public_key) _ h1 in
    let (t3, h3) = after_unless (text_eq k.key_id (key_id_for c key)) _ _ h2 in
    let (aad, e4, h4) =
      seal_parts (build_result_aad p.task_id p.nonce p.result_hash k.key_id) _ h3 in
    let (body, e5, h5) = after_option (c.write p) _ _ h4 in
    let (key', e6, h6) = seal_parts (decode_hex_32 k.public_key) _ h5 in
    let (box, e7, h7) = after_option (c.seal key' (aad ++ 0 ∷ body)) _ _ h6 in
    let same_key : key' ≡ key = ok-injective key' key (sym e6 ∙ e2) in
    subst (IsRouted c p k) (ok-injective _ e h7) (record {
      shape =
          shape_of k.key_id p.task_id p.nonce p.result_hash (c.b64_encode box)
            (aad-is_key_id p.task_id p.nonce p.result_hash k.key_id e4) (routed_ids p e0)
            (second (not (is_empty p.result_hash)) (is_hex_digest p.result_hash) t1) (encodes box);
      recipient = refl;
      key = key;
      key_bytes = e2;
      key_id = (text_eq_iff k.key_id (key_id_for c key)).0 t3;
      aad = aad;
      bound = e4;
      body = body;
      written = e5;
      box = box;
      sealed = ap (λ x. c.seal x (aad ++ 0 ∷ body)) (sym same_key) ∙ e7;
      ciphertext = refl;
      same_ids = (refl, refl, refl);
    })
