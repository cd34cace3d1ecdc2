-- ===== src/Attestation/Sign/Accepted.antt =====
-- What an accepted signature is, and that its lower-case form verifies the same messages.
use basecrawl.Prelude.{
  subst, ℕ, Bool, true, false, not, Option, none, some, List, Text, length, is_empty,
  to_ascii_lowercase, ◌==◌, ==_iff, ◌≡◌, refl, ap, sym, ◌∙◌, ◌↔◌,
}
use basecrawl.Attestation.Hex.{decode_hex}
use basecrawl.Attestation.Hex.RoundTrip.{decode_hex-encode_hex, decode_hex-IsHex}
use basecrawl.Attestation.Sign.{
  Signed, ok, ◌>>=◌, ◌>>◌, demand, field_of, SignResponse, validate_sign_response, verify_signature,
  signature_name, key_name,
}

after_demand :
    {B : Type 0} (test : Bool) (name : Text) (rest : Signed B) {b : B}
    → (demand test name >> rest) ≡ ok b
    → (test ≡ true) × (rest ≡ ok b)
after_demand true name rest h = (refl, h)
after_demand false name rest h = cc

last_demand : (test : Bool) (name : Text) → demand test name ≡ ok tt → test ≡ true
last_demand true name h = refl
last_demand false name h = cc

after_field :
    {B : Type 0} (o : Option (List ℕ)) (name : Text) (rest : List ℕ → Signed B) {b : B}
    → (field_of o name >>= rest) ≡ ok b
    → (bytes : List ℕ) × (o ≡ some bytes) × (rest bytes ≡ ok b)
after_field none name rest h = cc
after_field (some bytes) name rest h = (bytes, refl, h)

same : (a b : SignResponse) → ok a ≡ ok b → a ≡ b
same a b h = cc

-- The lower-case form of a text that decodes, decodes to the same bytes.
lower_decodes :
    (t : Text) (bytes : List ℕ)
    → decode_hex t ≡ some bytes
    → decode_hex (to_ascii_lowercase t) ≡ some bytes
lower_decodes t bytes e =
    let hex = decode_hex-IsHex t bytes e in
    ap decode_hex (sym hex.text) ∙ decode_hex-encode_hex bytes hex.bound

module _ (is_key : List ℕ → Bool) (verify : (key message signature : List ℕ) → Bool) where
  -- The bytes of a key and of a signature in their fields.
  pub record IsSigned (public_key_hex signature_hex : Text) (key signature : List ℕ) : Type 0 where
    pub key_bytes : decode_hex public_key_hex ≡ some key
    pub signature_bytes : decode_hex signature_hex ≡ some signature
    pub key_size : length key ≡ 32
    pub signature_size : length signature ≡ 64
    pub on_curve : is_key key ≡ true

  -- A signature is verified exactly if both fields decode, to a key of 32 bytes on the curve and to
  -- a signature of 64 bytes, and the curve accepts that signature of the message.
  pub verify_signature_iff :
      (public_key_hex signature_hex : Text) (message : List ℕ)
      → (verify_signature is_key verify public_key_hex signature_hex message ≡ ok tt) ↔ (
          (key : List ℕ) × (signature : List ℕ) × IsSigned public_key_hex signature_hex key
            signature
          × (verify key message signature ≡ true))
  unfolding verify_signature
  verify_signature_iff k s m = (
    λ h.
        let (key, e0, h0) = after_field (decode_hex k) key_name _ h in
        let (sig, e1, h1) = after_field (decode_hex s) signature_name _ h0 in
        let (t2, h2) = after_demand (length key == 32) key_name _ h1 in
        let (t3, h3) = after_demand (length sig == 64) signature_name _ h2 in
        let (t4, h4) = after_demand (is_key key) key_name _ h3 in
        (
          key,
          sig,
          record {
            key_bytes = e0;
            signature_bytes = e1;
            key_size = (==_iff (length key) 32).0 t2;
            signature_size = (==_iff (length sig) 64).0 t3;
            on_curve = t4;
          },
          last_demand (verify key m sig) signature_name h4,
        ),
    λ (key, sig, i, v).
        rw
          (
            i.key_bytes,
            i.signature_bytes,
            (==_iff (length key) 32).1 i.key_size,
            (==_iff (length sig) 64).1 i.signature_size,
            i.on_curve,
            v,
          )
          refl,
  )

  same_verdict :
      (k s : Text) (key sig message : List ℕ)
      → decode_hex k ≡ some key
      → decode_hex s ≡ some sig
      → verify_signature is_key verify (to_ascii_lowercase k) (to_ascii_lowercase s) message
        ≡ verify_signature is_key verify k s message
  unfolding verify_signature
  same_verdict k s key sig message e e' =
      rw (lower_decodes k key e, lower_decodes s sig e', e, e') refl

  -- What the check of an answer makes of it.
  pub record IsAccepted (given answer : SignResponse) : Type 0 where
    pub key : List ℕ
    pub bytes : List ℕ
    pub signed : IsSigned answer.public_key answer.signature key bytes
    pub lower : answer.signature ≡ to_ascii_lowercase given.signature
    pub lower_key : answer.public_key ≡ to_ascii_lowercase given.public_key
    pub same_chain : answer.signature_chain ≡ given.signature_chain
    pub verifies :
        (message : List ℕ)
        → verify_signature is_key verify answer.public_key answer.signature message
          ≡ verify_signature is_key verify given.public_key given.signature message

  -- An accepted answer of the signing endpoint has a key of 32 bytes on the curve and a signature of
  -- 64 bytes, in lower case; its chain is the given one, and it verifies the messages that the given
  -- fields verify.
  pub validate_sign_response-IsAccepted :
      (response answer : SignResponse)
      → validate_sign_response is_key response ≡ ok answer
      → IsAccepted response answer
  unfolding validate_sign_response
  validate_sign_response-IsAccepted r a h =
      let (t0, h0) = after_demand (not (is_empty r.signature)) signature_name _ h in
      let (t1, h1) = after_demand (not (is_empty r.public_key)) key_name _ h0 in
      let (sig, e2, h2) = after_field (decode_hex r.signature) signature_name _ h1 in
      let (t3, h3) = after_demand (length sig == 64) signature_name _ h2 in
      let (key, e4, h4) = after_field (decode_hex r.public_key) key_name _ h3 in
      let (t5, h5) = after_demand (length key == 32) key_name _ h4 in
      let (t6, h6) = after_demand (is_key key) key_name _ h5 in
      let lowered : SignResponse = record {
        signature = to_ascii_lowercase r.signature;
        signature_chain = r.signature_chain;
        public_key = to_ascii_lowercase r.public_key;
      } in
      subst (IsAccepted r) (same lowered a h6) (record {
        key = key;
        bytes = sig;
        signed = record {
          key_bytes = lower_decodes r.public_key key e4;
          signature_bytes = lower_decodes r.signature sig e2;
          key_size = (==_iff (length key) 32).0 t5;
          signature_size = (==_iff (length sig) 64).0 t3;
          on_curve = t6;
        };
        lower = refl;
        lower_key = refl;
        same_chain = refl;
        verifies = λ message. same_verdict r.public_key r.signature key sig message e4 e2;
      })
