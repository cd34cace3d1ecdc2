-- ===== src/Canonical/Binding.antt =====
-- When the report data of a proof exists, and what it binds.
use basecrawl.Prelude.{
  ℕ, false, Option, none, some, List, [], ◌∷◌, Text, codes, is_empty, ◌≡◌, refl, arith, ◌↔◌,
}
use basecrawl.Proof.{ScrapeProof}
use basecrawl.Canonical.{
  Bound, ok, missing, ◌>>=◌, required, components, joined, attestation_report_data,
  attestation_domain_tag, response_hash,
}

-- a field that is there and not empty
pub data Present : Option Text → Type 0 where
  present : {t : Text} → is_empty t ≡ false → Present (some t)

required-Present : (o : Option Text) (field : Text) {t : Text} → required o field ≡ ok t → Present o
unfolding required
required-Present none field h = cc
required-Present (some t) field h = present (ground arith)

Present-required :
    (o : Option Text) (field : Text) → Present o → (t : Text) × (required o field ≡ ok t)
unfolding required
Present-required none field p = elim p [ ]
Present-required (some t) field (present h) = (t, rw h refl)

-- the two halves of a chain that gives a value
bound_parts :
    {A B : Type 0} {out : B} (first : Bound A) (next : A → Bound B)
    → (first >>= next) ≡ ok out
    → (value : A) × (first ≡ ok value) × (next value ≡ ok out)
bound_parts (missing field) next given = cc
bound_parts (ok value) next given = (value, refl, given)

pub record IsAttestable (p : ScrapeProof) : Type 0 where
  pub headers_hash : Present p.response.headers_hash
  pub body_hash : Present p.response.body_hash
  pub task_id : Present p.task_id
  pub nonce : Present p.nonce
  pub request_hash : Present p.request.request_hash
  pub cert_chain_hash : Present p.tls.cert_chain_hash
  pub handshake_transcript_hash : Present p.tls.handshake_transcript_hash
  pub result_hash : Present p.result.result_hash
  pub egress_ip : Present p.egress.egress_ip
  pub timestamp : Present p.egress.timestamp
  pub fingerprint_seed : Present p.egress.fingerprint_seed
  pub enclave_pubkey : Present p.sdk_signature.enclave_pubkey

module _ (sha256 : List ℕ → Text) where
  sound : (p : ScrapeProof) {parts : List Text} → components sha256 p ≡ ok parts → IsAttestable p
  unfolding components
  sound p h =
      let (a0, e0, h0) = bound_parts (required p.response.headers_hash _) _ h in
      let (a1, e1, h1) = bound_parts (required p.response.body_hash _) _ h0 in
      let (a2, e2, h2) = bound_parts (required p.task_id _) _ h1 in
      let (a3, e3, h3) = bound_parts (required p.nonce _) _ h2 in
      let (a4, e4, h4) = bound_parts (required p.request.request_hash _) _ h3 in
      let (a5, e5, h5) = bound_parts (required p.tls.cert_chain_hash _) _ h4 in
      let (a6, e6, h6) = bound_parts (required p.tls.handshake_transcript_hash _) _ h5 in
      let (a7, e7, h7) = bound_parts (required p.result.result_hash _) _ h6 in
      let (a8, e8, h8) = bound_parts (required p.egress.egress_ip _) _ h7 in
      let (a9, e9, h9) = bound_parts (required p.egress.timestamp _) _ h8 in
      let (a10, e10, h10) = bound_parts (required p.egress.fingerprint_seed _) _ h9 in
      let (a11, e11, h11) = bound_parts (required p.sdk_signature.enclave_pubkey _) _ h10 in
      record {
        headers_hash = required-Present p.response.headers_hash _ e0;
        body_hash = required-Present p.response.body_hash _ e1;
        task_id = required-Present p.task_id _ e2;
        nonce = required-Present p.nonce _ e3;
        request_hash = required-Present p.request.request_hash _ e4;
        cert_chain_hash = required-Present p.tls.cert_chain_hash _ e5;
        handshake_transcript_hash = required-Present p.tls.handshake_transcript_hash _ e6;
        result_hash = required-Present p.result.result_hash _ e7;
        egress_ip = required-Present p.egress.egress_ip _ e8;
        timestamp = required-Present p.egress.timestamp _ e9;
        fingerprint_seed = required-Present p.egress.fingerprint_seed _ e10;
        enclave_pubkey = required-Present p.sdk_signature.enclave_pubkey _ e11;
      }

  complete :
      (p : ScrapeProof) → IsAttestable p → (parts : List Text) × (components sha256 p ≡ ok parts)
  unfolding components
  complete p a =
      let (t0, e0) =
        Present-required p.response.headers_hash (codes "response.headers_hash") a.headers_hash in
      let (t1, e1) =
        Present-required p.response.body_hash (codes "response.body_hash") a.body_hash in
      let (t2, e2) = Present-required p.task_id (codes "task_id") a.task_id in
      let (t3, e3) = Present-required p.nonce (codes "nonce") a.nonce in
      let (t4, e4) =
        Present-required p.request.request_hash (codes "request.request_hash") a.request_hash in
      let (t5, e5) =
        Present-required p.tls.cert_chain_hash (codes "tls.cert_chain_hash") a.cert_chain_hash in
      let (t6, e6) =
        Present-required p.tls.handshake_transcript_hash (codes "tls.handshake_transcript_hash")
          a.handshake_transcript_hash in
      let (t7, e7) =
        Present-required p.result.result_hash (codes "result.result_hash") a.result_hash in
      let (t8, e8) = Present-required p.egress.egress_ip (codes "egress.egress_ip") a.egress_ip in
      let (t9, e9) = Present-required p.egress.timestamp (codes "egress.timestamp") a.timestamp in
      let (t10, e10) =
        Present-required p.egress.fingerprint_seed (codes "egress.fingerprint_seed")
          a.fingerprint_seed in
      let (t11, e11) =
        Present-required p.sdk_signature.enclave_pubkey (codes "sdk_signature.enclave_pubkey")
          a.enclave_pubkey in
      (
        t2 ∷ t3 ∷ t4 ∷ t5 ∷ t6 ∷ response_hash sha256 t0 t1 ∷ t7 ∷ t8 ∷ t9 ∷ t10 ∷ t11 ∷ [],
        rw (e0, e1, e2, e3, e4, e5, e6, e7, e8, e9, e10, e11) refl,
      )

-- The report data of a proof exists exactly if each of the twelve fields that it binds is there and
-- not empty.
pub attestation_report_data_iff :
    (sha256 sha512 : List ℕ → Text) (p : ScrapeProof)
    → ((d : Text) × (attestation_report_data sha256 sha512 p ≡ ok d)) ↔ IsAttestable p
unfolding attestation_report_data
attestation_report_data_iff sha256 sha512 p = (
  λ (d, h). let (parts, e, h') = bound_parts (components sha256 p) _ h in sound sha256 p e,
  λ a.
      let (parts, e) = complete sha256 p a in
      (sha512 (joined (attestation_domain_tag ∷ parts)), rw e refl),
)
