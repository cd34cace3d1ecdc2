-- ===== src/Canonical.antt =====
-- crates/basecrawl-core/src/canonical.rs: the hashes of a scrape's surface. SHA-256 and SHA-512 are
-- functions from bytes to the hexadecimal text of the digest, `serde_json::to_string` is a function
-- on values, and a hasher that is fed in parts is fed their concatenation.
pub mod Surface
pub mod Agreement
pub mod Manifest
pub mod Binding
mod Tests
use basecrawl.Prelude.{
  ℕ, ◌+◌, Bool, true, false, not, Option, none, some, List, [], ◌∷◌, ◌++◌, Text, codes, as_bytes,
  to_ascii_lowercase, is_empty, length, if◌then◌else◌,
}
use basecrawl.TextMap.{TextMap, get, insert}
use basecrawl.Json.{Value, is_null, structural_field_count}
use basecrawl.Proof.{ScrapeProof, CompletenessManifest, FormatCompleteness}

abbrev pub deterministic_formats : List Text
deterministic_formats =
    codes "markdown" ∷ codes "html" ∷ codes "rawHtml" ∷ codes "links" ∷ codes "metadata" ∷ []

-- the components of a preimage, each closed by a zero byte
unfoldable pub zero_closed : List Text → List ℕ
zero_closed [] = []
zero_closed (c ∷ cs) = as_bytes c ++ 0 ∷ zero_closed cs

-- the components of a preimage without separators
unfoldable pub joined : List Text → List ℕ
joined [] = []
joined (c ∷ cs) = as_bytes c ++ joined cs

module _ (canonical_json : Value → Text) where
  -- what a format adds to the preimage
  unfoldable pub folded : Text → Option Value → List ℕ
  folded name none = []
  folded name (some value) = as_bytes name ++ 0 ∷ as_bytes (canonical_json value) ++ 0 ∷ []

  unfoldable pub surface : List Text → TextMap Value → List ℕ
  unfolding folded
  surface [] formats = []
  surface (name ∷ names) formats = folded name (get formats name) ++ surface names formats

  module _ (sha256 : List ℕ → Text) where
    unfoldable pub result_hash : TextMap Value → Text
    unfolding surface
    result_hash formats = sha256 (surface deterministic_formats formats)

  -- what the manifest says of a format: `value.filter(|v| !v.is_null())` and its uses
  unfoldable pub present_value : Option Value → Option Value
  present_value none = none
  present_value (some v) = if is_null v then none else some v

  unfoldable pub entry : Option Value → FormatCompleteness
  entry none = record { requested = true; present = false; byte_size = 0; key_field_count = 0 }
  entry (some v) = record {
    requested = true;
    present = true;
    byte_size = length (as_bytes (canonical_json v));
    key_field_count = structural_field_count v;
  }

  unfoldable pub count : Option Value → ℕ
  count none = 0
  count (some v) = 1

  -- the loop over the requested formats
  unfoldable pub tally :
      TextMap Value → List Text → ℕ × TextMap FormatCompleteness → ℕ × TextMap FormatCompleteness
  unfolding present_value entry count
  tally produced [] acc = acc
  tally produced (format ∷ more) (n, formats) =
      let value = present_value (get produced format) in
      tally produced more (n + count value, insert format (entry value) formats)

  unfoldable pub completeness_manifest : List Text → TextMap Value → CompletenessManifest
  unfolding tally
  completeness_manifest requested produced =
      let (n, formats) = tally produced requested (0, []) in
      record {
        version = 1;
        requested_format_count = length requested;
        present_format_count = n;
        formats = formats;
      }

abbrev pub unwrap_or_default : Option Text → Text
unwrap_or_default none = []
unwrap_or_default (some t) = t

module _ (sha256 : List ℕ → Text) where
  abbrev pub lower_headers : List (Text × Text) → List Text
  lower_headers [] = []
  lower_headers ((name, value) ∷ hs) = to_ascii_lowercase name ∷ value ∷ lower_headers hs

  unfoldable pub headers_hash : List (Text × Text) → Text
  unfolding zero_closed
  headers_hash headers = sha256 (zero_closed (lower_headers headers))

  unfoldable pub body_hash : List ℕ → Text
  body_hash body = sha256 body

  unfoldable pub response_hash : Text → Text → Text
  unfolding joined
  response_hash headers body = sha256 (joined (headers ∷ body ∷ []))

  unfoldable pub request_hash : Text → Text → Text → Text → Text
  unfolding zero_closed
  request_hash method url headers body = sha256 (zero_closed (method ∷ url ∷ headers ∷ body ∷ []))

  unfoldable pub manifest_sha256 : Text → Option Text → Text → Text
  unfolding zero_closed
  manifest_sha256 url nonce result =
      sha256 (zero_closed (url ∷ unwrap_or_default nonce ∷ result ∷ []))

-- `Result<_, ReportDataError>`: the error is the field that is missing
pub data Bound {ℓ} (A : Type ℓ) : Type ℓ where
  ok : A → Bound A
  missing : Text → Bound A

infixl 5 ◌>>=◌
abbrev pub ◌>>=◌ : {A B : Type 0} → Bound A → (A → Bound B) → Bound B
missing field >>= next = missing field
ok value >>= next = next value

unfoldable pub required : Option Text → Text → Bound Text
unfolding is_empty
required none field = missing field
required (some value) field = if is_empty value then missing field else ok value

abbrev pub attestation_domain_tag : Text
attestation_domain_tag = codes "basecrawl/scrape-proof-report-data/v1" ++ 0 ∷ []

module _ (sha256 : List ℕ → Text) where
  unfoldable pub components : ScrapeProof → Bound (List Text)
  unfolding required response_hash
  components proof = do
    headers ← required proof.response.headers_hash (codes "response.headers_hash")
    body ← required proof.response.body_hash (codes "response.body_hash")
    task_id ← required proof.task_id (codes "task_id")
    nonce ← required proof.nonce (codes "nonce")
    request ← required proof.request.request_hash (codes "request.request_hash")
    chain ← required proof.tls.cert_chain_hash (codes "tls.cert_chain_hash")
    transcript ←
        required proof.tls.handshake_transcript_hash (codes "tls.handshake_transcript_hash")
    result ← required proof.result.result_hash (codes "result.result_hash")
    ip ← required proof.egress.egress_ip (codes "egress.egress_ip")
    timestamp ← required proof.egress.timestamp (codes "egress.timestamp")
    seed ← required proof.egress.fingerprint_seed (codes "egress.fingerprint_seed")
    key ← required proof.sdk_signature.enclave_pubkey (codes "sdk_signature.enclave_pubkey")
    ok (
        task_id
        ∷ nonce
        ∷ request
        ∷ chain
        ∷ transcript
        ∷ response_hash sha256 headers body
        ∷ result
        ∷ ip
        ∷ timestamp
        ∷ seed
        ∷ key
        ∷ [])

  module _ (sha512 : List ℕ → Text) where
    unfoldable pub attestation_report_data : ScrapeProof → Bound Text
    unfolding components joined
    attestation_report_data proof = do
      parts ← components proof
      ok (sha512 (joined (attestation_domain_tag ∷ parts)))
