-- ===== src/Canonical/Tests.antt =====
-- The theorems on the hashes, with the identity for a digest.
use basecrawl.Prelude.{ℕ, codes, none, some, [], ◌∷◌, Text, List, ◌≡◌, refl, as_bytes, ◌↔◌}
use basecrawl.TextMap.{TextMap, insert, get, text_lt}
use basecrawl.Json.{Value, null, str}
use basecrawl.Proof.Samples.{toy_proof}
use basecrawl.Canonical.{
  result_hash, manifest_sha256, completeness_manifest, attestation_report_data, ok,
}
use basecrawl.Canonical.Surface.{IsClean, AllClean, SameBytes, no_zeros, request_hash-injective}
use basecrawl.Canonical.Agreement.{IsSameSurface, result_hash_iff}
use basecrawl.Canonical.Manifest.{IsManifest, completeness_manifest-IsManifest}
use basecrawl.Canonical.Binding.{IsAttestable, attestation_report_data_iff}

abbrev print : Value → Text
print _ = codes "value"

print-IsClean : (v : Value) → IsClean (as_bytes (print v))
unfolding as_bytes
print-IsClean v = no_zeros (as_bytes (codes "value")) refl

abbrev digest : List ℕ → Text
digest bytes = bytes

abbrev formats : TextMap Value
formats = (codes "links", str (codes "x")) ∷ (codes "markdown", null) ∷ []

-- with two formats outside the surface
abbrev more : TextMap Value
more = insert (codes "json") null (insert (codes "screenshot") null formats)

result_hash_example :
    (result_hash print digest formats ≡ result_hash print digest more)
    ↔ IsSameSurface print formats more
result_hash_example = result_hash_iff print digest (λ a b h. h) print-IsClean formats more

outside : result_hash print digest more ≡ result_hash print digest formats
unfolding result_hash insert get as_bytes text_lt
outside = refl

request_clean : AllClean (codes "GET" ∷ codes "u" ∷ codes "h" ∷ codes "b" ∷ [])
unfolding as_bytes
request_clean = (
  no_zeros (as_bytes (codes "GET")) refl,
  (
    no_zeros (as_bytes (codes "u")) refl,
    (no_zeros (as_bytes (codes "h")) refl, (no_zeros (as_bytes (codes "b")) refl, tt)),
  ),
)

request_hash_example :
    SameBytes
      (codes "GET" ∷ codes "u" ∷ codes "h" ∷ codes "b" ∷ [])
      (codes "GET" ∷ codes "u" ∷ codes "h" ∷ codes "b" ∷ [])
request_hash_example =
    request_hash-injective digest (λ a b h. h) (codes "GET") (codes "u") (codes "h") (codes "b")
      (codes "GET") (codes "u") (codes "h") (codes "b") request_clean request_clean refl

same_key :
    manifest_sha256 digest (codes "u") none (codes "r")
    ≡ manifest_sha256 digest (codes "u") (some []) (codes "r")
unfolding manifest_sha256
same_key = refl

completeness_example :
    IsManifest print formats
      (codes "links" ∷ codes "markdown" ∷ codes "json" ∷ [])
      (completeness_manifest print (codes "links" ∷ codes "markdown" ∷ codes "json" ∷ []) formats)
completeness_example =
    completeness_manifest-IsManifest print formats
      (codes "links" ∷ codes "markdown" ∷ codes "json" ∷ [])

report_data_example :
    ((d : Text) × (attestation_report_data digest digest toy_proof ≡ ok d)) ↔ IsAttestable toy_proof
report_data_example = attestation_report_data_iff digest digest toy_proof
