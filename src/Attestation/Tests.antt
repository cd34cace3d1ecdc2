-- ===== src/Attestation/Tests.antt =====
-- The theorem on hexadecimal text at concrete texts.
use basecrawl.Prelude.{codes, [], ◌∷◌, ◌≡◌, refl, some, arith, as_bytes}
use basecrawl.Attestation.Hex.{decode_hex, encode_hex}
use basecrawl.Attestation.Hex.RoundTrip.{decode_hex-encode_hex}

decode_example : decode_hex (encode_hex (171 ∷ 0 ∷ 255 ∷ [])) ≡ some (171 ∷ 0 ∷ 255 ∷ [])
decode_example =
    decode_hex-encode_hex (171 ∷ 0 ∷ 255 ∷ []) (omega arith, (omega arith, (omega arith, tt)))

decodes : decode_hex (codes "AbfF") ≡ some (171 ∷ 255 ∷ [])
unfolding decode_hex as_bytes
decodes = refl
