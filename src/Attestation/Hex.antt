-- ===== src/Attestation/Hex.antt =====
-- The hexadecimal text of crates/basecrawl-core/src/attestation.rs: `decode_hex`, `hex_nibble` and
-- `encode_hex`.
pub mod RoundTrip
use basecrawl.Prelude.{
  ℕ, ◌+◌, ◌*◌, ◌-◌, ◌/◌, ◌%◌, ◌^◌, Bool, true, false, ◌&&◌, Option, none, some, List, [], ◌∷◌, Text,
  as_bytes, length, leb, ltb, ◌==◌, if◌then◌else◌,
}

unfoldable pub hex_nibble : ℕ → Option ℕ
hex_nibble c =
    if leb b'0' c && leb c b'9'
    then some (c - b'0')
    else if leb b'a' c && leb c b'f'
    then some (c - b'a' + 10)
    else if leb b'A' c && leb c b'F'
    then some (c - b'A' + 10)
    else none

-- `(high << 4) | low` in a byte, consed to what the later pairs give
unfoldable pub join_pair : Option ℕ → Option ℕ → Option (List ℕ) → Option (List ℕ)
join_pair (some high) (some low) (some rest) = some ((high * 16 % 256 + low) ∷ rest)
join_pair _ _ _ = none

-- the pairs of `chunks_exact(2)`, which leaves out a last byte alone
unfoldable pub decode_pairs : List ℕ → Option (List ℕ)
unfolding hex_nibble join_pair
decode_pairs (c ∷ d ∷ rest) = join_pair (hex_nibble c) (hex_nibble d) (decode_pairs rest)
decode_pairs _ = some []

unfoldable pub decode_hex : Text → Option (List ℕ)
unfolding decode_pairs
decode_hex value =
    let bytes = as_bytes value in if length bytes % 2 == 0 then decode_pairs bytes else none

unfoldable pub hex_digit : ℕ → ℕ
hex_digit n = if ltb n 10 then b'0' + n else b'a' + (n - 10)

-- `{byte:02x}` of each byte
unfoldable pub encode_hex : List ℕ → Text
unfolding hex_digit
encode_hex [] = []
encode_hex (b ∷ bs) = hex_digit (b / 16) ∷ hex_digit (b % 16) ∷ encode_hex bs
