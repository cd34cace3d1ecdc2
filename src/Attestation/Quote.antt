-- ===== src/Attestation/Quote.antt =====
-- The quotes of crates/basecrawl-core/src/attestation.rs: the layout check of a TDX v4 quote, what
-- is read from one, the normalised report data, and the check of the guest agent's answer.
pub mod Slices
pub mod SignatureData
pub mod Layout
pub mod Answer
pub mod ReportData
mod Tests
use basecrawl.Prelude.{
  ℕ, ◌+◌, ◌*◌, ◌-◌, Bool, true, false, not, ◌||◌, Option, none, some, List, [], ◌∷◌, ◌++◌, Text,
  codes, text_eq, trim, is_empty, as_bytes, to_ascii_lowercase, length, take, drop, replicate, all,
  ltb, leb, ◌==◌, if◌then◌else◌, ◌%◌,
}
use basecrawl.Json.{Value, is_null, is_empty_json}
use basecrawl.Proof.{TdxMeasurement}
use basecrawl.Attestation.Hex.{decode_hex, encode_hex, hex_nibble}
use basecrawl.Attestation.Quoted.{
  QuoteRequestError, Quoted, ok, err, ◌>>=◌, ◌>>◌, refuse, checked_add, empty_report_data,
  invalid_report_data, missing_field, invalid_quote, quote_too_short, invalid_quote_header,
  malformed_quote, quote_report_data_mismatch, report_data_mismatch,
}

abbrev pub min_quote_bytes : ℕ
min_quote_bytes = 1227

abbrev pub min_signature_data_bytes : ℕ
min_signature_data_bytes = 591

abbrev pub signature_data_length_offset : ℕ
signature_data_length_offset = 632

abbrev pub signature_data_offset : ℕ
signature_data_offset = 636

-- `value[from..to]`
abbrev pub slice : List ℕ → ℕ → ℕ → List ℕ
slice value from to = take (to - from) (drop from value)

-- `from_le_bytes`
abbrev pub from_le_bytes : List ℕ → ℕ
from_le_bytes [] = 0
from_le_bytes (b ∷ bs) = b + 256 * from_le_bytes bs

unfoldable pub read_u16 : List ℕ → ℕ → Quoted ℕ
read_u16 value offset =
    if leb (offset + 2) (length value)
    then ok (from_le_bytes (slice value offset (offset + 2)))
    else err (malformed_quote (codes "missing two-byte length or type field"))

unfoldable pub read_u32 : List ℕ → ℕ → Quoted ℕ
read_u32 value offset =
    if leb (offset + 4) (length value)
    then ok (from_le_bytes (slice value offset (offset + 4)))
    else err (malformed_quote (codes "missing four-byte length field"))

-- The certification data: from the QE envelope to the end of the signature sd.
unfoldable pub check_signature_data : List ℕ → Quoted (Unit {0})
unfolding read_u16 read_u32
check_signature_data sd = do
  outer_type ← read_u16 sd 128
  outer_length ← read_u32 sd 130
  refuse (not (outer_type == 6))
      (malformed_quote (codes "signature data has no QE report certification envelope"))
  outer_end ←
      checked_add 134 outer_length (malformed_quote (codes "QE certification data length overflow"))
  refuse (not (outer_end == length sd))
      (malformed_quote (codes "QE certification data length does not match signature data"))
  refuse (ltb outer_length 457)
      (malformed_quote (codes "QE report certification data is truncated"))
  authentication_data_length ← read_u16 sd 582
  cursor ←
      checked_add 584 authentication_data_length
        (malformed_quote (codes "authentication data length overflow"))
  refuse (ltb outer_end (cursor + 6)) (malformed_quote (codes "authentication data is truncated"))
  certification_type ← read_u16 sd cursor
  certification_data_length ← read_u32 sd (cursor + 2)
  refuse (not (certification_type == 5))
      (malformed_quote (codes "QE report has no PCK certificate-chain data"))
  refuse (ltb certification_data_length 1)
      (malformed_quote (codes "PCK certification data is empty"))
  certification_end ←
      checked_add (cursor + 6) certification_data_length
        (malformed_quote (codes "PCK certification data length overflow"))
  refuse (not (certification_end == outer_end))
      (malformed_quote (codes "PCK certification data is truncated or has trailing bytes"))

unfoldable pub validate_tdx_v4_quote : List ℕ → Quoted (Unit {0})
unfolding read_u32 check_signature_data
validate_tdx_v4_quote quote = do
  refuse (ltb (length quote) min_quote_bytes)
      (quote_too_short (length quote * 2) (min_quote_bytes * 2))
  refuse
      (not (from_le_bytes (slice quote 0 2) == 4) || not (from_le_bytes (slice quote 4 8) == 0x81))
      invalid_quote_header
  signature_data_length ← read_u32 quote signature_data_length_offset
  refuse (ltb signature_data_length min_signature_data_bytes)
      (malformed_quote (codes "signature data is too short"))
  declared_quote_end ←
      checked_add signature_data_offset signature_data_length
        (malformed_quote (codes "signature data length overflow"))
  refuse (ltb (length quote) declared_quote_end)
      (malformed_quote (codes "declared signature data is truncated"))
  refuse (not (all (λ byte. byte == 0) (drop declared_quote_end quote)))
      (malformed_quote (codes "non-zero bytes follow declared signature data"))
  check_signature_data (slice quote signature_data_offset declared_quote_end)

unfoldable pub decode_quote : Text → Quoted (List ℕ)
decode_quote quote_hex = elim (decode_hex quote_hex) [ none ↦ err invalid_quote | some q ↦ ok q ]

unfoldable pub quote_measurement : Text → Quoted TdxMeasurement
unfolding decode_quote validate_tdx_v4_quote
quote_measurement quote_hex = do
  quote ← decode_quote quote_hex
  validate_tdx_v4_quote quote
  ok (record {
    mrtd = encode_hex (slice quote 184 232);
    rtmr0 = encode_hex (slice quote 376 424);
    rtmr1 = encode_hex (slice quote 424 472);
    rtmr2 = encode_hex (slice quote 472 520);
    rtmr3 = encode_hex (slice quote 520 568);
  })

unfoldable pub quote_report_data : Text → Quoted Text
unfolding decode_quote validate_tdx_v4_quote
quote_report_data quote_hex = do
  quote ← decode_quote quote_hex
  validate_tdx_v4_quote quote
  ok (encode_hex (slice quote 568 632))

pub record QuoteResponse : Type 0 where
  pub quote : Text
  pub event_log : Value
  pub report_data : Text
  pub vm_config : Value

unfoldable pub validate_quote_response : QuoteResponse → Text → Quoted QuoteResponse
unfolding decode_quote validate_tdx_v4_quote quote_report_data
validate_quote_response response expected = do
  refuse (is_empty response.quote) (missing_field (codes "quote"))
  refuse (is_null response.event_log || is_empty_json response.event_log)
      (missing_field (codes "event_log"))
  refuse (is_null response.vm_config || is_empty_json response.vm_config)
      (missing_field (codes "vm_config"))
  quote ← decode_quote response.quote
  validate_tdx_v4_quote quote
  embedded ← quote_report_data response.quote
  let returned = to_ascii_lowercase response.report_data
  refuse (not (text_eq returned expected)) (report_data_mismatch expected returned)
  refuse (not (text_eq embedded expected)) quote_report_data_mismatch
  ok (record response { quote = encode_hex quote; report_data = returned })

-- `is_ascii_hexdigit`
abbrev pub is_ascii_hexdigit : ℕ → Bool
is_ascii_hexdigit c = elim (hex_nibble c) [ none ↦ false | some _ ↦ true ]

-- SHA-256 as a function on bytes
module _ (sha256 : List ℕ → List ℕ) where
  abbrev pub field_value : List ℕ → List ℕ
  field_value bytes = if ltb 64 (length bytes) then sha256 bytes else bytes

  unfoldable pub normalize_report_data : Text → Quoted Text
  normalize_report_data raw =
      let input = trim raw in
      if is_empty input
      then err empty_report_data
      else if not (length (as_bytes input) % 2 == 0) || not (all is_ascii_hexdigit (as_bytes input))
      then err invalid_report_data
      else elim (decode_hex input) [
        | none ↦ err invalid_report_data
        | some bytes ↦
            ok
              (encode_hex (field_value bytes ++ drop (length (field_value bytes)) (replicate 64 0)))
      ]
