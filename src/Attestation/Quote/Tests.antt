-- ===== src/Attestation/Quote/Tests.antt =====
-- The theorems on quotes at the smallest quote of the layout.
use basecrawl.Prelude.{
  ℕ, zero, suc, codes, [], ◌∷◌, ◌++◌, ◌≡◌, refl, arith, ◌↔◌, List, Text, replicate, as_bytes,
  is_empty, to_ascii_lowercase, trim, All, true,
}
use basecrawl.Json.{bool, is_null, is_empty_json}
use basecrawl.Attestation.Hex.{decode_hex, encode_hex}
use basecrawl.Attestation.Hex.RoundTrip.{IsByte}
use basecrawl.Attestation.Quoted.{ok}
use basecrawl.Attestation.Quote.{
  validate_tdx_v4_quote, QuoteResponse, validate_quote_response, normalize_report_data,
}
use basecrawl.Attestation.Quote.Layout.{IsQuote, validate_tdx_v4_quote_iff}
use basecrawl.Attestation.Quote.Answer.{IsBound, validate_quote_response-IsBound}
use basecrawl.Attestation.Quote.ReportData.{IsNormal, normalize_report_data-IsNormal}

abbrev zeros : ℕ → List ℕ
zeros n = replicate n 0

abbrev quote : List ℕ
quote =
    4 ∷ 0 ∷ 0 ∷ 0 ∷ 0x81 ∷ 0 ∷ 0 ∷ 0 ∷ zeros 624
    ++ 79 ∷ 2 ∷ 0 ∷ 0 ∷ zeros 128
    ++ 6 ∷ 0 ∷ 201 ∷ 1 ∷ 0 ∷ 0 ∷ zeros 448
    ++ 0 ∷ 0 ∷ 5 ∷ 0 ∷ 1 ∷ 0 ∷ 0 ∷ 0 ∷ 9 ∷ []

accepted : validate_tdx_v4_quote quote ≡ ok tt
unfolding validate_tdx_v4_quote
accepted = refl

layout_example :
    (validate_tdx_v4_quote quote ≡ ok tt) ↔ ((auth : ℕ) × (cert : ℕ) × IsQuote quote auth cert)
layout_example = validate_tdx_v4_quote_iff quote (omega arith)

abbrev nothing : Text
nothing = replicate 128 b'0'

abbrev answer : QuoteResponse
answer = record {
  quote = encode_hex quote;
  event_log = bool true;
  report_data = nothing;
  vm_config = bool true;
}

answer_accepted : validate_quote_response answer nothing ≡ ok answer
unfolding validate_quote_response encode_hex decode_hex as_bytes is_empty is_null is_empty_json
    to_ascii_lowercase
answer_accepted = refl

answer_example : (bytes : List ℕ) × IsBound answer answer nothing bytes
answer_example = validate_quote_response-IsBound answer answer nothing answer_accepted

abbrev digest : List ℕ → List ℕ
digest _ = replicate 32 7

sevens : (n : ℕ) → All IsByte (replicate n 7)
sevens zero = tt
sevens (suc n) = (omega arith, sevens n)

abbrev normal : Text
normal = codes "ab" ++ replicate 126 b'0'

normalised : normalize_report_data digest (codes " AB ") ≡ ok normal
unfolding normalize_report_data encode_hex decode_hex as_bytes trim is_empty
normalised = refl

normalize_example : (bytes : List ℕ) × IsNormal digest (codes " AB ") normal bytes
normalize_example =
    normalize_report_data-IsNormal digest (λ bs. (refl, sevens 32)) (codes " AB ") normal normalised
