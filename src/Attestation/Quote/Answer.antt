-- ===== src/Attestation/Quote/Answer.antt =====
-- What an accepted answer of the guest agent carries.
use basecrawl.Prelude.{
  ℕ, false, not, ◌||◌, some, List, Text, text_eq, text_eq_iff, is_empty, to_ascii_lowercase, ◌≡◌,
  ap, sym, ◌∙◌, arith,
}
use basecrawl.Json.{is_null, is_empty_json}
use basecrawl.Attestation.Hex.{decode_hex, encode_hex}
use basecrawl.Attestation.Hex.RoundTrip.{decode_hex-encode_hex, decode_hex-IsHex}
use basecrawl.Attestation.Quoted.{ok, bind_parts, refuse-eq-ok}
use basecrawl.Attestation.Quote.{
  slice, QuoteResponse, decode_quote, quote_report_data, validate_tdx_v4_quote,
  validate_quote_response,
}

decode_quote-ok : (t : Text) {q : List ℕ} → decode_quote t ≡ ok q → decode_hex t ≡ some q
unfolding decode_quote
decode_quote-ok t h = ground arith

same_text : (s t : Text) → not (text_eq s t) ≡ false → s ≡ t
same_text s t h = (text_eq_iff s t).0 (ground arith)

ok-injective {ℓ} : {A : Type ℓ} (a b : A) → ok a ≡ ok b → a ≡ b
ok-injective a b h = cc

-- The quote that an accepted answer holds, for the report data that was asked for.
pub record IsBound (given answer : QuoteResponse) (expected : Text) (bytes : List ℕ) : Type 0 where
  pub decoded : decode_hex answer.quote ≡ some bytes
  pub layout : validate_tdx_v4_quote bytes ≡ ok tt
  pub embedded : encode_hex (slice bytes 568 632) ≡ expected
  pub returned : answer.report_data ≡ expected
  pub same_quote : answer.quote ≡ to_ascii_lowercase given.quote
  pub same_log : answer.event_log ≡ given.event_log
  pub same_config : answer.vm_config ≡ given.vm_config
  pub has_log : (is_null answer.event_log || is_empty_json answer.event_log) ≡ false
  pub has_config : (is_null answer.vm_config || is_empty_json answer.vm_config) ≡ false

embedded_data :
    (t : Text) {q : List ℕ} {d : Text}
    → decode_quote t ≡ ok q
    → quote_report_data t ≡ ok d
    → encode_hex (slice q 568 632) ≡ d
unfolding quote_report_data
embedded_data t {q} {d} e h =
    let (q', e', h') = bind_parts (decode_quote t) _ h in
    let same : q' ≡ q = ok-injective q' q (sym e' ∙ e) in
    let (u, v, h'') = bind_parts (validate_tdx_v4_quote q') _ h' in
    ap (λ x. encode_hex (slice x 568 632)) (sym same)
    ∙ ok-injective (encode_hex (slice q' 568 632)) d h''

-- If the check of the guest agent's answer accepts it for the expected report data, then the quote
-- of the result decodes to bytes with the layout of a TDX v4 quote, whose report data field and the
-- answer's own report data are both the expected one; the quote is the given one in lower case, and
-- the event log and the VM configuration are the given ones and neither null nor empty.
pub validate_quote_response-IsBound :
    (response answer : QuoteResponse) (expected : Text)
    → validate_quote_response response expected ≡ ok answer
    → (bytes : List ℕ) × IsBound response answer expected bytes
unfolding validate_quote_response
validate_quote_response-IsBound r a e h =
    let (t0, h0) = refuse-eq-ok (is_empty r.quote) _ _ h in
    let (t1, h1) = refuse-eq-ok (is_null r.event_log || is_empty_json r.event_log) _ _ h0 in
    let (t2, h2) = refuse-eq-ok (is_null r.vm_config || is_empty_json r.vm_config) _ _ h1 in
    let (q, e3, h3) = bind_parts (decode_quote r.quote) _ h2 in
    let (u, e4, h4) = bind_parts (validate_tdx_v4_quote q) _ h3 in
    let (d, e5, h5) = bind_parts (quote_report_data r.quote) _ h4 in
    let (t6, h6) = refuse-eq-ok (not (text_eq (to_ascii_lowercase r.report_data) e)) _ _ h5 in
    let (t7, h7) = refuse-eq-ok (not (text_eq d e)) _ _ h6 in
    let hex = decode_hex-IsHex r.quote q (decode_quote-ok r.quote e3) in
    let same =
      ok-injective
        (record r { quote = encode_hex q; report_data = to_ascii_lowercase r.report_data }) a h7 in
    let quote_same = ap (λ x. x.quote) same in
    (
      q,
      record {
        decoded = ap decode_hex (sym quote_same) ∙ decode_hex-encode_hex q hex.bound;
        layout = e4;
        embedded = embedded_data r.quote e3 e5 ∙ same_text d e t7;
        returned =
            sym (ap (λ x. x.report_data) same) ∙ same_text (to_ascii_lowercase r.report_data) e t6;
        same_quote = sym quote_same ∙ hex.text;
        same_log = sym (ap (λ x. x.event_log) same);
        same_config = sym (ap (λ x. x.vm_config) same);
        has_log = ap (λ x. is_null x || is_empty_json x) (sym (ap (λ x. x.event_log) same)) ∙ t1;
        has_config = ap (λ x. is_null x || is_empty_json x) (sym (ap (λ x. x.vm_config) same)) ∙ t2;
      },
    )
