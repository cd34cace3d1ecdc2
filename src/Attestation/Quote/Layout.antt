-- ===== src/Attestation/Quote/Layout.antt =====
-- A quote passes the check exactly if it has the layout of a TDX v4 quote, at offsets in the quote.
use basecrawl.Prelude.{
  ℕ, ◌+◌, ◌≤◌, ◌<◌, Bool, true, false, not, ◌||◌, List, codes, length, drop, all, ltb, ◌==◌, ◌≡◌,
  refl, ap, arith, ◌↔◌, ◌∙◌, subst, sym,
}
use basecrawl.Attestation.Quoted.{ok, checked_add, bind_parts, refuse-eq-ok, malformed_quote}
use basecrawl.Attestation.Quote.Slices.{field, field-slice, length-slice}
use basecrawl.Attestation.Quote.SignatureData.{
  IsSignatureData, check_signature_data_sound, check_signature_data_complete, read_u32-ok,
  read_u32-lt, checked_add-ok, checked_add-lt, le_not, not_lt,
}
use basecrawl.Attestation.Quote.{
  slice, read_u32, check_signature_data, validate_tdx_v4_quote, min_quote_bytes,
  min_signature_data_bytes,
}

-- The layout of a TDX v4 quote with `auth` bytes of authentication data and `cert` of certificates.
pub record IsQuote (quote : List ℕ) (auth cert : ℕ) : Type 0 where
  pub version : field quote 0 2 ≡ 4
  pub tee : field quote 4 4 ≡ 0x81
  pub signature_length : field quote 632 4 ≡ 590 + auth + cert
  pub envelope : field quote 764 2 ≡ 6
  pub outer : field quote 766 4 ≡ 456 + auth + cert
  pub authentication : field quote 1218 2 ≡ auth
  pub certification : field quote (1220 + auth) 2 ≡ 5
  pub certificate_length : field quote (1222 + auth) 4 ≡ cert
  pub certificates : 1 ≤ cert
  pub fits : 1226 + auth + cert ≤ length quote
  pub padding : all (λ byte. byte == 0) (drop (1226 + auth + cert) quote) ≡ true

not_all : (b : Bool) → not b ≡ false → b ≡ true
not_all true h = refl
not_all false h = cc

all_not : (b : Bool) → b ≡ true → not b ≡ false
all_not b h = ground arith

either : (a b c d : ℕ) → (not (a == b) || not (c == d)) ≡ false → (a ≡ b) × (c ≡ d)
either a b c d h = (ground arith, ground arith)

neither : (a b c d : ℕ) → a ≡ b → c ≡ d → (not (a == b) || not (c == d)) ≡ false
neither a b c d h k = ground arith

-- what the whole-quote tests leave
record Outside (quote : List ℕ) (sig : ℕ) : Type 0 where
  header : (field quote 0 2 ≡ 4) × (field quote 4 4 ≡ 0x81)
  signature_length : field quote 632 4 ≡ sig
  fits : 636 + sig ≤ length quote
  padding : all (λ byte. byte == 0) (drop (636 + sig) quote) ≡ true
  inside : check_signature_data (slice quote 636 (636 + sig)) ≡ ok tt

outside : (quote : List ℕ) → validate_tdx_v4_quote quote ≡ ok tt → (sig : ℕ) × Outside quote sig
unfolding validate_tdx_v4_quote
outside quote h =
    let (t0, h0) = refuse-eq-ok (ltb (length quote) min_quote_bytes) _ _ h in
    let (t1, h1) =
      refuse-eq-ok (not (field quote 0 2 == 4) || not (field quote 4 4 == 0x81)) _ _ h0 in
    let (sig, e2, h2) = bind_parts (read_u32 quote 632) _ h1 in
    let (t3, h3) = refuse-eq-ok (ltb sig min_signature_data_bytes) _ _ h2 in
    let (end_, e4, h4) = bind_parts (checked_add 636 sig _) _ h3 in
    let (t5, h5) = refuse-eq-ok (ltb (length quote) end_) _ _ h4 in
    let (t6, h6) = refuse-eq-ok (not (all (λ byte. byte == 0) (drop end_ quote))) _ _ h5 in
    let at : 636 + sig ≡ end_ = checked_add-ok 636 sig _ e4 in
    let back : end_ ≡ 636 + sig = sym at in
    (
      sig,
      record {
        header = either (field quote 0 2) 4 (field quote 4 4) 0x81 t1;
        signature_length = (read_u32-ok quote 632 e2).1;
        fits = subst (λ n. n ≤ length quote) back (not_lt (length quote) end_ t5);
        padding = subst (λ n. all (λ byte. byte == 0) (drop n quote) ≡ true) back (not_all _ t6);
        inside = subst (λ n. check_signature_data (slice quote 636 n) ≡ ok tt) back h6;
      },
    )

-- a number of the signature data, read in the quote
inner :
    (quote : List ℕ) (sig offset width at : ℕ)
    → offset + width ≤ sig
    → 636 + offset ≡ at
    → field (slice quote 636 (636 + sig)) offset width ≡ field quote at width
inner quote sig offset width at h e =
    field-slice quote 636 (636 + sig) offset width (omega arith) ∙ ap (λ n. field quote n width) e

slice_size :
    (quote : List ℕ) (sig : ℕ)
    → 636 + sig ≤ length quote
    → length (slice quote 636 (636 + sig)) ≡ sig
slice_size quote sig h = length-slice quote 636 (636 + sig) (omega arith) h ∙ omega arith

translate :
    (quote : List ℕ) (sig auth cert : ℕ)
    → Outside quote sig
    → IsSignatureData (slice quote 636 (636 + sig)) auth cert
    → IsQuote quote auth cert
translate quote sig auth cert o d =
    let total : sig ≡ 590 + auth + cert = sym (slice_size quote sig o.fits) ∙ d.size in
    let some_cert : 1 ≤ cert = d.certificates in
    let end_ : 636 + sig ≡ 1226 + auth + cert = omega (arith, total) in
    record {
      version = o.header.0;
      tee = o.header.1;
      signature_length = o.signature_length ∙ total;
      envelope = sym (inner quote sig 128 2 764 (omega (arith, total)) refl) ∙ d.envelope;
      outer = sym (inner quote sig 130 4 766 (omega (arith, total)) refl) ∙ d.outer;
      authentication =
          sym (inner quote sig 582 2 1218 (omega (arith, total)) refl) ∙ d.authentication;
      certification =
          sym (inner quote sig (584 + auth) 2 (1220 + auth) (omega (arith, total)) (omega arith))
          ∙ d.certification;
      certificate_length =
          sym (inner quote sig (586 + auth) 4 (1222 + auth) (omega (arith, total)) (omega arith))
          ∙ d.certificate_length;
      certificates = some_cert;
      fits = subst (λ n. n ≤ length quote) end_ o.fits;
      padding = subst (λ n. all (λ byte. byte == 0) (drop n quote) ≡ true) end_ o.padding;
    }

fits_sum : (len auth cert : ℕ) → 1226 + auth + cert ≤ len → 636 + (590 + auth + cert) ≤ len
fits_sum len auth cert h = omega arith

signature_data :
    (quote : List ℕ) (auth cert : ℕ)
    → IsQuote quote auth cert
    → IsSignatureData (slice quote 636 (636 + (590 + auth + cert))) auth cert
signature_data quote auth cert q =
    let sig = 590 + auth + cert in
    let some_cert : 1 ≤ cert = q.certificates in
    record {
      envelope = inner quote sig 128 2 764 (omega arith) refl ∙ q.envelope;
      outer = inner quote sig 130 4 766 (omega arith) refl ∙ q.outer;
      authentication = inner quote sig 582 2 1218 (omega arith) refl ∙ q.authentication;
      certification =
          inner quote sig (584 + auth) 2 (1220 + auth) (omega arith) (omega arith)
          ∙ q.certification;
      certificate_length =
          inner quote sig (586 + auth) 4 (1222 + auth) (omega arith) (omega arith)
          ∙ q.certificate_length;
      size = slice_size quote sig (fits_sum (length quote) auth cert q.fits);
      certificates = some_cert;
    }

complete :
    (quote : List ℕ) (auth cert : ℕ)
    → length quote < 18446744073709551616
    → IsQuote quote auth cert
    → validate_tdx_v4_quote quote ≡ ok tt
unfolding validate_tdx_v4_quote
complete quote auth cert lt q =
    let some_cert : 1 ≤ cert = q.certificates in
    let fits : 1226 + auth + cert ≤ length quote = q.fits in
    let sig = 590 + auth + cert in
    let inside = signature_data quote auth cert q in
    rw
      (
        le_not (length quote) 1227 (omega arith),
        neither (field quote 0 2) 4 (field quote 4 4) 0x81 q.version q.tee,
        read_u32-lt quote 632 sig (omega arith) q.signature_length,
        le_not sig 591 (omega arith),
        checked_add-lt 636 sig (636 + sig)
            (malformed_quote (codes "signature data length overflow")) refl (omega arith),
        le_not (length quote) (636 + sig) (omega arith),
        subst (λ n. all (λ byte. byte == 0) (drop n quote) ≡ true) {x = 1226 + auth + cert}
            {y = 636 + sig} (omega arith) q.padding,
      )
      (check_signature_data_complete (slice quote 636 (636 + sig)) auth cert
        (omega (arith, inside.size)) inside)

-- For a quote of a length that fits a word: the layout check accepts it exactly if it is laid out as
-- a TDX v4 quote, for some sizes of authentication data and certificates: version 4, TEE type 0x81,
-- a QE report envelope of type 6 that fills the signature data, a certificate chain of type 5 that
-- is not empty and ends where the envelope ends, and nothing but zeros after that.
pub validate_tdx_v4_quote_iff :
    (quote : List ℕ)
    → length quote < 18446744073709551616
    → (validate_tdx_v4_quote quote ≡ ok tt) ↔ ((auth : ℕ) × (cert : ℕ) × IsQuote quote auth cert)
validate_tdx_v4_quote_iff quote lt = (
  λ h.
      let (sig, o) = outside quote h in
      let (auth, cert, d) = check_signature_data_sound (slice quote 636 (636 + sig)) o.inside in
      (auth, cert, translate quote sig auth cert o d),
  λ (auth, cert, q). complete quote auth cert lt q,
)
