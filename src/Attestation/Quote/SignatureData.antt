-- ===== src/Attestation/Quote/SignatureData.antt =====
-- The signature data of a quote pass their check exactly if they have the layout described here.
use basecrawl.Prelude.{
  ℕ, ◌+◌, ◌≤◌, ◌<◌, Bool, true, false, not, List, codes, length, ltb, ◌==◌, ◌≡◌, refl, ap, arith,
  ◌∙◌,
}
use basecrawl.Attestation.Quoted.{
  QuoteRequestError, ok, refuse, checked_add, bind_parts, refuse-eq-ok, malformed_quote,
}
use basecrawl.Attestation.Quote.Slices.{field}
use basecrawl.Attestation.Quote.{read_u16, read_u32, check_signature_data}

read_u16-ok :
    (value : List ℕ) (offset : ℕ) {n : ℕ}
    → read_u16 value offset ≡ ok n
    → (offset + 2 ≤ length value) × (field value offset 2 ≡ n)
unfolding read_u16
read_u16-ok value offset h = (ground arith, ground arith)

pub read_u32-ok :
    (value : List ℕ) (offset : ℕ) {n : ℕ}
    → read_u32 value offset ≡ ok n
    → (offset + 4 ≤ length value) × (field value offset 4 ≡ n)
unfolding read_u32
read_u32-ok value offset h = (ground arith, ground arith)

pub checked_add-ok :
    (a b : ℕ) (e : QuoteRequestError) {n : ℕ} → checked_add a b e ≡ ok n → a + b ≡ n
checked_add-ok a b e h = ground arith

pub refuse-ok : (test : Bool) (e : QuoteRequestError) → refuse test e ≡ ok tt → test ≡ false
refuse-ok true e h = cc
refuse-ok false e h = refl

pub not_eq : (a b : ℕ) → not (a == b) ≡ false → a ≡ b
not_eq a b h = ground arith

pub not_lt : (a b : ℕ) → ltb a b ≡ false → b ≤ a
not_lt a b h = ground arith

-- The signature data: the envelope holds the rest, which is the QE report and its signature, the
-- authentication data, and certification data up to the very end.
pub record IsSignatureData (sd : List ℕ) (auth cert : ℕ) : Type 0 where
  pub envelope : field sd 128 2 ≡ 6
  pub outer : field sd 130 4 ≡ 456 + auth + cert
  pub authentication : field sd 582 2 ≡ auth
  pub certification : field sd (584 + auth) 2 ≡ 5
  pub certificate_length : field sd (586 + auth) 4 ≡ cert
  pub size : length sd ≡ 590 + auth + cert
  pub certificates : 1 ≤ cert

sizes :
    (outer outer_end auth cursor cert end_ len : ℕ)
    → 134 + outer ≡ outer_end
    → 584 + auth ≡ cursor
    → cursor + 6 + cert ≡ end_
    → outer_end ≡ len
    → end_ ≡ outer_end
    → (outer ≡ 456 + auth + cert) × (len ≡ 590 + auth + cert) × (586 + auth ≡ cursor + 2)
sizes outer outer_end auth cursor cert end_ len a b c d e = (omega arith, omega arith, omega arith)

pub check_signature_data_sound :
    (sd : List ℕ)
    → check_signature_data sd ≡ ok tt
    → (auth : ℕ) × (cert : ℕ) × IsSignatureData sd auth cert
unfolding check_signature_data
check_signature_data_sound sd h =
    let (ty, e1, h1) = bind_parts (read_u16 sd 128) _ h in
    let (outer, e2, h2) = bind_parts (read_u32 sd 130) _ h1 in
    let (t3, h3) = refuse-eq-ok (not (ty == 6)) _ _ h2 in
    let (outer_end, e4, h4) = bind_parts (checked_add 134 outer _) _ h3 in
    let (t5, h5) = refuse-eq-ok (not (outer_end == length sd)) _ _ h4 in
    let (t6, h6) = refuse-eq-ok (ltb outer 457) _ _ h5 in
    let (auth, e7, h7) = bind_parts (read_u16 sd 582) _ h6 in
    let (cursor, e8, h8) = bind_parts (checked_add 584 auth _) _ h7 in
    let (t9, h9) = refuse-eq-ok (ltb outer_end (cursor + 6)) _ _ h8 in
    let (cty, e10, h10) = bind_parts (read_u16 sd cursor) _ h9 in
    let (cert, e11, h11) = bind_parts (read_u32 sd (cursor + 2)) _ h10 in
    let (t12, h12) = refuse-eq-ok (not (cty == 5)) _ _ h11 in
    let (t13, h13) = refuse-eq-ok (ltb cert 1) _ _ h12 in
    let (end_, e14, h14) = bind_parts (checked_add (cursor + 6) cert _) _ h13 in
    let t15 = refuse-ok (not (end_ == outer_end)) _ h14 in
    let f1 = read_u16-ok sd 128 e1 in
    let f2 = read_u32-ok sd 130 e2 in
    let f7 = read_u16-ok sd 582 e7 in
    let f11 = read_u32-ok sd (cursor + 2) e11 in
    let at = checked_add-ok 584 auth _ e8 in
    let f10 = read_u16-ok sd cursor e10 in
    let s4 = checked_add-ok 134 outer _ e4 in
    let s14 = checked_add-ok (cursor + 6) cert _ e14 in
    let s5 = not_eq outer_end (length sd) t5 in
    let s15 = not_eq end_ outer_end t15 in
    let (outer_size, size, two) =
      sizes outer outer_end auth cursor cert end_ (length sd) s4 at s14 s5 s15 in
    (
      auth,
      cert,
      record {
        envelope = f1.1 ∙ not_eq ty 6 t3;
        outer = f2.1 ∙ outer_size;
        authentication = f7.1;
        certification = ap (λ c. field sd c 2) at ∙ f10.1 ∙ not_eq cty 5 t12;
        certificate_length = ap (λ c. field sd c 4) two ∙ f11.1;
        size = size;
        certificates = not_lt cert 1 t13;
      },
    )

read_u16-lt :
    (value : List ℕ) (offset n : ℕ)
    → offset + 2 ≤ length value
    → field value offset 2 ≡ n
    → read_u16 value offset ≡ ok n
unfolding read_u16
read_u16-lt value offset n h e = ground arith

pub read_u32-lt :
    (value : List ℕ) (offset n : ℕ)
    → offset + 4 ≤ length value
    → field value offset 4 ≡ n
    → read_u32 value offset ≡ ok n
unfolding read_u32
read_u32-lt value offset n h e = ground arith

pub checked_add-lt :
    (a b n : ℕ) (e : QuoteRequestError)
    → a + b ≡ n
    → n < 18446744073709551616
    → checked_add a b e ≡ ok n
checked_add-lt a b n e h lt = ground arith

pub eq_not : (a b : ℕ) → a ≡ b → not (a == b) ≡ false
eq_not a b h = ground arith

pub le_not : (a b : ℕ) → b ≤ a → ltb a b ≡ false
le_not a b h = ground arith

pub check_signature_data_complete :
    (sd : List ℕ) (auth cert : ℕ)
    → length sd < 18446744073709551616
    → IsSignatureData sd auth cert
    → check_signature_data sd ≡ ok tt
unfolding check_signature_data
check_signature_data_complete sd auth cert lt h =
    let size : length sd ≡ 590 + auth + cert = h.size in
    let some_cert : 1 ≤ cert = h.certificates in
    rw
      (
        read_u16-lt sd 128 6 (omega arith) h.envelope,
        read_u32-lt sd 130 (456 + auth + cert) (omega arith) h.outer,
        checked_add-lt 134 (456 + auth + cert) (length sd)
            (malformed_quote (codes "QE certification data length overflow")) (omega arith) lt,
        eq_not (length sd) (length sd) refl,
        le_not (456 + auth + cert) 457 (omega arith),
        read_u16-lt sd 582 auth (omega arith) h.authentication,
        checked_add-lt 584 auth (584 + auth)
            (malformed_quote (codes "authentication data length overflow")) refl (omega arith),
        le_not (length sd) (584 + auth + 6) (omega arith),
        read_u16-lt sd (584 + auth) 5 (omega arith) h.certification,
        read_u32-lt sd (584 + auth + 2) cert (omega arith) (
            ap (λ c. field sd c 4) {x = 584 + auth + 2} {y = 586 + auth} (omega arith)
            ∙ h.certificate_length),
        le_not cert 1 some_cert,
        checked_add-lt (584 + auth + 6) cert (length sd)
            (malformed_quote (codes "PCK certification data length overflow")) (omega arith) lt,
      )
      (rw (eq_not (length sd) (length sd) refl) refl)
