-- ===== src/Fetch/Headers/Caller.antt =====
-- Which headers of a caller are accepted.
use basecrawl.Prelude.{
  Bool, true, false, not, ◌&&◌, List, [], ◌∷◌, Text, codes, All, as_bytes, is_one_of,
  to_ascii_lowercase, text_eq, text_eq_iff, ◌≡◌, ◌≢◌, ◌↔◌, refl, sym, ap, arith, Bool-cases, inl,
  inr,
}
use basecrawl.Error.{Error, invalid_header}
use basecrawl.Error.Outcome.{Outcome, ok, err, ◌>>◌, unless}
use basecrawl.Fetch.Headers.{
  valid_name, valid_value, validate_header_pair, transport_managed, is_transport_managed_header,
  validate_from, validate_caller_headers, lowered, effective_headers,
}

-- `t` is none of the texts.
abbrev pub Apart : List Text → Text → Type 0
Apart [] t = Unit
Apart (u ∷ us) t = (t ≢ u) × Apart us t

-- A header that can be written as one field line and is not the transport's.
pub record IsSendable (header : Text × Text) : Type 0 where
  pub named : valid_name header.0 ≡ true
  pub valued : valid_value header.1 ≡ true
  pub unmanaged : Apart transport_managed (to_ascii_lowercase header.0)

-- No two headers have one name, up to case, and none has a name that was seen.
abbrev pub AreDistinct : List Text → List (Text × Text) → Type 0
AreDistinct seen [] = Unit
AreDistinct seen (header ∷ headers) =
    Apart seen (to_ascii_lowercase header.0)
    × AreDistinct (to_ascii_lowercase header.0 ∷ seen) headers

is_one_of_iff : (us : List Text) (t : Text) → (is_one_of t us ≡ false) ↔ Apart us t
is_one_of_iff [] t = (λ _. tt, λ _. refl)
is_one_of_iff (u ∷ us) t = elim (Bool-cases (text_eq t u)) [
  | inl same ↦ (λ h. absurd (ground (arith, h)), λ (ne, _). absurd (ne ((text_eq_iff t u).0 same)))
  | inr other ↦ (
    λ h. (λ e. cc ((text_eq_iff t u).1 e), (is_one_of_iff us t).0 (ground (arith, h))),
    λ (_, apart). rw (other, (is_one_of_iff us t).1 apart) refl,
  )
]

pair_iff :
    (name value : Text)
    → (validate_header_pair name value ≡ ok tt)
      ↔ ((valid_name name ≡ true) × (valid_value value ≡ true))
unfolding validate_header_pair
pair_iff name value = (λ h. (ground (arith, h), ground (arith, h)), λ (n, v). rw (n, v) refl)

-- three guards in front of a rest
guards_sound :
    (a b c : Bool) (e f g : Error) (rest : Outcome (Unit {0}))
    → (unless a e >> (unless b f >> (unless c g >> rest))) ≡ ok tt
    → (a ≡ true) × (b ≡ true) × (c ≡ true) × (rest ≡ ok tt)
guards_sound true true true e f g rest h = (refl, refl, refl, h)
guards_sound true true false e f g rest h = cc
guards_sound true false c e f g rest h = cc
guards_sound false b c e f g rest h = cc

invert_not : (b : Bool) → not b ≡ true → b ≡ false
invert_not b h = ground arith

validate_from_sound :
    (seen : List Text) (headers : List (Text × Text))
    → validate_from seen headers ≡ ok tt
    → All IsSendable headers × AreDistinct seen headers
unfolding validate_from
validate_from_sound seen [] h = (tt, tt)
validate_from_sound seen ((name, value) ∷ headers) h =
    let key = to_ascii_lowercase name in
    let (valid, free, fresh, later) =
      guards_sound (valid_name name && valid_value value) (not (is_transport_managed_header key))
        (not (is_one_of key seen)) (invalid_header name) (invalid_header name) (invalid_header name)
        (validate_from (key ∷ seen) headers) h in
    let (all, distinct) = validate_from_sound (key ∷ seen) headers later in
    (
      (
        record {
          named = ground (arith, valid);
          valued = ground (arith, valid);
          unmanaged = (is_one_of_iff transport_managed key).0 (invert_not _ free);
        },
        all,
      ),
      ((is_one_of_iff seen key).0 (invert_not (is_one_of key seen) fresh), distinct),
    )

validate_from_complete :
    (seen : List Text) (headers : List (Text × Text))
    → All IsSendable headers
    → AreDistinct seen headers
    → validate_from seen headers ≡ ok tt
unfolding validate_from
validate_from_complete seen [] all distinct = refl
validate_from_complete seen ((name, value) ∷ headers) (s, all) (fresh, distinct) =
    let key = to_ascii_lowercase name in
    rw
      (
        s.named,
        s.valued,
        (is_one_of_iff transport_managed key).1 s.unmanaged,
        (is_one_of_iff seen key).1 fresh,
      )
      (validate_from_complete (key ∷ seen) headers all distinct)

both_sound :
    {A : Type 0} (a b : Outcome (Unit {0})) (x y : A)
    → (a >> (b >> ok x)) ≡ ok y
    → (a ≡ ok tt) × (b ≡ ok tt) × (y ≡ x)
both_sound (ok _) (ok _) x y h = (refl, refl, cc)
both_sound (ok _) (err e) x y h = cc
both_sound (err e) b x y h = cc

-- The effective headers exist exactly if the User-Agent can be written as a value and each header
-- of the caller as a field line, none is one that the transport writes, and no two have one name up
-- to case. Then they are the User-Agent and the caller's headers with their names in lower case.
pub effective_headers_iff :
    (headers : List (Text × Text)) (user_agent : Text) (effective : List (Text × Text))
    → (effective_headers headers user_agent ≡ ok effective) ↔ (
        (valid_value user_agent ≡ true)
        × All IsSendable headers
        × AreDistinct [] headers
        × (effective ≡ (codes "user-agent", user_agent) ∷ lowered headers))
unfolding effective_headers validate_caller_headers as_bytes
effective_headers_iff headers user_agent effective = (
  λ h.
      let (agent, caller, same) =
        both_sound (validate_header_pair (codes "User-Agent") user_agent)
          (validate_caller_headers headers) _ effective h in
      let (all, distinct) = validate_from_sound [] headers caller in
      (((pair_iff (codes "User-Agent") user_agent).0 agent).1, all, distinct, same),
  λ (agent, all, distinct, same).
      rw
        (
          (pair_iff (codes "User-Agent") user_agent).1 (refl, agent),
          validate_from_complete [] headers all distinct,
        )
        (ap ok (sym same)),
)
