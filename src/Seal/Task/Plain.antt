-- ===== src/Seal/Task/Plain.antt =====
-- Texts that src/task.rs of crates/basecrawl-seal can bind and read back: ASCII without the
-- separators.
use basecrawl.Prelude.{
  ℕ, Bool, true, false, not, ◌&&◌, List, [], ◌∷◌, ◌++◌, Text, codes, length, all, as_bytes,
  encode_utf8, starts_with, drop, ltb, ◌==◌, ==_iff, split, if_false, &&-both, first_piece, ◌≡◌,
  refl, ap, sym, ◌∙◌, subst, arith,
}
use basecrawl.Seal.{Sealed, ok, ◌>>=◌}
use basecrawl.Seal.Result.{
  is_key_id, is_lower_hex, split_aad_plaintext, constant_time_eq, no_difference,
}

-- an ASCII character other than NUL
abbrev pub is_ascii : ℕ → Bool
is_ascii c = ltb 0 c && ltb c 128

abbrev pub is_plain : ℕ → Bool
is_plain c = is_ascii c && not (c == b'|')

pub all-append :
    (p : ℕ → Bool) (s t : Text) → all p s ≡ true → all p t ≡ true → all p (s ++ t) ≡ true
all-append p [] t h k = k
all-append p (c ∷ s) t h k = ground (arith, all-append p s t)

pub ascii_of_plain : (s : Text) → all is_plain s ≡ true → all is_ascii s ≡ true
ascii_of_plain [] h = refl
ascii_of_plain (c ∷ s) h = ground (arith, ascii_of_plain s)

pub all_low : (s : Text) → all is_ascii s ≡ true → all (λ c. ltb c 128) s ≡ true
all_low [] h = refl
all_low (c ∷ s) h = ground (arith, all_low s)

one_byte : (c : ℕ) → is_ascii c ≡ true → encode_utf8 c ≡ c ∷ []
unfolding encode_utf8
one_byte c h = ground arith

pub as_bytes-ascii : (s : Text) → all is_ascii s ≡ true → as_bytes s ≡ s
unfolding as_bytes
as_bytes-ascii [] h = refl
as_bytes-ascii (c ∷ s) h =
    let (low, rest) = &&-both (is_ascii c) (all is_ascii s) h in
    ap (λ (bs : List ℕ). bs ++ as_bytes s) (one_byte c low) ∙ ap (c ∷◌) (as_bytes-ascii s rest)

not_separator : (c : ℕ) → is_plain c ≡ true → (c == b'|') ≡ false
not_separator c h = ground arith

not_zero : (c : ℕ) → is_ascii c ≡ true → (c == 0) ≡ false
not_zero c h = ground arith

pub split-plain : (s : Text) → all is_plain s ≡ true → split b'|' s ≡ s ∷ []
unfolding split
split-plain [] h = refl
split-plain (c ∷ s) h =
    let (here, rest) = &&-both (is_plain c) (all is_plain s) h in
    if_false (c == b'|') ([] ∷ split b'|' s) _ (not_separator c here)
    ∙ ap (first_piece c) (split-plain s rest)

pub split-front :
    (s rest : Text) → all is_plain s ≡ true → split b'|' (s ++ b'|' ∷ rest) ≡ s ∷ split b'|' rest
unfolding split
split-front [] rest h = refl
split-front (c ∷ s) rest h =
    let (here, later) = &&-both (is_plain c) (all is_plain s) h in
    if_false (c == b'|') ([] ∷ split b'|' (s ++ b'|' ∷ rest)) _ (not_separator c here)
    ∙ ap (first_piece c) (split-front s rest later)

pub split_aad_plaintext-message :
    (aad body : List ℕ)
    → all is_ascii aad ≡ true
    → split_aad_plaintext (aad ++ 0 ∷ body) ≡ ok (aad, body)
unfolding split_aad_plaintext
split_aad_plaintext-message [] body h = refl
split_aad_plaintext-message (c ∷ s) body h =
    let (here, later) = &&-both (is_ascii c) (all is_ascii s) h in
    if_false (c == 0) (ok ([], s ++ 0 ∷ body)) _ (not_zero c here)
    ∙ ap (λ (r : Sealed (List ℕ × List ℕ)). r >>= λ (aad, body). ok (c ∷ aad, body))
        (split_aad_plaintext-message s body later)

no_difference_refl : (xs : List ℕ) → no_difference xs xs ≡ true
no_difference_refl [] = refl
no_difference_refl (x ∷ xs) = ground (arith, no_difference_refl xs)

pub constant_time_eq_refl : (xs : List ℕ) → constant_time_eq xs xs ≡ true
unfolding constant_time_eq
constant_time_eq_refl xs = ground (arith, no_difference_refl xs)

lower_hex_byte :
    (c : ℕ) (bs : List ℕ) → all is_lower_hex (encode_utf8 c ++ bs) ≡ true → is_lower_hex c ≡ true
unfolding encode_utf8
lower_hex_byte c bs h = ground arith

all-behind : (p : ℕ → Bool) (s t : Text) → all p (s ++ t) ≡ true → all p t ≡ true
all-behind p [] t h = h
all-behind p (c ∷ s) t h = all-behind p s t (&&-both (p c) (all p (s ++ t)) h).1

lower_hex_IsPlain : (c : ℕ) → is_lower_hex c ≡ true → is_plain c ≡ true
lower_hex_IsPlain c h = ground arith

pub lower_hex-plain : (s : Text) → all is_lower_hex (as_bytes s) ≡ true → all is_plain s ≡ true
unfolding as_bytes
lower_hex-plain [] h = refl
lower_hex-plain (c ∷ s) h =
    let here : is_plain c ≡ true = lower_hex_IsPlain c (lower_hex_byte c (as_bytes s) h) in
    let later : all is_plain s ≡ true =
      lower_hex-plain s (all-behind is_lower_hex (encode_utf8 c) (as_bytes s) h) in
    all_cons c s here later
  where
    all_cons :
        (c : ℕ) (s : Text) → is_plain c ≡ true → all is_plain s ≡ true → all is_plain (c ∷ s) ≡ true
    all_cons c s h k = ground arith

starts_with-split : (s t : Text) → starts_with s t ≡ true → s ≡ t ++ drop (length t) s
unfolding starts_with
starts_with-split s [] h = refl
starts_with-split [] (d ∷ t) h = cc
starts_with-split (c ∷ s) (d ∷ t) h =
    let (here, later) = &&-both (c == d) (starts_with s t) h in
    ap (λ (x : ℕ). x ∷ s) ((==_iff c d).0 here) ∙ ap (d ∷◌) (starts_with-split s t later)

pub is_key_id-plain : (k : Text) → is_key_id k ≡ true → all is_plain k ≡ true
unfolding is_key_id
is_key_id-plain k h =
    let (front, later) = &&-both (starts_with k (codes "sha256:")) _ h in
    let (sized, hex) = &&-both (length (as_bytes (drop 7 k)) == 64) _ later in
    let (digits, low) = &&-both (all is_lower_hex (as_bytes (drop 7 k))) _ hex in
    subst (λ (t : Text). all is_plain t ≡ true) (sym (starts_with-split k (codes "sha256:") front))
      (all-append is_plain (codes "sha256:") (drop 7 k) refl (lower_hex-plain (drop 7 k) digits))
