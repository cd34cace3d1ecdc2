-- ===== src/Robots/Parse/Lines.antt =====
-- The lines of a robots text, as `str::lines`, `split`, `trim` and `split_once` cut them for `parse`
-- of crates/basecrawl-core/src/robots.rs.
use mathlib.Core.List.{
  append-nil, append_assoc, reverse_aux, reverse-append, reverse-reverse, reverse-cons,
}
use basecrawl.Prelude.{
  ℕ, false, some, List, [], ◌∷◌, ◌++◌, reverse, Text, ◌==◌, ◌≡◌, ◌≢◌, ◌⊎◌, inl, inr, ◌∙◌, refl, sym,
  subst, arith, ap, All, All-append, codes, is_whitespace, trim_start, trim, before, split_once,
}
use basecrawl.Robots.Parse.{strip_return, lines_from, lines}

-- a character that ends no line and starts no comment
abbrev pub IsPlain : ℕ → Type 0
IsPlain c = (c ≢ 10) × (c ≢ 13) × (c ≢ b'#')

abbrev pub IsBlank : ℕ → Type 0
IsBlank c = (c ≡ 32) ⊎ (c ≡ 9)

-- a character of a comment, which ends no line
abbrev pub IsInline : ℕ → Type 0
IsInline c = (c ≢ 10) × (c ≢ 13)

abbrev pub IsEnding : Text → Type 0
IsEnding s = (s ≡ codes "\n") ⊎ (s ≡ codes "\r\n")

All-reverse : {A : Type 0} (P : A → Type 0) (xs : List A) → All P xs → All P (reverse xs)
All-reverse P [] h = tt
All-reverse P (x ∷ xs) (p, h) =
    subst (All P) (sym (reverse-cons x xs))
      (All-append P (reverse xs) (x ∷ []) (All-reverse P xs h) (p, tt))

not_code : (c d : ℕ) → c ≢ d → (c == d) ≡ false
not_code c d h = ground arith

one_line :
    (cur raw s : Text)
    → All (λ c. c ≢ 10) raw
    → lines_from cur (raw ++ 10 ∷ s) ≡ strip_return (reverse_aux raw cur) ∷ lines s
unfolding lines_from lines
one_line [] [] s h = refl
one_line (d ∷ cur) [] s h = refl
one_line [] (c ∷ raw) s (lf, h) = rw (not_code c 10 lf) (one_line (c ∷ []) raw s h)
one_line (d ∷ cur) (c ∷ raw) s (lf, h) = rw (not_code c 10 lf) (one_line (c ∷ d ∷ cur) raw s h)

no_newline : (s : Text) → All IsInline s → All (λ c. c ≢ 10) s
no_newline [] h = tt
no_newline (c ∷ s) ((lf, cr), h) = (lf, no_newline s h)

returned : (s : Text) → strip_return (reverse (s ++ 13 ∷ [])) ≡ s
unfolding strip_return
returned s = rw (reverse-append s (13 ∷ [])) (reverse-reverse s)

kept_whole : (s : Text) → All IsInline s → strip_return s ≡ reverse s
unfolding strip_return
kept_whole [] h = refl
kept_whole (c ∷ s) ((lf, cr), h) = rw (not_code c 13 cr) refl

pub lines-nil : lines [] ≡ []
unfolding lines lines_from
lines-nil = refl

pub lines-cons :
    (raw ending s : Text)
    → All IsInline raw
    → IsEnding ending
    → lines (raw ++ (ending ++ s)) ≡ raw ∷ lines s
unfolding lines
lines-cons raw ending s h (inl e) = rw e (
    one_line [] raw s (no_newline raw h)
    ∙ ap (λ r. r ∷ lines s)
        (kept_whole (reverse raw) (All-reverse IsInline raw h) ∙ reverse-reverse raw))
lines-cons raw ending s h (inr e) = rw e (
    ap lines (sym (append_assoc raw (13 ∷ []) (10 ∷ s)))
    ∙ one_line [] (raw ++ 13 ∷ []) s
        (All-append (λ c. c ≢ 10) raw (13 ∷ []) (no_newline raw h) (omega arith, tt))
    ∙ ap (λ r. r ∷ lines s) (returned raw))

-- `split('#').next()`
pub before-append :
    (x comment : Text)
    → All IsPlain x
    → (comment ≡ []) ⊎ ((t : Text) × (comment ≡ b'#' ∷ t))
    → before b'#' (x ++ comment) ≡ x
unfolding before
before-append [] comment h (inl e) = rw e refl
before-append [] comment h (inr (t, e)) = rw e refl
before-append (c ∷ x) comment ((lf, cr, hash), h) e =
    rw (not_code c b'#' hash) (ap (c ∷◌) (before-append x comment h e))

-- `split_once(':')`
pub split_once-append :
    (x y : Text) → All (λ c. c ≢ b':') x → split_once b':' (x ++ b':' ∷ y) ≡ some (x, y)
unfolding split_once
split_once-append [] y h = refl
split_once-append (c ∷ x) y (colon, h) = rw (not_code c b':' colon, split_once-append x y h) refl

-- a text that is not empty, with no space at its ends
abbrev pub Starts : Text → Type 0
Starts [] = ⊥
Starts (c ∷ s) = is_whitespace c ≡ false

abbrev pub IsTrimmed : Text → Type 0
IsTrimmed s = Starts s × Starts (reverse s)

trim_start-blanks : (p s : Text) → All IsBlank p → trim_start (p ++ s) ≡ trim_start s
unfolding trim_start is_whitespace
trim_start-blanks [] s h = refl
trim_start-blanks (c ∷ p) s (inl e, h) = rw e (trim_start-blanks p s h)
trim_start-blanks (c ∷ p) s (inr e, h) = rw e (trim_start-blanks p s h)

trim_start-Starts : (s t : Text) → Starts s → trim_start (s ++ t) ≡ s ++ t
unfolding trim_start
trim_start-Starts [] t h = absurd h
trim_start-Starts (c ∷ s) t h = rw h refl

pub trim-append :
    (p s q : Text) → All IsBlank p → All IsBlank q → IsTrimmed s → trim (p ++ (s ++ q)) ≡ s
unfolding trim
trim-append p s q h k (front, back) =
    ap (λ x. reverse (trim_start (reverse x)))
      (trim_start-blanks p (s ++ q) h ∙ trim_start-Starts s q front)
    ∙ ap (λ x. reverse (trim_start x)) (reverse-append s q)
    ∙ ap reverse (trim_start-blanks (reverse q) (reverse s) (All-reverse IsBlank q k))
    ∙ ap (λ x. reverse (trim_start x)) (sym (append-nil (reverse s)))
    ∙ ap reverse (trim_start-Starts (reverse s) [] back ∙ append-nil (reverse s))
    ∙ reverse-reverse s

pub trim-blanks : (p : Text) → All IsBlank p → trim p ≡ []
unfolding trim trim_start
trim-blanks p h =
    ap (λ x. reverse (trim_start (reverse x)))
      (sym (ap trim_start (append-nil p)) ∙ trim_start-blanks p [] h)
