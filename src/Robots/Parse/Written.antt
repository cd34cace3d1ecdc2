-- ===== src/Robots/Parse/Written.antt =====
-- Robots texts, in any spelling, and what `parse` of crates/basecrawl-core/src/robots.rs reads from
-- a line of them.
use mathlib.Core.List.{append-nil, append_assoc, reverse-append}
use basecrawl.Prelude.{
  ℕ, true, false, some, List, [], ◌∷◌, ◌++◌, reverse, Text, ◌≡◌, ◌≢◌, ◌⊎◌, inl, inr, ◌∙◌, refl, sym,
  subst, arith, ap, All, All-append, codes, is_empty, trim, before, split_once, to_ascii_lowercase,
}
use basecrawl.Robots.Parse.{Line, skip, sitemap, user_agent, rule, name_line, read_line}
use basecrawl.Robots.Parse.Lines.{
  IsPlain, IsBlank, IsInline, IsEnding, Starts, IsTrimmed, before-append, split_once-append,
  trim-append, trim-blanks,
}

-- nothing, or a `#` and what follows it on the line
abbrev pub IsComment : Text → Type 0
IsComment s = (s ≡ []) ⊎ ((t : Text) × (s ≡ b'#' ∷ t) × All IsInline t)

-- a character of the name of a field
abbrev pub IsKey : ℕ → Type 0
IsKey c = IsPlain c × (c ≢ b':')

-- The line `raw` sets the field `name` to `value`: the name in any case, then a colon and the value,
-- with spaces and tabs around both, and perhaps a comment.
pub record IsField (name value raw : Text) : Type 0 where
  pub spelling : Text
  pub indent : Text
  pub after_name : Text
  pub before_value : Text
  pub after_value : Text
  pub comment : Text
  pub shape :
      raw
      ≡ (indent ++ (((spelling ++ after_name) ++ b':' ∷ (before_value ++ value)) ++ after_value))
        ++ comment
  pub spelled : to_ascii_lowercase spelling ≡ name
  pub keys : All IsKey spelling
  pub name_trimmed : IsTrimmed spelling
  pub plain : All IsPlain value
  pub trimmed : IsTrimmed value
  pub blanks :
      All IsBlank indent
      × All IsBlank after_name
      × All IsBlank before_value
      × All IsBlank after_value
  pub commented : IsComment comment

-- What a line says: an agent, in any case, or a rule.
pub data IsWritten : Line → Text → Type 0 where
  agent :
      (written raw : Text)
      → IsField (codes "user-agent") written raw
      → IsWritten (user_agent (to_ascii_lowercase written)) raw
  allowed : (path raw : Text) → IsField (codes "allow") path raw → IsWritten (rule true path) raw
  disallowed :
      (path raw : Text) → IsField (codes "disallow") path raw → IsWritten (rule false path) raw

-- The text holds these lines and the locations of these sitemaps, each in order and each line with
-- its ending, and lines between them that are blank but for a comment.
pub data IsText : List Line → List Text → Text → Type 0 where
  nothing : IsText [] [] []
  line :
      (l : Line) (ls : List Line) (urls : List Text) (raw ending text : Text)
      → IsWritten l raw
      → IsEnding ending
      → IsText ls urls text
      → IsText (l ∷ ls) urls (raw ++ (ending ++ text))
  location :
      (ls : List Line) (url : Text) (urls : List Text) (raw ending text : Text)
      → IsField (codes "sitemap") url raw
      → IsEnding ending
      → IsText ls urls text
      → IsText ls (url ∷ urls) (raw ++ (ending ++ text))
  remark :
      (ls : List Line) (urls : List Text) (blanks comment ending text : Text)
      → All IsBlank blanks
      → IsComment comment
      → IsEnding ending
      → IsText ls urls text
      → IsText ls urls ((blanks ++ comment) ++ (ending ++ text))

module _ {A : Type 0} (P Q : A → Type 0) (up : (x : A) → P x → Q x) where
  pub All-up : (xs : List A) → All P xs → All Q xs
  All-up [] h = tt
  All-up (x ∷ xs) (p, h) = (up x p, All-up xs h)

blank-IsPlain : (c : ℕ) → IsBlank c → IsPlain c
blank-IsPlain c (inl e) = (omega arith, omega arith, omega arith)
blank-IsPlain c (inr e) = (omega arith, omega arith, omega arith)

pub blanks-IsPlain : (s : Text) → All IsBlank s → All IsPlain s
blanks-IsPlain = All-up IsBlank IsPlain blank-IsPlain

blank-no_colon : (c : ℕ) → IsBlank c → c ≢ b':'
blank-no_colon c (inl e) = omega arith
blank-no_colon c (inr e) = omega arith

Starts-append : (s t : Text) → Starts s → Starts (s ++ t)
Starts-append [] t h = absurd h
Starts-append (c ∷ s) t h = h

Starts-is_empty : (s : Text) → Starts s → is_empty s ≡ false
unfolding is_empty
Starts-is_empty [] h = absurd h
Starts-is_empty (c ∷ s) h = refl

comment_cases : (s : Text) → IsComment s → (s ≡ []) ⊎ ((t : Text) × (s ≡ b'#' ∷ t))
comment_cases s (inl e) = inl e
comment_cases s (inr (t, e, h)) = inr (t, e)

pub comment-IsInline : (s : Text) → IsComment s → All IsInline s
comment-IsInline s (inl e) = rw e tt
comment-IsInline s (inr (t, e, h)) = rw e ((omega arith, omega arith), h)

pub plain-IsInline : (c : ℕ) → IsPlain c → IsInline c
plain-IsInline c (lf, cr, hash) = (lf, cr)

module _ (name value raw : Text) (f : IsField name value raw) where
  abbrev core : Text
  core = (f.spelling ++ f.after_name) ++ b':' ∷ (f.before_value ++ value)

  core-IsTrimmed : IsTrimmed core
  core-IsTrimmed = (
    Starts-append (f.spelling ++ f.after_name) (b':' ∷ (f.before_value ++ value))
        (Starts-append f.spelling f.after_name f.name_trimmed.0),
    subst (λ s. Starts (reverse s))
        (append_assoc (f.spelling ++ f.after_name) (b':' ∷ f.before_value) value)
        (subst Starts
          (sym (reverse-append ((f.spelling ++ f.after_name) ++ b':' ∷ f.before_value) value))
          (Starts-append (reverse value)
            (reverse ((f.spelling ++ f.after_name) ++ b':' ∷ f.before_value)) f.trimmed.1)),
  )

  core-IsPlain : All IsPlain (f.indent ++ (core ++ f.after_value))
  core-IsPlain =
      let (indent, after_name, before_value, after_value) = f.blanks in
      let left : All IsPlain (f.spelling ++ f.after_name) =
        All-append IsPlain f.spelling f.after_name
          (All-up IsKey IsPlain (λ c k. k.0) f.spelling f.keys)
          (blanks-IsPlain f.after_name after_name) in
      let right : All IsPlain (f.before_value ++ value) =
        All-append IsPlain f.before_value value (blanks-IsPlain f.before_value before_value)
          f.plain in
      let colon : IsPlain b':' = (omega arith, omega arith, omega arith) in
      All-append IsPlain f.indent (core ++ f.after_value) (blanks-IsPlain f.indent indent) (
        All-append IsPlain core f.after_value
          (All-append IsPlain (f.spelling ++ f.after_name) (b':' ∷ (f.before_value ++ value)) left
            (colon, right))
          (blanks-IsPlain f.after_value after_value))

  pub field-IsInline : All IsInline raw
  field-IsInline = subst (All IsInline) (sym f.shape) (
      All-append IsInline (f.indent ++ (core ++ f.after_value)) f.comment
        (All-up IsPlain IsInline plain-IsInline (f.indent ++ (core ++ f.after_value)) core-IsPlain)
        (comment-IsInline f.comment f.commented))

  line_text : trim (before b'#' raw) ≡ core
  line_text =
      ap (λ s. trim (before b'#' s)) f.shape
      ∙ ap trim (
          before-append (f.indent ++ (core ++ f.after_value)) f.comment core-IsPlain
            (comment_cases f.comment f.commented))
      ∙ trim-append f.indent core f.after_value f.blanks.0 f.blanks.3 core-IsTrimmed

  cut : split_once b':' core ≡ some (f.spelling ++ f.after_name, f.before_value ++ value)
  cut = split_once-append (f.spelling ++ f.after_name) (f.before_value ++ value) (
      All-append (λ c. c ≢ b':') f.spelling f.after_name
        (All-up IsKey (λ c. c ≢ b':') (λ c k. k.1) f.spelling f.keys)
        (All-up IsBlank (λ c. c ≢ b':') blank-no_colon f.after_name f.blanks.1))

  name_read : to_ascii_lowercase (trim (f.spelling ++ f.after_name)) ≡ name
  name_read =
      ap to_ascii_lowercase (trim-append [] f.spelling f.after_name tt f.blanks.1 f.name_trimmed)
      ∙ f.spelled

  value_read : trim (f.before_value ++ value) ≡ value
  value_read =
      ap (λ s. trim (f.before_value ++ s)) (sym (append-nil value))
      ∙ trim-append f.before_value value [] f.blanks.2 tt f.trimmed

  read_line-field : read_line raw ≡ name_line name value
  unfolding read_line
  read_line-field =
      rw (line_text, Starts-is_empty core core-IsTrimmed.0, cut, name_read, value_read) refl

-- What was written is what is read.
pub read_line-IsWritten : (l : Line) (raw : Text) → IsWritten l raw → read_line raw ≡ l
unfolding name_line
read_line-IsWritten _ raw (agent written _ f) = read_line-field (codes "user-agent") written raw f
read_line-IsWritten _ raw (allowed path _ f) =
    read_line-field (codes "allow") path raw f ∙ rw (Starts-is_empty path f.trimmed.0) refl
read_line-IsWritten _ raw (disallowed path _ f) =
    read_line-field (codes "disallow") path raw f ∙ rw (Starts-is_empty path f.trimmed.0) refl

pub location_read :
    (url raw : Text) → IsField (codes "sitemap") url raw → read_line raw ≡ sitemap url
unfolding name_line
location_read url raw f =
    read_line-field (codes "sitemap") url raw f ∙ rw (Starts-is_empty url f.trimmed.0) refl

pub written-IsInline : (l : Line) (raw : Text) → IsWritten l raw → All IsInline raw
written-IsInline _ raw (agent written _ f) = field-IsInline (codes "user-agent") written raw f
written-IsInline _ raw (allowed path _ f) = field-IsInline (codes "allow") path raw f
written-IsInline _ raw (disallowed path _ f) = field-IsInline (codes "disallow") path raw f

pub read_line-remark :
    (blanks comment : Text)
    → All IsBlank blanks
    → IsComment comment
    → read_line (blanks ++ comment) ≡ skip
unfolding read_line is_empty
read_line-remark blanks comment h k =
    rw
      (
        before-append blanks comment (blanks-IsPlain blanks h) (comment_cases comment k),
        trim-blanks blanks h,
      )
      refl
