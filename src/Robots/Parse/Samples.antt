-- ===== src/Robots/Parse/Samples.antt =====
-- A robots text with fields in several spellings, and the groups that it declares.
use basecrawl.Prelude.{
  ℕ, Bool, true, false, List, [], ◌∷◌, ◌++◌, Text, ◌≡◌, inl, inr, refl, arith, All, all, codes,
  to_ascii_lowercase, not, ◌&&◌, ◌==◌, is_whitespace,
}
use basecrawl.Robots.Parse.{rule, Group}
use basecrawl.Robots.Parse.Lines.{IsPlain, IsInline, IsTrimmed}
use basecrawl.Robots.Parse.RoundTrip.{group_lines, file_lines}
use basecrawl.Robots.Parse.Written.{
  IsKey, IsField, IsComment, IsText, nothing, line, remark, location, agent, allowed, disallowed,
}

abbrev pub one_group : List Group
one_group =
    record {
      agents = codes "*" ∷ codes "basecrawl" ∷ [];
      rules =
          record { allow = false; path = codes "/private" }
          ∷ record { allow = true; path = codes "/" }
          ∷ [];
    }
    ∷ []

abbrev is_plain : ℕ → Bool
is_plain c = not (c == 10) && (not (c == 13) && not (c == b'#'))

abbrev is_key : ℕ → Bool
is_key c = is_plain c && not (c == b':')

IsPlain-all : (s : Text) → all is_plain s ≡ true → All IsPlain s
IsPlain-all [] h = tt
IsPlain-all (c ∷ s) h = ((ground arith, ground arith, ground arith), IsPlain-all s (ground arith))

IsInline-all : (s : Text) → all is_plain s ≡ true → All IsInline s
IsInline-all [] h = tt
IsInline-all (c ∷ s) h = ((ground arith, ground arith), IsInline-all s (ground arith))

IsKey-all : (s : Text) → all is_key s ≡ true → All IsKey s
IsKey-all [] h = tt
IsKey-all (c ∷ s) h =
    (((ground arith, ground arith, ground arith), ground arith), IsKey-all s (ground arith))

-- a field with one space in front of its value, and a comment or nothing behind it
field :
    (spelling value comment : Text)
    → all is_key spelling ≡ true
    → IsTrimmed spelling
    → all is_plain value ≡ true
    → IsTrimmed value
    → IsComment comment
    → IsField
        (to_ascii_lowercase spelling)
        value
        (((spelling ++ []) ++ b':' ∷ (codes " " ++ value)) ++ [] ++ comment)
field spelling value comment keys name_trimmed plain trimmed commented = record {
  spelling = spelling;
  indent = [];
  after_name = [];
  before_value = codes " ";
  after_value = [];
  comment = comment;
  shape = refl;
  spelled = refl;
  keys = IsKey-all spelling keys;
  name_trimmed = name_trimmed;
  plain = IsPlain-all value plain;
  trimmed = trimmed;
  blanks = (tt, tt, (inl refl, tt), tt);
  commented = commented;
}

abbrev pub locations : List Text
locations = codes "https://a/s.xml" ∷ []

abbrev pub source : Text
source =
    codes "User-agent: *\n"
    ++ (codes "USER-AGENT: BaseCrawl\r\n"
        ++ (codes " # a remark\n"
            ++ (codes "Sitemap: https://a/s.xml\n"
                ++ (codes "Disallow: /private# all of it\n" ++ codes "allow: /\n"))))

remarked : (t : Text) → all is_plain t ≡ true → IsComment (b'#' ∷ t)
remarked t h = inr (t, refl, IsInline-all t h)

pub source-IsText : IsText (file_lines one_group) locations source
unfolding file_lines group_lines to_ascii_lowercase is_whitespace
source-IsText =
    line _ _ _ _ _ _
      (agent (codes "*") _
        (field (codes "User-agent") (codes "*") [] refl (refl, refl) refl (refl, refl) (inl refl)))
      (inl refl)
      (line _ _ _ _ _ _
        (agent (codes "BaseCrawl") _ (
          field (codes "USER-AGENT") (codes "BaseCrawl") [] refl (refl, refl) refl (refl, refl)
            (inl refl)))
        (inr refl)
        (remark _ _ (codes " ") (codes "# a remark") _ _ (inl refl, tt)
          (remarked (codes " a remark") refl) (inl refl)
          (location _ _ _ _ _ _
            (field (codes "Sitemap") (codes "https://a/s.xml") [] refl (refl, refl) refl
              (refl, refl) (inl refl))
            (inl refl) rules_line)))
  where
    rules_line :
        IsText
          (rule false (codes "/private") ∷ rule true (codes "/") ∷ [])
          []
          (codes "Disallow: /private# all of it\n" ++ codes "allow: /\n")
    rules_line =
        line _ _ _ _ _ _
          (disallowed (codes "/private") _ (
            field (codes "Disallow") (codes "/private") (codes "# all of it") refl (refl, refl) refl
              (refl, refl) (remarked (codes " all of it") refl)))
          (inl refl)
          (line _ _ _ _ _ _
            (allowed (codes "/") _
              (field (codes "allow") (codes "/") [] refl (refl, refl) refl (refl, refl) (inl refl)))
            (inl refl) nothing)
