-- ===== src/Format/Order.antt =====
-- The list that is parsed is in canonical order, without duplicates, and holds the named formats.
use basecrawl.Prelude.{
  subst, ◌||◌, Option, none, some, List, [], ◌∷◌, ◌++◌, Text, trim, ◌==◌, ◌≡◌, refl, ap, sym, ◌∙◌,
  Option-cases, inl, inr,
}
use basecrawl.Error.{unknown_format}
use basecrawl.Crawl.{Scraped, ok, err}
use basecrawl.Format.{
  Format, rank, from_token, sort, normalize, parse_tokens, parse_list, supported_list,
}
use basecrawl.Format.Sorting.{
  has, is_format, named, or_false, or_assoc, has-sort, has-dedup, has-snoc, sort-Above, IsCanonical,
  dedup-IsCanonical,
}

abbrev pub OnFormat : Option Format → Type 0 → Type 0 → Type 0
OnFormat none P Q = P
OnFormat (some f) P Q = Q

-- What the parse of a list of tokens gives: the named formats in canonical order, or the error that
-- names the first token, trimmed, that no format has.
abbrev pub IsParsed : List Text → Scraped (List Format) → Type 0
IsParsed tokens (ok fs) = IsCanonical fs × ((f : Format) → has f fs ≡ named f tokens)
IsParsed [] (err e) = ⊥
IsParsed (t ∷ ts) (err e) =
    OnFormat (from_token (trim t)) (e ≡ unknown_format (trim t) supported_list)
      (IsParsed ts (err e))

normalize-has : (f : Format) (gs : List Format) → has f (normalize gs) ≡ has f gs
unfolding normalize
normalize-has f gs = has-dedup f (sort gs) ∙ has-sort f gs

normalize-IsCanonical : (gs : List Format) → IsCanonical (normalize gs)
unfolding normalize
normalize-IsCanonical gs = dedup-IsCanonical (sort gs) (sort-Above gs)

-- the same with the formats that were parsed before
abbrev IsParsedAfter : List Format → List Text → Scraped (List Format) → Type 0
IsParsedAfter before tokens (ok fs) =
    IsCanonical fs × ((f : Format) → has f fs ≡ (has f before || named f tokens))
IsParsedAfter before tokens (err e) = IsParsed tokens (err e)

step :
    (before : List Format) (t : Text) (ts : List Text) (r : Scraped (List Format)) (g : Format)
    → from_token (trim t) ≡ some g
    → IsParsedAfter (before ++ g ∷ []) ts r
    → IsParsedAfter before (t ∷ ts) r
step before t ts (ok fs) g e (c, h) = (
  c,
  λ f.
      h f
      ∙ ap (λ b. b || named f ts) (has-snoc f g before)
      ∙ sym (or_assoc (has f before) (rank g == rank f) (named f ts))
      ∙ ap (λ x. has f before || (is_format f x || named f ts)) (sym e),
)
step before t ts (err x) g e h =
    subst (λ o. OnFormat o (x ≡ unknown_format (trim t) supported_list) (IsParsed ts (err x)))
      (sym e) h

-- what the parse does at a token, once its format is known
abbrev parse_token : Option Format → Text → List Text → List Format → Scraped (List Format)
parse_token none t ts before = err (unknown_format (trim t) supported_list)
parse_token (some f) t ts before = parse_tokens ts (before ++ f ∷ [])

parse_token-same :
    (t : Text) (ts : List Text) (before : List Format) (o : Option Format)
    → from_token (trim t) ≡ o
    → parse_tokens (t ∷ ts) before ≡ parse_token o t ts before
unfolding parse_tokens
parse_token-same t ts before none e = rw (parse_tokens, e) refl
parse_token-same t ts before (some f) e = rw (parse_tokens, e) refl

parse_tokens-IsParsed :
    (tokens : List Text) (before : List Format)
    → IsParsedAfter before tokens (parse_tokens tokens before)
unfolding parse_tokens
parse_tokens-IsParsed [] before =
    (normalize-IsCanonical before, λ f. normalize-has f before ∙ sym (or_false (has f before)))
parse_tokens-IsParsed (t ∷ ts) before = elim (Option-cases (from_token (trim t))) [
  | inl e ↦ subst (IsParsedAfter before (t ∷ ts)) (sym (parse_token-same t ts before none e)) (
      subst
        (λ o.
          OnFormat o
            (unknown_format (trim t) supported_list ≡ unknown_format (trim t) supported_list)
            (IsParsed ts (err (unknown_format (trim t) supported_list))))
        (sym e) refl)
  | inr (g, e) ↦
      subst (IsParsedAfter before (t ∷ ts)) (sym (parse_token-same t ts before (some g) e)) (
        step before t ts (parse_tokens ts (before ++ g ∷ [])) g e
          (parse_tokens-IsParsed ts (before ++ g ∷ [])))
]

of_nothing :
    (tokens : List Text) (r : Scraped (List Format)) → IsParsedAfter [] tokens r → IsParsed tokens r
of_nothing tokens (ok fs) h = h
of_nothing tokens (err e) h = h

-- Parsing a list of tokens gives exactly the formats that its trimmed tokens name, each once and in
-- canonical order; or, if a token names no format, the error about the first such token.
pub parse_list-IsParsed : (tokens : List Text) → IsParsed tokens (parse_list tokens)
unfolding parse_list
parse_list-IsParsed tokens =
    of_nothing tokens (parse_tokens tokens []) (parse_tokens-IsParsed tokens [])
