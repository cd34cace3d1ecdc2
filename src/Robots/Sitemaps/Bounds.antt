-- ===== src/Robots/Sitemaps/Bounds.antt =====
-- The seeds of a discovery keep within their cap, and without duplicates.
use basecrawl.Prelude.{
  ◌≤◌, false, List, [], ◌∷◌, ◌++◌, Text, text_eq, text_eq_iff, length, length-append, leb, ◌≡◌,
  arith, refl, Bool-cases, inl, inr,
}
use basecrawl.Url.{Urls}
use basecrawl.Robots.Sitemaps.{member, max_sitemap_urls, Seeds, going, full, add_seeds}

abbrev pub Distinct : List Text → Type 0
Distinct [] = Unit
Distinct (x ∷ xs) = (member x xs ≡ false) × Distinct xs

-- The seeds keep within the cap, and none stands there twice.
abbrev pub WithinCap : List Text → Type 0
WithinCap seeds = (length seeds ≤ max_sitemap_urls) × Distinct seeds

pub member-snoc :
    (x y : Text) (xs : List Text)
    → member x xs ≡ false
    → text_eq y x ≡ false
    → member x (xs ++ y ∷ []) ≡ false
unfolding member
member-snoc x y [] h e = ground arith
member-snoc x y (z ∷ xs) h e = ground (arith, member-snoc x y xs)

pub Distinct-snoc :
    (x : Text) (xs : List Text) → Distinct xs → member x xs ≡ false → Distinct (xs ++ x ∷ [])
unfolding member
Distinct-snoc x [] d h = (refl, tt)
Distinct-snoc x (y ∷ xs) (n, d) h = (
  member-snoc y x xs n (ground (arith, text_eq_iff x y, text_eq_iff y x)),
  Distinct-snoc x xs d (ground arith),
)

abbrev pub Kept : (w : Urls) → Seeds w → Type 0
Kept w (going seeds) = WithinCap seeds
Kept w (full seeds) = WithinCap seeds

pub add_seeds-Kept :
    (w : Urls) (seeds urls : List Text) → WithinCap seeds → Kept w (add_seeds w seeds urls)
unfolding add_seeds
add_seeds-Kept w seeds [] h = h
add_seeds-Kept w seeds (url ∷ urls) (cap, d) =
    elim (Bool-cases (leb max_sitemap_urls (length seeds))) [
      | inl e ↦ rw e (cap, d)
      | inr e ↦ elim (Bool-cases (member url seeds)) [
        | inl e' ↦ rw (e, e') (add_seeds-Kept w seeds urls (cap, d))
        | inr e' ↦
            rw (e, e')
              (add_seeds-Kept w (seeds ++ url ∷ []) urls
                (ground (arith, length-append {0} seeds (url ∷ [])), Distinct-snoc url seeds d e'))
      ]
    ]
