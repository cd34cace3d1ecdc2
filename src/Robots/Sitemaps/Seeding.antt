-- ===== src/Robots/Sitemaps/Seeding.antt =====
-- What the seeds of one sitemap add to those found before, in `discover_sitemap_urls` of
-- crates/basecrawl-core/src/robots.rs.
use mathlib.Core.List.{Memᴰ}
use mathlib.Core.List.Memᴰ
use basecrawl.Prelude.{
  ◌≤◌, true, List, [], ◌∷◌, ◌++◌, Text, text_eq_iff, length, leb, ◌≡◌, ◌⊎◌, inl, inr, sym, subst,
  arith, Bool-cases,
}
use basecrawl.Url.{Urls}
use basecrawl.Robots.Sitemaps.{member, max_sitemap_urls, Seeds, going, full, add_seeds}

member-front : (s : Text) (xs ys : List Text) → member s xs ≡ true → member s (xs ++ ys) ≡ true
unfolding member
member-front s [] ys h = cc
member-front s (x ∷ xs) ys h = ground (arith, member-front s xs ys)

member-back : (s : Text) (xs : List Text) → member s (xs ++ s ∷ []) ≡ true
unfolding member
member-back s [] = ground (arith, text_eq_iff s s)
member-back s (x ∷ xs) = ground (arith, member-back s xs)

member-cases :
    (s y : Text) (xs : List Text) → member s (xs ++ y ∷ []) ≡ true → (member s xs ≡ true) ⊎ (s ≡ y)
unfolding member
member-cases s y [] h = ground (arith, text_eq_iff y s)
member-cases s y (x ∷ xs) h = ground (arith, member-cases s y xs)

abbrev pub IsFrom : (seeds urls seeds' : List Text) → Type 0
IsFrom seeds urls seeds' =
    (s : Text) → member s seeds' ≡ true → (member s seeds ≡ true) ⊎ Memᴰ s urls

-- what the seeds are after the URLs of a sitemap: all of both, or a full list of some of them
abbrev pub IsAdded : (w : Urls) → (seeds urls : List Text) → Seeds w → Type 0
IsAdded w seeds urls (going seeds') =
    IsFrom seeds urls seeds'
    × ((s : Text) → member s seeds ≡ true → member s seeds' ≡ true)
    × ((s : Text) → Memᴰ s urls → member s seeds' ≡ true)
IsAdded w seeds urls (full seeds') = IsFrom seeds urls seeds' × (max_sitemap_urls ≤ length seeds')

module _ (w : Urls) where
  -- one URL, and then the others
  source :
      (seeds between : List Text) (url : Text) (urls : List Text)
      → ((s : Text) → member s between ≡ true → (member s seeds ≡ true) ⊎ (s ≡ url))
      → (s : Text) → (member s between ≡ true) ⊎ Memᴰ s urls
      → (member s seeds ≡ true) ⊎ Memᴰ s (url ∷ urls)
  source seeds between url urls from s (inr m) = inr (Memᴰ.tail m)
  source seeds between url urls from s (inl m) = elim (from s m) [
    | inl old ↦ inl old
    | inr e ↦ inr (Memᴰ.head e)
  ]

  grown :
      (seeds between : List Text) (url : Text) (urls : List Text) (r : Seeds w)
      → ((s : Text) → member s between ≡ true → (member s seeds ≡ true) ⊎ (s ≡ url))
      → ((s : Text) → member s seeds ≡ true → member s between ≡ true)
      → member url between ≡ true
      → IsAdded w between urls r
      → IsAdded w seeds (url ∷ urls) r
  grown seeds between url urls (full r) from keeps has (down, cut) =
      (λ s m. source seeds between url urls from s (down s m), cut)
  grown seeds between url urls (going r) from keeps has (down, up, brought) = (
    λ s m. source seeds between url urls from s (down s m),
    λ s m. up s (keeps s m),
    λ s m. elim (Memᴰ.cases_cons m) [
      | inl e ↦ up s (subst (λ (t : Text). member t between ≡ true) (sym e) has)
      | inr m' ↦ brought s m'
    ],
  )

  pub add_seeds-IsAdded : (seeds urls : List Text) → IsAdded w seeds urls (add_seeds w seeds urls)
  unfolding add_seeds
  add_seeds-IsAdded seeds [] = (λ s m. inl m, λ s m. m, λ s m. absurd (Memᴰ.not-nil m))
  add_seeds-IsAdded seeds (url ∷ urls) = elim (Bool-cases (leb max_sitemap_urls (length seeds))) [
    | inl e ↦ rw e (λ s m. inl m, ground arith)
    | inr e ↦ elim (Bool-cases (member url seeds)) [
      | inl e' ↦
          rw (e, e')
            (grown seeds seeds url urls (add_seeds w seeds urls) (λ s m. inl m) (λ s m. m) e'
              (add_seeds-IsAdded seeds urls))
      | inr e' ↦
          rw (e, e')
            (grown seeds (seeds ++ url ∷ []) url urls (add_seeds w (seeds ++ url ∷ []) urls)
              (λ s m. member-cases s url seeds m) (λ s m. member-front s seeds (url ∷ []) m)
              (member-back url seeds) (add_seeds-IsAdded (seeds ++ url ∷ []) urls))
    ]
  ]
