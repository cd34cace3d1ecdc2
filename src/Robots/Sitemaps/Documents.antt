-- ===== src/Robots/Sitemaps/Documents.antt =====
-- A sitemap that `discover_sitemap_urls` of crates/basecrawl-core/src/robots.rs reads adds its seeds
-- and its nested sitemaps.
use mathlib.Core.List.{Memᴰ, reverse_aux}
use mathlib.Core.List.Memᴰ
use basecrawl.Prelude.{
  ℕ, ◌≤◌, false, List, [], ◌∷◌, ◌++◌, reverse, Text, length, ◌≡◌, ◌≢◌, ◌⊎◌, inl, inr, refl, sym, ap,
  ◌∙◌, subst, arith,
}
use basecrawl.Url.{Urls}
use basecrawl.Robots.Policy.{is_success}
use basecrawl.Robots.Sitemaps.{
  max_sitemap_urls, Event, SitemapDocument, SitemapFetch, got, timed_out, failed, going,
}
use basecrawl.Robots.Sitemaps.Bounds.{WithinCap}
use basecrawl.Robots.Sitemaps.Seeding.{IsAdded}
use basecrawl.Robots.Sitemaps.Tour.{
  IsServed, IsVisited, IsTour, IsUnderway, IsKnown-more, served_same,
}
use basecrawl.Robots.Sitemaps.Visits.{still_due, document_seeds}

module _ (w : Urls) (fetch : w.Url → SitemapFetch w) (roots : List w.Url) where
  pub aux_front :
      (v : w.Url) (xs ys : List w.Url) → Memᴰ v (reverse_aux xs ys) → Memᴰ v xs ⊎ Memᴰ v ys
  aux_front v [] ys m = inr m
  aux_front v (x ∷ xs) ys m = elim (aux_front v xs (x ∷ ys) m) [
    | inl front ↦ inl (Memᴰ.tail front)
    | inr back ↦ elim (Memᴰ.cases_cons back) [ inl e ↦ inl (Memᴰ.head e) | inr m' ↦ inr m' ]
  ]

  pub aux_back : (v : w.Url) (xs ys : List w.Url) → Memᴰ v ys → Memᴰ v (reverse_aux xs ys)
  aux_back v [] ys m = m
  aux_back v (x ∷ xs) ys m = aux_back v xs (x ∷ ys) (Memᴰ.tail m)

  pub unreversed : (v : w.Url) (xs : List w.Url) → Memᴰ v (reverse xs) → Memᴰ v xs
  unreversed v xs m = elim (aux_front v xs [] m) [
    | inl m' ↦ m'
    | inr none_there ↦ absurd (Memᴰ.not-nil none_there)
  ]

  pub into_aux : (v : w.Url) (xs ys : List w.Url) → Memᴰ v xs → Memᴰ v (reverse_aux xs ys)
  into_aux v [] ys m = absurd (Memᴰ.not-nil m)
  into_aux v (x ∷ xs) ys m = elim (Memᴰ.cases_cons m) [
    | inl e ↦ aux_back v xs (x ∷ ys) (Memᴰ.head e)
    | inr m' ↦ into_aux v xs (x ∷ ys) m'
  ]

  pub reversed : (v : w.Url) (xs : List w.Url) → Memᴰ v xs → Memᴰ v (reverse xs)
  reversed v xs m = into_aux v xs [] m

  pub failed-late : (r : SitemapFetch w) (m : Text) → r ≡ failed → r ≢ timed_out m
  failed-late r m e h = cc

  pub got-late :
      (r : SitemapFetch w) (status : ℕ) (events : List Event) (m : Text)
      → r ≡ got status events
      → r ≢ timed_out m
  got-late r status events m e h = cc

  pub failed-got :
      (r : SitemapFetch w) (status : ℕ) (events : List Event) → r ≡ failed → r ≢ got status events
  failed-got r status events e h = cc

  pub unsuccessful :
      (status status' : ℕ)
      → status ≡ status'
      → is_success status ≡ false
      → 200 ≤ status'
      → status' ≤ 299
      → ⊥
  unsuccessful status status' e bad low high = ground arith

  -- a document whose seeds leave room
  pub document_read :
      (u : w.Url) (queue visited : List w.Url) (seeds seeds' : List Text) (d : SitemapDocument w)
      → IsUnderway w fetch roots (u ∷ queue) visited seeds
      → IsTour w fetch roots (u ∷ visited)
      → IsServed w fetch roots u d
      → ((m : Text) → fetch u ≢ timed_out m)
      → WithinCap seeds'
      → IsAdded w seeds d.url_seeds (going seeds')
      → IsUnderway w fetch roots (reverse d.nested_sitemaps ++ queue) (u ∷ visited) seeds'
  document_read u queue visited seeds seeds' d is tour served in_time within (from, up, brought) =
      record {
        all = record {
          some =
              document_seeds w fetch roots u queue visited seeds seeds' d is tour served within
                from;
          kept = λ x d' m served' s in_d. elim (Memᴰ.cases_cons m) [
            | inl e ↦ brought s (
                subst (λ (y : SitemapDocument w). Memᴰ s y.url_seeds)
                  (served_same w fetch roots u d' d
                    (subst (λ (y : w.Url). IsServed w fetch roots y d') e served') served)
                  in_d)
            | inr m' ↦ up s (is.all.kept x d' m' served' s in_d)
          ];
          in_time = λ x message m. elim (Memᴰ.cases_cons m) [
            | inl e ↦ λ h. in_time message (ap fetch (sym e) ∙ h)
            | inr m' ↦ is.all.in_time x message m'
          ];
        };
        queued = λ v m. elim (Memᴰ.append_cases (reverse d.nested_sitemaps) m) [
          | inl nested ↦ inr (u, d, Memᴰ.head refl, served, unreversed v d.nested_sitemaps nested)
          | inr m' ↦ IsKnown-more w fetch roots u v visited (is.queued v (Memᴰ.tail m'))
        ];
        due = λ v k. elim k [
          | inl root ↦
              behind v (reverse d.nested_sitemaps)
                (still_due w fetch roots u queue visited seeds is v (inl root))
          | inr (x, d', m, served', nested) ↦ elim (Memᴰ.cases_cons m) [
            | inl e ↦ inl (
                Memᴰ.append_left queue (
                  reversed v d.nested_sitemaps (
                    subst (λ (y : SitemapDocument w). Memᴰ v y.nested_sitemaps)
                      (served_same w fetch roots u d' d
                        (subst (λ (y : w.Url). IsServed w fetch roots y d') e served') served)
                      nested)))
            | inr m' ↦ behind v (reverse d.nested_sitemaps) (
                still_due w fetch roots u queue visited seeds is v
                  (inr (x, d', m', served', nested)))
          ]
        ];
      }
    where
      behind :
          (v : w.Url) (front : List w.Url)
          → Memᴰ v queue ⊎ IsVisited w fetch roots (u ∷ visited) v
          → Memᴰ v (front ++ queue) ⊎ IsVisited w fetch roots (u ∷ visited) v
      behind v front (inl m) = inl (Memᴰ.append_right front m)
      behind v front (inr h) = inr h

  pub full_length :
      (seeds : List Text) → WithinCap seeds → max_sitemap_urls ≤ length seeds → length seeds ≡ 10000
  full_length seeds (cap, d) h = omega arith
