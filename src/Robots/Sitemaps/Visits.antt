-- ===== src/Robots/Sitemaps/Visits.antt =====
-- A visit of `discover_sitemap_urls` of crates/basecrawl-core/src/robots.rs, and what it leaves due.
use mathlib.Core.List.{Memᴰ}
use mathlib.Core.List.Memᴰ
use basecrawl.Prelude.{
  ◌<◌, true, false, List, ◌∷◌, map, Text, length, ◌≡◌, ◌≢◌, ◌⊎◌, inl, inr, refl, sym, ap, ◌∙◌,
  subst, arith,
}
use basecrawl.Url.{Urls, is_http}
use basecrawl.Robots.Sitemaps.{member, SitemapDocument, SitemapFetch, timed_out}
use basecrawl.Robots.Sitemaps.Bounds.{WithinCap}
use basecrawl.Robots.Sitemaps.Tour.{
  IsServed, IsKnown, IsVisited, IsTour, AreSeeds, IsUnderway, IsKnown-more, IsVisited-more,
  IsVisited-self,
}

module _ (w : Urls) (fetch : w.Url → SitemapFetch w) (roots : List w.Url) where
  -- a visit of the sitemap at the top of the queue
  pub visit-IsTour :
      (u : w.Url) (queue visited : List w.Url) (seeds : List Text)
      → IsUnderway w fetch roots (u ∷ queue) visited seeds
      → length visited < 32
      → is_http w u ≡ true
      → member (w.to_string u) (map w.to_string visited) ≡ false
      → IsTour w fetch roots (u ∷ visited)
  visit-IsTour u queue visited seeds is room http new =
      let tour = is.all.some.tour in
      record {
        few = omega arith;
        distinct = (new, tour.distinct);
        http = λ v m. elim (Memᴰ.cases_cons m) [
          | inl e ↦ ap (is_http w) e ∙ http
          | inr m' ↦ tour.http v m'
        ];
        known = λ v m. elim (Memᴰ.cases_cons m) [
          | inl e ↦
              subst (IsKnown w fetch roots (u ∷ visited)) (sym e)
                (IsKnown-more w fetch roots u u visited (is.queued u (Memᴰ.head refl)))
          | inr m' ↦ IsKnown-more w fetch roots u v visited (tour.known v m')
        ];
      }

  pub drawn_more :
      (u : w.Url) (visited : List w.Url) (seeds : List Text)
      → AreSeeds w fetch roots visited seeds
      → (s : Text) → member s seeds ≡ true
      → (x : w.Url) × (d : SitemapDocument w) × Memᴰ x (u ∷ visited)
        × IsServed w fetch roots x d
        × Memᴰ s d.url_seeds
  drawn_more u visited seeds are s m =
      let (x, d, m', served, in_d) = are.drawn s m in (x, d, Memᴰ.tail m', served, in_d)

  -- what was due before the visit, once the top of the queue is visited
  pub still_due :
      (u : w.Url) (queue visited : List w.Url) (seeds : List Text)
      → IsUnderway w fetch roots (u ∷ queue) visited seeds
      → (v : w.Url) → IsKnown w fetch roots visited v
      → Memᴰ v queue ⊎ IsVisited w fetch roots (u ∷ visited) v
  still_due u queue visited seeds is v k = elim (is.due v k) [
    | inr done ↦ inr (IsVisited-more w fetch roots u v visited done)
    | inl m ↦ elim (Memᴰ.cases_cons m) [
      | inl e ↦ inr (
          subst (IsVisited w fetch roots (u ∷ visited)) (sym e)
            (IsVisited-self w fetch roots u visited))
      | inr m' ↦ inl m'
    ]
  ]

  -- a sitemap that gave no document is passed over
  pub skipped :
      (u : w.Url) (queue visited : List w.Url) (seeds : List Text)
      → IsUnderway w fetch roots (u ∷ queue) visited seeds
      → IsTour w fetch roots (u ∷ visited)
      → ((d : SitemapDocument w) → IsServed w fetch roots u d → ⊥)
      → ((m : Text) → fetch u ≢ timed_out m)
      → IsUnderway w fetch roots queue (u ∷ visited) seeds
  skipped u queue visited seeds is tour none_served in_time = record {
    all = record {
      some = record {
        tour = tour;
        cap = is.all.some.cap;
        drawn = drawn_more u visited seeds is.all.some;
      };
      kept = λ x d m served. elim (Memᴰ.cases_cons m) [
        | inl e ↦
            absurd (none_served d (subst (λ (y : w.Url). IsServed w fetch roots y d) e served))
        | inr m' ↦ is.all.kept x d m' served
      ];
      in_time = λ x message m. elim (Memᴰ.cases_cons m) [
        | inl e ↦ λ h. in_time message (ap fetch (sym e) ∙ h)
        | inr m' ↦ is.all.in_time x message m'
      ];
    };
    queued = λ v m. IsKnown-more w fetch roots u v visited (is.queued v (Memᴰ.tail m));
    due = λ v k. elim k [
      | inl root ↦ still_due u queue visited seeds is v (inl root)
      | inr (x, d, m, served, nested) ↦ elim (Memᴰ.cases_cons m) [
        | inl e ↦
            absurd (none_served d (subst (λ (y : w.Url). IsServed w fetch roots y d) e served))
        | inr m' ↦ still_due u queue visited seeds is v (inr (x, d, m', served, nested))
      ]
    ];
  }

  -- the seeds after a document, whether they are full or not
  pub document_seeds :
      (u : w.Url) (queue visited : List w.Url) (seeds seeds' : List Text) (d : SitemapDocument w)
      → IsUnderway w fetch roots (u ∷ queue) visited seeds
      → IsTour w fetch roots (u ∷ visited)
      → IsServed w fetch roots u d
      → WithinCap seeds'
      → ((s : Text) → member s seeds' ≡ true → (member s seeds ≡ true) ⊎ Memᴰ s d.url_seeds)
      → AreSeeds w fetch roots (u ∷ visited) seeds'
  document_seeds u queue visited seeds seeds' d is tour served cap from = record {
    tour = tour;
    cap = cap;
    drawn = λ s m. elim (from s m) [
      | inl old ↦ drawn_more u visited seeds is.all.some s old
      | inr in_d ↦ (u, d, Memᴰ.head refl, served, in_d)
    ];
  }
