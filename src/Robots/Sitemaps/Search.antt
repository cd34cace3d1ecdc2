-- ===== src/Robots/Sitemaps/Search.antt =====
-- How `discover_sitemap_urls` of crates/basecrawl-core/src/robots.rs ends.
use mathlib.Core.List.{Memᴰ}
use mathlib.Core.List.Memᴰ
use basecrawl.Prelude.{
  ℕ, zero, suc, ◌+◌, Bool, true, false, not, ◌||◌, List, [], ◌∷◌, ◌++◌, map, reverse, Text, length,
  leb, ◌≡◌, ◌≢◌, ◌⊎◌, inl, inr, refl, sym, ap, subst, arith, Bool-cases,
}
use basecrawl.Url.{Urls, is_http}
use basecrawl.Robots.Policy.{is_success}
use basecrawl.Robots.Sitemaps.{
  member, max_sitemaps, SitemapDocument, SitemapFetch, got, timed_out, failed, Seeds, going, full,
  add_seeds, Found, found, out_of_fuel, visit, parse_sitemap, after_seeds, continue_with, discover,
  discover_sitemap_urls, default_sitemap_url,
}
use basecrawl.Robots.Sitemaps.Bounds.{Kept, add_seeds-Kept}
use basecrawl.Robots.Sitemaps.Seeding.{IsAdded, add_seeds-IsAdded}
use basecrawl.Robots.Sitemaps.Tour.{
  IsServed, IsKnown, IsVisited, IsTour, IsFound, IsUnderway, answers_same, complete, limited,
  capped, timed,
}
use basecrawl.Robots.Sitemaps.Visits.{visit-IsTour, skipped, document_seeds}
use basecrawl.Robots.Sitemaps.Documents.{
  unreversed, reversed, failed-late, got-late, failed-got, unsuccessful, document_read, full_length,
}

module _ (w : Urls) (fetch : w.Url → SitemapFetch w) (roots : List w.Url) where
  module _ (next : List w.Url → List Text → Found w) where
    added :
        (u : w.Url) (queue visited : List w.Url) (seeds : List Text) (d : SitemapDocument w)
        (added : Seeds w)
        → IsUnderway w fetch roots (u ∷ queue) visited seeds
        → IsTour w fetch roots (u ∷ visited)
        → IsServed w fetch roots u d
        → ((m : Text) → fetch u ≢ timed_out m)
        → Kept w added
        → IsAdded w seeds d.url_seeds added
        → ((queue' : List w.Url) (seeds' : List Text)
            → IsUnderway w fetch roots queue' (u ∷ visited) seeds'
            → IsFound w fetch roots (next queue' seeds'))
        → IsFound w fetch roots
            (after_seeds w fetch next (reverse d.nested_sitemaps ++ queue) added)
    unfolding after_seeds
    added u queue visited seeds d (full seeds') is tour served in_time cap (from, cut) on =
        capped (u ∷ visited) seeds'
          (document_seeds w fetch roots u queue visited seeds seeds' d is tour served cap from)
          (full_length w fetch roots seeds' cap cut)
    added u queue visited seeds d (going seeds') is tour served in_time cap add on =
        on (reverse d.nested_sitemaps ++ queue) seeds' (
          document_read w fetch roots u queue visited seeds seeds' d is tour served in_time cap add)

    step-IsFound :
        (u : w.Url) (queue visited : List w.Url) (seeds : List Text) (r : SitemapFetch w)
        → fetch u ≡ r
        → IsUnderway w fetch roots (u ∷ queue) visited seeds
        → IsTour w fetch roots (u ∷ visited)
        → ((queue' : List w.Url) (seeds' : List Text)
            → IsUnderway w fetch roots queue' (u ∷ visited) seeds'
            → IsFound w fetch roots (next queue' seeds'))
        → IsFound w fetch roots (continue_with w fetch next queue seeds (visit w u r))
    unfolding continue_with visit
    step-IsFound u queue visited seeds (timed_out m) e is tour on =
        timed (u ∷ visited) u m tour (Memᴰ.head refl) e
    step-IsFound u queue visited seeds failed e is tour on = on queue seeds (
        skipped w fetch roots u queue visited seeds is tour
          (λ d (status, events, e', low, high, parsed).
            failed-got w fetch roots (fetch u) status events e e')
          (λ m h. failed-late w fetch roots (fetch u) m e h))
    step-IsFound u queue visited seeds (got status events) e is tour on =
        elim (Bool-cases (is_success status)) [
          | inl good ↦ rw good (
              added u queue visited seeds (parse_sitemap w u events)
                (add_seeds w seeds (parse_sitemap w u events).url_seeds) is tour
                (status, events, e, ground arith, ground arith, refl)
                (λ m h. got-late w fetch roots (fetch u) status events m e h)
                (add_seeds-Kept w seeds (parse_sitemap w u events).url_seeds is.all.some.cap)
                (add_seeds-IsAdded w seeds (parse_sitemap w u events).url_seeds) on)
          | inr bad ↦ rw bad (
              on queue seeds (
                skipped w fetch roots u queue visited seeds is tour
                  (λ d (status', events', e', low, high, parsed).
                    unsuccessful w fetch roots status status'
                      (answers_same w fetch roots status status' events events' (fetch u) e e').0
                      bad low high)
                  (λ m h. got-late w fetch roots (fetch u) status events m e h)))
        ]

  IsFound-ends : (f : Found w) → IsFound w fetch roots f → f ≢ out_of_fuel
  IsFound-ends _ (complete visited seeds all done) e = cc
  IsFound-ends _ (limited visited seeds all why) e = cc
  IsFound-ends _ (capped visited seeds some e') e = cc
  IsFound-ends _ (timed visited u m tour m' e') e = cc

  names-length : (visited : List w.Url) → length (map w.to_string visited) ≡ length visited
  names-length [] = refl
  names-length (u ∷ visited) = ap suc (names-length visited)

  -- the loop breaks off at the bound on sitemaps, or at a URL that is not HTTP
  broken_off :
      (u : w.Url) (queue visited : List w.Url) (seeds : List Text)
      → IsUnderway w fetch roots (u ∷ queue) visited seeds
      → (leb max_sitemaps (length (map w.to_string visited)) || not (is_http w u)) ≡ true
      → IsFound w fetch roots (found seeds)
  broken_off u queue visited seeds is stop =
      limited visited seeds is.all
        (reason (leb max_sitemaps (length (map w.to_string visited))) (is_http w u) refl refl stop)
    where
      reason :
          (many http : Bool)
          → leb max_sitemaps (length (map w.to_string visited)) ≡ many
          → is_http w u ≡ http
          → (many || not http) ≡ true
          → (length visited ≡ 32)
            ⊎ ((v : w.Url) × IsKnown w fetch roots visited v × (is_http w v ≡ false))
      reason true http e e' h =
          let same = names-length visited in let few = is.all.some.tour.few in inl (ground arith)
      reason false true e e' h = cc
      reason false false e e' h = inr (u, is.queued u (Memᴰ.head refl), e')

  at_bound : (n m : ℕ) (b : Bool) → m ≡ n → 0 + n ≡ max_sitemaps → (leb max_sitemaps m || b) ≡ true
  at_bound n m b e h = ground arith

  -- a sitemap that was visited before is passed over
  seen_before :
      (u : w.Url) (queue visited : List w.Url) (seeds : List Text)
      → IsUnderway w fetch roots (u ∷ queue) visited seeds
      → IsVisited w fetch roots visited u
      → IsUnderway w fetch roots queue visited seeds
  seen_before u queue visited seeds is old = record {
    all = is.all;
    queued = λ v m. is.queued v (Memᴰ.tail m);
    due = λ v k. elim (is.due v k) [
      | inr done ↦ inr done
      | inl m ↦ elim (Memᴰ.cases_cons m) [
        | inl e ↦ inr (subst (IsVisited w fetch roots visited) (sym e) old)
        | inr m' ↦ inl m'
      ]
    ];
  }

  passed_on : (many http : Bool) → (many || not http) ≡ false → http ≡ true
  passed_on true http h = cc
  passed_on false true h = refl
  passed_on false false h = cc

  discover-IsFound :
      (k : ℕ) (queue visited : List w.Url) (seeds : List Text)
      → k + length visited ≡ max_sitemaps
      → IsUnderway w fetch roots queue visited seeds
      → IsFound w fetch roots (discover w fetch k queue (map w.to_string visited) seeds)
  unfolding discover
  discover-IsFound k [] visited seeds e is =
      complete visited seeds is.all
        (λ v known. elim (is.due v known) [ inl m ↦ absurd (Memᴰ.not-nil m) | inr done ↦ done ])
  discover-IsFound zero (u ∷ queue) visited seeds e is =
      let stop =
        at_bound (length visited) (length (map w.to_string visited)) (not (is_http w u))
          (names-length visited) e in
      rw stop (broken_off u queue visited seeds is stop)
  discover-IsFound (suc k) (u ∷ queue) visited seeds e is =
      elim (Bool-cases (leb max_sitemaps (length (map w.to_string visited)) || not (is_http w u))) [
        | inl stop ↦ rw stop (broken_off u queue visited seeds is stop)
        | inr on ↦ elim (Bool-cases (member (w.to_string u) (map w.to_string visited))) [
          | inl old ↦
              rw (on, old)
                (discover-IsFound (suc k) queue visited seeds e
                  (seen_before u queue visited seeds is old))
          | inr new ↦
              rw (on, new)
                (step-IsFound
                  (λ queue' seeds'.
                    discover w fetch k queue' (w.to_string u ∷ map w.to_string visited) seeds')
                  u queue visited seeds (fetch u) refl is
                  (visit-IsTour w fetch roots u queue visited seeds is (omega arith)
                    (passed_on (leb max_sitemaps (length (map w.to_string visited))) (is_http w u)
                      on)
                    new)
                  (λ queue' seeds' h.
                    discover-IsFound k queue' (u ∷ visited) seeds' (omega arith) h))
        ]
      ]

pub discover_sitemap_urls-IsFound :
    (w : Urls) (fetch : w.Url → SitemapFetch w) (target : w.Url) (robots_sitemaps : List w.Url)
    → IsFound w fetch
        (default_sitemap_url w target ∷ robots_sitemaps)
        (discover_sitemap_urls w fetch target robots_sitemaps)
unfolding discover_sitemap_urls member
discover_sitemap_urls-IsFound w fetch target robots_sitemaps =
    let roots : List w.Url = default_sitemap_url w target ∷ robots_sitemaps in
    discover-IsFound w fetch roots max_sitemaps (reverse roots) [] [] (omega arith) (record {
      all = record {
        some = record {
          tour = record {
            few = omega arith;
            distinct = tt;
            http = λ u m. absurd (Memᴰ.not-nil m);
            known = λ u m. absurd (Memᴰ.not-nil m);
          };
          cap = (omega arith, tt);
          drawn = λ s m. cc;
        };
        kept = λ u d m. absurd (Memᴰ.not-nil m);
        in_time = λ u m h. absurd (Memᴰ.not-nil h);
      };
      queued = λ v m. inl (unreversed w fetch roots v roots m);
      due = λ v known. elim known [
        | inl root ↦ inl (reversed w fetch roots v roots root)
        | inr (u, d, m, served, nested) ↦ absurd (Memᴰ.not-nil m)
      ];
    })

-- A discovery does not run out of fuel.
pub ends :
    (w : Urls) (fetch : w.Url → SitemapFetch w) (target : w.Url) (robots_sitemaps : List w.Url)
    → discover_sitemap_urls w fetch target robots_sitemaps ≢ out_of_fuel
ends w fetch target robots_sitemaps =
    IsFound-ends w fetch (default_sitemap_url w target ∷ robots_sitemaps)
      (discover_sitemap_urls w fetch target robots_sitemaps)
      (discover_sitemap_urls-IsFound w fetch target robots_sitemaps)
