-- ===== src/Robots/Sitemaps/Tour.antt =====
-- What the discovery of crates/basecrawl-core/src/robots.rs has visited and found, on its way and
-- at its end.
use mathlib.Core.List.{Memᴰ}
use basecrawl.Prelude.{
  ℕ, ◌≤◌, true, false, List, ◌∷◌, map, Text, text_eq_iff, length, ◌≡◌, ◌≢◌, ◌⊎◌, inl, inr, sym, ap,
  ◌∙◌, arith,
}
use basecrawl.Error.{timeout}
use basecrawl.Url.{Urls, is_http}
use basecrawl.Robots.Sitemaps.{
  member, Event, SitemapDocument, SitemapFetch, got, timed_out, Found, found, stopped,
  parse_sitemap,
}
use basecrawl.Robots.Sitemaps.Bounds.{Distinct, WithinCap}

module _ (w : Urls) (fetch : w.Url → SitemapFetch w) (roots : List w.Url) where
  -- a sitemap that was answered with a status from 200 to 299 and this document
  abbrev pub IsServed : w.Url → SitemapDocument w → Type 0
  IsServed u d =
      (status : ℕ) × (events : List Event) × (fetch u ≡ got status events)
      × (200 ≤ status)
      × (status ≤ 299)
      × (parse_sitemap w u events ≡ d)

  -- a sitemap that the discovery starts from, or that a visited one names
  abbrev pub IsKnown : List w.Url → w.Url → Type 0
  IsKnown visited v =
      Memᴰ v roots
      ⊎ ((u : w.Url) × (d : SitemapDocument w) × Memᴰ u visited
          × IsServed u d
          × Memᴰ v d.nested_sitemaps)

  abbrev pub IsVisited : List w.Url → w.Url → Type 0
  IsVisited visited v = member (w.to_string v) (map w.to_string visited) ≡ true

  -- The visited sitemaps: at most 32 HTTP URLs without duplicates.
  pub record IsTour (visited : List w.Url) : Type 0 where
    pub few : length visited ≤ 32
    pub distinct : Distinct (map w.to_string visited)
    pub http : (u : w.Url) → Memᴰ u visited → is_http w u ≡ true
    pub known : (u : w.Url) → Memᴰ u visited → IsKnown visited u

  -- The seeds: within the cap, without duplicates, each of a visited sitemap.
  pub record AreSeeds (visited : List w.Url) (seeds : List Text) : Type 0 where
    pub tour : IsTour visited
    pub cap : WithinCap seeds
    pub drawn :
        (s : Text)
        → member s seeds ≡ true
        → (u : w.Url) × (d : SitemapDocument w) × Memᴰ u visited × IsServed u d × Memᴰ s d.url_seeds

  -- ... and all seeds of the visited sitemaps, none of which timed out
  pub record AreAllSeeds (visited : List w.Url) (seeds : List Text) : Type 0 where
    pub some : AreSeeds visited seeds
    pub kept :
        (u : w.Url) (d : SitemapDocument w)
        → Memᴰ u visited
        → IsServed u d
        → (s : Text) → Memᴰ s d.url_seeds
        → member s seeds ≡ true
    pub in_time : (u : w.Url) (m : Text) → Memᴰ u visited → fetch u ≢ timed_out m

  -- How a discovery ends.
  pub data IsFound : Found w → Type 0 where
    complete :
        (visited : List w.Url) (seeds : List Text)
        → AreAllSeeds visited seeds
        → ((v : w.Url) → IsKnown visited v → IsVisited visited v)
        → IsFound (found seeds)
    limited :
        (visited : List w.Url) (seeds : List Text)
        → AreAllSeeds visited seeds
        → ((length visited ≡ 32) ⊎ ((v : w.Url) × IsKnown visited v × (is_http w v ≡ false)))
        → IsFound (found seeds)
    capped :
        (visited : List w.Url) (seeds : List Text)
        → AreSeeds visited seeds
        → length seeds ≡ 10000
        → IsFound (found seeds)
    timed :
        (visited : List w.Url) (u : w.Url) (m : Text)
        → IsTour visited
        → Memᴰ u visited
        → fetch u ≡ timed_out m
        → IsFound (stopped (timeout m))

  -- the invariant of the loop
  pub record IsUnderway (queue visited : List w.Url) (seeds : List Text) : Type 0 where
    pub all : AreAllSeeds visited seeds
    pub queued : (v : w.Url) → Memᴰ v queue → IsKnown visited v
    pub due : (v : w.Url) → IsKnown visited v → Memᴰ v queue ⊎ IsVisited visited v

  pub IsKnown-more :
      (u v : w.Url) (visited : List w.Url) → IsKnown visited v → IsKnown (u ∷ visited) v
  IsKnown-more u v visited (inl m) = inl m
  IsKnown-more u v visited (inr (x, d, m, served, nested)) = inr (x, d, Memᴰ.tail m, served, nested)

  pub IsVisited-more :
      (u v : w.Url) (visited : List w.Url) → IsVisited visited v → IsVisited (u ∷ visited) v
  unfolding member
  IsVisited-more u v visited h = ground arith

  pub IsVisited-self : (u : w.Url) (visited : List w.Url) → IsVisited (u ∷ visited) u
  unfolding member
  IsVisited-self u visited = ground (arith, text_eq_iff (w.to_string u) (w.to_string u))

  pub answers_same :
      (status status' : ℕ) (events events' : List Event) (r : SitemapFetch w)
      → r ≡ got status events
      → r ≡ got status' events'
      → (status ≡ status') × (events ≡ events')
  answers_same status status' events events' r h k = (cc, cc)

  pub served_same : (u : w.Url) (d d' : SitemapDocument w) → IsServed u d → IsServed u d' → d ≡ d'
  served_same u d d' (status, events, e, low, high, parsed)
        (status', events', e', low', high', parsed') =
      let (same, same') = answers_same status status' events events' (fetch u) e e' in
      sym parsed ∙ ap (parse_sitemap w u) same' ∙ parsed'
