-- ===== src/Robots/Sitemaps/Events.antt =====
-- What `parse_sitemap` lets through: only http(s) URLs, resolved against the sitemap's own.
use basecrawl.Prelude.{
  true, ◌||◌, ◌&&◌, Option, none, some, List, [], ◌∷◌, Text, codes, text_eq, ◌≡◌, refl, arith, All,
  All-append, Bool-cases, Option-cases, inl, inr, trim,
}
use basecrawl.Url.{Urls, is_http}
use basecrawl.Robots.Sitemaps.{
  Event, start, finish, text, eof, other, Parent, in_url, in_sitemap, SitemapDocument, Reader,
  reading, on_start, on_text, add_location, resolve, on_finish, read_events, parse_sitemap,
}

module _ (w : Urls) (base : w.Url) where
  -- A URL that some location resolves to.
  pub record IsEntry (u : w.Url) : Type 0 where
    pub location : Text
    pub resolved : w.join base location ≡ some u
    pub http : is_http w u ≡ true

  abbrev pub IsSeed : Text → Type 0
  IsSeed s = (u : w.Url) × (s ≡ w.to_string u) × IsEntry u

  pub record IsClean (d : SitemapDocument w) : Type 0 where
    pub seeds : All IsSeed d.url_seeds
    pub nested : All IsEntry d.nested_sitemaps

  add_location-IsClean :
      (p : Option Parent) (u : w.Url) (d : SitemapDocument w)
      → IsEntry u
      → IsClean d
      → IsClean (add_location w p u d)
  unfolding add_location
  add_location-IsClean none u d e h = h
  add_location-IsClean (some in_url) u d e h = record {
    seeds = All-append IsSeed d.url_seeds (w.to_string u ∷ []) h.seeds ((u, refl, e), tt);
    nested = h.nested;
  }
  add_location-IsClean (some in_sitemap) u d e h = record {
    seeds = h.seeds;
    nested = All-append IsEntry d.nested_sitemaps (u ∷ []) h.nested (e, tt);
  }

  resolve-IsClean : (r : Reader w) → IsClean r.result → IsClean (resolve w base r)
  unfolding resolve
  resolve-IsClean r h = elim (Option-cases (w.join base (trim r.location))) [
    | inl e ↦ rw (e, resolve) h
    | inr (u, e) ↦ elim (Bool-cases (is_http w u)) [
      | inl http ↦
          rw (e, resolve)
            (rw http (
              add_location-IsClean r.parent u r.result
                (record { location = trim r.location; resolved = e; http = http }) h))
      | inr foreign ↦ rw (e, resolve) (rw foreign h)
    ]
  ]

  on_start-result : (name : Text) (r : Reader w) → (on_start w name r).result ≡ r.result
  unfolding on_start
  on_start-result name r = ground arith

  on_text-result : (t : Option Text) (r : Reader w) → (on_text w t r).result ≡ r.result
  unfolding on_text
  on_text-result none r = refl
  on_text-result (some t) r = ground arith

  on_finish-IsClean :
      (name : Text) (r : Reader w) → IsClean r.result → IsClean (on_finish w base name r).result
  unfolding on_finish
  on_finish-IsClean name r h = elim (Bool-cases (text_eq name (codes "loc") && r.in_loc)) [
    | inl e ↦ rw e (resolve-IsClean r h)
    | inr e ↦ elim (Bool-cases (text_eq name (codes "url") || text_eq name (codes "sitemap"))) [
      | inl e' ↦ rw (e, e') h
      | inr e' ↦ rw (e, e') h
    ]
  ]

  read_events-IsClean :
      (r : Reader w) (events : List Event)
      → IsClean r.result
      → IsClean (read_events w base r events)
  unfolding read_events
  read_events-IsClean r [] h = h
  read_events-IsClean r (eof ∷ es) h = h
  read_events-IsClean r (start name ∷ es) h =
      read_events-IsClean (on_start w name r) es (rw on_start-result h)
  read_events-IsClean r (finish name ∷ es) h =
      read_events-IsClean (on_finish w base name r) es (on_finish-IsClean name r h)
  read_events-IsClean r (text t ∷ es) h =
      read_events-IsClean (on_text w t r) es (rw on_text-result h)
  read_events-IsClean r (other ∷ es) h = read_events-IsClean r es h

  -- Whatever events the XML reader gives, every seed and every nested sitemap is an http(s) URL to
  -- which a location of the document resolves against the sitemap's own URL.
  pub parse_sitemap-IsClean : (events : List Event) → IsClean (parse_sitemap w base events)
  unfolding parse_sitemap
  parse_sitemap-IsClean events =
      read_events-IsClean (reading w) events (record { seeds = tt; nested = tt })
