-- ===== src/Crawl/Loop/Bounds.antt =====
-- The loop of the crawl keeps its bounds, fetches only allowed URLs, and none twice.
use mathlib.Core.List.{map-append}
use basecrawl.Prelude.{
  ℕ, zero, suc, ◌+◌, ◌≤◌, true, false, ◌||◌, List, [], ◌∷◌, ◌++◌, Text, codes, length,
  length-append, leb, ltb, ◌≡◌, refl, arith, All, All-append, Bool-cases, inl, inr, text_eq_iff,
  map,
}
use basecrawl.Proof.{ScrapeProof}
use basecrawl.Url.{Urls}
use basecrawl.Robots.Sitemaps.{member}
use basecrawl.Robots.Sitemaps.Bounds.{Distinct, Distinct-snoc}
use basecrawl.Crawl.{
  ScrapeOptions, CrawlPage, CrawlState, Crawled, finished, aborted, out_of_fuel, Scraped, ok, err,
  page_options, normalize_visit_key, is_allowed, add_skipped, Frontier, expand,
}
use basecrawl.Crawl.Loop.{page_of, Env, host, follow, follow, on_scrape, loop}

module _ (w : Urls) (env : Env w) (seed : w.Url) where
  -- A page of the crawl: an allowed URL within the depth, and what its scrape gave, which asked for
  -- a GET with no body and no pagination and changed no other option.
  pub record IsPage (u : w.Url) (p : CrawlPage) : Type 0 where
    pub allowed : is_allowed w u seed (host w env seed) ≡ true
    pub within : p.depth ≤ env.options.max_depth
    pub asked : ScrapeOptions env.Other
    pub method : asked.method ≡ codes "GET"
    pub body : asked.body ≡ []
    pub one_page : asked.follow_pagination ≡ false
    pub unchanged : asked.other ≡ env.options.scrape.other
    pub fetched : env.scrape (w.to_string u) asked ≡ ok p.proof

  -- The pages in order, with the URLs that were asked for.
  abbrev pub ArePages : List w.Url → List CrawlPage → Type 0
  ArePages [] [] = Unit
  ArePages (u ∷ us) (p ∷ ps) = IsPage u p × ArePages us ps
  ArePages _ _ = ⊥

  ArePages-snoc :
      (us : List w.Url) (ps : List CrawlPage) {u : w.Url} {p : CrawlPage}
      → ArePages us ps
      → IsPage u p
      → ArePages (us ++ u ∷ []) (ps ++ p ∷ [])
  ArePages-snoc [] [] h k = (k, tt)
  ArePages-snoc (u ∷ us) (p ∷ ps) (h, hs) k = (h, ArePages-snoc us ps hs k)
  ArePages-snoc [] (p ∷ ps) h k = absurd h
  ArePages-snoc (u ∷ us) [] h k = absurd h

  -- Two fetched URLs differ in more than the fragment; what was fetched was visited.
  abbrev pub keys : List w.Url → List Text
  keys us = map (normalize_visit_key w) us

  abbrev pub Seen : List Text → List w.Url → Type 0
  Seen visited us = All (λ u. member (normalize_visit_key w u) visited ≡ true) us

  pub record IsState (s : CrawlState) : Type 0 where
    pub urls : List w.Url
    pub pages : ArePages urls s.pages
    pub distinct : Distinct (keys urls)
    pub seen : Seen s.visited urls
    pub reasons : All (λ x. x.reason ≡ codes "outside_allow_domain") s.skipped

  abbrev pub Shallow : Frontier w → Type 0
  Shallow frontier = All (λ x. x.1 ≤ env.options.max_depth) frontier

  skip-IsState :
      (u : w.Url) (s : CrawlState)
      → IsState s
      → IsState (add_skipped w u (codes "outside_allow_domain") s)
  unfolding add_skipped
  skip-IsState u s h = record {
    urls = h.urls;
    pages = h.pages;
    distinct = h.distinct;
    seen = h.seen;
    reasons = All-append _ s.skipped _ h.reasons (refl, tt);
  }

  expand_keeps :
      (depth : ℕ) (links : List w.Url) (s : CrawlState) (frontier : Frontier w)
      → depth + 1 ≤ env.options.max_depth
      → IsState s
      → Shallow frontier
      → IsState (expand w seed (host w env seed) depth links s frontier).0
        × Shallow (expand w seed (host w env seed) depth links s frontier).1
        × ((expand w seed (host w env seed) depth links s frontier).0.pages ≡ s.pages)
  unfolding expand add_skipped
  expand_keeps depth [] s frontier d h f = (h, f, refl)
  expand_keeps depth (next ∷ more) s frontier d h f =
      elim (Bool-cases (is_allowed w next seed (host w env seed))) [
        | inr e ↦ rw e (
            expand_keeps depth more (add_skipped w next (codes "outside_allow_domain") s) frontier d
              (skip-IsState next s h) f)
        | inl e ↦ elim (Bool-cases (member (normalize_visit_key w next) s.visited)) [
          | inl e' ↦ rw (e, e') (expand_keeps depth more s frontier d h f)
          | inr e' ↦
              rw (e, e')
                (expand_keeps depth more s (frontier ++ (next, depth + 1) ∷ []) d h
                  (All-append _ frontier _ f (d, tt)))
        ]
      ]

  follow_keeps :
      (depth : ℕ) (page : CrawlPage) (s : CrawlState) (frontier : Frontier w)
      → IsState s
      → Shallow frontier
      → IsState (follow w env seed depth page s frontier).0
        × Shallow (follow w env seed depth page s frontier).1
        × ((follow w env seed depth page s frontier).0.pages ≡ s.pages)
  unfolding follow
  follow_keeps depth page s frontier h f =
      elim (Bool-cases
        (leb env.options.max_depth depth || leb env.options.max_pages (length s.pages))) [
          | inl e ↦ rw e (h, f, refl)
          | inr e ↦ rw e (expand_keeps depth _ s frontier (ground arith) h f)
        ]

  Seen-cons :
      (key : Text) (visited : List Text) (us : List w.Url)
      → Seen visited us
      → Seen (key ∷ visited) us
  unfolding member
  Seen-cons key visited [] h = tt
  Seen-cons key visited (u ∷ us) (h, hs) = (ground arith, Seen-cons key visited us hs)

  not_fetched :
      (u : w.Url) (visited : List Text) (us : List w.Url)
      → Seen visited us
      → member (normalize_visit_key w u) visited ≡ false
      → member (normalize_visit_key w u) (keys us) ≡ false
  unfolding member
  not_fetched u visited [] h n = refl
  not_fetched u visited (v ∷ us) (h, hs) n = ground (
    arith,
    text_eq_iff (normalize_visit_key w v) (normalize_visit_key w u),
    not_fetched u visited us hs n,
  )

  -- The state once a page is fetched.
  page-IsState :
      (u : w.Url) (s : CrawlState) (p : CrawlPage)
      → member (normalize_visit_key w u) s.visited ≡ false
      → IsPage u p
      → IsState s
      → IsState (record {
        pages = s.pages ++ p ∷ [];
        skipped = s.skipped;
        visited = normalize_visit_key w u ∷ s.visited;
      })
  unfolding member
  page-IsState u s p n k h = record {
    urls = h.urls ++ u ∷ [];
    pages = ArePages-snoc h.urls s.pages h.pages k;
    distinct = rw map-append (
        Distinct-snoc (normalize_visit_key w u) (keys h.urls) h.distinct
          (not_fetched u s.visited h.urls h.seen n));
    seen =
        All-append _ h.urls (u ∷ []) (Seen-cons (normalize_visit_key w u) s.visited h.urls h.seen)
          (ground (arith, text_eq_iff (normalize_visit_key w u) (normalize_visit_key w u)), tt);
    reasons = h.reasons;
  }

  visited-IsState :
      (key : Text) (s : CrawlState) → IsState s → IsState (record s { visited = key ∷ s.visited })
  visited-IsState key s h = record {
    urls = h.urls;
    pages = h.pages;
    distinct = h.distinct;
    seen = Seen-cons key s.visited h.urls h.seen;
    reasons = h.reasons;
  }

  page_of-IsPage :
      (u : w.Url) (depth : ℕ) (proof : ScrapeProof)
      → env.scrape (w.to_string u) (page_options env.options.scrape) ≡ ok proof
      → is_allowed w u seed (host w env seed) ≡ true
      → depth ≤ env.options.max_depth
      → IsPage u (page_of depth proof)
  unfolding page_options
  page_of-IsPage u depth proof got a d = record {
    allowed = a;
    within = d;
    asked = page_options env.options.scrape;
    method = refl;
    body = refl;
    one_page = refl;
    unchanged = refl;
    fetched = got;
  }

  -- How the loop may end: never for want of fuel.
  abbrev pub HasEnded : Crawled → Type 0
  HasEnded (finished s) = IsState s × (length s.pages ≤ env.options.max_pages)
  HasEnded (aborted e) = Unit
  HasEnded out_of_fuel = ⊥

  on_scrape-HasEnded :
      (next : CrawlState → Frontier w → Crawled) (u : w.Url) (depth : ℕ) (s : CrawlState)
      (frontier : Frontier w) (r : Scraped ScrapeProof)
      → env.scrape (w.to_string u) (page_options env.options.scrape) ≡ r
      → is_allowed w u seed (host w env seed) ≡ true
      → member (normalize_visit_key w u) s.visited ≡ false
      → depth ≤ env.options.max_depth
      → IsState s
      → Shallow frontier
      → ((s' : CrawlState) (frontier' : Frontier w)
          → length s'.pages ≡ length s.pages + 1
          → IsState s'
          → Shallow frontier'
          → HasEnded (next s' frontier'))
      → HasEnded (
          on_scrape w env seed next depth
            (record s { visited = normalize_visit_key w u ∷ s.visited })
            frontier
            r)
  unfolding on_scrape
  on_scrape-HasEnded next u depth s frontier (err e) got a n d h f k = tt
  on_scrape-HasEnded next u depth s frontier (ok proof) got a n d h f k =
      let p = page_of depth proof in
      let s' : CrawlState = record {
        pages = s.pages ++ p ∷ [];
        skipped = s.skipped;
        visited = normalize_visit_key w u ∷ s.visited;
      } in
      let (h', f', same) =
        follow_keeps depth p s' frontier
          (page-IsState u s p n (page_of-IsPage u depth proof got a d) h) f in
      k _ _ (rw same (length-append s.pages (p ∷ []))) h' f'

  pub loop-HasEnded :
      (k : ℕ) (frontier : Frontier w) (s : CrawlState)
      → k + length s.pages ≡ env.options.max_pages
      → IsState s
      → Shallow frontier
      → HasEnded (loop w env seed k frontier s)
  unfolding loop add_skipped
  loop-HasEnded k [] s e h f = (h, omega arith)
  loop-HasEnded zero ((u, depth) ∷ frontier) s e h f =
      elim (Bool-cases (leb env.options.max_pages (length s.pages))) [
        | inl stop ↦ rw stop (h, omega arith)
        | inr on ↦ absurd (ground arith)
      ]
  loop-HasEnded (suc k) ((u, depth) ∷ frontier) s e h (d, f) =
      elim (Bool-cases (leb env.options.max_pages (length s.pages))) [
        | inl stop ↦ rw stop (h, omega arith)
        | inr on ↦ elim (Bool-cases (member (normalize_visit_key w u) s.visited)) [
          | inl old ↦ rw (on, old) (loop-HasEnded (suc k) frontier s e h f)
          | inr new ↦ elim (Bool-cases (is_allowed w u seed (host w env seed))) [
            | inr out ↦
                rw (on, new, out)
                  (loop-HasEnded (suc k) frontier _ e
                    (skip-IsState u _ (visited-IsState (normalize_visit_key w u) s h)) f)
            | inl in_scope ↦
                let shallow : ltb env.options.max_depth depth ≡ false = ground arith in
                rw (on, new, in_scope, shallow)
                  (on_scrape-HasEnded (λ s'' frontier'. loop w env seed k frontier' s'') u depth s
                    frontier (env.scrape (w.to_string u) (page_options env.options.scrape)) refl
                    in_scope new d h f
                    (λ s' frontier' more h' f'. loop-HasEnded k frontier' s' (omega arith) h' f'))
          ]
        ]
      ]
