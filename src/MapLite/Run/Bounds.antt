-- ===== src/MapLite/Run/Bounds.antt =====
-- The inventory keeps within its cap, without duplicates, and counts what it holds.
use basecrawl.Prelude.{
  ◌≢◌, ℕ, zero, suc, ◌+◌, ◌≤◌, Bool, false, ◌&&◌, Option, List, [], ◌∷◌, Text, length, take, leb,
  ltb, ◌≡◌, refl, ap, sym, ◌∙◌, subst, arith, Bool-cases, inl, inr,
}
use basecrawl.Url.{Urls, Validated, validate_url}
use basecrawl.Url
use basecrawl.Proof.{ScrapeProof}
use basecrawl.Crawl.{Scraped, ok, err}
use basecrawl.Robots.Sitemaps.{member, Found, discover_sitemap_urls}
use basecrawl.Robots.Sitemaps
use basecrawl.Robots.Sitemaps.Bounds.{Distinct}
use basecrawl.Robots.Sitemaps.Search.{ends}
use basecrawl.MapLite.{
  Inventory, push_url, add_all, MapResult, Mapped, mapped, failed, stuck, validate_max_urls,
  SitemapNote,
}
use basecrawl.MapLite.Run.{
  MapEnv, result, with_sitemaps, after_links, with_page, proof_links, first, from_seed,
  within_bounds, map_lite,
}
use basecrawl.MapLite.Pushes.{Listed, IsInventory, Counted, add_all-Counted}

take-all : (n : ℕ) (xs : List Text) → length xs ≤ n → take n xs ≡ xs
take-all zero [] h = refl
take-all zero (x ∷ xs) h = absurd (omega arith)
take-all (suc n) [] h = refl
take-all (suc n) (x ∷ xs) h = ap (x ∷◌) (take-all n xs (omega arith))

-- What a run may give: the error of a bound, of the seed or of its scrape, or an inventory.
pub record IsMap (w : Urls) (env : MapEnv w) (seed : w.Url) (r : MapResult) : Type 0 where
  pub first_and_admitted : Listed w seed env.options.same_origin_only env.options.max_urls r.urls
  pub distinct : Distinct r.urls
  pub cap : length r.urls ≤ env.options.max_urls
  pub counts : length r.urls ≡ 1 + (r.from_seed_links + r.from_sitemap)

abbrev pub IsOutcome : (w : Urls) → MapEnv w → w.Url → Mapped → Type 0
IsOutcome w env seed (mapped r) = IsMap w env seed r
IsOutcome w env seed (failed e) = Unit
IsOutcome w env seed stuck = ⊥

module _ (w : Urls) (env : MapEnv w) (seed : w.Url) where
  abbrev max : ℕ
  max = env.options.max_urls

  abbrev only : Bool
  only = env.options.same_origin_only

  result-IsMap :
      (n m : ℕ) (about : Option SitemapNote) (i : Inventory)
      → IsInventory w seed only max i
      → length i.ordered ≡ 1 + (n + m)
      → IsOutcome w env seed (result w env seed n m about i)
  unfolding result
  result-IsMap n m about i h e =
      let all_of : i.ordered ≡ take max i.ordered = sym (take-all max i.ordered h.cap) in
      record {
        first_and_admitted = subst (Listed w seed only max) all_of h.listed;
        distinct = subst Distinct all_of h.distinct;
        cap = subst (λ xs. length xs ≤ max) all_of h.cap;
        counts = ap length (sym all_of) ∙ e;
      }

  with_sitemaps-IsMap :
      (n : ℕ) (i : Inventory) (f : Found w)
      → IsInventory w seed only max i
      → length i.ordered ≡ 1 + n
      → f ≢ Sitemaps.out_of_fuel
      → IsOutcome w env seed (with_sitemaps w env seed n i f)
  unfolding with_sitemaps
  with_sitemaps-IsMap n i (Sitemaps.found seeds) h e f =
      let acc = add_all w seed only max seeds (0, i) in
      let (h', e') = add_all-Counted w seed only max (1 + n) seeds (0, i) (h, e ∙ omega arith) in
      result-IsMap n acc.0 _ acc.1 h' (e' ∙ omega arith)
  with_sitemaps-IsMap n i (Sitemaps.stopped x) h e f = result-IsMap n 0 _ i h (e ∙ omega arith)
  with_sitemaps-IsMap n i Sitemaps.out_of_fuel h e f = absurd (f refl)

  after_links-IsMap :
      (n : ℕ) (i : Inventory)
      → IsInventory w seed only max i
      → length i.ordered ≡ 1 + n
      → IsOutcome w env seed (after_links w env seed (n, i))
  unfolding after_links
  after_links-IsMap n i h e =
      elim (Bool-cases
        (env.options.use_sitemap && (ltb (length i.ordered) max && env.before_deadline))) [
          | inl on ↦ rw on (
              with_sitemaps-IsMap n i (discover_sitemap_urls w env.fetch_sitemap seed []) h e
                (ends w env.fetch_sitemap seed []))
          | inr off ↦ rw off (result-IsMap n 0 _ i h (e ∙ omega arith))
        ]

  -- the inventory of the seed alone
  seed_only :
      1 ≤ max
      → IsInventory w seed only max
          (record { ordered = w.to_string seed ∷ []; seen = w.to_string seed ∷ [] })
  unfolding member
  seed_only h = record { same = λ x. refl; distinct = (refl, tt); cap = h; listed = (refl, tt) }

  first_room : 1 ≤ max → leb max 0 ≡ false
  first_room h = ground arith

  first-IsInventory : 1 ≤ max → Counted w seed only max 1 (0, first w env seed)
  unfolding first push_url member
  first-IsInventory h = rw (first, push_url, first_room h) (seed_only h, omega arith)

  with_page-IsMap :
      1 ≤ max → (r : Scraped ScrapeProof) → IsOutcome w env seed (with_page w env seed r)
  unfolding with_page
  with_page-IsMap h (err e) = tt
  with_page-IsMap h (ok proof) =
      let acc = add_all w seed only max (proof_links w env seed proof) (0, first w env seed) in
      let (h', e') =
        add_all-Counted w seed only max 1 (proof_links w env seed proof) (0, first w env seed)
          (first-IsInventory h) in
      after_links-IsMap acc.0 acc.1 h' e'

one_at_least : (n : ℕ) → validate_max_urls n ≡ ok tt → 1 ≤ n
unfolding validate_max_urls
one_at_least n h = ground arith

-- What a run on a text may give: an error, or the inventory of the valid URL that the text is.
abbrev pub Outcome : (w : Urls) → MapEnv w → Text → Mapped → Type 0
Outcome w env raw (mapped r) =
    (seed : w.Url) × (validate_url w raw ≡ Url.ok seed) × IsMap w env seed r
Outcome w env raw (failed e) = Unit
Outcome w env raw stuck = ⊥

widen :
    (w : Urls) (env : MapEnv w) (raw : Text) (seed : w.Url) (m : Mapped)
    → validate_url w raw ≡ Url.ok seed
    → IsOutcome w env seed m
    → Outcome w env raw m
widen w env raw seed (mapped r) e h = (seed, e, h)
widen w env raw seed (failed x) e h = tt
widen w env raw seed stuck e h = h

from_seed-Outcome :
    (w : Urls) (env : MapEnv w) (raw : Text) (v : Validated w.Url)
    → 1 ≤ env.options.max_urls
    → validate_url w raw ≡ v
    → Outcome w env raw (from_seed w env v)
unfolding from_seed
from_seed-Outcome w env raw (Url.err e) h same = tt
from_seed-Outcome w env raw (Url.ok seed) h same =
    widen w env raw seed (with_page w env seed _) same (with_page-IsMap w env seed h _)

within_bounds-Outcome :
    (w : Urls) (env : MapEnv w) (raw : Text) (bounds : Scraped (Unit {0}))
    → validate_max_urls env.options.max_urls ≡ bounds
    → Outcome w env raw (within_bounds w env raw bounds)
unfolding within_bounds
within_bounds-Outcome w env raw (err e) same = tt
within_bounds-Outcome w env raw (ok u) same =
    from_seed-Outcome w env raw (validate_url w raw) (one_at_least env.options.max_urls same) refl

-- Whatever the seed page and the sitemaps hold: the run ends, with an error or with an inventory
-- that has the seed first, then URLs that were admitted, no two of them equal and at most `max_urls`
-- in all; and it has one more than the links and the sitemap URLs that the result counts.
pub map_lite-Outcome :
    (w : Urls) (env : MapEnv w) (raw : Text) → Outcome w env raw (map_lite w env raw)
unfolding map_lite
map_lite-Outcome w env raw =
    within_bounds-Outcome w env raw (validate_max_urls env.options.max_urls) refl
