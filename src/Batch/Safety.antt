-- ===== src/Batch/Safety.antt =====
-- Whatever the interleaving and whichever workers die, the batch reports each URL in its place and
-- no success that its scrape did not give.
use native.Mathlib.Nat.{add-zero}
use mathlib.Core.Path.{subst₂}
use mathlib.Core.Option.{some-injective}
use basecrawl.Prelude.{
  subst, sym, ℕ, zero, suc, ◌+◌, true, false, Option, none, some, List, [], ◌∷◌, Text, get_elem?,
  set, replicate, ◌≡◌, ◌≢◌, refl, arith, map,
}
use basecrawl.Proof.{ScrapeProof}
use basecrawl.Crawl.{Scraped, ok, err}
use basecrawl.Batch.{
  BatchItem, item_of, lost_item, Worker, idle, stopped, working, Pool, collect, Step, death, Reach,
  worker_count,
}

module _ (Gives : Text → Scraped ScrapeProof → Type 0) where
  -- The item of a URL: it stands at its index, and is a success only with a proof that a scrape of
  -- this very URL gave.
  pub record IsItem (idx : ℕ) (url : Text) (item : BatchItem) : Type 0 where
    pub index : item.index ≡ idx
    pub same_url : item.url ≡ url
    pub success : item.ok ≡ true → (p : ScrapeProof) × (item.proof ≡ some p) × Gives url (ok p)
    pub failure : item.ok ≡ false → (item.proof ≡ none) × (item.error ≢ none)

  abbrev pub Items : ℕ → List Text → List BatchItem → Type 0
  Items idx [] [] = Unit
  Items idx (url ∷ urls) (item ∷ items) = IsItem idx url item × Items (suc idx) urls items
  Items idx _ _ = ⊥

  -- a slot that is filled holds the item of its URL
  abbrev Slot : ℕ → Text → Option BatchItem → Type 0
  Slot idx url none = Unit
  Slot idx url (some item) = IsItem idx url item

  abbrev Slots : ℕ → List Text → List (Option BatchItem) → Type 0
  Slots idx [] [] = Unit
  Slots idx (url ∷ urls) (slot ∷ slots) = Slot idx url slot × Slots (suc idx) urls slots
  Slots idx _ _ = ⊥

  item_of-IsItem :
      (idx : ℕ) (url : Text) (r : Scraped ScrapeProof)
      → Gives url r
      → IsItem idx url (item_of idx url r)
  unfolding item_of
  item_of-IsItem idx url (ok p) g = record {
    index = refl;
    same_url = refl;
    success = λ _. (p, refl, g);
    failure = λ h. cc;
  }
  item_of-IsItem idx url (err e) g = record {
    index = refl;
    same_url = refl;
    success = λ h. absurd (ground arith);
    failure = λ _. (refl, λ e. cc);
  }

  lost_item-IsItem : (idx : ℕ) (url : Text) → IsItem idx url (lost_item idx url)
  unfolding lost_item
  lost_item-IsItem idx url = record {
    index = refl;
    same_url = refl;
    success = λ h. absurd (ground arith);
    failure = λ _. (refl, λ e. cc);
  }

  Slots-empty : (idx : ℕ) (urls : List Text) → Slots idx urls (map (λ _. none) urls)
  Slots-empty idx [] = tt
  Slots-empty idx (url ∷ urls) = (tt, Slots-empty (suc idx) urls)

  Slots-set :
      (idx : ℕ) (urls : List Text) (slots : List (Option BatchItem)) (k : ℕ) {url : Text}
      (item : BatchItem)
      → get_elem? urls k ≡ some url
      → IsItem (idx + k) url item
      → Slots idx urls slots
      → Slots idx urls (set slots k (some item))
  Slots-set idx [] slots k item e i h = absurd (ground arith)
  Slots-set idx (u ∷ urls) [] k item e i h = h
  Slots-set idx (u ∷ urls) (slot ∷ slots) zero item e i (h, hs) =
      (subst₂ (λ n x. IsItem n x item) (add-zero idx) (sym (some-injective _ _ e)) i, hs)
  Slots-set idx (u ∷ urls) (slot ∷ slots) (suc k) {url} item e i (h, hs) = (
    h,
    Slots-set (suc idx) urls slots k item e (subst (λ n. IsItem n url item) (omega arith) i) hs,
  )

  collect-Items :
      (idx : ℕ) (urls : List Text) (slots : List (Option BatchItem))
      → Slots idx urls slots
      → Items idx urls (collect idx urls slots)
  unfolding collect
  collect-Items idx [] [] h = tt
  collect-Items idx [] (slot ∷ slots) h = absurd h
  collect-Items idx (url ∷ urls) [] h = absurd h
  collect-Items idx (url ∷ urls) (some item ∷ slots) (h, hs) =
      (h, collect-Items (suc idx) urls slots hs)
  collect-Items idx (url ∷ urls) (none ∷ slots) (h, hs) =
      (lost_item-IsItem idx url, collect-Items (suc idx) urls slots hs)

module _ (urls : List Text) (Gives : Text → Scraped ScrapeProof → Type 0) where
  -- A worker's job is a URL of the batch at its index.
  abbrev Jobs : List Worker → Type 0
  Jobs [] = Unit
  Jobs (idle ∷ ws) = Jobs ws
  Jobs (stopped ∷ ws) = Jobs ws
  Jobs (working idx url ∷ ws) = (get_elem? urls idx ≡ some url) × Jobs ws

  record IsPool (s : Pool) : Type 0 where
    jobs : Jobs s.workers
    slots : Slots Gives 0 urls s.results

  Jobs-replicate : (n : ℕ) → Jobs (replicate n idle)
  Jobs-replicate zero = tt
  Jobs-replicate (suc n) = Jobs-replicate n

  abbrev IsJob : Worker → Type 0
  IsJob idle = Unit
  IsJob stopped = Unit
  IsJob (working idx url) = get_elem? urls idx ≡ some url

  Jobs-cons : (x : Worker) (ws : List Worker) → IsJob x → Jobs ws → Jobs (x ∷ ws)
  Jobs-cons idle ws j h = h
  Jobs-cons stopped ws j h = h
  Jobs-cons (working idx url) ws j h = (j, h)

  Jobs-tail : (x : Worker) (ws : List Worker) → Jobs (x ∷ ws) → IsJob x × Jobs ws
  Jobs-tail idle ws h = (tt, h)
  Jobs-tail stopped ws h = (tt, h)
  Jobs-tail (working idx url) ws h = h

  Jobs-set : (ws : List Worker) (w : ℕ) (x : Worker) → IsJob x → Jobs ws → Jobs (set ws w x)
  Jobs-set [] w x j h = h
  Jobs-set (y ∷ ws) zero x j h = Jobs-cons x ws j (Jobs-tail y ws h).1
  Jobs-set (y ∷ ws) (suc w) x j h =
      let (job, rest) = Jobs-tail y ws h in Jobs-cons y (set ws w x) job (Jobs-set ws w x j rest)

  Jobs-get : (ws : List Worker) (w : ℕ) {x : Worker} → get_elem? ws w ≡ some x → Jobs ws → IsJob x
  Jobs-get [] w e h = absurd (ground arith)
  Jobs-get (y ∷ ws) zero e h = subst IsJob (some-injective _ _ e) (Jobs-tail y ws h).0
  Jobs-get (y ∷ ws) (suc w) e h = Jobs-get ws w e (Jobs-tail y ws h).1

  Step-IsPool : {s t : Pool} → Step urls Gives s t → IsPool s → IsPool t
  Step-IsPool {s} (Step.take w url i e) h = record {
    jobs = Jobs-set s.workers w (working s.next url) e h.jobs;
    slots = h.slots;
  }
  Step-IsPool {s} (Step.stop w i e) h = record {
    jobs = Jobs-set s.workers w stopped tt h.jobs;
    slots = h.slots;
  }
  Step-IsPool {s} (Step.done w idx url r i g) h = record {
    jobs = Jobs-set s.workers w idle tt h.jobs;
    slots =
        Slots-set Gives 0 urls s.results idx (item_of idx url r) (Jobs-get s.workers w i h.jobs)
          (subst (λ n. IsItem Gives n url (item_of idx url r)) (omega arith)
            (item_of-IsItem Gives idx url r g))
          h.slots;
  }

  Reach-IsPool : (concurrency : ℕ) {s : Pool} → Reach urls Gives concurrency s → IsPool s
  Reach-IsPool c Reach.begin = record {
    jobs = Jobs-replicate (worker_count urls c);
    slots = Slots-empty Gives 0 urls;
  }
  Reach-IsPool c (Reach.next r st) = Step-IsPool st (Reach-IsPool c r)
  Reach-IsPool c (Reach.lose {s} r (death w idx url i)) =
      let h = Reach-IsPool c r in
      record { jobs = Jobs-set s.workers w stopped tt h.jobs; slots = h.slots }

-- Whatever the interleaving of the workers, and whichever of them die in a scrape: the collected
-- items are one for each URL in the order of the input, each at its index with its own URL, and an
-- item is a success only with a proof that a scrape of that very URL gave; any other has an error
-- and no proof.
pub batch-Items :
    (urls : List Text) (Gives : Text → Scraped ScrapeProof → Type 0) (concurrency : ℕ) (s : Pool)
    → Reach urls Gives concurrency s
    → Items Gives 0 urls (collect 0 urls s.results)
batch-Items urls Gives concurrency s r =
    collect-Items Gives 0 urls s.results (Reach-IsPool urls Gives concurrency r).slots
