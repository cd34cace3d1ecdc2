-- ===== src/Batch.antt =====
-- crates/basecrawl-core/src/batch.rs: the batch and its pool of workers.
-- Threads interleave at their two locks, so a run is a sequence of steps: a worker takes the next
-- job, stops when there is none, ends its job with what the scrape gave, or dies in the scrape
-- (a panic, which the source drops at the join). What a scrape of a URL may give is a relation.
pub mod Safety
pub mod Progress
pub mod Complete
mod Tests
use basecrawl.Prelude.{
  ℕ, zero, suc, ◌+◌, ◌≤◌, ◌<◌, Bool, true, false, Option, none, some, List, [], ◌∷◌, Text, codes,
  length, get_elem?, set, replicate, ltb, leb, ◌==◌, if◌then◌else◌, ◌≡◌, ◌⊎◌, map, all,
}
use basecrawl.Error.{Error, invalid_product_option}
use basecrawl.Proof.{ScrapeProof}
use basecrawl.Crawl.{Scraped, ok, err}

-- the `error` of an item: that of the scrape, or the placeholder of a lost worker
pub data ItemError : Type 0 where
  scrape_error : Error → ItemError
  batch_worker_failed : ItemError

pub record BatchItem : Type 0 where
  pub index : ℕ
  pub url : Text
  pub ok : Bool
  pub proof : Option ScrapeProof
  pub error : Option ItemError
  pub result_hash : Option Text

pub record BatchResult : Type 0 where
  pub mode : Text
  pub items : List BatchItem
  pub concurrency : ℕ

-- `BatchResult::all_ok`
unfoldable pub all_ok : BatchResult → Bool
all_ok r = all (λ i. i.ok) r.items

unfoldable pub validate_batch : List Text → ℕ → Scraped (Unit {0})
validate_batch urls concurrency =
    if length urls == 0
    then err (invalid_product_option (codes "batch requires at least one URL"))
    else if concurrency == 0
    then err (invalid_product_option (codes "batch --concurrency must be >= 1"))
    else if ltb 64 concurrency
    then err (invalid_product_option (codes "batch --concurrency exceeds hard safety cap (64)"))
    else if ltb 1000 (length urls)
    then err (invalid_product_option (codes "batch URL count exceeds hard safety cap (1000)"))
    else ok tt

-- `concurrency.min(len).max(1)`
unfoldable pub worker_count : List Text → ℕ → ℕ
worker_count urls concurrency =
    let capped = (if ltb (length urls) concurrency then length urls else concurrency) in
    if capped == 0 then 1 else capped

-- what a worker makes of a scrape
unfoldable pub item_of : ℕ → Text → Scraped ScrapeProof → BatchItem
item_of idx url (ok proof) = record {
  index = idx;
  url = url;
  ok = true;
  proof = some proof;
  error = none;
  result_hash = proof.result.result_hash;
}
item_of idx url (err e) = record {
  index = idx;
  url = url;
  ok = false;
  proof = none;
  error = some (scrape_error e);
  result_hash = none;
}

unfoldable pub lost_item : ℕ → Text → BatchItem
lost_item idx url = record {
  index = idx;
  url = url;
  ok = false;
  proof = none;
  error = some batch_worker_failed;
  result_hash = none;
}

pub data Worker : Type 0 where
  idle stopped : Worker
  working : ℕ → Text → Worker

-- `work.next`, the threads, and the slots of `results`
pub record Pool : Type 0 where
  pub next : ℕ
  pub workers : List Worker
  pub results : List (Option BatchItem)

abbrev pub start : List Text → ℕ → Pool
start urls concurrency = record {
  next = 0;
  workers = replicate (worker_count urls concurrency) idle;
  results = map (λ _. none) urls;
}

-- the collection after the joins: the slots in order, with an item for each that is empty
unfoldable pub collect : ℕ → List Text → List (Option BatchItem) → List BatchItem
unfolding lost_item
collect idx (url ∷ urls) (some item ∷ slots) = item ∷ collect (suc idx) urls slots
collect idx (url ∷ urls) (none ∷ slots) = lost_item idx url ∷ collect (suc idx) urls slots
collect idx _ _ = []

module _ (urls : List Text) (Gives : Text → Scraped ScrapeProof → Type 0) where
  -- the steps of worker `w`, but for its death
  pub data Step : Pool → Pool → Type 0 where
    take :
        {s : Pool} (w : ℕ) (url : Text)
        → get_elem? s.workers w ≡ some idle
        → get_elem? urls s.next ≡ some url
        → Step s (record s { next = s.next + 1; workers = set s.workers w (working s.next url) })
    stop :
        {s : Pool} (w : ℕ)
        → get_elem? s.workers w ≡ some idle
        → length urls ≤ s.next
        → Step s (record s { workers = set s.workers w stopped })
    done :
        {s : Pool} (w idx : ℕ) (url : Text) (r : Scraped ScrapeProof)
        → get_elem? s.workers w ≡ some (working idx url)
        → Gives url r
        → Step s (record s {
          workers = set s.workers w idle;
          results = set s.results idx (some (item_of idx url r));
        })

  pub data Death : Pool → Pool → Type 0 where
    death :
        {s : Pool} (w idx : ℕ) (url : Text)
        → get_elem? s.workers w ≡ some (working idx url)
        → Death s (record s { workers = set s.workers w stopped })

  -- the pools that a run may come to, with deaths or without
  pub data Reach (concurrency : ℕ) : Pool → Type 0 where
    begin : Reach concurrency (start urls concurrency)
    next : {s t : Pool} → Reach concurrency s → Step s t → Reach concurrency t
    lose : {s t : Pool} → Reach concurrency s → Death s t → Reach concurrency t

  pub data Runs (concurrency : ℕ) : Pool → Type 0 where
    begin : Runs concurrency (start urls concurrency)
    next : {s t : Pool} → Runs concurrency s → Step s t → Runs concurrency t
