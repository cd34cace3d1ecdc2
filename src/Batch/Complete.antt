-- ===== src/Batch/Complete.antt =====
-- Without a death, a pool whose workers have all stopped has an answer of the scrape for each URL.
use mathlib.Core.Option.{some-injective}
use basecrawl.Prelude.{
  ℕ, zero, suc, ◌+◌, ◌≤◌, Option, none, some, List, [], ◌∷◌, Text, length, get_elem?, replicate,
  ◌≡◌, ◌≢◌, refl, arith, ap, sym, ◌∙◌, map, subst, inl, inr, All,
}
use basecrawl.Proof.{ScrapeProof}
use basecrawl.Crawl.{Scraped}
use basecrawl.Batch.{
  BatchItem, item_of, Worker, idle, stopped, working, Pool, start, collect, Step, Runs,
  worker_count,
}
use basecrawl.Batch.Progress.{
  Progress, IsFilled, take-Progress, stop-Progress, done-Progress, lt-get_elem?,
}

abbrev pub AllStopped : List Worker → Type 0
AllStopped = All (λ x. x ≡ stopped)

AllStopped-get :
    (ws : List Worker) (w : ℕ) {x : Worker} → AllStopped ws → get_elem? ws w ≡ some x → x ≡ stopped
AllStopped-get [] w a h = absurd (ground arith)
AllStopped-get (y ∷ ws) zero (e, a) h = sym (some-injective y _ h) ∙ e
AllStopped-get (y ∷ ws) (suc w) (e, a) h = AllStopped-get ws w a h

length-map-none : (xs : List Text) → length (map {B = Option BatchItem} (λ _. none) xs) ≡ length xs
length-map-none [] = refl
length-map-none (x ∷ xs) = ap suc (length-map-none xs)

length-replicate : (n : ℕ) → length (replicate n idle) ≡ n
length-replicate zero = refl
length-replicate (suc n) = ap suc (length-replicate n)

idle-get : (n w : ℕ) {x : Worker} → get_elem? (replicate n idle) w ≡ some x → idle ≡ x
idle-get zero w h = absurd (ground arith)
idle-get (suc n) zero {x} h = some-injective idle x h
idle-get (suc n) (suc w) h = idle-get n w h

idle≢working : {i : ℕ} {u : Text} → idle ≢ working i u
idle≢working h = cc

working≢stopped : {i : ℕ} {u : Text} → working i u ≢ stopped
working≢stopped h = cc

idle≢stopped : idle ≢ stopped
idle≢stopped h = cc

some_worker : (urls : List Text) (concurrency : ℕ) → 1 ≤ worker_count urls concurrency
unfolding worker_count
some_worker urls concurrency = ground arith

module _ (urls : List Text) (Gives : Text → Scraped ScrapeProof → Type 0) where
  start-Progress : (concurrency : ℕ) → Progress urls Gives (start urls concurrency)
  start-Progress c = record {
    slots = length-map-none urls;
    workers = omega (arith, length-replicate (worker_count urls c), some_worker urls c);
    jobs = λ w idx u h. absurd (idle≢working (idle-get (worker_count urls c) w h));
    settled = λ idx u at lt. absurd (omega arith);
    ended = λ w h. absurd (idle≢stopped (idle-get (worker_count urls c) w h));
  }

  Step-Progress : {s t : Pool} → Step urls Gives s t → Progress urls Gives s → Progress urls Gives t
  Step-Progress {s} (Step.take w url i e) p = take-Progress urls Gives s w url i e p
  Step-Progress {s} (Step.stop w i e) p = stop-Progress urls Gives s w i e p
  Step-Progress {s} (Step.done w j v r i g) p = done-Progress urls Gives s w j v r i g p

  Runs-Progress :
      (concurrency : ℕ) {s : Pool} → Runs urls Gives concurrency s → Progress urls Gives s
  Runs-Progress c Runs.begin = start-Progress c
  Runs-Progress c (Runs.next r st) = Step-Progress st (Runs-Progress c r)

  first_stopped : (ws : List Worker) → 1 ≤ length ws → AllStopped ws → get_elem? ws 0 ≡ some stopped
  first_stopped [] h a = absurd (omega arith)
  first_stopped (x ∷ ws) h (e, a) = ap some e

  filled :
      (s : Pool)
      → Progress urls Gives s
      → AllStopped s.workers
      → (idx : ℕ) (url : Text) → get_elem? urls idx ≡ some url
      → IsFilled urls Gives s.results idx idx url
  filled s p a idx url at =
      let taken : length urls ≤ s.next = p.ended 0 (first_stopped s.workers p.workers a) in
      elim (p.settled idx url at (omega (arith, taken, lt-get_elem? urls idx at))) [
        | inl f ↦ f
        | inr (w, u, h) ↦ absurd (working≢stopped (AllStopped-get s.workers w a h))
      ]

-- Each item is what a scrape of its own URL gave, at its index.
abbrev pub Answers : (Text → Scraped ScrapeProof → Type 0) → ℕ → List Text → List BatchItem → Type 0
Answers Gives idx [] [] = Unit
Answers Gives idx (url ∷ urls) (item ∷ items) =
    ((r : Scraped ScrapeProof) × Gives url r × (item ≡ item_of idx url r))
    × Answers Gives (suc idx) urls items
Answers Gives idx _ _ = ⊥

-- the slots from an index on, seen from the start of the rest
collect-Answers :
    (Gives : Text → Scraped ScrapeProof → Type 0) (idx : ℕ) (urls : List Text)
    (slots : List (Option BatchItem))
    → ((k : ℕ) (url : Text)
        → get_elem? urls k ≡ some url
        → IsFilled urls Gives slots k (idx + k) url)
    → Answers Gives idx urls (collect idx urls slots)
unfolding collect
collect-Answers Gives idx [] slots h = tt
collect-Answers Gives idx (url ∷ urls) [] h = let (r, g, e) = h 0 url refl in absurd (ground arith)
collect-Answers Gives idx (url ∷ urls) (none ∷ slots) h =
    let (r, g, e) = h 0 url refl in absurd (ground arith)
collect-Answers Gives idx (url ∷ urls) (some item ∷ slots) h =
    let (r, g, e) = h 0 url refl in
    (
      (
        r,
        g,
        some-injective item (item_of (idx + 0) url r) (some-injective _ _ e)
            ∙ ap (λ n. item_of n url r) {x = idx + 0} {y = idx} (omega arith),
      ),
      collect-Answers Gives (suc idx) urls slots (λ k u at.
          subst (λ n. IsFilled urls Gives slots k n u) {x = idx + suc k} {y = suc idx + k}
            (omega arith) (h (suc k) u at)),
    )

-- If no worker dies and all of them have stopped, then whatever their interleaving was, the items
-- are one for each URL in the order of the input, each made from what a scrape of that URL gave.
pub batch-Answers :
    (urls : List Text) (Gives : Text → Scraped ScrapeProof → Type 0) (concurrency : ℕ) (s : Pool)
    → Runs urls Gives concurrency s
    → AllStopped s.workers
    → Answers Gives 0 urls (collect 0 urls s.results)
batch-Answers urls Gives c s r a = collect-Answers Gives 0 urls s.results (λ k url at.
    subst (λ n. IsFilled urls Gives s.results k n url) {x = k} {y = 0 + k} (omega arith)
      (filled urls Gives s (Runs-Progress urls Gives c r) a k url at))
