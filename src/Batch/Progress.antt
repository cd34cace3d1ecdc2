-- ===== src/Batch/Progress.antt =====
-- The invariant of a pool without deaths: what its slots and its workers say of the jobs taken.
use mathlib.Core.Option.{some-injective}
use basecrawl.Prelude.{
  ==_iff, get_elem?-set_self, get_elem?-set_ne, ℕ, zero, suc, ◌+◌, ◌≤◌, ◌<◌, Option, some, List, [],
  ◌∷◌, Text, length, length-set, get_elem?, set, ◌≡◌, ◌≢◌, refl, arith, ap, sym, ◌∙◌, subst,
  Bool-cases, inl, inr, ◌⊎◌, ◌==◌,
}
use basecrawl.Proof.{ScrapeProof}
use basecrawl.Crawl.{Scraped}
use basecrawl.Batch.{BatchItem, item_of, Worker, idle, stopped, working, Pool}

eq_cases : (a b : ℕ) → (a ≡ b) ⊎ (a ≢ b)
eq_cases a b = elim (Bool-cases (a == b)) [
  | inl e ↦ inl ((==_iff a b).0 e)
  | inr e ↦ inr (λ h. ground arith)
]

get_elem?-lt :
    (xs : List (Option BatchItem)) (k : ℕ)
    → k < length xs
    → (x : Option BatchItem) × (get_elem? xs k ≡ some x)
get_elem?-lt [] k h = absurd (omega arith)
get_elem?-lt (x ∷ xs) zero h = (x, refl)
get_elem?-lt (x ∷ xs) (suc k) h = get_elem?-lt xs k (omega arith)

pub lt-get_elem? : (xs : List Text) (k : ℕ) {x : Text} → get_elem? xs k ≡ some x → k < length xs
lt-get_elem? [] k h = absurd (ground arith)
lt-get_elem? (x ∷ xs) zero h = omega arith
lt-get_elem? (x ∷ xs) (suc k) h = omega (arith, lt-get_elem? xs k h)

working-eq : {i j : ℕ} {u v : Text} → some (working i u) ≡ some (working j v) → (i ≡ j) × (u ≡ v)
working-eq h = (cc, cc)

working≢stopped : {i : ℕ} {u : Text} → working i u ≢ stopped
working≢stopped h = cc

idle≢working : {i : ℕ} {u : Text} → idle ≢ working i u
idle≢working h = cc

idle≢stopped : idle ≢ stopped
idle≢stopped h = cc

below : (a b : ℕ) → a ≢ b → a < b + 1 → a < b
below a b n h = omega arith

module _ (urls : List Text) (Gives : Text → Scraped ScrapeProof → Type 0) where
  -- the slot of an index holds what a scrape of its URL gave
  abbrev pub IsFilled : List (Option BatchItem) → ℕ → ℕ → Text → Type 0
  IsFilled slots k idx url =
      (r : Scraped ScrapeProof) × Gives url r
      × (get_elem? slots k ≡ some (some (item_of idx url r)))

  abbrev pub IsAt : ℕ → List Worker → Type 0
  IsAt idx ws = (w : ℕ) × (u : Text) × (get_elem? ws w ≡ some (working idx u))

  -- A slot of a job that was taken is filled, or a worker is at it.
  pub record Progress (s : Pool) : Type 0 where
    pub slots : length s.results ≡ length urls
    pub workers : 1 ≤ length s.workers
    pub jobs :
        (w idx : ℕ) (u : Text)
        → get_elem? s.workers w ≡ some (working idx u)
        → get_elem? urls idx ≡ some u
    pub settled :
        (idx : ℕ) (url : Text)
        → get_elem? urls idx ≡ some url
        → idx < s.next
        → IsFilled s.results idx idx url ⊎ IsAt idx s.workers
    pub ended : (w : ℕ) → get_elem? s.workers w ≡ some stopped → length urls ≤ s.next

  -- a worker other than the one that was written
  elsewhere :
      (ws : List Worker) (w w' : ℕ) (x y z : Worker)
      → get_elem? ws w ≡ some x
      → get_elem? ws w' ≡ some y
      → x ≢ y
      → get_elem? (set ws w z) w' ≡ some y
  elsewhere ws w w' x y z a b n =
      get_elem?-set_ne ws z (λ e. n (some-injective x y (sym a ∙ ap (get_elem? ws) e ∙ b))) ∙ b

  -- the worker that stands at a place after a write
  written :
      (ws : List Worker) (w w' : ℕ) {x y z : Worker}
      → get_elem? ws w ≡ some x
      → get_elem? (set ws w z) w' ≡ some y
      → ((w ≡ w') × (z ≡ y)) ⊎ (get_elem? ws w' ≡ some y)
  written ws w w' {x} {y} {z} a b = elim (eq_cases w w') [
    | inl e ↦ inl (
      e,
      some-injective z y (sym (get_elem?-set_self ws w a) ∙ ap (get_elem? (set ws w z)) e ∙ b),
    )
    | inr n ↦ inr (sym (get_elem?-set_ne ws z n) ∙ b)
  ]

  pub take-Progress :
      (s : Pool) (w : ℕ) (url : Text)
      → get_elem? s.workers w ≡ some idle
      → get_elem? urls s.next ≡ some url
      → Progress s
      → Progress (record s { next = s.next + 1; workers = set s.workers w (working s.next url) })
  take-Progress s w url i e p = record {
    slots = p.slots;
    workers = omega (arith, length-set s.workers w (working s.next url), p.workers);
    jobs = λ w' idx u h. elim (written s.workers w w' i h) [
      | inl (_, same) ↦
          let (a, b) = working-eq (ap some same) in ap (get_elem? urls) (sym a) ∙ e ∙ ap some b
      | inr old ↦ p.jobs w' idx u old
    ];
    settled = λ idx u at lt. elim (eq_cases idx s.next) [
      | inl now ↦
          inr (w, url, get_elem?-set_self s.workers w i ∙ ap (λ n. some (working n url)) (sym now))
      | inr before ↦ elim (p.settled idx u at (below idx s.next before lt)) [
        | inl f ↦ inl f
        | inr (w', u', h) ↦ inr (
          w',
          u',
          elsewhere s.workers w w' idle (working idx u') (working s.next url) i h (λ e. cc),
        )
      ]
    ];
    ended = λ w' h. elim (written s.workers w w' i h) [
      | inl (_, same) ↦ absurd (working≢stopped same)
      | inr old ↦ omega (arith, p.ended w' old)
    ];
  }

  pub stop-Progress :
      (s : Pool) (w : ℕ)
      → get_elem? s.workers w ≡ some idle
      → length urls ≤ s.next
      → Progress s
      → Progress (record s { workers = set s.workers w stopped })
  stop-Progress s w i e p = record {
    slots = p.slots;
    workers = omega (arith, length-set s.workers w stopped, p.workers);
    jobs = λ w' idx u h. elim (written s.workers w w' i h) [
      | inl (_, same) ↦ absurd (working≢stopped (sym same))
      | inr old ↦ p.jobs w' idx u old
    ];
    settled = λ idx u at lt. elim (p.settled idx u at lt) [
      | inl f ↦ inl f
      | inr (w', u', h) ↦
          inr (w', u', elsewhere s.workers w w' idle (working idx u') stopped i h (λ e. cc))
    ];
    ended = λ w' h. e;
  }

  -- what the end of a job does to the slots
  done-slot :
      (s : Pool) (w j : ℕ) (v : Text) (r : Scraped ScrapeProof)
      → get_elem? s.workers w ≡ some (working j v)
      → Gives v r
      → Progress s
      → (idx : ℕ) (u : Text) → get_elem? urls idx ≡ some u
      → IsFilled s.results idx idx u ⊎ IsAt idx s.workers
      → IsFilled (set s.results j (some (item_of j v r))) idx idx u
        ⊎ IsAt idx (set s.workers w idle)
  done-slot s w j v r i g p idx u at was = elim (eq_cases j idx) [
    | inl e ↦
        let (x, there) =
          get_elem?-lt s.results j (omega (arith, p.slots, lt-get_elem? urls j (p.jobs w j v i))) in
        let same : v ≡ u = some-injective v u (sym (p.jobs w j v i) ∙ ap (get_elem? urls) e ∙ at) in
        inl (
          subst (λ n. IsFilled (set s.results j (some (item_of j v r))) n n u) e
            (subst (λ t. IsFilled (set s.results j (some (item_of j v r))) j j t) same
              (r, g, get_elem?-set_self s.results j there)))
    | inr n ↦ elim was [
      | inl (r', g', h) ↦ inl (r', g', get_elem?-set_ne s.results (some (item_of j v r)) n ∙ h)
      | inr (w', u', h) ↦ inr (
        w',
        u',
        elsewhere s.workers w w' (working j v) (working idx u') idle i h
            (λ e. n (working-eq (ap some e)).0),
      )
    ]
  ]

  pub done-Progress :
      (s : Pool) (w j : ℕ) (v : Text) (r : Scraped ScrapeProof)
      → get_elem? s.workers w ≡ some (working j v)
      → Gives v r
      → Progress s
      → Progress (record s {
        workers = set s.workers w idle;
        results = set s.results j (some (item_of j v r));
      })
  done-Progress s w j v r i g p = record {
    slots = length-set s.results j (some (item_of j v r)) ∙ p.slots;
    workers = omega (arith, length-set s.workers w idle, p.workers);
    jobs = λ w' idx u h. elim (written s.workers w w' i h) [
      | inl (_, same) ↦ absurd (idle≢working same)
      | inr old ↦ p.jobs w' idx u old
    ];
    settled = λ idx u at lt. done-slot s w j v r i g p idx u at (p.settled idx u at lt);
    ended = λ w' h. elim (written s.workers w w' i h) [
      | inl (_, same) ↦ absurd (idle≢stopped same)
      | inr old ↦ p.ended w' old
    ];
  }
