-- ===== src/Serve/Running/Counted.antt =====
-- The invariant of the threads of `run_on_listener`: the counter is the number of executions.
use mathlib.Core.Option.{some-injective}
use basecrawl.Prelude.{
  ℕ, zero, suc, ◌+◌, ◌≤◌, ◌<◌, some, List, [], ◌∷◌, Text, get_elem?, set, get_elem?-set_self,
  get_elem?-set_ne, ◌≡◌, refl, sym, ap, ◌∙◌, subst, arith, inl, inr, Bool-cases, ◌==◌, ==_iff,
}
use basecrawl.Error.{Error}
use basecrawl.Serve.{
  ServeConfig, Request, Answer, Mode, Execution, reply, execute, admit, max_running,
  too_many_requests, finished,
}
use basecrawl.Serve.Running.{
  Handler, arrived, admitted, loaded, running, answered, Server, Step, accept, turned_away, pass,
  full, load, exchanged, raced, finish, Reach, begin, next,
}

abbrev pub weight : Handler → ℕ
weight (running _ _) = 1
weight _ = 0

-- the number of executions under way
abbrev pub executions : List Handler → ℕ
executions [] = 0
executions (h ∷ hs) = weight h + executions hs

executions-set :
    (hs : List Handler) (i : ℕ) {h : Handler} (h' : Handler)
    → get_elem? hs i ≡ some h
    → executions (set hs i h') + weight h ≡ executions hs + weight h'
executions-set [] i h' e = cc
executions-set (g ∷ hs) zero {h} h' e =
    let same : weight g ≡ weight h = ap weight (some-injective g h e) in omega arith
executions-set (g ∷ hs) (suc i) h' e = omega (arith, executions-set hs i h' e)

module _ (config : ServeConfig) (Ends : Mode → List ℕ → Execution → Type 0)
    (to_string : Error → Text) where
  -- the answers that a request may get
  pub data IsAnswer : Request → Answer → Type 0 where
    at_gate : {r : Request} {a : Answer} → admit config r ≡ reply a → IsAnswer r a
    at_limit :
        {r : Request} (mode : Mode)
        → admit config r ≡ execute mode
        → IsAnswer r (too_many_requests config r)
    executed :
        {r : Request} (mode : Mode) (e : Execution) (elapsed : ℕ)
        → admit config r ≡ execute mode
        → Ends mode r.body e
        → IsAnswer r (finished to_string r elapsed e)

  -- what holds of a thread
  abbrev pub IsSound : Handler → Type 0
  IsSound (arrived r) = Unit {0}
  IsSound (admitted r mode) = admit config r ≡ execute mode
  IsSound (loaded r mode cur) = (admit config r ≡ execute mode) × (cur < max_running config)
  IsSound (running r mode) = admit config r ≡ execute mode
  IsSound (answered r a) = IsAnswer r a

  abbrev pub AllSound : List Handler → Type 0
  AllSound hs = (i : ℕ) (h : Handler) → get_elem? hs i ≡ some h → IsSound h

  set-AllSound :
      (hs : List Handler) (i : ℕ) {h : Handler} (h' : Handler)
      → get_elem? hs i ≡ some h
      → AllSound hs
      → IsSound h'
      → AllSound (set hs i h')
  set-AllSound hs i h' e all new j g k = elim (Bool-cases (i == j)) [
    | inl same ↦
        subst IsSound
          (some-injective h' g (
            sym (get_elem?-set_self hs i e)
            ∙ ap (get_elem? (set hs i h')) ((==_iff i j).0 same)
            ∙ k))
          new
    | inr other ↦ all j g (sym (get_elem?-set_ne hs h' (λ e. ground arith)) ∙ k)
  ]

  push-AllSound : (r : Request) (hs : List Handler) → AllSound hs → AllSound (arrived r ∷ hs)
  push-AllSound r hs all zero h e = subst IsSound (some-injective (arrived r) h e) tt
  push-AllSound r hs all (suc i) h e = all i h e

  empty-AllSound : AllSound []
  empty-AllSound i h e = cc

  pub record IsCounted (s : Server) : Type 0 where
    pub counted : s.inflight ≡ executions s.handlers
    pub bounded : s.inflight ≤ max_running config
    pub sound : AllSound s.handlers

  -- a step of one thread that leaves the counter alone
  idle_step :
      (s : Server) (i : ℕ) {h : Handler} (h' : Handler)
      → get_elem? s.handlers i ≡ some h
      → weight h ≡ weight h'
      → IsCounted s
      → IsSound h'
      → IsCounted (record s { handlers = set s.handlers i h' })
  idle_step s i {h} h' e same is new = record {
    counted =
        let counts = executions-set s.handlers i h' e in let counter = is.counted in omega arith;
    bounded = is.bounded;
    sound = set-AllSound s.handlers i h' e is.sound new;
  }

  step-IsCounted : {s t : Server} → Step config Ends to_string s t → IsCounted s → IsCounted t
  step-IsCounted {s} (accept r) is = record {
    counted = let counter = is.counted in omega arith;
    bounded = is.bounded;
    sound = push-AllSound r s.handlers is.sound;
  }
  step-IsCounted {s} (turned_away i r a e h) is = idle_step s i (answered r a) e refl is (at_gate h)
  step-IsCounted {s} (pass i r mode e h) is = idle_step s i (admitted r mode) e refl is h
  step-IsCounted {s} (full i r mode e h) is =
      idle_step s i (answered r (too_many_requests config r)) e refl is
        (at_limit mode (is.sound i (admitted r mode) e))
  step-IsCounted {s} (load i r mode e h) is =
      idle_step s i (loaded r mode s.inflight) e refl is
        (is.sound i (admitted r mode) e, ground arith)
  step-IsCounted {s} (exchanged i r mode cur e h) is =
      let (at, low) = is.sound i (loaded r mode cur) e in
      record {
        counted =
            let counts = executions-set s.handlers i (running r mode) e in
            let counter = is.counted in omega arith;
        bounded = omega arith;
        sound = set-AllSound s.handlers i (running r mode) e is.sound at;
      }
  step-IsCounted {s} (raced i r mode cur e h) is =
      idle_step s i (admitted r mode) e refl is (is.sound i (loaded r mode cur) e).0
  step-IsCounted {s} (finish i r mode ended elapsed e h) is =
      let at = is.sound i (running r mode) e in
      record {
        counted =
            let counts =
              executions-set s.handlers i (answered r (finished to_string r elapsed ended)) e in
            let counter = is.counted in omega arith;
        bounded = let low = is.bounded in omega arith;
        sound =
            set-AllSound s.handlers i (answered r (finished to_string r elapsed ended)) e is.sound
              (executed mode ended elapsed at h);
      }

  -- In every interleaving of the threads of the service, the counter is the number of the
  -- executions under way, which are at most `max_inflight` and at least the one that is always
  -- admitted; each execution, and each thread about to start one, is of a request that was admitted
  -- to its mode; and each answer is that of the gate, or, to an admitted request, that of the limit
  -- or of the end of an execution of its own body.
  pub served-IsCounted : {s : Server} → Reach config Ends to_string s → IsCounted s
  served-IsCounted begin = record { counted = refl; bounded = omega arith; sound = empty-AllSound }
  served-IsCounted (next {s} {t} r step) = step-IsCounted step (served-IsCounted r)
