-- ===== src/Serve/Running.antt =====
-- `handle_http_request` of crates/basecrawl-core/src/serve.rs, with one thread for each connection
-- that `run_on_listener` accepts. The threads share the counter of executions and interleave at its
-- atomic operations, so a run of the service is a sequence of steps. What an execution may end with
-- is a relation.
pub mod Counted
mod Tests
use basecrawl.Prelude.{
  ℕ, ◌+◌, ◌-◌, Option, some, List, [], ◌∷◌, Text, get_elem?, set, leb, true, false, ◌≡◌, ◌≢◌,
}
use basecrawl.Error.{Error}
use basecrawl.Serve.{
  ServeConfig, Request, Answer, Mode, Execution, reply, execute, admit, max_running,
  too_many_requests, finished,
}

-- a thread: before the gate, in the loop, with the value of the counter that it read, in the
-- execution, and after it
pub data Handler : Type 0 where
  arrived : Request → Handler
  admitted : Request → Mode → Handler
  loaded : Request → Mode → (cur : ℕ) → Handler
  running : Request → Mode → Handler
  answered : Request → Answer → Handler

-- the counter, and the threads with the latest in front
pub record Server : Type 0 where
  pub inflight : ℕ
  pub handlers : List Handler

-- `run_on_listener` before the first connection
abbrev pub listening : Server
listening = record { inflight = 0; handlers = [] }

module _ (config : ServeConfig) (Ends : Mode → List ℕ → Execution → Type 0)
    (to_string : Error → Text) where
  pub data Step : Server → Server → Type 0 where
    accept : {s : Server} (r : Request) → Step s (record s { handlers = arrived r ∷ s.handlers })
    turned_away :
        {s : Server} (i : ℕ) (r : Request) (a : Answer)
        → get_elem? s.handlers i ≡ some (arrived r)
        → admit config r ≡ reply a
        → Step s (record s { handlers = set s.handlers i (answered r a) })
    pass :
        {s : Server} (i : ℕ) (r : Request) (mode : Mode)
        → get_elem? s.handlers i ≡ some (arrived r)
        → admit config r ≡ execute mode
        → Step s (record s { handlers = set s.handlers i (admitted r mode) })
    full :
        {s : Server} (i : ℕ) (r : Request) (mode : Mode)
        → get_elem? s.handlers i ≡ some (admitted r mode)
        → leb (max_running config) s.inflight ≡ true
        → Step s
            (record s { handlers = set s.handlers i (answered r (too_many_requests config r)) })
    load :
        {s : Server} (i : ℕ) (r : Request) (mode : Mode)
        → get_elem? s.handlers i ≡ some (admitted r mode)
        → leb (max_running config) s.inflight ≡ false
        → Step s (record s { handlers = set s.handlers i (loaded r mode s.inflight) })
    exchanged :
        {s : Server} (i : ℕ) (r : Request) (mode : Mode) (cur : ℕ)
        → get_elem? s.handlers i ≡ some (loaded r mode cur)
        → s.inflight ≡ cur
        → Step s (record { inflight = cur + 1; handlers = set s.handlers i (running r mode) })
    raced :
        {s : Server} (i : ℕ) (r : Request) (mode : Mode) (cur : ℕ)
        → get_elem? s.handlers i ≡ some (loaded r mode cur)
        → s.inflight ≢ cur
        → Step s (record s { handlers = set s.handlers i (admitted r mode) })
    finish :
        {s : Server} (i : ℕ) (r : Request) (mode : Mode) (e : Execution) (elapsed : ℕ)
        → get_elem? s.handlers i ≡ some (running r mode)
        → Ends mode r.body e
        → Step s (record {
          inflight = s.inflight - 1;
          handlers = set s.handlers i (answered r (finished to_string r elapsed e));
        })

  -- the states that a run comes to
  pub data Reach : Server → Type 0 where
    begin : Reach listening
    next : {s t : Server} → Reach s → Step s t → Reach t
