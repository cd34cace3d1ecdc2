-- ===== src/Robots/Policy/Denial.antt =====
-- When `DocumentPolicy::check` stops a page fetch, and what the recorded hops tell.
use basecrawl.Prelude.{
  ℕ, true, false, some, List, Text, ◌≡◌, inl, inr, arith, All, All-append, length, length-append,
  ◌+◌, Bool-cases,
}
use basecrawl.Url.{Urls}
use basecrawl.Robots.Parse.{Rule, parse}
use basecrawl.Robots.Rules.{matching_rule}
use basecrawl.Robots.Policy.{
  RobotsPolicy, enforce, Fetched, FetchResult, got, Outcome, ok, err, is_success, RobotsDecision,
  denies_fetch, robots_url, DocumentHop, record_hop, check, consult,
}

-- The policy is enforced, the robots file was received with a success status, and the rule that
-- it has for the path is a deny rule.
pub record Denies (w : Urls) (fetch : w.Url → FetchResult) (policy : RobotsPolicy) (target : w.Url)
    : Type 0 where
  pub enforced : policy ≡ enforce
  pub response : Fetched
  pub received : fetch (robots_url w target) ≡ got response
  pub success : is_success response.status_code ≡ true
  pub rule : Rule
  pub matched : matching_rule (w.path target) (parse response.body).groups ≡ some rule
  pub deny : rule.allow ≡ false

-- A hop whose decision let its request go on.
abbrev pub Permits : (w : Urls) → DocumentHop w → Type 0
Permits w hop = denies_fetch w hop.decision ≡ false

recorded_let_on :
    (w : Urls) (print : ℕ → Text) (target : w.Url) (hops : List (DocumentHop w))
    (o : Outcome (RobotsDecision w))
    → (record_hop w print target hops o).0 ≡ ok tt
    → All (Permits w) hops
    → All (Permits w) (record_hop w print target hops o).1
unfolding record_hop
recorded_let_on w print target hops (err e) h a = absurd (ground arith)
recorded_let_on w print target hops (ok d) h a = elim (Bool-cases (denies_fetch w d)) [
  | inl denied ↦ absurd (ground arith)
  | inr fine ↦ All-append (Permits w) hops _ a (fine, tt)
]

recorded_once :
    (w : Urls) (print : ℕ → Text) (target : w.Url) (hops : List (DocumentHop w))
    (o : Outcome (RobotsDecision w))
    → (record_hop w print target hops o).0 ≡ ok tt
    → length (record_hop w print target hops o).1 ≡ length hops + 1
unfolding record_hop
recorded_once w print target hops (err e) h = absurd (ground arith)
recorded_once w print target hops (ok d) h = omega (arith, length-append {0} hops)

-- A check that lets the request go on records exactly one more hop, and if no hop before it was
-- denied, none is after it.
check-Permits :
    (w : Urls) (print : ℕ → Text) (fetch : w.Url → FetchResult) (policy : RobotsPolicy)
    (target : w.Url) (hops : List (DocumentHop w))
    → (check w print fetch policy target hops).0 ≡ ok tt
    → All (Permits w) hops
    → All (Permits w) (check w print fetch policy target hops).1
      × (length (check w print fetch policy target hops).1 ≡ length hops + 1)
unfolding check
check-Permits w print fetch policy target hops h a = (
  recorded_let_on w print target hops (consult w fetch target policy) h a,
  recorded_once w print target hops (consult w fetch target policy) h,
)
