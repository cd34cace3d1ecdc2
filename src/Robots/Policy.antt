-- ===== src/Robots/Policy.antt =====
-- The robots decision and the document policy of crates/basecrawl-core/src/robots.rs.
-- The fetch and the decoding of a body are arguments: what the network answers is not modelled.
pub mod Denial
mod Tests
use basecrawl.Prelude.{
  ℕ, Bool, true, false, ◌&&◌, Option, none, some, List, [], ◌∷◌, ◌++◌, Text, codes, ltb, leb,
  if◌then◌else◌,
}
use basecrawl.Json.{Value, null, bool, num, str, object, insert_field}
use basecrawl.Error.{timeout, robots_denied}
pub use basecrawl.Error.Outcome.{Outcome, ok, err}
use basecrawl.Url.{Urls, is_http}
use basecrawl.Robots.Parse.{Rule, Group, ParsedRobots, parse}
use basecrawl.Robots.Rules.{matching_rule}

pub data RobotsPolicy : Type 0 where
  enforce observe ignore : RobotsPolicy

pub data Disposition : Type 0 where
  allowed denied unmatched unavailable ignored : Disposition

pub record MatchedRule : Type 0 where
  pub directive : Text
  pub path : Text

unfoldable pub is_denied : RobotsPolicy → Disposition → Bool
is_denied enforce denied = true
is_denied _ _ = false

-- what `fetch_until` returned
pub record Fetched : Type 0 where
  pub status_code : ℕ
  pub body : Text

pub data FetchResult : Type 0 where
  got : Fetched → FetchResult
  timed_out : Text → FetchResult
  failed : FetchResult

-- `(200..300).contains(&status)`
abbrev pub is_success : ℕ → Bool
is_success status = leb 200 status && ltb status 300

abbrev pub policy_str : RobotsPolicy → Text
policy_str enforce = codes "enforce"
policy_str observe = codes "observe"
policy_str ignore = codes "ignore"

abbrev pub disposition_str : Disposition → Text
disposition_str allowed = codes "allowed"
disposition_str denied = codes "denied"
disposition_str unmatched = codes "unmatched"
disposition_str unavailable = codes "unavailable"
disposition_str ignored = codes "ignored"

abbrev pub disposition_of : Option Rule → Disposition
disposition_of none = unmatched
disposition_of (some r) = if r.allow then allowed else denied

abbrev pub matched_of : Option Rule → Option MatchedRule
matched_of none = none
matched_of (some r) =
    some (record { directive = if r.allow then codes "allow" else codes "disallow"; path = r.path })

module _ (w : Urls) where
  open w use {Url}

  pub record RobotsDecision : Type 0 where
    pub policy : RobotsPolicy
    pub fetched : Bool
    pub status_code : Option ℕ
    pub robots_url : Text
    pub disposition : Disposition
    pub matched_rule : Option MatchedRule
    pub sitemap_urls : List Url

  unfoldable pub denies_fetch : RobotsDecision → Bool
  unfolding is_denied
  denies_fetch d = is_denied d.policy d.disposition

  pub robots_url : Url → Url
  robots_url target = w.without_fragment (w.without_query (w.set_path (codes "/robots.txt") target))

  -- `filter_map(join(..).ok()).filter(is_http)`
  pub declared_sitemaps : Url → List Text → List Url
  declared_sitemaps base [] = []
  declared_sitemaps base (s ∷ ss) =
      let rest = declared_sitemaps base ss in
      elim (w.join base s) [ none ↦ rest | some u ↦ if is_http w u then u ∷ rest else rest ]

  pub ignored_decision : Url → RobotsDecision
  ignored_decision url = record {
    policy = ignore;
    fetched = false;
    status_code = none;
    robots_url = w.to_string url;
    disposition = ignored;
    matched_rule = none;
    sitemap_urls = [];
  }

  pub unavailable_decision : RobotsPolicy → Url → Bool → Option ℕ → RobotsDecision
  unavailable_decision policy url fetched status = record {
    policy = policy;
    fetched = fetched;
    status_code = status;
    robots_url = w.to_string url;
    disposition = unavailable;
    matched_rule = none;
    sitemap_urls = [];
  }

  -- the decision from a robots file that was received and parsed
  pub evaluated : RobotsPolicy → Url → ℕ → ParsedRobots → Option Rule → RobotsDecision
  evaluated policy url status parsed rule = record {
    policy = policy;
    fetched = true;
    status_code = some status;
    robots_url = w.to_string url;
    disposition = disposition_of rule;
    matched_rule = matched_of rule;
    sitemap_urls = declared_sitemaps url parsed.sitemap_urls;
  }

  pub from_fetch : Url → RobotsPolicy → FetchResult → Outcome RobotsDecision
  unfolding unavailable_decision evaluated robots_url
  from_fetch target policy (timed_out message) = err (timeout message)
  from_fetch target policy failed = ok (unavailable_decision policy (robots_url target) false none)
  from_fetch target policy (got f) =
      if is_success f.status_code
      then (let parsed = parse f.body in
          ok (
            evaluated policy (robots_url target) f.status_code parsed
              (matching_rule (w.path target) parsed.groups)))
      else ok (unavailable_decision policy (robots_url target) true (some f.status_code))

  -- `fetch` is what `fetch_until` and `decode_body` give for a URL
  unfoldable pub consult : (Url → FetchResult) → Url → RobotsPolicy → Outcome RobotsDecision
  unfolding ignored_decision robots_url from_fetch
  consult fetch target ignore = ok (ignored_decision (robots_url target))
  consult fetch target policy = from_fetch target policy (fetch (robots_url target))

  pub record DocumentHop : Type 0 where
    pub target_url : Text
    pub decision : RobotsDecision

  matched_value : Option MatchedRule → Value
  matched_value none = null
  matched_value (some r) =
      object ((codes "directive", str r.directive) ∷ (codes "path", str r.path) ∷ [])

  status_value : (ℕ → Text) → Option ℕ → Value
  status_value print none = null
  status_value print (some n) = num (print n)

  -- `print` writes a status code in decimal
  pub decision_value : (ℕ → Text) → RobotsDecision → Value
  unfolding matched_value status_value
  decision_value print d = object (
      (codes "policy", str (policy_str d.policy))
      ∷ (codes "fetched", bool d.fetched)
      ∷ (codes "statusCode", status_value print d.status_code)
      ∷ (codes "robotsUrl", str d.robots_url)
      ∷ (codes "disposition", str (disposition_str d.disposition))
      ∷ (codes "matched_rule", matched_value d.matched_rule)
      ∷ [])

  pub hop_value : (ℕ → Text) → DocumentHop → Value
  unfolding decision_value
  hop_value print hop =
      insert_field (codes "targetUrl") (str hop.target_url) (decision_value print hop.decision)

  -- `DocumentPolicy::check`, over the hops that are recorded
  pub record_hop :
      (ℕ → Text)
      → Url
      → List DocumentHop
      → Outcome RobotsDecision
      → Outcome (Unit {0}) × List DocumentHop
  unfolding hop_value
  record_hop print target hops (err e) = (err e, hops)
  record_hop print target hops (ok d) =
      let hop : DocumentHop = record { target_url = w.to_string target; decision = d } in
      (
        if denies_fetch d then err (robots_denied (hop_value print hop)) else ok tt,
        hops ++ hop ∷ [],
      )

  unfoldable pub check :
      (ℕ → Text)
      → (Url → FetchResult)
      → RobotsPolicy
      → Url
      → List DocumentHop
      → Outcome (Unit {0}) × List DocumentHop
  unfolding record_hop
  check print fetch policy target hops = record_hop print target hops (consult fetch target policy)
