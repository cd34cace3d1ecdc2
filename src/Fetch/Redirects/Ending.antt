-- ===== src/Fetch/Redirects/Ending.antt =====
-- Each iteration of the redirect loop keeps to what Guarded describes, and the loop ends.
use basecrawl.Prelude.{
  ℕ, zero, suc, ◌+◌, ◌≤◌, true, false, [], ◌∷◌, codes, length, text_eq, ◌≡◌, inl, inr, refl, ◌∙◌,
  arith, Bool-cases,
}
use basecrawl.Error.Outcome.{Outcome, ok, err}
use basecrawl.Url.{Urls}
use basecrawl.Fetch.Types.{FetchConfig, SingleResponse, Fetched, max_redirects}
use basecrawl.Fetch.Run.{Run, returns, panics, unfinished, Failed}
use basecrawl.Fetch.Exchange.{checked, connected, World, History, or_else, fetch_one}
use basecrawl.Fetch.Exchange.Attempts.{Attempt, idle, dialed, answered, fetch_one-Attempt}
use basecrawl.Fetch.Redirects.{
  Hops, Next, stop, again, on_response, request, after_check, hop, proceed, loop,
  fetch_document_until,
}
use basecrawl.Fetch.Redirects.Guarded.{
  Sends, Permitted, Guarded, start, asked, requests, IsChain, IsChain-append, Served, ServedBy,
  build_http_request-scoped,
}
use basecrawl.Fetch.Redirects.Guarded as G
use basecrawl.Fetch.Redirects.Steps.{Followed, Stopped, Good, on_response-Good}

module _ (w : Urls) (env : World w) (config : FetchConfig w) (credential_origin url : w.Url) where
  -- an attempt that failed before anything was sent
  unsent-Good :
      (s : Hops w env) (history : History w env) (r : Run SingleResponse)
      → Guarded w env config credential_origin history
      → requests w env config credential_origin history ≤ max_redirects
      → Failed r
      → Good w env config credential_origin url
          (length s.redirects)
          (on_response w env url s r, history)
  unfolding on_response
  unsent-Good s history (returns (ok response)) g b f = absurd f
  unsent-Good s history (returns (err error)) g b f = record {
    guarded = g;
    bounded = omega arith;
    served = tt;
  }
  unsent-Good s history panics g b f = absurd f
  unsent-Good s history unfinished g b f = absurd f

  exchange-Good :
      (s : Hops w env) (history : History w env)
      → Followed w env config credential_origin url s history
      → Permitted w env config credential_origin history s.current
      → (x : Run SingleResponse × History w env)
      → Attempt w env s.config credential_origin s.current (checked s.current ∷ history) x
      → Good w env config credential_origin url
          (length s.redirects)
          (on_response w env url s x.0, x.1)
  exchange-Good s history v p (r, h) (idle f) =
      unsent-Good s h r (asked s.current v.guarded) (omega arith) f
  exchange-Good s history v p (r, h) (dialed secure host port e f) =
      unsent-Good s h r (G.dialed s.current secure host port v.guarded p e) (omega arith) f
  exchange-Good s history v p (r, h) (answered secure host port packet e built f) =
      on_response-Good w env config credential_origin url s
        (connected secure host port ∷ checked s.current ∷ history) packet
        (G.answered s.current secure host port packet s.config v.guarded p e v.sends built (λ other.
          build_http_request-scoped w s.current host port s.config credential_origin other ∙ built))
        v.chain v.few v.counted
        (record {
          headers_kept = v.sends.headers_kept;
          agent_kept = v.sends.agent_kept;
          method_of = v.sends.method_of;
          body_of = inr refl;
        })
        r f

  request-Good :
      (s : Hops w env) (history : History w env)
      → Followed w env config credential_origin url s history
      → Permitted w env config credential_origin history s.current
      → Good w env config credential_origin url
          (length s.redirects)
          (request w env url credential_origin s (checked s.current ∷ history))
  unfolding request
  request-Good s history v p = elim (Bool-cases (text_eq (w.scheme s.current) (codes "http"))) [
    | inl plain ↦ rw plain (
        exchange-Good s history v p
          (fetch_one w env false s.current s.config credential_origin (checked s.current ∷ history))
          (fetch_one-Attempt w env s.config credential_origin s.current
            (checked s.current ∷ history) false))
    | inr other ↦ elim (Bool-cases (text_eq (w.scheme s.current) (codes "https"))) [
      | inl secure ↦
          rw (other, secure)
            (exchange-Good s history v p
              (fetch_one w env true s.current s.config credential_origin
                (checked s.current ∷ history))
              (fetch_one-Attempt w env s.config credential_origin s.current
                (checked s.current ∷ history) true))
      | inr unsupported ↦
          rw (other, unsupported)
            (record { guarded = asked s.current v.guarded; bounded = omega arith; served = tt })
    ]
  ]

  after_check-Good :
      (s : Hops w env) (history : History w env) (o : Outcome (Unit {0}))
      → Followed w env config credential_origin url s history
      → env.check_document (checked s.current ∷ history) s.current ≡ o
      → Good w env config credential_origin url
          (length s.redirects)
          (after_check w env url credential_origin s (checked s.current ∷ history) o)
  unfolding after_check
  after_check-Good s history (err error) v e = record {
    guarded = asked s.current v.guarded;
    bounded = omega arith;
    served = tt;
  }
  after_check-Good s history (ok _) v e = request-Good s history v e

  -- The end of a fetch, as a predicate on the pair.
  abbrev Ended : Run Fetched × History w env → Type 0
  Ended (r, history) = Stopped w env config credential_origin url r history

  proceed-Ended :
      (rest : Hops w env → History w env → Run Fetched × History w env) (hops : ℕ)
      (x : Next w env × History w env)
      → Good w env config credential_origin url hops x
      → ((s : Hops w env) (history : History w env)
          → length s.redirects ≡ suc hops
          → Followed w env config credential_origin url s history
          → Ended (rest s history))
      → Ended (proceed w env rest x)
  unfolding proceed
  proceed-Ended rest hops (stop result, history) g next = g
  proceed-Ended rest hops (again s, history) (v, e) next = next s history e v

  loop-Ended :
      (fuel : ℕ) (s : Hops w env) (history : History w env)
      → suc max_redirects ≤ fuel + length s.redirects
      → Followed w env config credential_origin url s history
      → Ended (loop w env fuel url credential_origin s history)
  unfolding loop hop
  loop-Ended zero s history h v = absurd (omega (arith, v.few))
  loop-Ended (suc fuel) s history h v =
      proceed-Ended (loop w env fuel url credential_origin) (length s.redirects)
        (hop w env url credential_origin s history)
        (after_check-Good s history (env.check_document (checked s.current ∷ history) s.current) v
          refl)
        (λ s' history' e v'. loop-Ended fuel s' history' (omega arith) v')

-- A fetch always ends, whatever the policy and the network do. It sends at most 21 requests, each
-- right after the policy allowed its URL and with the scoped settings of `Guarded`. A document that
-- it returns stands at the end of a chain of at most 20 redirects, which the recorded hops describe,
-- and was served by the last request.
pub fetch_document_until-IsFollowed :
    (w : Urls) (env : World w) (url : w.Url) (config : FetchConfig w)
    → let origin = or_else url config.credential_origin in
      let (result, history) = fetch_document_until w env url config in
      Guarded w env config origin history
      × (requests w env config origin history ≤ 21)
      × ServedBy w env config origin url result history
unfolding fetch_document_until
fetch_document_until-IsFollowed w env url config =
    let stopped =
      loop-Ended w env config (or_else url config.credential_origin) url (suc max_redirects) _ []
        (omega arith)
        (record {
          guarded = start;
          sends = record {
            headers_kept = refl;
            agent_kept = refl;
            method_of = inl refl;
            body_of = inl (refl, refl);
          };
          chain = refl;
          few = omega arith;
          counted = refl;
        }) in
    (stopped.guarded, stopped.bounded, stopped.served)
