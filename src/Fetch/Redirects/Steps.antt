-- ===== src/Fetch/Redirects/Steps.antt =====
-- What the redirect loop makes of a response keeps to what Guarded describes.
use basecrawl.Prelude.{
  ℕ, suc, ◌+◌, ◌≤◌, true, false, ◌&&◌, Option, none, some, List, [], ◌∷◌, ◌++◌, Text, length, ◌≡◌,
  inl, inr, refl, arith, leb, length-append, Bool-cases,
}
use basecrawl.Error.Outcome.{ok, err}
use basecrawl.Proof.{RedirectHop}
use basecrawl.Url.{Urls}
use basecrawl.Fetch.Types.{FetchConfig, SingleResponse, Fetched, max_redirects}
use basecrawl.Fetch.Run.{Run, returns, panics, unfinished, Finished}
use basecrawl.Fetch.Exchange.{sent, World, History}
use basecrawl.Fetch.Redirects.{
  Hops, Next, stop, again, is_redirect, next_method, finish, to_target, follow, capture,
  on_response,
}
use basecrawl.Fetch.Redirects.Guarded.{Sends, Guarded, requests, IsChain, IsChain-append, ServedBy}

module _ (w : Urls) (env : World w) (config : FetchConfig w) (credential_origin url : w.Url) where
  -- The state of the loop and the history that led to it.
  pub record Followed (s : Hops w env) (history : History w env) : Type 0 where
    pub guarded : Guarded w env config credential_origin history
    pub sends : Sends w env config credential_origin history s.config
    pub chain :
        IsChain w env config credential_origin (w.to_string url) s.redirects (w.to_string s.current)
    pub few : length s.redirects ≤ max_redirects
    pub counted : requests w env config credential_origin history ≡ length s.redirects

  pub record Stopped (r : Run Fetched) (history : History w env) : Type 0 where
    pub guarded : Guarded w env config credential_origin history
    pub bounded : requests w env config credential_origin history ≤ suc max_redirects
    pub served : ServedBy w env config credential_origin url r history

  abbrev pub Good : ℕ → Next w env × History w env → Type 0
  Good hops (stop r, history) = Stopped r history
  Good hops (again s, history) = Followed s history × (length s.redirects ≡ suc hops)

  -- after a request that was sent
  module _ (s : Hops w env) (before : History w env) (packet : List ℕ)
      (g : Guarded w env config credential_origin (sent s.current packet ∷ before))
      (chain : IsChain w env config credential_origin
        (w.to_string url)
        s.redirects
        (w.to_string s.current))
      (few : length s.redirects ≤ max_redirects)
      (counted : requests w env config credential_origin before ≡ length s.redirects)
      (kept : Sends w env config credential_origin
        (sent s.current packet ∷ before)
        (record s.config { body = [] })) where
    abbrev now : History w env
    now = sent s.current packet ∷ before

    finish-Good :
        (response : SingleResponse)
        → Good (length s.redirects) (finish w env (capture w env s response) response, now)
    unfolding finish capture
    finish-Good response = record {
      guarded = g;
      bounded = omega arith;
      served = record {
        chain = chain;
        few = few;
        counted = omega arith;
        last_url = s.current;
        last_request = packet;
        before = before;
        latest = refl;
        final = refl;
        hashed = refl;
        measured = refl;
      };
    }

    redirect-Sends :
        (status : ℕ)
        → Sends w env config credential_origin now
            (record s.config { method = next_method w env status s.config.method; body = [] })
    redirect-Sends status = elim (Bool-cases (leb 301 status && leb status 303)) [
      | inl get ↦ rw get (record {
        headers_kept = kept.headers_kept;
        agent_kept = kept.agent_kept;
        method_of = inr refl;
        body_of = inr refl;
      })
      | inr same ↦ rw same (record {
        headers_kept = kept.headers_kept;
        agent_kept = kept.agent_kept;
        method_of = kept.method_of;
        body_of = inr refl;
      })
    ]

    to_target-Good :
        (response : SingleResponse) (target : Option w.Url)
        → is_redirect w env response.status_code ≡ true
        → leb max_redirects (length s.redirects) ≡ false
        → Good
            (length s.redirects)
            (to_target w env (capture w env s response) response.status_code target, now)
    unfolding to_target capture
    to_target-Good response none redirect more = record {
      guarded = g;
      bounded = omega arith;
      served = tt;
    }
    to_target-Good response (some target) redirect more =
        let hop_of : RedirectHop = record {
          status_code = response.status_code;
          url = w.to_string s.current;
          location = w.to_string target;
        } in
        let longer : length (s.redirects ++ hop_of ∷ []) ≡ length s.redirects + 1 =
          length-append s.redirects (hop_of ∷ []) in
        (
          record {
            guarded = g;
            sends = redirect-Sends response.status_code;
            chain =
                IsChain-append w env config credential_origin (w.to_string url) s.redirects hop_of
                  chain redirect;
            few = ground (arith, longer);
            counted = omega (arith, longer);
          },
          omega (arith, longer),
        )

    follow-Good :
        (response : SingleResponse) (location : Option Text)
        → is_redirect w env response.status_code ≡ true
        → Good
            (length s.redirects)
            (follow w env url (capture w env s response) response location, now)
    unfolding follow to_target capture
    follow-Good response none redirect = finish-Good response
    follow-Good response (some location) redirect =
        elim (Bool-cases (leb max_redirects (length s.redirects))) [
          | inl full ↦ rw full (record { guarded = g; bounded = omega arith; served = tt })
          | inr more ↦ rw more (to_target-Good response (w.join s.current location) redirect more)
        ]

    pub on_response-Good :
        (r : Run SingleResponse)
        → Finished r
        → Good (length s.redirects) (on_response w env url s r, now)
    unfolding on_response
    on_response-Good panics f = record { guarded = g; bounded = omega arith; served = tt }
    on_response-Good unfinished f = absurd f
    on_response-Good (returns (err error)) f = record {
      guarded = g;
      bounded = omega arith;
      served = tt;
    }
    on_response-Good (returns (ok response)) f =
        elim (Bool-cases (is_redirect w env response.status_code)) [
          | inl redirect ↦ rw redirect (follow-Good response response.location redirect)
          | inr final ↦ rw final (finish-Good response)
        ]
