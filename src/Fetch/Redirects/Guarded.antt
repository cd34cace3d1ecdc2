-- ===== src/Fetch/Redirects/Guarded.antt =====
-- What a fetch records: how its requests follow the checks of the policy, what they carry, and how
-- the redirect hops hang together.
use basecrawl.Prelude.{
  ℕ, suc, ◌≤◌, Bool, true, false, some, List, [], ◌∷◌, ◌++◌, Text, codes, length, ◌≡◌, ◌⊎◌, refl,
  sym,
}
use basecrawl.Error.Outcome.{ok, err}
use basecrawl.Proof.{RedirectHop}
use basecrawl.Url.{Urls, same_origin}
use basecrawl.Fetch.Types.{FetchConfig, Fetched, max_redirects}
use basecrawl.Fetch.Run.{Run, returns, panics, unfinished}
use basecrawl.Fetch.Request.{build_http_request}
use basecrawl.Fetch.Exchange.{checked, connected, sent, World, History}
use basecrawl.Fetch.Redirects.{is_redirect}

module _ (w : Urls) (env : World w) (config : FetchConfig w) (credential_origin : w.Url) where
  -- The settings of a request after a history: the caller's headers and User-Agent, the caller's
  -- method or GET, and no body but in the very first request.
  pub record Sends (history : History w env) (c : FetchConfig w) : Type 0 where
    pub headers_kept : c.headers ≡ config.headers
    pub agent_kept : c.user_agent ≡ config.user_agent
    pub method_of : (c.method ≡ config.method) ⊎ (c.method ≡ codes "GET")
    pub body_of : ((history ≡ []) × (c.body ≡ config.body)) ⊎ (c.body ≡ [])

  -- The policy let the URL pass after that history.
  abbrev pub Permitted : History w env → w.Url → Type 0
  Permitted history url = env.check_document (checked url ∷ history) url ≡ ok tt

  -- A history, the latest event first: every URL is checked, a host is connected to only for the
  -- URL that was checked just before and allowed, and a request is sent only there. What is sent is
  -- built from the settings above; to another origin than the caller's it is what it would be with
  -- no header of the caller.
  pub data Guarded : History w env → Type 0 where
    start : Guarded []
    asked :
        {history : History w env} (url : w.Url) → Guarded history → Guarded (checked url ∷ history)
    dialed :
        {history : History w env} (url : w.Url) (secure : Bool) (host : Text) (port : ℕ)
        → Guarded history
        → Permitted history url
        → w.host_str url ≡ some host
        → Guarded (connected secure host port ∷ checked url ∷ history)
    answered :
        {history : History w env} (url : w.Url) (secure : Bool) (host : Text) (port : ℕ)
        (request : List ℕ) (c : FetchConfig w)
        → Guarded history
        → Permitted history url
        → w.host_str url ≡ some host
        → Sends history c
        → build_http_request w url host port c credential_origin ≡ ok request
        → (same_origin w url credential_origin ≡ false
            → build_http_request w url host port (record c { headers = [] }) credential_origin
              ≡ ok request)
        → Guarded (sent url request ∷ connected secure host port ∷ checked url ∷ history)

  -- the number of requests
  abbrev pub requests : History w env → ℕ
  requests [] = 0
  requests (sent url request ∷ history) = suc (requests history)
  requests (event ∷ history) = requests history

  -- Each hop answered with a redirect at the URL that the one before led to.
  abbrev pub IsChain : Text → List RedirectHop → Text → Type 0
  IsChain from [] to = from ≡ to
  IsChain from (hop ∷ hops) to =
      (hop.url ≡ from) × (is_redirect w env hop.status_code ≡ true) × IsChain hop.location hops to

  pub IsChain-append :
      (from : Text) (hops : List RedirectHop) (hop : RedirectHop)
      → IsChain from hops hop.url
      → is_redirect w env hop.status_code ≡ true
      → IsChain from (hops ++ hop ∷ []) hop.location
  IsChain-append from [] hop e r = (sym e, r, refl)
  IsChain-append from (first ∷ hops) hop (e, r', chain) r =
      (e, r', IsChain-append first.location hops hop chain r)

  -- A document that is returned was served at the end of such a chain, and by the last request.
  pub record Served (url : w.Url) (f : Fetched) (history : History w env) : Type 0 where
    pub chain : IsChain (w.to_string url) f.redirects f.final_url
    pub few : length f.redirects ≤ max_redirects
    pub counted : requests history ≡ suc (length f.redirects)
    pub last_url : w.Url
    pub last_request : List ℕ
    pub before : History w env
    pub latest : history ≡ sent last_url last_request ∷ before
    pub final : f.final_url ≡ w.to_string last_url
    pub hashed : f.body_hash ≡ env.sha256_hex f.body
    pub measured : f.content_length ≡ length f.body

  abbrev pub ServedBy : w.Url → Run Fetched → History w env → Type 0
  ServedBy url (returns (ok f)) history = Served url f history
  ServedBy url (returns (err error)) history = Unit
  ServedBy url panics history = Unit
  ServedBy url unfinished history = ⊥

-- Without the caller's headers a request to another origin stays as it is.
pub build_http_request-scoped :
    (w : Urls) (url : w.Url) (host : Text) (port : ℕ) (c : FetchConfig w)
    (credential_origin : w.Url)
    → same_origin w url credential_origin ≡ false
    → build_http_request w url host port (record c { headers = [] }) credential_origin
      ≡ build_http_request w url host port c credential_origin
unfolding build_http_request
build_http_request-scoped w url host port c credential_origin other = rw other refl
