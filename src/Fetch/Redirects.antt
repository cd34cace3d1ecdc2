-- ===== src/Fetch/Redirects.antt =====
-- The loop that follows redirects, from crates/basecrawl-core/src/fetch.rs.
pub mod Guarded
pub mod Steps
pub mod Ending
mod Tests
use basecrawl.Prelude.{
  ℕ, zero, suc, Bool, true, false, ◌&&◌, Option, none, some, List, [], ◌∷◌, ◌++◌, Text, codes,
  length, text_eq, ltb, leb, if◌then◌else◌,
}
use basecrawl.Error.{unsupported_scheme, too_many_redirects, redirect}
use basecrawl.Error.Outcome.{Outcome, ok, err}
use basecrawl.Proof.{RedirectHop, Tls, not_applicable}
use basecrawl.Url.{Urls}
use basecrawl.Fetch.Types.{FetchConfig, SingleResponse, Fetched, max_redirects}
use basecrawl.Fetch.Run.{Run, returns, panics, unfinished}
use basecrawl.Fetch.Exchange.{Event, checked, World, History, or_else, fetch_one}

abbrev pub default_tls : Tls
default_tls = record {
  certificate_validation = not_applicable;
  negotiated_version = none;
  sni = none;
  server_cert_chain_der = [];
  cert_chain_hash = none;
  server_ephemeral_pubkey = none;
  ct_scts = [];
  ocsp = none;
  handshake_transcript_hash = none;
}

module _ (w : Urls) (env : World w) where
  open w use {Url}

  -- the variables of the loop
  pub record Hops : Type 0 where
    pub current : Url
    pub redirects : List RedirectHop
    pub tls : Tls
    pub egress_ip : Option Text
    pub config : FetchConfig w

  -- the end of an iteration
  pub data Next : Type 0 where
    stop : Run Fetched → Next
    again : Hops → Next

  finish : Hops → SingleResponse → Next
  finish s response = stop (
      returns (
        ok (record {
          status_code = response.status_code;
          headers_hash = response.headers_hash;
          body_hash = env.sha256_hex response.body;
          content_length = length response.body;
          body = response.body;
          content_type = response.content_type;
          body_truncated = response.body_truncated;
          final_url = w.to_string s.current;
          redirects = s.redirects;
          tls = s.tls;
          egress_ip = or_else (codes "0.0.0.0") s.egress_ip;
        })))

  -- the method after a redirect
  abbrev pub next_method : ℕ → Text → Text
  next_method status method = if leb 301 status && leb status 303 then codes "GET" else method

  to_target : Hops → ℕ → Option Url → Next
  to_target s status none = stop (
      returns
        (err (redirect (codes "could not resolve redirect Location against the current URL"))))
  to_target s status (some target) = again (record s {
    current = target;
    redirects =
        s.redirects
        ++ (record {
          status_code = status;
          url = w.to_string s.current;
          location = w.to_string target;
        }
            ∷ []);
    config = record s.config { method = next_method status s.config.method; body = [] };
  })

  follow : Url → Hops → SingleResponse → Option Text → Next
  unfolding finish to_target
  follow url s response none = finish s response
  follow url s response (some location) =
      if leb max_redirects (length s.redirects)
      then stop (returns (err (too_many_redirects max_redirects (w.to_string url))))
      else to_target s response.status_code (w.join s.current location)

  capture : Hops → SingleResponse → Hops
  capture s response = record s {
    tls = or_else s.tls response.tls;
    egress_ip = elim response.egress_ip [ none ↦ s.egress_ip | some ip ↦ some ip ];
  }

  -- `(300..400).contains(&status)`
  abbrev pub is_redirect : ℕ → Bool
  is_redirect status = leb 300 status && ltb status 400

  unfoldable pub on_response : Url → Hops → Run SingleResponse → Next
  unfolding finish follow capture
  on_response url s panics = stop panics
  on_response url s unfinished = stop unfinished
  on_response url s (returns (err error)) = stop (returns (err error))
  on_response url s (returns (ok response)) =
      if is_redirect response.status_code
      then follow url (capture s response) response response.location
      else finish (capture s response) response

  unfoldable pub request : Url → Url → Hops → (History w env) → Next × History w env
  unfolding fetch_one on_response
  request url credential_origin s history =
      if text_eq (w.scheme s.current) (codes "http")
      then (let (response, history') =
            fetch_one w env false s.current s.config credential_origin history in
          (on_response url s response, history'))
      else if text_eq (w.scheme s.current) (codes "https")
      then (let (response, history') =
            fetch_one w env true s.current s.config credential_origin history in
          (on_response url s response, history'))
      else (stop (returns (err (unsupported_scheme (w.scheme s.current)))), history)

  after_check : Url → Url → Hops → (History w env) → Outcome (Unit {0}) → Next × History w env
  unfolding request
  after_check url credential_origin s history (err error) = (stop (returns (err error)), history)
  after_check url credential_origin s history (ok _) = request url credential_origin s history

  -- one iteration
  unfoldable pub hop : Url → Url → Hops → (History w env) → Next × History w env
  unfolding after_check
  hop url credential_origin s history =
      let history' = checked s.current ∷ history in
      after_check url credential_origin s history' (env.check_document history' s.current)

  -- what follows an iteration
  proceed :
      (Hops → (History w env) → Run Fetched × History w env)
      → Next × History w env
      → Run Fetched × History w env
  proceed rest (stop result, history) = (result, history)
  proceed rest (again s, history) = rest s history

  unfoldable pub loop : ℕ → Url → Url → Hops → (History w env) → Run Fetched × History w env
  unfolding hop proceed
  loop zero url credential_origin s history = (unfinished, history)
  loop (suc fuel) url credential_origin s history =
      proceed (loop fuel url credential_origin) (hop url credential_origin s history)

  -- `fetch_document_until`; `fetch_until` is the same with a policy that allows all
  unfoldable pub fetch_document_until : Url → FetchConfig w → Run Fetched × History w env
  unfolding loop
  fetch_document_until url config =
      loop (suc max_redirects) url (or_else url config.credential_origin)
        (record {
          current = url;
          redirects = [];
          tls = default_tls;
          egress_ip = none;
          config = config;
        })
        []
