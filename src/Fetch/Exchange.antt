-- ===== src/Fetch/Exchange.antt =====
-- One exchange with an origin, `fetch_http` and `fetch_https` of crates/basecrawl-core/src/fetch.rs.
-- What a fetch does is recorded as a list of events, the latest first, and what the policy and the
-- network answer may depend on all of them.
pub mod Attempts
use basecrawl.Prelude.{
  ℕ, zero, suc, ◌+◌, Bool, true, false, not, ◌&&◌, ◌||◌, Option, none, some, List, [], ◌∷◌, ◌++◌,
  Text, codes, length, text_eq, ltb, leb, if◌then◌else◌,
}
use basecrawl.Error.{Error, invalid_url, unsupported_scheme, too_many_redirects, redirect}
use basecrawl.Error.Outcome.{Outcome, ok, err}
use basecrawl.Proof.{RedirectHop, Tls, not_applicable}
use basecrawl.Url.{Urls}
use basecrawl.Fetch.Types.{
  Headers, FetchConfig, SingleResponse, Fetched, max_redirects, max_http_response_header_bytes,
}
use basecrawl.Fetch.Run.{Run, returns, panics, unfinished, ◌>>=◌}
use basecrawl.Fetch.Request.{build_http_request}
use basecrawl.Fetch.Response.{
  Head, Coding, parse_http_response, header_value, decode_http_body, hash_header_lines,
}

pub data Event (w : Urls) : Type 0 where
  checked : w.Url → Event w
  connected : (secure : Bool) → (host : Text) → (port : ℕ) → Event w
  sent : w.Url → (request : List ℕ) → Event w

-- what a connection is known by, for TLS with what the handshake showed
pub record Connection : Type 0 where
  pub egress_ip : Text
  pub tls : Option Tls

-- What the code relies on and does not contain: the policy, the pacer and the network, the names
-- that TLS accepts, the parser
-- of response heads, the decompressors, the digest and the clock between chunks.
pub record World (w : Urls) : Type 0 where
  pub check_document : List (Event w) → w.Url → Outcome (Unit {0})
  pub is_server_name : Text → Bool
  pub connect : List (Event w) → Bool → Text → ℕ → Outcome Connection
  pub exchange : List (Event w) → List ℕ → (limit : ℕ) → Outcome (List ℕ × Bool)
  pub parse_head : List ℕ → Head
  pub inflate : Coding → List ℕ → ℕ → Outcome (List ℕ × Bool)
  pub display : Error → Text
  pub sha256_hex : List ℕ → Text
  pub elapsed : ℕ → Bool

-- `usize::saturating_add`
abbrev saturating_add : ℕ → ℕ → ℕ
saturating_add a b = if ltb (a + b) 18446744073709551616 then a + b else 18446744073709551615

abbrev pub or_else {ℓ} : {A : Type ℓ} → A → Option A → A
or_else a none = a
or_else a (some b) = b

module _ (w : Urls) (env : World w) where
  open w use {Url}

  abbrev pub History : Type 0
  History = List (Event w)

  respond : Connection → Headers → ℕ → (raw_truncated : Bool) → List ℕ × Bool → SingleResponse
  unfolding header_value hash_header_lines
  respond connection headers status raw_truncated (body, decoded_truncated) = record {
    status_code = status;
    headers_hash = hash_header_lines env.sha256_hex headers;
    content_type = header_value headers (codes "content-type");
    location = header_value headers (codes "location");
    body = body;
    body_truncated = raw_truncated || decoded_truncated;
    tls = connection.tls;
    egress_ip = some connection.egress_ip;
  }

  -- the raw response, read and decoded
  unfoldable pub read_response :
      FetchConfig w → Connection → Outcome (List ℕ × Bool) → Run SingleResponse
  unfolding parse_http_response decode_http_body respond
  read_response config connection answer = do
    raw ← returns answer
    parts ← returns (parse_http_response (env.parse_head raw.0) raw.0)
    plain ←
        decode_http_body env.inflate env.display env.elapsed parts.1 parts.2 config.max_body_bytes
    returns (ok (respond connection parts.1 parts.0 raw.1 plain))

  transmit :
      Url → FetchConfig w → Connection → History → Outcome (List ℕ) → Run SingleResponse × History
  unfolding read_response
  transmit url config connection history (err error) = (returns (err error), history)
  transmit url config connection history (ok request) =
      let history' = sent url request ∷ history in
      (
        read_response config connection (
            env.exchange history' request
              (saturating_add config.max_body_bytes max_http_response_header_bytes)),
        history',
      )

  over_connection :
      Url
      → Text
      → ℕ
      → FetchConfig w
      → Url
      → History
      → Outcome Connection
      → Run SingleResponse × History
  unfolding transmit build_http_request
  over_connection url host port config credential_origin history (err error) =
      (returns (err error), history)
  over_connection url host port config credential_origin history (ok connection) =
      transmit url config connection history
        (build_http_request w url host port config credential_origin)

  dial : Bool → Url → FetchConfig w → Url → History → Text → Run SingleResponse × History
  unfolding over_connection
  dial secure url config credential_origin history host =
      let port = or_else (if secure then 443 else 80) (w.port_or_known_default url) in
      let history' = connected secure host port ∷ history in
      over_connection url host port config credential_origin history'
        (env.connect history' secure host port)

  to_host : Bool → Url → FetchConfig w → Url → History → Option Text → Run SingleResponse × History
  unfolding dial
  to_host secure url config credential_origin history none =
      (returns (err (invalid_url (w.to_string url))), history)
  to_host secure url config credential_origin history (some host) =
      if secure && not (env.is_server_name host)
      then (returns (err (invalid_url (w.to_string url))), history)
      else dial secure url config credential_origin history host

  -- `fetch_http` and `fetch_https`
  unfoldable pub fetch_one :
      Bool → Url → FetchConfig w → Url → History → Run SingleResponse × History
  unfolding to_host
  fetch_one secure url config credential_origin history =
      to_host secure url config credential_origin history (w.host_str url)
