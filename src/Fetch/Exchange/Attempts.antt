-- ===== src/Fetch/Exchange/Attempts.antt =====
-- What one exchange comes to: it always ends, and it is known what it has sent.
use basecrawl.Prelude.{
  ℕ, Bool, not, ◌&&◌, Option, none, some, List, ◌∷◌, Text, ◌≡◌, refl, Bool-cases, inl, inr,
  if◌then◌else◌,
}
use basecrawl.Error.Outcome.{Outcome, ok, err}
use basecrawl.Url.{Urls}
use basecrawl.Fetch.Types.{FetchConfig, SingleResponse}
use basecrawl.Fetch.Run.{Run, returns, Finished, Failed, >>=-Finished}
use basecrawl.Fetch.Request.{build_http_request}
use basecrawl.Fetch.Response.{parse_http_response, decode_http_body}
use basecrawl.Fetch.Response.Ends.{decode_http_body-Finished}
use basecrawl.Fetch.Exchange.{
  connected, sent, Connection, World, History, read_response, transmit, over_connection, dial,
  to_host, fetch_one, or_else,
}

module _ (w : Urls) (env : World w) (config : FetchConfig w) (credential_origin : w.Url)
    (url : w.Url) where
  read_response-Finished :
      (connection : Connection) (answer : Outcome (List ℕ × Bool))
      → Finished (read_response w env config connection answer)
  unfolding read_response
  read_response-Finished connection answer = >>=-Finished (returns answer) _ tt (λ raw.
      >>=-Finished (returns (parse_http_response (env.parse_head raw.0) raw.0)) _ tt (λ parts.
        >>=-Finished
          (decode_http_body env.inflate env.display env.elapsed parts.1 parts.2
            config.max_body_bytes)
          _
          (decode_http_body-Finished env.inflate env.display env.elapsed parts.1 parts.2
            config.max_body_bytes)
          (λ plain. tt)))

  -- How far an exchange came: no connection was tried, one was tried, or the request was sent.
  pub data Attempt (history : History w env) : Run SingleResponse × History w env → Type 0 where
    idle : {response : Run SingleResponse} → Failed response → Attempt history (response, history)
    dialed :
        {response : Run SingleResponse}
        → (secure : Bool) (host : Text) (port : ℕ) → w.host_str url ≡ some host
        → Failed response
        → Attempt history (response, connected secure host port ∷ history)
    answered :
        {response : Run SingleResponse}
        → (secure : Bool) (host : Text) (port : ℕ) (request : List ℕ) → w.host_str url ≡ some host
        → build_http_request w url host port config credential_origin ≡ ok request
        → Finished response
        → Attempt history (response, sent url request ∷ connected secure host port ∷ history)

  module _ (history : History w env) where
    transmit-Attempt :
        (secure : Bool) (host : Text) (port : ℕ) (connection : Connection) (r : Outcome (List ℕ))
        → w.host_str url ≡ some host
        → build_http_request w url host port config credential_origin ≡ r
        → Attempt history
            (transmit w env url config connection (connected secure host port ∷ history) r)
    unfolding transmit
    transmit-Attempt secure host port connection (err error) h e = dialed secure host port h tt
    transmit-Attempt secure host port connection (ok request) h e =
        answered secure host port request h e (read_response-Finished connection _)

    over_connection-Attempt :
        (secure : Bool) (host : Text) (port : ℕ) (o : Outcome Connection)
        → w.host_str url ≡ some host
        → Attempt history (
            over_connection w env url host port config credential_origin
              (connected secure host port ∷ history)
              o)
    unfolding over_connection
    over_connection-Attempt secure host port (err error) h = dialed secure host port h tt
    over_connection-Attempt secure host port (ok connection) h =
        transmit-Attempt secure host port connection
          (build_http_request w url host port config credential_origin) h refl

    to_host-Attempt :
        (secure : Bool) (host : Option Text)
        → w.host_str url ≡ host
        → Attempt history (to_host w env secure url config credential_origin history host)
    unfolding to_host dial
    to_host-Attempt secure none h = idle tt
    to_host-Attempt secure (some host) h =
        elim (Bool-cases (secure && not (env.is_server_name host))) [
          | inl bad ↦ rw bad (idle tt)
          | inr fine ↦ rw fine (
              over_connection-Attempt secure host
                (or_else (if secure then 443 else 80) (w.port_or_known_default url)) _ h)
        ]

    pub fetch_one-Attempt :
        (secure : Bool)
        → Attempt history (fetch_one w env secure url config credential_origin history)
    unfolding fetch_one
    fetch_one-Attempt secure = to_host-Attempt secure (w.host_str url) refl
