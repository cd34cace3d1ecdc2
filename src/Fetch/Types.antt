-- ===== src/Fetch/Types.antt =====
-- The data of crates/basecrawl-core/src/fetch.rs. Durations are milliseconds; what the pacer and
-- the network do is given to the functions that use them.
use basecrawl.Prelude.{ℕ, Bool, Option, List, Text, codes}
use basecrawl.Error.{Error, timeout}
use basecrawl.Proof.{RedirectHop, Tls}
use basecrawl.Url.{Urls}

abbrev pub default_user_agent : Text
default_user_agent =
    codes
      "Mozilla/5.0 (X11; Linux x86_64) AppleWebKit/537.36 (KHTML, like Gecko) Chrome/145.0.0.0 Safari/537.36"

abbrev pub max_redirects : ℕ
max_redirects = 20

abbrev pub max_http_response_header_bytes : ℕ
max_http_response_header_bytes = 65536

abbrev pub Headers : Type 0
Headers = List (Text × List ℕ)

abbrev pub deadline_elapsed : Error
deadline_elapsed = timeout (codes "scrape deadline exceeded")

-- The source address of a request is its text.
pub record SingleResponse : Type 0 where
  pub status_code : ℕ
  pub headers_hash : Text
  pub content_type : Option Text
  pub location : Option Text
  pub body : List ℕ
  pub body_truncated : Bool
  pub tls : Option Tls
  pub egress_ip : Option Text

-- `fetched_at`, the time of the clock, is left out.
pub record Fetched : Type 0 where
  pub status_code : ℕ
  pub headers_hash : Text
  pub body_hash : Text
  pub content_length : ℕ
  pub body : List ℕ
  pub content_type : Option Text
  pub body_truncated : Bool
  pub final_url : Text
  pub redirects : List RedirectHop
  pub tls : Tls
  pub egress_ip : Text

-- The settings that decide what is sent; pacing, proxy and cipher orders are the transport's.
module _ (w : Urls) where
  pub record FetchConfig : Type 0 where
    pub headers : List (Text × Text)
    pub credential_origin : Option w.Url
    pub user_agent : Text
    pub max_body_bytes : ℕ
    pub method : Text
    pub body : List ℕ
