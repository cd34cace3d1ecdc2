-- ===== src/Url.antt =====
-- URLs: the `url` crate as an interface, `same_origin` of crates/basecrawl-core/src/fetch.rs and
-- `validate_url` of crates/basecrawl-core/src/url_validation.rs over it.
pub mod Origin
pub mod Samples
mod Tests
use basecrawl.Prelude.{
  ℕ, Bool, true, false, ◌&&◌, ◌||◌, Option, none, some, Text, ◌++◌, codes, text_eq,
  eq_ignore_ascii_case, is_empty, if◌then◌else◌, ◌==◌,
}

-- `Url::parse`: a URL, `RelativeUrlWithoutBase`, or another error
pub data Parsed (U : Type 0) : Type 0 where
  url : U → Parsed U
  relative : Parsed U
  malformed : Parsed U

-- The operations of `url::Url` that the crawler calls.
pub record Urls : Type 1 where
  pub Url : Type 0
  pub parse : Text → Parsed Url
  pub scheme : Url → Text
  pub host_str : Url → Option Text
  pub port_or_known_default : Url → Option ℕ
  pub port : Url → Option ℕ
  pub username : Url → Text
  pub password : Url → Option Text
  pub path : Url → Text
  pub query : Url → Option Text
  pub to_string : Url → Text
  pub join : Url → Text → Option Url
  pub set_path : Text → Url → Url
  pub without_query : Url → Url
  pub without_fragment : Url → Url

abbrev pub port_eq : Option ℕ → Option ℕ → Bool
port_eq none none = true
port_eq (some p) (some q) = p == q
port_eq _ _ = false

pub hosts_eq : Option Text → Option Text → Bool
hosts_eq (some left) (some right) = eq_ignore_ascii_case left right
hosts_eq _ _ = false

pub data UrlError : Type 0 where
  invalid_url unsupported_scheme : Text → UrlError

pub data Validated (U : Type 0) : Type 0 where
  ok : U → Validated U
  err : UrlError → Validated U

module _ (w : Urls) where
  open w use {Url}

  unfoldable pub same_origin : Url → Url → Bool
  unfolding hosts_eq
  same_origin left right =
      eq_ignore_ascii_case (w.scheme left) (w.scheme right)
      && (hosts_eq (w.host_str left) (w.host_str right)
          && port_eq (w.port_or_known_default left) (w.port_or_known_default right))

  abbrev pub is_http : Url → Bool
  is_http u = text_eq (w.scheme u) (codes "http") || text_eq (w.scheme u) (codes "https")

  -- `is_none_or(str::is_empty)`
  pub lacks_host : Url → Bool
  unfolding is_empty
  lacks_host u = elim (w.host_str u) [ none ↦ true | some host ↦ is_empty host ]

  pub check_url : Text → Url → Validated Url
  unfolding lacks_host
  check_url raw u =
      if is_http u
      then (if lacks_host u then err (invalid_url raw) else ok u)
      else err (unsupported_scheme (w.scheme u))

  -- the second parse, behind `https://`
  pub check_prefixed : Text → Parsed Url → Validated Url
  unfolding check_url
  check_prefixed raw (url u) = check_url raw u
  check_prefixed raw relative = err (invalid_url raw)
  check_prefixed raw malformed = err (invalid_url raw)

  pub check_parsed : Text → Parsed Url → Validated Url
  unfolding check_url check_prefixed
  check_parsed raw (url u) = check_url raw u
  check_parsed raw relative = check_prefixed raw (w.parse (codes "https://" ++ raw))
  check_parsed raw malformed = err (invalid_url raw)

  unfoldable pub validate_url : Text → Validated Url
  unfolding check_parsed
  validate_url raw = check_parsed raw (w.parse raw)
