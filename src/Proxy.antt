-- ===== src/Proxy.antt =====
-- crates/basecrawl-core/src/proxy.rs: the settings of an upstream proxy, the username that it is
-- given, and the class that a scrape may claim for its dial.
pub mod Class
mod Tests
use basecrawl.Prelude.{
  ℕ, Bool, true, false, not, ◌&&◌, ◌||◌, Option, none, some, List, [], ◌∷◌, ◌++◌, reverse, Text,
  codes, length, take, trim, is_empty, contains, find, replace, text_eq, to_ascii_lowercase, ltb,
  ◌==◌, if◌then◌else◌, decimal,
}
use basecrawl.Error.{
  Error, invalid_proxy, proxy_class_unavailable, proxy_connect, residential_concurrency,
}
use basecrawl.Error.Outcome.{Outcome, ok, err, ◌>>=◌, ◌>>◌, unless}
use basecrawl.Proof.{ProxyClass, datacenter, requires_upstream, proxy_class_str}
use basecrawl.Url.{Urls, Parsed, url, relative, malformed}

pub data ProxyKind : Type 0 where
  http https socks5 : ProxyKind

pub record UsernameTemplateOptions : Type 0 where
  pub country : Option Text
  pub session : Option Text
  pub template : Option Text

pub record ProxyConfig : Type 0 where
  pub kind : ProxyKind
  pub host : Text
  pub port : ℕ
  pub username : Option Text
  pub password : Option Text
  pub proxy_class : Option ProxyClass

pub record ProxyPlan : Type 0 where
  pub explicit_url : Option Text
  pub username : UsernameTemplateOptions
  pub required_class : Option ProxyClass
  pub configured_class : Option ProxyClass

-- the smaller of a cut and the place of a token
sooner : ℕ → Option ℕ → ℕ
sooner cut none = cut
sooner cut (some i) = if ltb i cut then i else cut

trim_dashes_start : Text → Text
trim_dashes_start [] = []
trim_dashes_start (c ∷ s) = let rest = trim_dashes_start s in if c == b'-' then rest else c ∷ s

-- `trim_end_matches('-')`
trim_end_dashes : Text → Text
unfolding trim_dashes_start
trim_end_dashes s = reverse (trim_dashes_start (reverse s))

unfoldable pub strip_username_template_tokens : Text → Text
unfolding trim find sooner trim_end_dashes to_ascii_lowercase
strip_username_template_tokens username =
    let trimmed = trim username in
    let lower = to_ascii_lowercase trimmed in
    let cut =
      sooner
        (sooner
          (sooner (sooner (length trimmed) (find trimmed (codes "-cc-")))
            (find trimmed (codes "-sessid-")))
          (find lower (codes "-cc-")))
        (find lower (codes "-sessid-")) in
    trim_end_dashes (take cut trimmed)

abbrev or_empty : Option Text → Text
or_empty none = []
or_empty (some t) = t

-- `map(str::trim).filter(|s| !s.is_empty())`
filled : Option Text → Option Text
unfolding trim is_empty
filled none = none
filled (some t) = if is_empty (trim t) then none else some (trim t)

substitute : Text → Text → Option Text → Option Text → Text
unfolding replace
substitute template base country session =
    replace
      (replace
        (replace
          (replace (replace (replace template (codes "{user}") base) (codes "{username}") base)
            (codes "{country}") (or_empty country))
          (codes "{cc}") (or_empty country))
        (codes "{session}") (or_empty session))
      (codes "{sessid}") (or_empty session)

render_template : Text → Text → Option Text → Option Text → Outcome (Option Text)
unfolding substitute trim is_empty contains
render_template template base country session =
    let out = substitute template base country session in
    if contains template (codes "{")
    then (if contains out (codes "{")
        then err (
            invalid_proxy (
              codes
                "username template has unknown placeholders (supported: {user}, {username}, {country}, {cc}, {session}, {sessid})"))
        else ok (if is_empty (trim out) then none else some (trim out)))
    else ok (some template)

abbrev token : Text → Option Text → Text
token name none = []
token name (some value) = name ++ value

append_tokens : Text → Text → Option Text → Option Text → Outcome (Option Text)
unfolding is_empty
append_tokens raw_base base none none = ok (if is_empty raw_base then none else some raw_base)
append_tokens raw_base base country session =
    if is_empty base
    then err (
        invalid_proxy
          (codes "proxy username base is required when country/session template tokens are set"))
    else ok (some (base ++ (token (codes "-cc-") country ++ token (codes "-sessid-") session)))

unfoldable pub render_username : Option Text → UsernameTemplateOptions → Outcome (Option Text)
unfolding trim strip_username_template_tokens filled render_template append_tokens
render_username base_username options =
    let raw_base = trim (or_empty base_username) in
    let base = strip_username_template_tokens raw_base in
    let country = filled options.country in
    let session = filled options.session in
    elim (filled options.template) [
      | some template ↦ render_template template base country session
      | none ↦ append_tokens raw_base base country session
    ]

kind_of : Text → Outcome ProxyKind
kind_of scheme =
    if text_eq scheme (codes "http")
    then ok http
    else if text_eq scheme (codes "https")
    then ok https
    else if text_eq scheme (codes "socks5") || text_eq scheme (codes "socks5h")
    then ok socks5
    else err (
        invalid_proxy (
          codes "unsupported proxy scheme '"
          ++ (scheme ++ codes "' (supported: http, https, socks5)")))

abbrev required : {A : Type 0} → Text → Option A → Outcome A
required detail none = err (invalid_proxy detail)
required detail (some a) = ok a

module _ (w : Urls) where
  of_parsed : Parsed w.Url → Outcome ProxyConfig
  unfolding kind_of is_empty
  of_parsed relative = err (invalid_proxy (codes "proxy URL is not a valid absolute URL"))
  of_parsed malformed = err (invalid_proxy (codes "proxy URL is not a valid absolute URL"))
  of_parsed (url u) = do
    kind ← kind_of (w.scheme u)
    host ← required (codes "proxy URL is missing a host") (w.host_str u)
    port ← required (codes "proxy URL is missing a port") (w.port_or_known_default u)
    ok (record {
      kind = kind;
      host = host;
      port = port;
      username = if is_empty (w.username u) then none else some (w.username u);
      password = w.password u;
      proxy_class = some datacenter;
    })

  -- `ProxyConfig::parse`
  unfoldable pub parse_proxy : Text → Outcome ProxyConfig
  unfolding trim is_empty of_parsed
  parse_proxy raw =
      if is_empty (trim raw)
      then err (invalid_proxy (codes "proxy URL must not be empty"))
      else of_parsed (w.parse (trim raw))

  candidates : Text → List Text
  candidates scheme =
      let any = codes "ALL_PROXY" ∷ codes "all_proxy" ∷ [] in
      let plain = codes "BASECRAWL_HTTP_PROXY" ∷ codes "HTTP_PROXY" ∷ codes "http_proxy" ∷ any in
      if text_eq scheme (codes "https")
      then codes "BASECRAWL_HTTPS_PROXY" ∷ codes "HTTPS_PROXY" ∷ codes "https_proxy" ∷ plain
      else if text_eq scheme (codes "http")
      then plain
      else any

  some_proxy : Text → Outcome (Option ProxyConfig)
  unfolding parse_proxy
  some_proxy raw = do config ← parse_proxy raw; ok (some config)

  -- the first variable with a value that is not blank; `var` reads the environment
  from_env : (Text → Option Text) → List Text → Outcome (Option ProxyConfig)
  unfolding filled some_proxy
  from_env var [] = ok none
  from_env var (key ∷ keys) =
      let rest = from_env var keys in
      elim (filled (var key)) [ none ↦ rest | some value ↦ some_proxy value ]

  unfoldable pub resolve_proxy :
      (Text → Option Text) → Option Text → w.Url → Outcome (Option ProxyConfig)
  unfolding filled some_proxy from_env candidates
  resolve_proxy var explicit target = elim (filled explicit) [
    | some raw ↦ some_proxy raw
    | none ↦ from_env var (candidates (w.scheme target))
  ]

  abbrev commercial : Option ProxyClass → Option ProxyClass
  commercial none = none
  commercial (some class) = if requires_upstream class then some class else none

  abbrev or_class : Option ProxyClass → Option ProxyClass → Option ProxyClass
  or_class none other = other
  or_class (some class) other = some class

  abbrev class_or : ProxyClass → Option ProxyClass → ProxyClass
  class_or class none = class
  class_or _ (some class) = class

  -- the class that a resolved upstream is given
  class_of : (configured required : Option ProxyClass) → ProxyClass
  unfolding requires_upstream
  class_of configured required =
      let class = class_or datacenter (or_class configured (commercial required)) in
      elim required [ none ↦ class | some req ↦ if requires_upstream req then req else class ]

  with_plan : ProxyPlan → Option ProxyConfig → Outcome (Option ProxyConfig)
  unfolding render_username class_of
  with_plan plan none = ok none
  with_plan plan (some config) = do
    username ← render_username config.username plan.username
    ok (
        some (record config {
          username = username;
          proxy_class = some (class_of plan.configured_class plan.required_class);
        }))

  -- a class that the resolution cannot stand for
  check_plan : Option ProxyClass → Option ProxyConfig → Outcome (Option ProxyConfig)
  unfolding requires_upstream proxy_class_str
  check_plan (some ProxyClass.direct) (some config) =
      err (invalid_proxy (codes "proxy_class=direct forbids a configured upstream proxy"))
  check_plan (some class) none =
      if requires_upstream class
      then err (
          proxy_class_unavailable (proxy_class_str class)
            (codes "required proxy class has no upstream dial path configured"))
      else ok none
  check_plan required resolved = ok resolved

  unfoldable pub resolve_proxy_plan :
      (Text → Option Text) → ProxyPlan → w.Url → Outcome (Option ProxyConfig)
  unfolding resolve_proxy with_plan check_plan
  resolve_proxy_plan var plan target = do
    found ← resolve_proxy var plan.explicit_url target
    resolved ← with_plan plan found
    check_plan plan.required_class resolved

  unfoldable pub truthful_proxy_class : Option ProxyConfig → Option ProxyClass → Outcome ProxyClass
  unfolding requires_upstream proxy_class_str
  truthful_proxy_class none none = ok ProxyClass.direct
  truthful_proxy_class none (some class) =
      if requires_upstream class
      then err (
          proxy_class_unavailable (proxy_class_str class)
            (codes "required proxy class was not dialed"))
      else ok ProxyClass.direct
  truthful_proxy_class (some config) none = ok (class_or datacenter config.proxy_class)
  truthful_proxy_class (some config) (some class) =
      ok (class_or (if requires_upstream class then class else datacenter) config.proxy_class)
