-- ===== src/Fetch/Request.antt =====
-- The bytes of a request, from crates/basecrawl-core/src/fetch.rs.
use basecrawl.Prelude.{
  ℕ, Bool, true, false, not, ◌&&◌, ◌||◌, none, some, List, [], ◌∷◌, ◌++◌, Text, codes, as_bytes,
  all, trim, is_empty, eq_ignore_ascii_case, decimal, length, if◌then◌else◌,
}
use basecrawl.Error.{unsupported_method}
use basecrawl.Error.Outcome.{Outcome, ok, ◌>>=◌, ◌>>◌, unless}
use basecrawl.Url.{Urls, same_origin}
use basecrawl.Fetch.Types.{FetchConfig}
use basecrawl.Fetch.Headers.{is_name_byte, validate_header_pair}

abbrev pub line_end : Text
line_end = 13 ∷ 10 ∷ []

unfoldable pub is_valid_http_method : Text → Bool
unfolding is_empty is_name_byte
is_valid_http_method method = not (is_empty method) && all is_name_byte (as_bytes method)

abbrev field_line : Text → Text → Text
field_line name value = name ++ codes ": " ++ value ++ line_end

-- the field lines of the caller's headers
unfoldable pub write_headers : List (Text × Text) → Outcome Text
unfolding validate_header_pair
write_headers [] = ok []
write_headers ((name, value) ∷ headers) =
    let rest = write_headers headers in
    do validate_header_pair name value; lines ← rest; ok (field_line name value ++ lines)

-- whether a header of that name is emitted
unfoldable pub emits : Text → List (Text × Text) → Bool
emits wanted [] = false
emits wanted ((name, value) ∷ headers) = eq_ignore_ascii_case name wanted || emits wanted headers

unfoldable pub write_user_agent : Bool → Text → Outcome Text
unfolding validate_header_pair
write_user_agent true user_agent = ok []
write_user_agent false user_agent = do
  validate_header_pair (codes "user-agent") user_agent
  ok (field_line (codes "user-agent") user_agent)

abbrev or_get : Text → Text
or_get method = if is_empty method then codes "GET" else method

module _ (w : Urls) where
  open w use {Url}

  -- `caller_headers_for`
  unfoldable pub caller_headers_for : FetchConfig w → Url → Url → List (Text × Text)
  unfolding same_origin
  caller_headers_for config target credential_origin =
      if same_origin w target credential_origin then config.headers else []

  target_of : Url → Text
  unfolding is_empty
  target_of url =
      let path = if is_empty (w.path url) then codes "/" else w.path url in
      elim (w.query url) [ none ↦ path | some query ↦ path ++ codes "?" ++ query ]

  host_header : Url → Text → ℕ → Text
  unfolding decimal
  host_header url host port = elim (w.port url) [
    | none ↦ host
    | some p ↦ host ++ codes ":" ++ decimal port
  ]

  -- the request line and the fields that the transport writes
  unfoldable pub write_start : Text → Url → Text → ℕ → Text
  unfolding target_of host_header
  write_start method url host port =
      method
      ++ codes " "
      ++ target_of url
      ++ codes " HTTP/1.1"
      ++ line_end
      ++ field_line (codes "Host") (host_header url host port)
      ++ field_line (codes "Accept-Encoding") (codes "gzip, deflate, br")
      ++ field_line (codes "Connection") (codes "close")

  abbrev send_body : Text → List ℕ → Bool
  send_body method body = not (is_empty body) || eq_ignore_ascii_case method (codes "POST")

  -- the fields that frame a body
  unfoldable pub write_framing : Bool → Text → List ℕ → Text
  unfolding decimal
  write_framing typed method body =
      if send_body method body
      then (if not typed && not (is_empty body)
          then field_line (codes "content-type") (codes "application/octet-stream")
          else [])
        ++ field_line (codes "content-length") (decimal (length body))
      else []

  unfoldable pub build_http_request : Url → Text → ℕ → FetchConfig w → Url → Outcome (List ℕ)
  unfolding trim is_valid_http_method caller_headers_for write_start write_headers emits
      write_user_agent write_framing
  build_http_request url host port config credential_origin =
      let method = or_get (trim config.method) in
      let headers = caller_headers_for config url credential_origin in
      do
        unless (is_valid_http_method method) (unsupported_method method)
        lines ← write_headers headers
        agent ← write_user_agent (emits (codes "user-agent") headers) config.user_agent
        ok (
            as_bytes (
              write_start method url host port
              ++ lines
              ++ agent
              ++ write_framing (emits (codes "content-type") headers) method config.body
              ++ line_end)
            ++ (if send_body method config.body then config.body else []))
