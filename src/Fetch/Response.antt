-- ===== src/Fetch/Response.antt =====
-- The response of an origin, from crates/basecrawl-core/src/fetch.rs: its head, its headers and the
-- decoding of its body. The parser of the head and the decompressors are arguments.
pub mod Ends
use basecrawl.Prelude.{
  ℕ, ◌+◌, ◌-◌, Bool, true, false, not, ◌&&◌, ◌||◌, Option, none, some, List, [], ◌∷◌, ◌++◌, reverse,
  Text, codes, as_bytes, from_utf8, from_utf8_lossy, trim, is_empty, eq_ignore_ascii_case,
  to_ascii_lowercase, text_eq, split, join, decimal, length, take, drop, ltb, if◌then◌else◌,
}
use basecrawl.TextMap.{text_lt}
use basecrawl.Error.{Error, fetch}
use basecrawl.Error.Outcome.{Outcome, ok, err}
use basecrawl.Fetch.Run.{Run, returns, panics, unfinished, ◌>>=◌}
use basecrawl.Fetch.Types.{Headers, max_http_response_header_bytes}
use basecrawl.Fetch.Chunked.{Chunked, body, failed, panicked, decode_chunked}

-- what `httparse` makes of the bytes: the length of the head, the code and the fields
pub data Head : Type 0 where
  complete : (header_length : ℕ) → (code : Option ℕ) → Headers → Head
  incomplete : Head
  invalid : Text → Head

abbrev lowered : Headers → Headers
lowered [] = []
lowered ((name, value) ∷ headers) = (to_ascii_lowercase name, value) ∷ lowered headers

abbrev too_long : Error
too_long = fetch (
    codes "HTTP response headers exceeded the maximum of "
    ++ decimal max_http_response_header_bytes
    ++ codes " bytes")

unfoldable pub parse_http_response : Head → List ℕ → Outcome (ℕ × Headers × List ℕ)
parse_http_response (invalid error) raw = err (fetch (codes "invalid HTTP response: " ++ error))
parse_http_response incomplete raw =
    err (fetch (codes "incomplete HTTP response headers from TLS connection"))
parse_http_response (complete header_length code headers) raw =
    if ltb max_http_response_header_bytes header_length then err too_long else elim code [
      | none ↦ err (fetch (codes "HTTP response did not include a status code"))
      | some status ↦ ok (status, lowered headers, drop header_length raw)
    ]

unfoldable pub header_value : Headers → Text → Option Text
unfolding from_utf8
header_value [] name = none
header_value ((header_name, value) ∷ headers) name =
    let rest = header_value headers name in
    if eq_ignore_ascii_case header_name name then from_utf8 value else rest

any_token : Text → List Text → Bool
unfolding trim
any_token token [] = false
any_token token (candidate ∷ candidates) =
    eq_ignore_ascii_case (trim candidate) token || any_token token candidates

unfoldable pub header_contains_token : Headers → Text → Text → Bool
unfolding header_value split any_token
header_contains_token headers name token = elim (header_value headers name) [
  | none ↦ false
  | some value ↦ any_token token (split b',' value)
]

field_texts : Headers → List Text
unfolding from_utf8_lossy
field_texts [] = []
field_texts ((name, value) ∷ headers) =
    (name ++ codes ": " ++ from_utf8_lossy value) ∷ field_texts headers

insert_text : Text → List Text → List Text
unfolding text_lt
insert_text t [] = t ∷ []
insert_text t (u ∷ us) = if text_lt u t then u ∷ insert_text t us else t ∷ u ∷ us

sort_texts : List Text → List Text
unfolding insert_text
sort_texts [] = []
sort_texts (t ∷ ts) = insert_text t (sort_texts ts)

unfoldable pub hash_header_lines : (List ℕ → Text) → Headers → Text
unfolding field_texts sort_texts join as_bytes
hash_header_lines sha256_hex headers =
    sha256_hex (as_bytes (join (codes "\n") (sort_texts (field_texts headers))))

unfoldable pub cap_bytes : List ℕ → ℕ → List ℕ × Bool
cap_bytes bytes max = if ltb max (length bytes) then (take max bytes, true) else (bytes, false)

pub data Coding : Type 0 where
  gzip deflate zlib br : Coding

-- the codings that a header names, but for `identity`
codings : List Text → List Text
unfolding trim to_ascii_lowercase is_empty
codings [] = []
codings (piece ∷ pieces) =
    let coding = to_ascii_lowercase (trim piece) in
    let rest = codings pieces in
    if not (is_empty coding) && not (text_eq coding (codes "identity")) then coding ∷ rest else rest

pub of_chunked : Option Chunked → Run (List ℕ × Bool)
of_chunked none = unfinished
of_chunked (some (body bytes truncated)) = returns (ok (bytes, truncated))
of_chunked (some (failed error)) = returns (err error)
of_chunked (some panicked) = panics

-- `inflate` is what `read_capped` reads from a decompressor, `display` the text of an error, and
-- `elapsed` the tests of the deadline between chunks
module _ (inflate : Coding → List ℕ → ℕ → Outcome (List ℕ × Bool)) (display : Error → Text)
    (elapsed : ℕ → Bool) where
  wrapped : Outcome (List ℕ × Bool) → Outcome (List ℕ × Bool)
  wrapped (ok decoded) = ok decoded
  wrapped (err error) = err (fetch (codes "could not decode deflate body: " ++ display error))

  -- a raw stream, or one in the wrapper of zlib
  deflated : List ℕ → ℕ → Outcome (List ℕ × Bool) → Outcome (List ℕ × Bool)
  unfolding wrapped
  deflated bytes max (ok decoded) = ok decoded
  deflated bytes max (err error) = wrapped (inflate zlib bytes max)

  pub undo_coding : Text → List ℕ → ℕ → Outcome (List ℕ × Bool)
  unfolding deflated
  undo_coding coding bytes max =
      if text_eq coding (codes "gzip")
      then inflate gzip bytes max
      else if text_eq coding (codes "deflate")
      then deflated bytes max (inflate deflate bytes max)
      else if text_eq coding (codes "br")
      then inflate br bytes max
      else err (fetch (codes "unsupported Content-Encoding '" ++ coding ++ codes "'"))

  -- the loop over the codings, the last one first
  pub undo_codings : List Text → ℕ → List ℕ × Bool → Run (List ℕ × Bool)
  unfolding undo_coding
  undo_codings [] max (bytes, truncated) = returns (ok (bytes, truncated))
  undo_codings (coding ∷ codings) max (bytes, truncated) = do
    decoded ← returns (undo_coding coding bytes max)
    undo_codings codings max (decoded.0, truncated || decoded.1)

  pub unchunk : Headers → List ℕ → ℕ → Run (List ℕ × Bool)
  unfolding header_contains_token decode_chunked of_chunked
  unchunk headers bytes max =
      if header_contains_token headers (codes "transfer-encoding") (codes "chunked")
      then of_chunked (decode_chunked elapsed max bytes)
      else returns (ok (bytes, false))

  -- `header_value(..).unwrap_or_default()`
  pub named_codings : Headers → List Text
  unfolding header_value split codings
  named_codings headers = elim (header_value headers (codes "content-encoding")) [
    | none ↦ codings (split b',' [])
    | some value ↦ codings (split b',' value)
  ]

  unfoldable pub decode_http_body : Headers → List ℕ → ℕ → Run (List ℕ × Bool)
  unfolding unchunk undo_codings named_codings cap_bytes
  decode_http_body headers bytes max = do
    unchunked ← unchunk headers bytes max
    plain ← undo_codings (reverse (named_codings headers)) max unchunked
    let capped = cap_bytes plain.0 max
    returns (ok (capped.0, plain.1 || capped.1))
