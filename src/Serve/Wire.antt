-- ===== src/Serve/Wire.antt =====
-- The reader of a request and the writer of an answer in crates/basecrawl-core/src/serve.rs, over
-- what the reads of a connection give. The text of a JSON value is an argument.
pub mod Found
pub mod Whole
mod Tests
use basecrawl.Prelude.{
  ℕ, ◌+◌, Bool, true, false, not, ◌&&◌, Option, none, some, List, [], ◌∷◌, ◌++◌, Text, codes,
  text_eq, as_bytes, length, take, drop, ltb, ◌==◌, if◌then◌else◌, eq_ignore_ascii_case, trim,
  trim_start, is_whitespace, is_empty, split_once, from_utf8_lossy, first_piece, decimal, find,
  from_str_radix, word_mod,
}
use basecrawl.TextMap.{TextMap}
use basecrawl.Json.{Value}
use basecrawl.Error.{Error, invalid_product_option, io}
use basecrawl.Error.Outcome.{Outcome, ok, err, ◌>>=◌, ◌>>◌, unless}
use basecrawl.Serve.{Request, Answer, serve_secret_header}

-- What a read gives; behind the last one the connection is closed.
pub data Read : Type 0 where
  got : List ℕ → Read
  broken : Text → Read

abbrev pub blank_line : List ℕ
blank_line = 13 ∷ 10 ∷ 13 ∷ 10 ∷ []

-- `windows(4).any`
abbrev pub is_found : Option ℕ → Bool
is_found none = false
is_found (some i) = true

-- the loop until the head is complete
unfoldable pub read_head : List ℕ → List Read → Outcome (List ℕ × List Read)
read_head buf [] = ok (buf, [])
read_head buf (broken e ∷ reads) = err (io (codes "read: " ++ e))
read_head buf (got [] ∷ reads) = ok (buf, reads)
read_head buf (got (b ∷ bs) ∷ reads) =
    let rest = read_head (buf ++ (b ∷ bs)) reads in
    if is_found (find (buf ++ (b ∷ bs)) blank_line)
    then ok (buf ++ (b ∷ bs), reads)
    else if ltb 65536 (length (buf ++ (b ∷ bs)))
    then err (io (codes "HTTP headers too large"))
    else rest

unfoldable pub split_head : List ℕ → Outcome (List ℕ × List ℕ)
split_head buf = elim (find buf blank_line) [
  | none ↦ err (io (codes "incomplete HTTP headers"))
  | some i ↦ ok (take i buf, drop (i + 4) buf)
]

-- `split("\r\n")`
unfoldable pub split_lines : Text → List Text
split_lines [] = [] ∷ []
split_lines (c ∷ []) = (c ∷ []) ∷ []
split_lines (c ∷ d ∷ s) =
    let rest = split_lines (d ∷ s) in
    let behind = split_lines s in if c == 13 && d == 10 then [] ∷ behind else first_piece c rest

-- the characters up to the next white space, and those from it on
unfoldable pub word : Text → Text × Text
unfolding is_whitespace
word [] = ([], [])
word (c ∷ s) = let rest = word s in if is_whitespace c then ([], c ∷ s) else (c ∷ rest.0, rest.1)

-- `split_whitespace().next()`
unfoldable pub next_word : Text → Option (Text × Text)
unfolding trim_start word
next_word s = elim (trim_start s) [ [] ↦ none | c ∷ t ↦ some (word (c ∷ t)) ]

pub record Head : Type 0 where
  pub method : Text
  pub path : Text
  pub headers : TextMap Text
  pub content_length : ℕ

abbrev pub or_zero : Option ℕ → ℕ
or_zero none = 0
or_zero (some n) = n

-- the loop over the lines behind the first: the headers in order, and the last length
unfoldable pub read_fields : List Text → ℕ → TextMap Text × ℕ
unfolding split_once trim is_empty from_str_radix
read_fields [] content_length = ([], content_length)
read_fields (line ∷ lines) content_length =
    if is_empty line then read_fields lines content_length else elim (split_once b':' line) [
      | none ↦ read_fields lines content_length
      | some (k, v) ↦
          (let found = read_fields lines (
              if eq_ignore_ascii_case (trim k) (codes "content-length")
              then or_zero (from_str_radix word_mod 10 (trim v))
              else content_length) in
            ((trim k, trim v) ∷ found.0, found.1))
    ]

abbrev pub required : {A : Type 0} → Option A → Error → Outcome A
required none error = err error
required (some a) error = ok a

abbrev pub first_line : List Text → Text × List Text
first_line [] = ([], [])
first_line (line ∷ lines) = (line, lines)

unfoldable pub parse_head : List ℕ → Outcome Head
unfolding from_utf8_lossy split_lines next_word read_fields
parse_head header_bytes = do
  let lines = first_line (split_lines (from_utf8_lossy header_bytes))
  method ← required (next_word lines.0) (io (codes "missing method"))
  path ← required (next_word method.1) (io (codes "missing path"))
  let fields = read_fields lines.1 0
  ok (record { method = method.0; path = path.0; headers = fields.0; content_length = fields.1 })

-- the loop until the body is complete
unfoldable pub read_body : (max content_length : ℕ) → List ℕ → List Read → Outcome (List ℕ)
read_body max content_length body [] = ok body
read_body max content_length body (broken e ∷ reads) =
    if ltb (length body) content_length then err (io (codes "read body: " ++ e)) else ok body
read_body max content_length body (got [] ∷ reads) = ok body
read_body max content_length body (got (b ∷ bs) ∷ reads) =
    let rest = read_body max content_length (body ++ (b ∷ bs)) reads in
    if ltb (length body) content_length
    then if ltb max (length (body ++ (b ∷ bs)))
      then err (invalid_product_option (codes "request body exceeds max"))
      else rest
    else ok body

unfoldable pub read_http_request : ℕ → List Read → Outcome Request
unfolding read_head split_head parse_head read_body is_empty
read_http_request max_body reads = do
  received ← read_head [] reads
  unless (not (is_empty received.0)) (io (codes "empty request"))
  parts ← split_head received.0
  head ← parse_head parts.0
  unless (not (ltb max_body head.content_length)) (
      invalid_product_option (
        codes "content-length "
        ++ decimal head.content_length
        ++ codes " exceeds max body "
        ++ decimal max_body))
  body ← read_body max_body head.content_length parts.1 received.1
  ok (record {
    method = head.method;
    path = head.path;
    headers = head.headers;
    body = take head.content_length body;
  })

unfoldable pub reason : ℕ → Text
reason status =
    if status == 200
    then codes "OK"
    else if status == 400
    then codes "Bad Request"
    else if status == 401
    then codes "Unauthorized"
    else if status == 403
    then codes "Forbidden"
    else if status == 404
    then codes "Not Found"
    else if status == 429
    then codes "Too Many Requests"
    else if status == 502
    then codes "Bad Gateway"
    else if status == 503
    then codes "Service Unavailable"
    else if status == 504
    then codes "Gateway Timeout"
    else codes "Error"

-- the lines of the extra headers, but for the secret
unfoldable pub extra_lines : TextMap Text → Text
extra_lines [] = []
extra_lines ((k, v) ∷ headers) =
    if eq_ignore_ascii_case k serve_secret_header
    then extra_lines headers
    else k ++ codes ": " ++ v ++ 13 ∷ 10 ∷ [] ++ extra_lines headers

-- the bytes that `write_http_response` writes
unfoldable pub write_http_response : (Value → Text) → Answer → List ℕ
unfolding reason extra_lines
write_http_response to_string answer =
    let payload = as_bytes (to_string answer.body) in
    as_bytes (
      codes "HTTP/1.1 "
      ++ decimal answer.status
      ++ codes " "
      ++ reason answer.status
      ++ 13 ∷ 10 ∷ []
      ++ codes "Content-Type: application/json"
      ++ 13 ∷ 10 ∷ []
      ++ codes "Content-Length: "
      ++ decimal (length payload)
      ++ 13 ∷ 10 ∷ []
      ++ codes "Connection: close"
      ++ 13 ∷ 10 ∷ []
      ++ extra_lines answer.headers
      ++ 13 ∷ 10 ∷ [])
    ++ payload
