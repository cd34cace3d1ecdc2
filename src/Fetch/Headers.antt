-- ===== src/Fetch/Headers.antt =====
-- The headers of a caller, from crates/basecrawl-core/src/fetch.rs: their parse, their validation
-- and the effective headers of a request.
pub mod Caller
mod Tests
use basecrawl.Prelude.{
  ℕ, Bool, true, false, not, ◌&&◌, ◌||◌, Option, none, some, List, [], ◌∷◌, ◌++◌, reverse, Text,
  codes, as_bytes, all, trim, trim_start, is_empty, split_once, to_ascii_lowercase, is_one_of,
  is_ascii_alphanumeric, leb, ◌==◌, if◌then◌else◌,
}
use basecrawl.Error.{Error, invalid_header}
use basecrawl.Error.Outcome.{Outcome, ok, err, ◌>>=◌, ◌>>◌, unless}

abbrev mem_byte : ℕ → Text → Bool
mem_byte b [] = false
mem_byte b (c ∷ cs) = b == c || mem_byte b cs

unfoldable pub is_name_byte : ℕ → Bool
unfolding is_ascii_alphanumeric
is_name_byte b = is_ascii_alphanumeric b || mem_byte b (codes "!#$%&'*+-.^_`|~")

unfoldable pub is_value_byte : ℕ → Bool
is_value_byte b = b == 9 || (leb 32 b && not (b == 127))

abbrev pub valid_name : Text → Bool
valid_name name = not (is_empty name) && all is_name_byte (as_bytes name)

abbrev pub valid_value : Text → Bool
valid_value value = all is_value_byte (as_bytes value)

unfoldable pub validate_header_pair : Text → Text → Outcome (Unit {0})
unfolding is_empty is_name_byte is_value_byte
validate_header_pair name value =
    unless (valid_name name && valid_value value) (invalid_header name)

abbrev redacted : Error
redacted = invalid_header (codes "<redacted>")

trim_end : Text → Text
unfolding trim_start
trim_end s = reverse (trim_start (reverse s))

-- `strip_prefix(' ').unwrap_or(value)`
strip_space : Text → Text
strip_space [] = []
strip_space (c ∷ s) = if c == b' ' then s else c ∷ s

-- the two sides of the first colon
unfoldable pub read_pair : Text → Text → Outcome (Text × Text)
unfolding trim trim_end strip_space validate_header_pair
read_pair name value = do
  unless (not (is_empty (trim name))) redacted
  validate_header_pair (trim name) (trim_end (strip_space value))
  ok (trim name, trim_end (strip_space value))

unfoldable pub parse_header : Text → Outcome (Text × Text)
unfolding split_once read_pair
parse_header spec = elim (split_once b':' spec) [
  | none ↦ err redacted
  | some (name, value) ↦ read_pair name value
]

abbrev pub transport_managed : List Text
transport_managed =
    codes "host"
    ∷ codes "user-agent"
    ∷ codes "connection"
    ∷ codes "accept-encoding"
    ∷ codes "content-length"
    ∷ codes "transfer-encoding"
    ∷ codes "trailer"
    ∷ codes "te"
    ∷ codes "upgrade"
    ∷ []

unfoldable pub is_transport_managed_header : Text → Bool
is_transport_managed_header name = is_one_of name transport_managed

-- the loop of `validate_caller_headers`, over the names that it has seen
unfoldable pub validate_from : List Text → List (Text × Text) → Outcome (Unit {0})
unfolding validate_header_pair is_transport_managed_header
validate_from seen [] = ok tt
validate_from seen ((name, value) ∷ headers) =
    let rest = validate_from (to_ascii_lowercase name ∷ seen) headers in
    do
      validate_header_pair name value
      unless (not (is_transport_managed_header (to_ascii_lowercase name))) (invalid_header name)
      unless (not (is_one_of (to_ascii_lowercase name) seen)) (invalid_header name)
      rest

unfoldable pub validate_caller_headers : List (Text × Text) → Outcome (Unit {0})
unfolding validate_from
validate_caller_headers headers = validate_from [] headers

abbrev lowered : List (Text × Text) → List (Text × Text)
lowered [] = []
lowered ((name, value) ∷ headers) = (to_ascii_lowercase name, value) ∷ lowered headers

unfoldable pub effective_headers : List (Text × Text) → Text → Outcome (List (Text × Text))
unfolding validate_header_pair validate_caller_headers
effective_headers headers user_agent = do
  validate_header_pair (codes "User-Agent") user_agent
  validate_caller_headers headers
  ok ((codes "user-agent", user_agent) ∷ lowered headers)
