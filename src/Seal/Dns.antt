-- ===== src/Seal/Dns.antt =====
-- crates/basecrawl-seal/src/dns.rs: the DNS messages of the pinned resolver, and what it is asked
-- for. A message is its bytes; the exchange with the resolver is an argument.
pub mod Names
pub mod Packets
pub mod Responses
pub mod Queries
mod Tests
use basecrawl.Prelude.{
  ℕ, zero, suc, ◌+◌, ◌-◌, ◌*◌, ◌/◌, ◌%◌, Bool, true, false, not, ◌&&◌, ◌||◌, Option, none, some,
  List, [], ◌∷◌, ◌++◌, reverse, Text, codes, as_bytes, all, length, take, drop, get_elem?, trim,
  split, is_empty, starts_with, contains, to_ascii_lowercase, eq_ignore_ascii_case,
  is_ascii_alphanumeric, text_eq, ltb, leb, ◌==◌, if◌then◌else◌, word_mod,
}
use basecrawl.Seal.{SealError, dns, Sealed, ok, err, ◌>>=◌, ◌>>◌, unless}

-- the octets
pub data IpAddr : Type 0 where
  v4 v6 : List ℕ → IpAddr

abbrev pub qtype_a : ℕ
qtype_a = 1

abbrev pub qtype_aaaa : ℕ
qtype_aaaa = 28

-- `message[i]`, behind a test of the length
abbrev pub byte : List ℕ → ℕ → ℕ
byte [] i = 0
byte (b ∷ bs) zero = b
byte (b ∷ bs) (suc i) = byte bs i

-- `u16::from_be_bytes` and `to_be_bytes`
abbrev pub word_at : List ℕ → ℕ → ℕ
word_at message i = byte message i * 256 + byte message (i + 1)

abbrev pub be_bytes : ℕ → List ℕ
be_bytes n = (n / 256 % 256) ∷ (n % 256) ∷ []

trim_dots_start : Text → Text
trim_dots_start [] = []
trim_dots_start (c ∷ s) = let rest = trim_dots_start s in if c == b'.' then rest else c ∷ s

-- `trim_end_matches('.')`
trim_end_dots : Text → Text
unfolding trim_dots_start
trim_end_dots s = reverse (trim_dots_start (reverse s))

abbrev is_host_byte : ℕ → Bool
is_host_byte b = is_ascii_alphanumeric b || (b == b'-' || b == b'.')

abbrev is_dns_name : Text → Bool
is_dns_name s =
    not (is_empty s)
    && (leb (length (as_bytes s)) 253
        && (not (contains s (codes ".."))
            && (not (starts_with s (codes ".")) && all is_host_byte (as_bytes s))))

unfoldable pub trimmed : Text → Text
unfolding trim trim_end_dots to_ascii_lowercase
trimmed name = to_ascii_lowercase (trim_end_dots (trim name))

unfoldable pub normalize_name : Text → Sealed Text
normalize_name name = do
  unless (is_dns_name (trimmed name)) (dns (codes "hostname is not a valid DNS name"))
  ok (trimmed name)

-- the loop over the labels
unfoldable pub encode_labels : List Text → Sealed (List ℕ)
encode_labels [] = ok (0 ∷ [])
encode_labels (label ∷ labels) =
    let rest = encode_labels labels in
    do
      unless (not (is_empty label || ltb 63 (length (as_bytes label))))
          (dns (codes "hostname has an empty or overlong DNS label"))
      bytes ← rest
      ok ((length (as_bytes label) % 256 ∷ as_bytes label) ++ bytes)

unfoldable pub encode_name : Text → Sealed (List ℕ)
unfolding split encode_labels
encode_name name = encode_labels (split b'.' name)

-- the header of a query with recursion desired and one question
abbrev pub query_header : ℕ → List ℕ
query_header id = be_bytes id ++ 1 ∷ 0 ∷ 0 ∷ 1 ∷ 0 ∷ 0 ∷ 0 ∷ 0 ∷ 0 ∷ 0 ∷ []

unfoldable pub build_query : Text → (qtype id : ℕ) → Sealed (List ℕ)
unfolding normalize_name encode_name
build_query name qtype id = do
  host ← normalize_name name
  labels ← encode_name host
  ok (query_header id ++ (labels ++ (be_bytes qtype ++ 0 ∷ 1 ∷ [])))

-- what is found at the start of a label
pub data Label : Type 0 where
  refused : SealError → Label
  ended : ℕ → Label
  label : ℕ → Label

-- `len & 0xc0` are the two high bits of the byte
unfoldable pub read_label : List ℕ → ℕ → Label
read_label message offset =
    let len = byte message offset in
    if leb (length message) offset
    then refused (dns (codes "DNS name overrun"))
    else if len == 0
    then ended (offset + 1)
    else if len / 64 == 3
    then (if leb (length message) (offset + 1)
        then refused (dns (codes "DNS compression pointer overrun"))
        else ended (offset + 2))
    else if not (len / 64 == 0)
    then refused (dns (codes "DNS name uses unsupported label type"))
    else if ltb (offset + (1 + len)) word_mod
    then label (offset + (1 + len))
    else refused (dns (codes "DNS name length overflow"))

-- the loop of `skip_name`, over the jumps that are left
unfoldable pub skip_labels : ℕ → List ℕ → ℕ → Sealed ℕ
unfolding read_label
skip_labels zero message offset = elim (read_label message offset) [
  | refused error ↦ err error
  | ended end ↦ ok end
  | label next ↦ err (dns (codes "DNS name too long"))
]
skip_labels (suc left) message offset = elim (read_label message offset) [
  | refused error ↦ err error
  | ended end ↦ ok end
  | label next ↦ skip_labels left message next
]

unfoldable pub skip_name : List ℕ → ℕ → Sealed ℕ
unfolding skip_labels
skip_name message offset = skip_labels 128 message offset

unfoldable pub skip_questions : ℕ → List ℕ → ℕ → Sealed ℕ
skip_questions zero message offset = ok offset
skip_questions (suc count) message offset = do
  end ← skip_name message offset
  unless (ltb (end + 4) word_mod) (dns (codes "DNS question overrun"))
  skip_questions count message (end + 4)

-- the address of a record, if it is of the expected type and of the right size
unfoldable pub address_of : (expected rtype : ℕ) → List ℕ → List IpAddr
address_of expected rtype rdata =
    if rtype == expected
    then (if rtype == qtype_a && length rdata == 4
        then v4 rdata ∷ []
        else if rtype == qtype_aaaa && length rdata == 16
        then v6 rdata ∷ []
        else [])
    else []

-- a record behind its name: where it ends, and its address
unfoldable pub read_record : (expected : ℕ) → List ℕ → ℕ → Sealed (ℕ × List IpAddr)
unfolding address_of
read_record expected message end = do
  unless (leb (end + 10) (length message)) (dns (codes "DNS answer header overrun"))
  let rdlength = word_at message (end + 8)
  unless (leb (end + 10 + rdlength) (length message)) (dns (codes "DNS rdata overrun"))
  ok (
    end + 10 + rdlength,
    address_of expected (word_at message end) (take rdlength (drop (end + 10) message)),
  )

unfoldable pub read_answers : (expected count : ℕ) → List ℕ → ℕ → Sealed (List IpAddr)
read_answers expected zero message offset = ok []
read_answers expected (suc count) message offset = do
  end ← skip_name message offset
  found ← read_record expected message end
  later ← read_answers expected count message found.0
  ok (found.1 ++ later)

unfoldable pub read_counts : List ℕ → ℕ → Sealed (List IpAddr)
read_counts message expected = do
  offset ← skip_questions (word_at message 4) message 12
  read_answers expected (word_at message 6) message offset

-- a response code other than zero is an empty answer
unfoldable pub parse_answers : List ℕ → ℕ → Sealed (List IpAddr)
parse_answers message expected = do
  unless (leb 12 (length message)) (dns (codes "DNS response shorter than header"))
  if word_at message 2 % 16 == 0 then read_counts message expected else ok []
