-- ===== src/Fetch/Chunked.antt =====
-- `decode_chunked` of crates/basecrawl-core/src/fetch.rs, as it runs in a release build: a sum of
-- sizes wraps around, and a slice whose end lies before its start panics.
pub mod Total
pub mod Sizes
pub mod Framing
pub mod Runs
pub mod RoundTrip
mod Tests
use basecrawl.Prelude.{
  ℕ, zero, suc, ◌-◌, Bool, true, false, Option, none, some, List, [], ◌∷◌, ◌++◌, Text, codes,
  length, take, drop, trim, before, text_eq, from_utf8, from_str_radix, add_word, word_mod, ltb,
  ◌||◌, not, ◌==◌, if◌then◌else◌,
}
use basecrawl.Error.{Error, fetch}
use basecrawl.Fetch.Types.{deadline_elapsed}

pub data Chunked : Type 0 where
  body : List ℕ → (truncated : Bool) → Chunked
  failed : Error → Chunked
  panicked : Chunked

-- the rest of an iteration, or what it goes on with
pub data Next : Type 0 where
  stop : Chunked → Next
  again : (encoded decoded : List ℕ) → Next

abbrev pub malformed : Text → Chunked
malformed detail = failed (fetch (codes "malformed chunked response" ++ detail))

abbrev crlf : List ℕ
crlf = 13 ∷ 10 ∷ []

-- The bytes before the first CRLF and those behind it.
unfoldable pub split_crlf : List ℕ → Option (List ℕ × List ℕ)
split_crlf [] = none
split_crlf (b ∷ []) = none
split_crlf (b ∷ c ∷ bs) =
    let rest = split_crlf (c ∷ bs) in
    if text_eq (b ∷ c ∷ []) crlf
    then some ([], bs)
    else elim rest [ none ↦ none | some (line, after) ↦ some (b ∷ line, after) ]

-- The size on a line, without its extensions.
unfoldable pub chunk_size : List ℕ → Option ℕ
unfolding from_utf8 from_str_radix trim before
chunk_size line = elim (from_utf8 line) [
  | none ↦ none
  | some s ↦ from_str_radix word_mod 16 (trim (before b';' s))
]

-- The data of a chunk that is not the last one.
unfoldable pub read_chunk : (max size : ℕ) → (encoded decoded : List ℕ) → Next
read_chunk max size encoded decoded =
    let end = add_word size 2 in
    let room = max - length decoded in
    if ltb (length encoded) end
    then stop (malformed (codes ": truncated chunk"))
    else if ltb end size
    then stop panicked
    else if not (text_eq (take 2 (drop size encoded)) crlf)
    then stop (malformed (codes ": truncated chunk"))
    else if ltb room size
    then stop (body (decoded ++ take room encoded) true)
    else again (drop end encoded) (decoded ++ take size encoded)

unfoldable pub sized : ℕ → Option ℕ → (encoded decoded : List ℕ) → Next
unfolding read_chunk
sized max none encoded decoded = stop (malformed (codes " length"))
sized max (some size) encoded decoded =
    if size == 0 then stop (body decoded false) else read_chunk max size encoded decoded

unfoldable pub read_line : ℕ → (encoded decoded : List ℕ) → Next
unfolding sized chunk_size split_crlf
read_line max encoded decoded = elim (split_crlf encoded) [
  | none ↦ stop (malformed (codes ": missing chunk length terminator"))
  | some (line, rest) ↦ sized max (chunk_size line) rest decoded
]

-- `elapsed` tells what the test of the deadline in each round finds, `expired` the error it gives;
-- `none` says that the fuel ran out
unfoldable pub loop :
    (elapsed : ℕ → Bool)
    → (expired : Error) → (max fuel round : ℕ) → (encoded decoded : List ℕ) → Option Chunked
unfolding read_line
loop elapsed expired max zero round encoded decoded = none
loop elapsed expired max (suc fuel) round encoded decoded = elim (elapsed round) [
  | true ↦ some (failed expired)
  | false ↦ elim (read_line max encoded decoded) [
    | stop result ↦ some result
    | again encoded' decoded' ↦ loop elapsed expired max fuel (suc round) encoded' decoded'
  ]
]

unfoldable pub decode_chunked : (elapsed : ℕ → Bool) → (max : ℕ) → List ℕ → Option Chunked
unfolding loop
decode_chunked elapsed max encoded =
    loop elapsed deadline_elapsed max (suc (length encoded)) 0 encoded []
