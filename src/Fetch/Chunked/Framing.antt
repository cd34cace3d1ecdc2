-- ===== src/Fetch/Chunked/Framing.antt =====
-- Chunks framed as HTTP/1.1 frames them, and what one iteration of the decoder makes of a chunk.
use basecrawl.Prelude.{
  ℕ, ◌-◌, ◌+◌, ◌≤◌, ◌<◌, true, false, none, some, List, [], ◌∷◌, ◌++◌, length, take, drop, text_eq,
  ltb, not, ◌==◌, ◌≡◌, refl, ◌∙◌, arith, length-append, drop-append, drop-append_add, take-append,
  take-append_le, Bool-cases, Option-cases, inl, inr, add_word, word_mod,
}
use basecrawl.Fetch.Chunked.{body, stop, again, split_crlf, read_chunk, sized, read_line}
use basecrawl.Fetch.Chunked.Sizes.{IsSize, chunk_size_iff}

-- The line that announces a chunk, and its data.
abbrev pub Chunk : Type 0
Chunk = List ℕ × List ℕ

abbrev pub frame : List ℕ → List ℕ → List ℕ
frame line rest = line ++ 13 ∷ 10 ∷ rest

-- The chunks as they are sent, in front of what follows them.
abbrev pub encode : List Chunk → List ℕ → List ℕ
encode [] rest = rest
encode ((line, bytes) ∷ chunks) rest = frame line (bytes ++ 13 ∷ 10 ∷ encode chunks rest)

abbrev pub payload : List Chunk → List ℕ
payload [] = []
payload ((line, bytes) ∷ chunks) = bytes ++ payload chunks

-- A line without a CRLF that announces, in hexadecimal, the size of its data, which is not empty and has a size
-- that a vector can have.
pub record IsChunk (c : Chunk) : Type 0 where
  pub one_line : split_crlf c.0 ≡ none
  pub announced : IsSize c.0 (length c.1)
  pub nonempty : 0 < length c.1
  pub small : length c.1 + 2 < word_mod

pub split_crlf-frame :
    (line rest : List ℕ) → split_crlf line ≡ none → split_crlf (frame line rest) ≡ some (line, rest)
unfolding split_crlf
split_crlf-frame [] rest h = refl
split_crlf-frame (b ∷ []) rest h = ground arith
split_crlf-frame (b ∷ c ∷ line) rest h = elim (Bool-cases (text_eq (b ∷ c ∷ []) (13 ∷ 10 ∷ []))) [
  | inl found ↦ absurd (ground arith)
  | inr other ↦ elim (Option-cases (split_crlf (c ∷ line))) [
    | inl no_more ↦ ground (arith, split_crlf-frame (c ∷ line) rest no_more)
    | inr (at, e) ↦ absurd (ground arith)
  ]
]

module _ (max : ℕ) (bytes rest decoded : List ℕ) where
  abbrev sent : List ℕ
  sent = bytes ++ 13 ∷ 10 ∷ rest

  length-sent : length sent ≡ length bytes + (2 + length rest)
  length-sent = omega (arith, length-append {0} bytes (13 ∷ 10 ∷ rest))

  module _ (small : length bytes + 2 < word_mod) where
    end_lem : add_word (length bytes) 2 ≡ length bytes + 2
    unfolding add_word
    end_lem = omega arith

    long_enough : ltb (length sent) (length bytes + 2) ≡ false
    long_enough = ground (arith, length-sent)

    in_order : ltb (length bytes + 2) (length bytes) ≡ false
    in_order = ground arith

    ended : not (text_eq (take 2 (drop (length bytes) sent)) (13 ∷ 10 ∷ [])) ≡ false
    ended = rw (drop-append bytes (13 ∷ 10 ∷ rest)) refl

    read_chunk-fits :
        length bytes ≤ max - length decoded
        → read_chunk max (length bytes) sent decoded ≡ again rest (decoded ++ bytes)
    unfolding read_chunk
    read_chunk-fits h =
        let room : ltb (max - length decoded) (length bytes) ≡ false = ground arith in
        rw (end_lem, long_enough, in_order, ended, room)
          (rw (drop-append_add 2 bytes (13 ∷ 10 ∷ rest), take-append bytes (13 ∷ 10 ∷ rest)) refl)

    read_chunk_full :
        max - length decoded < length bytes
        → read_chunk max (length bytes) sent decoded
          ≡ stop (body (decoded ++ take (max - length decoded) bytes) true)
    unfolding read_chunk
    read_chunk_full h =
        let room : ltb (max - length decoded) (length bytes) ≡ true = ground arith in
        rw (end_lem, long_enough, in_order, ended, room)
          (rw (take-append_le (max - length decoded) bytes (13 ∷ 10 ∷ rest) (omega arith)) refl)

module _ (max : ℕ) (line bytes : List ℕ) (c : IsChunk (line, bytes)) where
  is_more : (length bytes == 0) ≡ false
  is_more = ground (arith, c.nonempty)

  read_line-frame :
      (rest decoded : List ℕ)
      → read_line max (frame line (bytes ++ 13 ∷ 10 ∷ rest)) decoded
        ≡ read_chunk max (length bytes) (bytes ++ 13 ∷ 10 ∷ rest) decoded
  unfolding read_line sized
  read_line-frame rest decoded =
      rw (split_crlf-frame line (bytes ++ 13 ∷ 10 ∷ rest) c.one_line, read_line)
        (rw ((chunk_size_iff _ _).1 c.announced, sized) (rw (is_more, sized) refl))

  -- the whole chunk is taken
  pub goes_on :
      (rest decoded : List ℕ)
      → length bytes ≤ max - length decoded
      → read_line max (frame line (bytes ++ 13 ∷ 10 ∷ rest)) decoded ≡ again rest (decoded ++ bytes)
  goes_on rest decoded h =
      read_line-frame rest decoded ∙ read_chunk-fits max bytes rest decoded c.small h

  -- the chunk does not fit
  pub cuts :
      (rest decoded : List ℕ)
      → max - length decoded < length bytes
      → read_line max (frame line (bytes ++ 13 ∷ 10 ∷ rest)) decoded
        ≡ stop (body (decoded ++ take (max - length decoded) bytes) true)
  cuts rest decoded h =
      read_line-frame rest decoded ∙ read_chunk_full max bytes rest decoded c.small h
