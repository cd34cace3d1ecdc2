-- ===== src/Fetch/Chunked/RoundTrip.antt =====
-- The decoder against the framing of HTTP/1.1: the round trip, and the sizes at which it panics.
use basecrawl.Prelude.{
  ℕ, suc, ◌-◌, ◌+◌, ◌%◌, ◌≤◌, ◌<◌, Bool, true, false, none, some, List, [], length, take, ltb, ◌==◌,
  ◌≡◌, refl, ap, ◌∙◌, arith, All, Bool-cases, inl, inr, add_word, word_mod,
}
use basecrawl.Fetch.Types.{deadline_elapsed}
use basecrawl.Fetch.Chunked.{
  Chunked, body, panicked, stop, split_crlf, chunk_size, read_chunk, sized, read_line, loop,
  decode_chunked,
}
use basecrawl.Fetch.Chunked.Sizes.{IsSize, chunk_size_iff}
use basecrawl.Fetch.Chunked.Framing.{Chunk, frame, encode, payload, IsChunk, split_crlf-frame}
use basecrawl.Fetch.Chunked.Runs.{loop-stop, loop-encode, loop_cut, take_all, fuel_split, left_over}

module _ (elapsed : ℕ → Bool) (max : ℕ) (alive : (n : ℕ) → elapsed n ≡ false) (chunks : List Chunk)
    (rest : List ℕ) (w : All IsChunk chunks) where
  -- A last line that stops the loop decides the result, if all data before it fits.
  stops :
      {result : Chunked}
      → length (payload chunks) ≤ max
      → read_line max rest (payload chunks) ≡ stop result
      → decode_chunked elapsed max (encode chunks rest) ≡ some result
  unfolding decode_chunked
  stops fits e =
      let (round', later) =
        loop-encode elapsed deadline_elapsed max alive rest chunks (suc (left_over chunks rest)) 0
          [] w (omega arith) in
      ap (λ n. loop elapsed deadline_elapsed max n 0 (encode chunks rest) [])
        (fuel_split chunks rest)
      ∙ later
      ∙ loop-stop elapsed deadline_elapsed max alive rest (left_over chunks rest) round' rest
          (payload chunks) e

  overflows :
      max < length (payload chunks)
      → decode_chunked elapsed max (encode chunks rest)
        ≡ some (body (take max (payload chunks)) true)
  unfolding decode_chunked
  overflows h =
      loop_cut elapsed _ max alive rest chunks (suc (length (encode chunks rest))) 0 [] w
        (omega arith) (omega arith) (omega (arith, fuel_split chunks rest))
      ∙ ap (λ (n : ℕ). some (body (take n (payload chunks)) true)) {x = max - 0} {y = max}
          (omega arith)

last_line :
    (max : ℕ) (last trailer decoded : List ℕ)
    → split_crlf last ≡ none
    → chunk_size last ≡ some 0
    → read_line max (frame last trailer) decoded ≡ stop (body decoded false)
unfolding read_line sized
last_line max last trailer decoded one_line ends =
    rw (split_crlf-frame last trailer one_line, read_line) (rw (ends, sized) refl)

-- Framed chunks, each behind a line with its size in hexadecimal digits, ended by a chunk of size
-- zero with whatever trailer, are decoded to their data if the deadline does not pass. Data beyond
-- `max` bytes is cut there, and the cut is reported.
pub decode_chunked-encode :
    (elapsed : ℕ → Bool) (max : ℕ) (chunks : List Chunk) (last trailer : List ℕ)
    → ((n : ℕ) → elapsed n ≡ false)
    → All IsChunk chunks
    → split_crlf last ≡ none
    → IsSize last 0
    → decode_chunked elapsed max (encode chunks (frame last trailer))
      ≡ some (body (take max (payload chunks)) (ltb max (length (payload chunks))))
decode_chunked-encode elapsed max chunks last trailer alive w one_line ends =
    elim (Bool-cases (ltb max (length (payload chunks)))) [
      | inl over ↦
          rw over (overflows elapsed max alive chunks (frame last trailer) w (ground arith))
      | inr fits ↦
          rw (fits, take_all max (payload chunks) (ground arith))
            (stops elapsed max alive chunks (frame last trailer) w (ground arith) (
              last_line max last trailer (payload chunks) one_line
                ((chunk_size_iff last 0).1 ends)))
    ]

wraps :
    (max n : ℕ) (line rest decoded : List ℕ)
    → split_crlf line ≡ none
    → chunk_size line ≡ some n
    → n < word_mod
    → word_mod ≤ n + 2
    → 0 < length rest
    → read_line max (frame line rest) decoded ≡ stop panicked
unfolding read_line sized read_chunk add_word
wraps max n line rest decoded one_line announced h k nonempty =
    let more : (n == 0) ≡ false = ground arith in
    let long : ltb (length rest) ((n + 2) % word_mod) ≡ false = ground arith in
    let wrapped : ltb ((n + 2) % word_mod) n ≡ true = ground arith in
    rw (split_crlf-frame line rest one_line, read_line)
      (rw (announced, sized) (rw (more, sized) (rw (long, wrapped) refl)))

-- After chunks that fit, a line with a hexadecimal size whose sum with the two bytes of its CRLF
-- wraps around makes the decoder panic, if anything follows the line.
pub decode_chunked_panics :
    (elapsed : ℕ → Bool) (max n : ℕ) (chunks : List Chunk) (line rest : List ℕ)
    → ((k : ℕ) → elapsed k ≡ false)
    → All IsChunk chunks
    → length (payload chunks) ≤ max
    → split_crlf line ≡ none
    → IsSize line n
    → n < word_mod
    → word_mod ≤ n + 2
    → 0 < length rest
    → decode_chunked elapsed max (encode chunks (frame line rest)) ≡ some panicked
decode_chunked_panics elapsed max n chunks line rest alive w fits one_line announced h k nonempty =
    stops elapsed max alive chunks (frame line rest) w fits (
      wraps max n line rest (payload chunks) one_line ((chunk_size_iff line n).1 announced) h k
        nonempty)
