-- ===== src/Fetch/Chunked/Runs.antt =====
-- What the loop of the decoder makes of framed chunks.
use mathlib.Core.List.{append_assoc, append-nil}
use basecrawl.Prelude.{
  ℕ, zero, suc, ◌-◌, ◌+◌, ◌≤◌, ◌<◌, Bool, true, false, some, List, [], ◌∷◌, ◌++◌, length, take, ltb,
  ◌≡◌, refl, sym, ap, ◌∙◌, arith, All, length-append, take-append_le, take_past, Bool-cases, inl,
  inr,
}
use basecrawl.Error.{Error}
use basecrawl.Fetch.Chunked.{Chunked, body, stop, again, read_line, loop}
use basecrawl.Fetch.Chunked.Framing.{Chunk, frame, encode, payload, IsChunk, goes_on, cuts}

module _ (elapsed : ℕ → Bool) (expired : Error) (max : ℕ) (alive : (n : ℕ) → elapsed n ≡ false)
    (rest : List ℕ) where
  loop-again :
      (fuel round : ℕ) (encoded decoded : List ℕ) {encoded' decoded' : List ℕ}
      → read_line max encoded decoded ≡ again encoded' decoded'
      → loop elapsed expired max (suc fuel) round encoded decoded
        ≡ loop elapsed expired max fuel (suc round) encoded' decoded'
  unfolding loop
  loop-again fuel round encoded decoded e = rw (alive round, e, loop) refl

  pub loop-stop :
      (fuel round : ℕ) (encoded decoded : List ℕ) {result : Chunked}
      → read_line max encoded decoded ≡ stop result
      → loop elapsed expired max (suc fuel) round encoded decoded ≡ some result
  unfolding loop
  loop-stop fuel round encoded decoded e = rw (alive round, e, loop) refl

  -- The chunks that fit are passed over.
  pub loop-encode :
      (chunks : List Chunk) (fuel round : ℕ) (decoded : List ℕ)
      → All IsChunk chunks
      → length decoded + length (payload chunks) ≤ max
      → (round' : ℕ) × (loop elapsed expired max
            (length chunks + fuel)
            round
            (encode chunks rest)
            decoded
          ≡ loop elapsed expired max fuel round' rest (decoded ++ payload chunks))
  loop-encode [] fuel round decoded w h = (
    round,
    rw (append-nil decoded) (
        ap (λ n. loop elapsed expired max n round rest decoded) {x = 0 + fuel} {y = fuel}
          (omega arith)),
  )
  loop-encode ((line, bytes) ∷ chunks) fuel round decoded (c, w) h =
      let total : length (bytes ++ payload chunks) ≡ length bytes + length (payload chunks) =
        length-append bytes (payload chunks) in
      let taken : length (decoded ++ bytes) ≡ length decoded + length bytes =
        length-append decoded bytes in
      let (round', later) =
        loop-encode chunks fuel (suc round) (decoded ++ bytes) w (omega arith) in
      (
        round',
        ap
              (λ n.
                loop elapsed expired max n round
                  (frame line (bytes ++ 13 ∷ 10 ∷ encode chunks rest)) decoded)
              {x = suc (length chunks) + fuel} {y = suc (length chunks + fuel)} (omega arith)
            ∙ loop-again (length chunks + fuel) round
                (frame line (bytes ++ 13 ∷ 10 ∷ encode chunks rest)) decoded
                (goes_on max line bytes c (encode chunks rest) decoded (omega arith))
            ∙ later
            ∙ ap (loop elapsed expired max fuel round' rest)
                (append_assoc decoded bytes (payload chunks)),
      )

  -- The chunk that does not fit is cut, and ends the decoding.
  pub loop_cut :
      (chunks : List Chunk) (fuel round : ℕ) (decoded : List ℕ)
      → All IsChunk chunks
      → length decoded ≤ max
      → max < length decoded + length (payload chunks)
      → length chunks ≤ fuel
      → loop elapsed expired max fuel round (encode chunks rest) decoded
        ≡ some (body (decoded ++ take (max - length decoded) (payload chunks)) true)
  loop_cut [] fuel round decoded w k h f = absurd (omega arith)
  loop_cut (chunk ∷ chunks) zero round decoded w k h f = absurd (omega arith)
  loop_cut ((line, bytes) ∷ chunks) (suc fuel) round decoded (c, w) k h f =
      elim (Bool-cases (ltb (max - length decoded) (length bytes))) [
        | inl full ↦
            loop-stop fuel round (frame line (bytes ++ 13 ∷ 10 ∷ encode chunks rest)) decoded
              (cuts max line bytes c (encode chunks rest) decoded (ground arith))
            ∙ ap (λ x. some (body (decoded ++ x) true))
                (sym (take-append_le (max - length decoded) bytes (payload chunks) (ground arith)))
        | inr fits ↦
            (let fits_le : length bytes ≤ max - length decoded = ground arith in
              let total : length (bytes ++ payload chunks)
                  ≡ length bytes + length (payload chunks) =
                length-append bytes (payload chunks) in
              let taken : length (decoded ++ bytes) ≡ length decoded + length bytes =
                length-append decoded bytes in
              loop-again fuel round (frame line (bytes ++ 13 ∷ 10 ∷ encode chunks rest)) decoded
                (goes_on max line bytes c (encode chunks rest) decoded fits_le)
              ∙ loop_cut chunks fuel (suc round) (decoded ++ bytes) w (omega arith) (omega arith)
                  (omega arith)
              ∙ ap (λ x. some (body x true))
                  (append_assoc decoded bytes
                      (take (max - length (decoded ++ bytes)) (payload chunks))
                    ∙ ap (decoded ++◌) (
                        ap (λ (n : ℕ). bytes ++ take n (payload chunks))
                          {x = max - length (decoded ++ bytes)}
                          {y = max - length decoded - length bytes} (omega arith)
                        ∙ sym (take_past (max - length decoded) bytes (payload chunks) fits_le))))
      ]

encode-length :
    (chunks : List Chunk) (rest : List ℕ)
    → length chunks + length rest ≤ length (encode chunks rest)
encode-length [] rest = omega arith
encode-length ((line, bytes) ∷ chunks) rest = omega (
  arith,
  length-append {0} line (13 ∷ 10 ∷ (bytes ++ 13 ∷ 10 ∷ encode chunks rest)),
  length-append {0} bytes (13 ∷ 10 ∷ encode chunks rest),
  encode-length chunks rest,
)

pub take_all : (n : ℕ) (xs : List ℕ) → length xs ≤ n → take n xs ≡ xs
take_all zero [] h = refl
take_all zero (x ∷ xs) h = absurd (omega arith)
take_all (suc n) [] h = refl
take_all (suc n) (x ∷ xs) h = ap (x ∷◌) (take_all n xs (omega arith))

-- What follows the chunks is read after them, with one more round to spare.
abbrev pub left_over : List Chunk → List ℕ → ℕ
left_over chunks rest = length (encode chunks rest) - length chunks

pub fuel_split :
    (chunks : List Chunk) (rest : List ℕ)
    → suc (length (encode chunks rest)) ≡ length chunks + suc (left_over chunks rest)
fuel_split chunks rest = omega (arith, encode-length chunks rest)
