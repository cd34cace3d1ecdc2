-- ===== src/Fetch/Chunked/Total.antt =====
-- The decoder ends on every input, and what it keeps is within the bound.
use basecrawl.Prelude.{
  ℕ, zero, suc, ◌-◌, ◌≤◌, ◌<◌, Bool, false, Option, none, some, List, [], ◌∷◌, ◌++◌, length, take,
  drop, text_eq, ltb, not, ◌==◌, ◌≡◌, refl, arith, length-append, length-take_le, length-drop_le,
  Bool-cases, Option-cases, inl, inr, add_word,
}
use basecrawl.Error.{Error}
use basecrawl.Fetch.Chunked.{
  Chunked, body, failed, panicked, Next, stop, again, split_crlf, chunk_size, read_chunk, sized,
  read_line, loop, decode_chunked,
}

-- A body that is kept has at most `max` bytes.
abbrev pub Fits : ℕ → Chunked → Type 0
Fits max (body bytes truncated) = length bytes ≤ max
Fits max (failed error) = Unit
Fits max panicked = Unit

-- An iteration that goes on has fewer bytes before it, and still fits.
abbrev Goes : (max before : ℕ) → Next → Type 0
Goes max before (stop result) = Fits max result
Goes max before (again encoded decoded) = (length encoded < before) × (length decoded ≤ max)

keeps_room :
    (max size : ℕ) (encoded decoded : List ℕ)
    → length decoded ≤ max
    → length (decoded ++ take (max - length decoded) encoded) ≤ max
keeps_room max size encoded decoded k = omega (
  arith,
  length-append {0} decoded (take (max - length decoded) encoded),
  length-take_le {0} (max - length decoded) encoded,
)

adds_chunk :
    (max size : ℕ) (encoded decoded : List ℕ)
    → length decoded ≤ max
    → size ≤ max - length decoded
    → length (decoded ++ take size encoded) ≤ max
adds_chunk max size encoded decoded k h =
    omega (arith, length-append {0} decoded (take size encoded), length-take_le {0} size encoded)

read_chunk-Goes :
    (max size : ℕ) (encoded decoded : List ℕ)
    → length decoded ≤ max
    → Goes max (suc (length encoded)) (read_chunk max size encoded decoded)
unfolding read_chunk
read_chunk-Goes max size encoded decoded k =
    elim (Bool-cases (ltb (length encoded) (add_word size 2))) [
      | inl short ↦ rw short tt
      | inr long ↦ elim (Bool-cases (ltb (add_word size 2) size)) [
        | inl wrapped ↦ rw (long, wrapped) tt
        | inr fine ↦ elim (Bool-cases (not (text_eq (take 2 (drop size encoded)) (13 ∷ 10 ∷ [])))) [
          | inl bad ↦ rw (long, fine, bad) tt
          | inr good ↦ elim (Bool-cases (ltb (max - length decoded) size)) [
            | inl full ↦ rw (long, fine, good, full) (keeps_room max size encoded decoded k)
            | inr fits ↦
                rw (long, fine, good, fits)
                  (
                    omega (arith, length-drop_le {0} (add_word size 2) encoded),
                    adds_chunk max size encoded decoded k (ground arith),
                  )
          ]
        ]
      ]
    ]

split_crlf-length :
    (encoded : List ℕ) {line rest : List ℕ}
    → split_crlf encoded ≡ some (line, rest)
    → suc (length rest) < length encoded
unfolding split_crlf
split_crlf-length [] h = cc
split_crlf-length (b ∷ []) h = cc
split_crlf-length (b ∷ c ∷ bs) h = elim (Bool-cases (text_eq (b ∷ c ∷ []) (13 ∷ 10 ∷ []))) [
  | inl found ↦ ground arith
  | inr other ↦ elim (Option-cases (split_crlf (c ∷ bs))) [
    | inl none_left ↦ ground arith
    | inr ((line, rest), e) ↦ ground (arith, split_crlf-length (c ∷ bs) e)
  ]
]

Goes-mono : (max m n : ℕ) (x : Next) → m ≤ n → Goes max m x → Goes max n x
Goes-mono max m n (stop result) h g = g
Goes-mono max m n (again encoded decoded) h (shorter, fits) = (omega arith, fits)

sized-Goes :
    (max : ℕ) (size : Option ℕ) (encoded decoded : List ℕ)
    → length decoded ≤ max
    → Goes max (suc (length encoded)) (sized max size encoded decoded)
unfolding sized
sized-Goes max none encoded decoded k = tt
sized-Goes max (some size) encoded decoded k = elim (Bool-cases (size == 0)) [
  | inl last ↦ rw last k
  | inr more ↦ rw more (read_chunk-Goes max size encoded decoded k)
]

read_line-Goes :
    (max : ℕ) (encoded decoded : List ℕ)
    → length decoded ≤ max
    → Goes max (length encoded) (read_line max encoded decoded)
unfolding read_line
read_line-Goes max encoded decoded k = elim (Option-cases (split_crlf encoded)) [
  | inl none_left ↦ rw (none_left, read_line) tt
  | inr ((line, rest), e) ↦
      rw (e, read_line)
        (Goes-mono max (suc (length rest)) (length encoded)
          (sized max (chunk_size line) rest decoded) (omega (arith, split_crlf-length encoded e))
          (sized-Goes max (chunk_size line) rest decoded k))
]

abbrev Ends : ℕ → Option Chunked → Type 0
Ends max o = (result : Chunked) × (o ≡ some result) × Fits max result

after_line :
    (elapsed : ℕ → Bool) (expired : Error) (max fuel round : ℕ) (encoded decoded : List ℕ)
    → length encoded < suc fuel
    → (x : Next) → read_line max encoded decoded ≡ x
    → Goes max (length encoded) x
    → ((encoded' decoded' : List ℕ)
        → length encoded' < fuel
        → length decoded' ≤ max
        → Ends max (loop elapsed expired max fuel (suc round) encoded' decoded'))
    → elapsed round ≡ false
    → Ends max (loop elapsed expired max (suc fuel) round encoded decoded)
unfolding loop
after_line elapsed expired max fuel round encoded decoded h (stop result) e g rest on =
    (result, rw (on, e, loop), g)
after_line elapsed expired max fuel round encoded decoded h (again encoded' decoded') e g rest on =
    let (result, ends, fits) = rest encoded' decoded' (omega arith) g.1 in
    (result, rw (on, e, loop) ends, fits)

loop-Ends :
    (elapsed : ℕ → Bool) (expired : Error) (max fuel round : ℕ) (encoded decoded : List ℕ)
    → length encoded < fuel
    → length decoded ≤ max
    → Ends max (loop elapsed expired max fuel round encoded decoded)
unfolding loop
loop-Ends elapsed expired max zero round encoded decoded h k = absurd (omega arith)
loop-Ends elapsed expired max (suc fuel) round encoded decoded h k =
    elim (Bool-cases (elapsed round)) [
      | inl late ↦ (failed expired, rw (late, loop), tt)
      | inr on ↦
          after_line elapsed expired max fuel round encoded decoded h
            (read_line max encoded decoded) refl (read_line-Goes max encoded decoded k)
            (loop-Ends elapsed expired max fuel (suc round)) on
    ]

-- The decoder of a chunked body gives a result on every input, whatever the clock says, and a body
-- that it gives has at most `max` bytes.
pub decode_chunked-Fits :
    (elapsed : ℕ → Bool) (max : ℕ) (encoded : List ℕ)
    → (result : Chunked) × (decode_chunked elapsed max encoded ≡ some result) × Fits max result
unfolding decode_chunked
decode_chunked-Fits elapsed max encoded =
    loop-Ends elapsed _ max (suc (length encoded)) 0 encoded [] (omega arith) (omega arith)
