-- ===== src/Fetch/Chunked/Tests.antt =====
-- The theorems on chunked bodies at concrete bytes.
use basecrawl.Prelude.{ℕ, Bool, false, true, [], ◌∷◌, codes, none, some, ◌≡◌, refl, arith}
use basecrawl.Fetch.Chunked.{Chunked, split_crlf, chunk_size, decode_chunked, body, panicked}
use basecrawl.Fetch.Chunked.Sizes.{IsSize, chunk_size_iff}
use basecrawl.Fetch.Chunked.Framing.{Chunk, IsChunk, encode, frame}
use basecrawl.Fetch.Chunked.Total.{Fits, decode_chunked-Fits}
use basecrawl.Fetch.Chunked.RoundTrip.{decode_chunked-encode, decode_chunked_panics}

abbrev running : ℕ → Bool
running _ = false

abbrev hello : Chunk
hello = (codes "5;x", codes "hello")

hello-IsChunk : IsChunk hello
unfolding split_crlf chunk_size
hello-IsChunk = record {
  one_line = refl;
  announced = (chunk_size_iff (codes "5;x") 5).0 refl;
  nonempty = omega arith;
  small = omega arith;
}

one_line : split_crlf (codes "0") ≡ none
unfolding split_crlf
one_line = refl

zero-IsSize : IsSize (codes "0") 0
unfolding chunk_size
zero-IsSize = (chunk_size_iff (codes "0") 0).0 refl

decoded_example :
    decode_chunked running 3 (encode (hello ∷ []) (frame (codes "0") (13 ∷ 10 ∷ [])))
    ≡ some (body (codes "hel") true)
decoded_example =
    decode_chunked-encode running 3 (hello ∷ []) (codes "0") (13 ∷ 10 ∷ []) (λ _. refl)
      (hello-IsChunk, tt) one_line zero-IsSize

fits_example :
    (result : Chunked) × (decode_chunked running 3 (codes "5") ≡ some result) × Fits 3 result
fits_example = decode_chunked-Fits running 3 (codes "5")

huge : split_crlf (codes "ffffffffffffffff") ≡ none
unfolding split_crlf
huge = refl

huge-IsSize : IsSize (codes "ffffffffffffffff") 18446744073709551615
unfolding chunk_size
huge-IsSize = (chunk_size_iff (codes "ffffffffffffffff") 18446744073709551615).0 refl

panics_example :
    decode_chunked running 9 (encode (hello ∷ []) (frame (codes "ffffffffffffffff") (0 ∷ [])))
    ≡ some panicked
panics_example =
    decode_chunked_panics running 9 18446744073709551615 (hello ∷ []) (codes "ffffffffffffffff")
      (0 ∷ []) (λ _. refl) (hello-IsChunk, tt) (omega arith) huge huge-IsSize (omega arith)
      (omega arith) (omega arith)
