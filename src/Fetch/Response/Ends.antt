-- ===== src/Fetch/Response/Ends.antt =====
-- The decoding of a body always ends.
use basecrawl.Prelude.{
  ℕ, Bool, ◌||◌, some, List, [], ◌∷◌, Text, reverse, codes, Bool-cases, inl, inr,
}
use basecrawl.Error.{Error}
use basecrawl.Error.Outcome.{Outcome}
use basecrawl.Fetch.Types.{Headers}
use basecrawl.Fetch.Run.{returns, Finished, >>=-Finished}
use basecrawl.Fetch.Chunked.{Chunked, body, failed, panicked}
use basecrawl.Fetch.Chunked.Total.{decode_chunked-Fits}
use basecrawl.Fetch.Response.{
  Coding, header_contains_token, of_chunked, unchunk, undo_codings, undo_coding, named_codings,
  decode_http_body,
}

of_chunked-Finished : (c : Chunked) → Finished (of_chunked (some c))
unfolding of_chunked
of_chunked-Finished (body bytes truncated) = tt
of_chunked-Finished (failed error) = tt
of_chunked-Finished panicked = tt

module _ (inflate : Coding → List ℕ → ℕ → Outcome (List ℕ × Bool)) (display : Error → Text)
    (elapsed : ℕ → Bool) where
  unchunk-Finished :
      (headers : Headers) (bytes : List ℕ) (max : ℕ)
      → Finished (unchunk inflate display elapsed headers bytes max)
  unfolding unchunk
  unchunk-Finished headers bytes max =
      elim (Bool-cases
        (header_contains_token headers (codes "transfer-encoding") (codes "chunked"))) [
          | inr plain ↦ rw plain tt
          | inl chunked ↦ rw chunked (
              let (result, e, fits) = decode_chunked-Fits elapsed max bytes in
              rw e (of_chunked-Finished result))
        ]

  undo_codings-Finished :
      (codings : List Text) (max : ℕ) (decoded : List ℕ × Bool)
      → Finished (undo_codings inflate display elapsed codings max decoded)
  unfolding undo_codings
  undo_codings-Finished [] max decoded = tt
  undo_codings-Finished (coding ∷ codings) max (bytes, truncated) =
      >>=-Finished (returns (undo_coding inflate display elapsed coding bytes max))
        (λ decoded.
          undo_codings inflate display elapsed codings max (decoded.0, truncated || decoded.1))
        tt (λ decoded. undo_codings-Finished codings max (decoded.0, truncated || decoded.1))

  pub decode_http_body-Finished :
      (headers : Headers) (bytes : List ℕ) (max : ℕ)
      → Finished (decode_http_body inflate display elapsed headers bytes max)
  unfolding decode_http_body
  decode_http_body-Finished headers bytes max =
      >>=-Finished (unchunk inflate display elapsed headers bytes max) _
        (unchunk-Finished headers bytes max)
        (λ unchunked.
          >>=-Finished
            (undo_codings inflate display elapsed
              (reverse (named_codings inflate display elapsed headers)) max unchunked)
            _
            (undo_codings-Finished (reverse (named_codings inflate display elapsed headers)) max
              unchunked)
            (λ plain. tt))
