-- ===== src/Canonical/Surface.antt =====
-- What the hashes of requests and manifests tell apart: closed components keep their boundaries.
use basecrawl.Prelude.{
  ℕ, true, all, not, ◌==◌, Option, List, [], ◌∷◌, ◌++◌, Text, as_bytes, length, ◌≡◌, ◌≢◌, refl, sym,
  arith, All,
}
use basecrawl.Canonical.{zero_closed, request_hash, manifest_sha256, unwrap_or_default}

abbrev pub IsClean : List ℕ → Type 0
IsClean bs = All (λ b. b ≢ 0) bs

pub no_zeros : (bs : List ℕ) → all (λ b. not (b == 0)) bs ≡ true → IsClean bs
no_zeros [] h = tt
no_zeros (b ∷ bs) h = (ground arith, no_zeros bs (ground arith))

cons-eq : {a b : ℕ} {xs ys : List ℕ} → a ∷ xs ≡ b ∷ ys → (a ≡ b) × (xs ≡ ys)
cons-eq h = (cc, cc)

-- the first zero byte is the boundary
pub boundary :
    (xs ys us vs : List ℕ)
    → IsClean xs
    → IsClean ys
    → xs ++ 0 ∷ us ≡ ys ++ 0 ∷ vs
    → (xs ≡ ys) × (us ≡ vs)
boundary [] [] us vs a b h = (refl, (cons-eq h).1)
boundary [] (y ∷ ys) us vs a (c, b) h = absurd (c (sym (cons-eq h).0))
boundary (x ∷ xs) [] us vs (c, a) b h = absurd (c (cons-eq h).0)
boundary (x ∷ xs) (y ∷ ys) us vs (c, a) (d, b) h =
    let (e, h') = cons-eq h in let (same, rest) = boundary xs ys us vs a b h' in (cc, rest)

abbrev pub SameBytes : List Text → List Text → Type 0
SameBytes [] [] = Unit
SameBytes (s ∷ ss) (t ∷ ts) = (as_bytes s ≡ as_bytes t) × SameBytes ss ts
SameBytes _ _ = ⊥

abbrev pub AllClean : List Text → Type 0
AllClean = All (λ t. IsClean (as_bytes t))

zero_closed-injective :
    (ss ts : List Text)
    → length ss ≡ length ts
    → AllClean ss
    → AllClean ts
    → zero_closed ss ≡ zero_closed ts
    → SameBytes ss ts
unfolding zero_closed
zero_closed-injective [] [] e a b h = tt
zero_closed-injective [] (t ∷ ts) e a b h = absurd (omega arith)
zero_closed-injective (s ∷ ss) [] e a b h = absurd (omega arith)
zero_closed-injective (s ∷ ss) (t ∷ ts) e (c, a) (d, b) h =
    let (same, rest) = boundary (as_bytes s) (as_bytes t) (zero_closed ss) (zero_closed ts) c d h in
    (same, zero_closed-injective ss ts (omega arith) a b rest)

-- For a digest without collisions, and components without NUL: requests with the same hash have the
-- same method, URL, headers hash and body hash, byte by byte.
pub request_hash-injective :
    (sha256 : List ℕ → Text) (separates : (a b : List ℕ) → sha256 a ≡ sha256 b → a ≡ b)
    (method url headers body method' url' headers' body' : Text)
    → AllClean (method ∷ url ∷ headers ∷ body ∷ [])
    → AllClean (method' ∷ url' ∷ headers' ∷ body' ∷ [])
    → request_hash sha256 method url headers body ≡ request_hash sha256 method' url' headers' body'
    → SameBytes (method ∷ url ∷ headers ∷ body ∷ []) (method' ∷ url' ∷ headers' ∷ body' ∷ [])
unfolding request_hash
request_hash-injective sha256 separates m u h b m' u' h' b' c c' e =
    zero_closed-injective (m ∷ u ∷ h ∷ b ∷ []) (m' ∷ u' ∷ h' ∷ b' ∷ []) refl c c' (separates _ _ e)

-- For a digest without collisions, and components without NUL: equal reconciliation keys have the
-- same URL, nonce (an absent one counts as empty) and result hash, byte by byte.
pub manifest_sha256-injective :
    (sha256 : List ℕ → Text) (separates : (a b : List ℕ) → sha256 a ≡ sha256 b → a ≡ b)
    (url url' : Text) (nonce nonce' : Option Text) (result result' : Text)
    → AllClean (url ∷ unwrap_or_default nonce ∷ result ∷ [])
    → AllClean (url' ∷ unwrap_or_default nonce' ∷ result' ∷ [])
    → manifest_sha256 sha256 url nonce result ≡ manifest_sha256 sha256 url' nonce' result'
    → SameBytes
        (url ∷ unwrap_or_default nonce ∷ result ∷ [])
        (url' ∷ unwrap_or_default nonce' ∷ result' ∷ [])
unfolding manifest_sha256
manifest_sha256-injective sha256 separates u u' n n' r r' c c' e =
    zero_closed-injective (u ∷ unwrap_or_default n ∷ r ∷ []) (u' ∷ unwrap_or_default n' ∷ r' ∷ [])
      refl c c' (separates _ _ e)
