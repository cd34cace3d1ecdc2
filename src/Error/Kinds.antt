-- ===== src/Error/Kinds.antt =====
-- Which errors carry the kinds that an operator acts on.
use basecrawl.Prelude.{ℕ, Text, codes, ◌≡◌, arith, refl}
use basecrawl.Error.{Error, challenge_blocked, kind}

-- An origin's challenge is reported for a `ChallengeBlocked` error and for nothing else: neither a
-- proxy's refusal nor a solver's failure, whatever its class, is taken for one.
challenge_blocked_only :
    (e : Error)
    → kind e ≡ codes "challenge_blocked"
    → (n : ℕ) × (d : Text) × (e ≡ challenge_blocked n d)
unfolding kind
challenge_blocked_only (challenge_blocked n d) h = (n, d, refl)
challenge_blocked_only _ h = absurd (ground arith)
