-- ===== src/Error/Tests.antt =====
-- The kind of a blocked challenge.
use basecrawl.Prelude.{codes, ◌≡◌, refl}
use basecrawl.Error.{challenge_blocked, kind}

blocked_kind : kind (challenge_blocked 403 (codes "managed")) ≡ codes "challenge_blocked"
unfolding kind
blocked_kind = refl
