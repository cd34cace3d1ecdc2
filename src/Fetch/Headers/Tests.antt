-- ===== src/Fetch/Headers/Tests.antt =====
-- The theorem on effective headers at a concrete caller.
use basecrawl.Prelude.{true, List, [], ◌∷◌, Text, codes, All, ◌≡◌, ◌↔◌}
use basecrawl.Error.Outcome.{ok}
use basecrawl.Fetch.Headers.{valid_value, effective_headers, lowered}
use basecrawl.Fetch.Headers.Caller.{IsSendable, AreDistinct, effective_headers_iff}

abbrev caller : List (Text × Text)
caller = (codes "X-Token", codes "a b") ∷ (codes "Cookie", codes "c=1") ∷ []

abbrev expected : List (Text × Text)
expected = (codes "user-agent", codes "agent") ∷ lowered caller

effective_example : (effective_headers caller (codes "agent") ≡ ok expected) ↔ (
    (valid_value (codes "agent") ≡ true)
    × All IsSendable caller
    × AreDistinct [] caller
    × (expected ≡ (codes "user-agent", codes "agent") ∷ lowered caller))
effective_example = effective_headers_iff caller (codes "agent") expected
