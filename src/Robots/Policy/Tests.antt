-- ===== src/Robots/Policy/Tests.antt =====
-- The theorems on the robots decision at concrete fetches.
use basecrawl.Prelude.{ℕ, codes, ◌≡◌, refl, [], ◌∷◌, Text}
use basecrawl.Url.Samples.{toy}
use basecrawl.Robots.Policy.{FetchResult, got, failed, ok, enforce, check, consult, denies_fetch}

abbrev print : ℕ → Text
print n = n ∷ []

abbrev closed : Text → FetchResult
closed _ = got (record { status_code = 200; body = codes "User-agent: *" })

abbrev broken : Text → FetchResult
broken _ = failed

passes : (check toy print broken enforce (codes "https://a/x") []).0 ≡ ok tt
unfolding check consult denies_fetch
passes = refl
