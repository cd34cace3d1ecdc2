-- ===== src/Url/Tests.antt =====
-- The theorems on URLs at concrete ones.
use basecrawl.Prelude.{codes, ◌≡◌, refl, starts_with}
use basecrawl.Url.{ok, validate_url}
use basecrawl.Url.Origin.{IsFetchable, validate_url-IsFetchable}
use basecrawl.Url.Samples.{toy}

accepted : validate_url toy (codes "https://a/x") ≡ ok (codes "https://a/x")
unfolding validate_url starts_with
accepted = refl

validate_url_example : IsFetchable toy (codes "https://a/x") (codes "https://a/x")
validate_url_example =
    validate_url-IsFetchable toy (codes "https://a/x") (codes "https://a/x") accepted
