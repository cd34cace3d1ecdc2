-- ===== src/Proxy/Tests.antt =====
-- The theorem on the claimed class at a concrete plan.
use basecrawl.Prelude.{Option, none, some, Text, codes, starts_with, ◌≡◌, refl}
use basecrawl.Error.Outcome.{ok}
use basecrawl.Proof.{ProxyClass}
use basecrawl.Url.Samples.{toy}
use basecrawl.Proxy.{ProxyConfig, ProxyPlan, https, resolve_proxy_plan}
use basecrawl.Proxy.Class.{IsTruthful, resolve_proxy_plan-IsTruthful}

abbrev environment : Text → Option Text
environment _ = some (codes " https://a ")

abbrev plan : ProxyPlan
plan = record {
  explicit_url = none;
  username = record { country = none; session = none; template = none };
  required_class = some ProxyClass.residential;
  configured_class = some ProxyClass.residential;
}

abbrev upstream : ProxyConfig
upstream = record {
  kind = https;
  host = codes "a";
  port = 443;
  username = none;
  password = none;
  proxy_class = some ProxyClass.residential;
}

resolved : resolve_proxy_plan toy environment plan (codes "https://a/x") ≡ ok (some upstream)
unfolding resolve_proxy_plan starts_with
resolved = refl

class_example : (class : ProxyClass) × IsTruthful toy plan (some upstream) class
class_example =
    resolve_proxy_plan-IsTruthful toy environment plan (codes "https://a/x") (some upstream)
      (λ e. cc) resolved
