-- ===== src/Proxy/Class.antt =====
-- The class that a scrape claims, against the upstream that it resolved.
use basecrawl.Prelude.{true, Option, none, some, Text, ◌≡◌, ◌≢◌, ◌↔◌, refl, ap, ◌∙◌, subst, arith}
use basecrawl.Error.Outcome.{Outcome, ok, err, ◌>>=◌}
use basecrawl.Proof.{ProxyClass, requires_upstream}
use basecrawl.Url.{Urls}
use basecrawl.Proxy.{
  ProxyConfig, ProxyPlan, render_username, resolve_proxy, class_of, with_plan, check_plan,
  resolve_proxy_plan, truthful_proxy_class,
}

pub record IsTruthful (w : Urls) (plan : ProxyPlan) (resolved : Option ProxyConfig)
    (class : ProxyClass) : Type 0 where
  pub claimed : truthful_proxy_class w resolved plan.required_class ≡ ok class
  pub direct_iff : (class ≡ ProxyClass.direct) ↔ (resolved ≡ none)
  pub as_required :
      (req : ProxyClass)
      → plan.required_class ≡ some req
      → requires_upstream req ≡ true
      → class ≡ req

module _ (w : Urls) where
  none_passes :
      (req : Option ProxyClass) (resolved : Option ProxyConfig)
      → check_plan w req none ≡ ok resolved
      → (none ≡ resolved)
        × (truthful_proxy_class w none req ≡ ok ProxyClass.direct)
        × ((r : ProxyClass) → req ≡ some r → requires_upstream r ≡ true → ⊥)
  unfolding check_plan truthful_proxy_class
  none_passes none resolved h = (cc, refl, λ r e u. cc)
  none_passes (some ProxyClass.direct) resolved h = (cc, refl, λ r e u. ground (arith, e, u))
  none_passes (some ProxyClass.datacenter) resolved h = cc
  none_passes (some ProxyClass.residential) resolved h = cc
  none_passes (some ProxyClass.mobile) resolved h = cc

  some_passes :
      (req : Option ProxyClass) (config : ProxyConfig) (resolved : Option ProxyConfig)
      → check_plan w req (some config) ≡ ok resolved
      → (some config ≡ resolved) × (req ≢ some ProxyClass.direct)
  unfolding check_plan
  some_passes none config resolved h = (cc, λ e. cc)
  some_passes (some ProxyClass.direct) config resolved h = cc
  some_passes (some ProxyClass.datacenter) config resolved h = (cc, λ e. cc)
  some_passes (some ProxyClass.residential) config resolved h = (cc, λ e. cc)
  some_passes (some ProxyClass.mobile) config resolved h = (cc, λ e. cc)

  -- a dialed upstream claims the class that it carries
  claims :
      (config : ProxyConfig) (req : Option ProxyClass) (class : ProxyClass)
      → config.proxy_class ≡ some class
      → truthful_proxy_class w (some config) req ≡ ok class
  unfolding truthful_proxy_class
  claims config none class e = rw e refl
  claims config (some r) class e = rw e refl

  class_of-required :
      (configured : Option ProxyClass) (req : ProxyClass)
      → requires_upstream req ≡ true
      → class_of w configured (some req) ≡ req
  unfolding class_of
  class_of-required configured req u = rw u refl

  class_of-ne-direct :
      (configured required : Option ProxyClass)
      → configured ≢ some ProxyClass.direct
      → required ≢ some ProxyClass.direct
      → class_of w configured required ≢ ProxyClass.direct
  unfolding class_of
  class_of-ne-direct configured (some ProxyClass.direct) c r h = r refl
  class_of-ne-direct configured (some ProxyClass.datacenter) c r h = cc
  class_of-ne-direct configured (some ProxyClass.residential) c r h = cc
  class_of-ne-direct configured (some ProxyClass.mobile) c r h = cc
  class_of-ne-direct none none c r h = cc
  class_of-ne-direct (some ProxyClass.direct) none c r h = c refl
  class_of-ne-direct (some ProxyClass.datacenter) none c r h = cc
  class_of-ne-direct (some ProxyClass.residential) none c r h = cc
  class_of-ne-direct (some ProxyClass.mobile) none c r h = cc

module _ (w : Urls) (plan : ProxyPlan) where
  abbrev chosen : ProxyClass
  chosen = class_of w plan.configured_class plan.required_class

  dialed-IsTruthful :
      (config : ProxyConfig)
      → plan.configured_class ≢ some ProxyClass.direct
      → plan.required_class ≢ some ProxyClass.direct
      → config.proxy_class ≡ some chosen
      → IsTruthful w plan (some config) chosen
  dialed-IsTruthful config c r e = record {
    claimed = claims w config plan.required_class chosen e;
    direct_iff = (
      λ h. absurd (class_of-ne-direct w plan.configured_class plan.required_class c r h),
      λ h. cc,
    );
    as_required = λ req e u.
        ap (class_of w plan.configured_class) e ∙ class_of-required w plan.configured_class req u;
  }

  -- an upstream with the username that it was given
  named-IsTruthful :
      (config : ProxyConfig) (o : Outcome (Option Text)) (resolved : Option ProxyConfig)
      → plan.configured_class ≢ some ProxyClass.direct
      → ((o >>= λ username.
            ok (some (record config { username = username; proxy_class = some chosen })))
          >>= check_plan w plan.required_class)
        ≡ ok resolved
      → (class : ProxyClass) × IsTruthful w plan resolved class
  named-IsTruthful config (err e) resolved c h = cc
  named-IsTruthful config (ok username) resolved c h =
      let dialed = record config { username = username; proxy_class = some chosen } in
      let (same, indirect) = some_passes w plan.required_class dialed resolved h in
      (
        chosen,
        subst (λ x. IsTruthful w plan x chosen) same (dialed-IsTruthful dialed c indirect refl),
      )

  -- the resolution, from what it found
  found-IsTruthful :
      (found resolved : Option ProxyConfig)
      → plan.configured_class ≢ some ProxyClass.direct
      → (with_plan w plan found >>= check_plan w plan.required_class) ≡ ok resolved
      → (class : ProxyClass) × IsTruthful w plan resolved class
  unfolding with_plan
  found-IsTruthful none resolved c h =
      let (same, claimed, uncommercial) = none_passes w plan.required_class resolved h in
      (
        ProxyClass.direct,
        subst (λ x. IsTruthful w plan x ProxyClass.direct) same
            (record {
              claimed = claimed;
              direct_iff = (λ _. refl, λ _. refl);
              as_required = λ req e u. absurd (uncommercial req e u);
            }),
      )
  found-IsTruthful (some config) resolved c h =
      named-IsTruthful config (render_username config.username plan.username) resolved c h

  resolved-IsTruthful :
      (o : Outcome (Option ProxyConfig)) (resolved : Option ProxyConfig)
      → plan.configured_class ≢ some ProxyClass.direct
      → (o >>= λ found. with_plan w plan found >>= check_plan w plan.required_class) ≡ ok resolved
      → (class : ProxyClass) × IsTruthful w plan resolved class
  resolved-IsTruthful (ok found) resolved c h = found-IsTruthful found resolved c h
  resolved-IsTruthful (err e) resolved c h = cc

-- If the plan is not configured as direct, a resolution that succeeds stands for the class that the
-- scrape claims afterwards: it is direct exactly if no upstream was resolved, and a required
-- commercial class is the one that is claimed.
pub resolve_proxy_plan-IsTruthful :
    (w : Urls) (var : Text → Option Text) (plan : ProxyPlan) (target : w.Url)
    (resolved : Option ProxyConfig)
    → plan.configured_class ≢ some ProxyClass.direct
    → resolve_proxy_plan w var plan target ≡ ok resolved
    → (class : ProxyClass) × IsTruthful w plan resolved class
unfolding resolve_proxy_plan
resolve_proxy_plan-IsTruthful w var plan target resolved c h =
    resolved-IsTruthful w plan (resolve_proxy w var plan.explicit_url target) resolved c h
