-- ===== src/Robots/Rules/Best.antt =====
-- `matching_rule` returns the most specific rule of the groups that name the crawler best.
use mathlib.Core.List.{append-nil, append_assoc, Memᴰ}
use mathlib.Core.List.Memᴰ
use basecrawl.Prelude.{
  ℕ, ◌≤◌, true, false, Option, none, some, List, [], ◌∷◌, ◌++◌, Text, All, All-append, ◌≡◌, inl,
  inr, refl, subst, arith, Bool-cases, if◌then◌else◌,
}
use basecrawl.Robots.Parse.{Rule, Group}
use basecrawl.Robots.Wildcard.{rule_matches}
use basecrawl.Robots.Rules.{
  best_agent_match, specificity, Selected, replaces, consider, over_rules, is_selected, over_groups,
  rule_for, matching_rule, chosen,
}

-- The rules of the groups that are chosen.
pub selected_rules : ℕ → List Group → List Rule
selected_rules best [] = []
selected_rules best (g ∷ gs) =
    let rest = selected_rules best gs in if is_selected best g then g.rules ++ rest else rest

rules_for : List Group → Option ℕ → List Rule
rules_for groups none = []
rules_for groups (some best) = selected_rules best groups

pub applicable_rules : List Group → List Rule
unfolding selected_rules rules_for
applicable_rules groups = rules_for groups (best_agent_match groups)

-- `r'` is no better than `r`: less specific, or as specific and not an allow rule over a deny rule.
pub record NoBetter (r r' : Rule) : Type 0 where
  pub specific : specificity r' ≤ specificity r
  pub tie : specificity r' ≡ specificity r → r'.allow ≡ true → r.allow ≡ true

abbrev pub IsBest : Text → List Rule → Option Rule → Type 0
IsBest path rules none = All (λ r. rule_matches path r.path ≡ false) rules
IsBest path rules (some r) =
    Memᴰ r rules
    × (rule_matches path r.path ≡ true)
    × All (λ r'. rule_matches path r'.path ≡ true → NoBetter r r') rules

-- the invariant of the loop: the recorded specificity is that of the rule
abbrev IsScored : Selected → Type 0
IsScored none = Unit
IsScored (some (n, r)) = n ≡ specificity r

abbrev Holds : Text → List Rule → Selected → Type 0
Holds path seen sel = IsScored sel × IsBest path seen (chosen sel)

NoBetter-trans : {a b c : Rule} → NoBetter a b → NoBetter b c → NoBetter a c
NoBetter-trans h k = record {
  specific = omega (arith, h.specific, k.specific);
  tie = λ e allow.
      h.tie (omega (arith, h.specific, k.specific))
        (k.tie (omega (arith, h.specific, k.specific)) allow);
}

NoBetter-refl : (r : Rule) → NoBetter r r
NoBetter-refl r = record { specific = omega arith; tie = λ _ h. h }

better :
    (n : ℕ) (best r : Rule)
    → n ≡ specificity best
    → replaces (specificity r) r (some (n, best)) ≡ true
    → NoBetter r best
unfolding replaces
better n best r s h = record { specific = ground arith; tie = λ e allow. ground arith }

worse :
    (n : ℕ) (best r : Rule)
    → n ≡ specificity best
    → replaces (specificity r) r (some (n, best)) ≡ false
    → NoBetter best r
unfolding replaces
worse n best r s h = record { specific = ground arith; tie = λ e allow. ground arith }

module _ (path : Text) where
  All-worse :
      {r r' : Rule} (rules : List Rule)
      → NoBetter r' r
      → All (λ x. rule_matches path x.path ≡ true → NoBetter r x) rules
      → All (λ x. rule_matches path x.path ≡ true → NoBetter r' x) rules
  All-worse [] k h = tt
  All-worse (x ∷ xs) k (h, hs) = (λ m. NoBetter-trans k (h m), All-worse xs k hs)

  All-unmatched :
      (r : Rule) (rules : List Rule)
      → All (λ x. rule_matches path x.path ≡ false) rules
      → All (λ x. rule_matches path x.path ≡ true → NoBetter r x) rules
  All-unmatched r [] h = tt
  All-unmatched r (x ∷ xs) (h, hs) = (λ m. cc, All-unmatched r xs hs)

  newest :
      (seen : List Rule) (r : Rule)
      → rule_matches path r.path ≡ true
      → All (λ x. rule_matches path x.path ≡ true → NoBetter r x) seen
      → IsBest path (seen ++ r ∷ []) (some r)
  newest seen r m h = (
    Memᴰ.append_right seen (Memᴰ.head refl),
    m,
    All-append _ seen (r ∷ []) h (λ _. NoBetter-refl r, tt),
  )

  older :
      (seen : List Rule) (best r : Rule)
      → (rule_matches path r.path ≡ true → NoBetter best r)
      → IsBest path seen (some best)
      → IsBest path (seen ++ r ∷ []) (some best)
  older seen best r k (listed, m, h) =
      (Memᴰ.append_left (r ∷ []) listed, m, All-append _ seen (r ∷ []) h (k, tt))

  consider-Holds :
      (seen : List Rule) (sel : Selected) (r : Rule)
      → Holds path seen sel
      → Holds path (seen ++ r ∷ []) (consider path sel r)
  unfolding consider replaces
  consider-Holds seen none r (s, h) = elim (Bool-cases (rule_matches path r.path)) [
    | inl e ↦ rw e (refl, newest seen r e (All-unmatched r seen h))
    | inr e ↦ rw e (tt, All-append _ seen (r ∷ []) h (e, tt))
  ]
  consider-Holds seen (some (n, best)) r (s, (listed, m, h)) =
      elim (Bool-cases (rule_matches path r.path)) [
        | inr e ↦ rw e (s, older seen best r (λ m'. cc) (listed, m, h))
        | inl e ↦ elim (Bool-cases (replaces (specificity r) r (some (n, best)))) [
          | inl e' ↦ rw (e, e') (refl, newest seen r e (All-worse seen (better n best r s e') h))
          | inr e' ↦ rw (e, e') (s, older seen best r (λ _. worse n best r s e') (listed, m, h))
        ]
      ]

  over_rules-Holds :
      (seen : List Rule) (sel : Selected) (rules : List Rule)
      → Holds path seen sel
      → Holds path (seen ++ rules) (over_rules path sel rules)
  unfolding over_rules
  over_rules-Holds seen sel [] h = rw append-nil h
  over_rules-Holds seen sel (r ∷ rs) h =
      subst (λ seen'. Holds path seen' (over_rules path (consider path sel r) rs))
        (append_assoc seen (r ∷ []) rs)
        (over_rules-Holds (seen ++ r ∷ []) (consider path sel r) rs (consider-Holds seen sel r h))

  over_groups-Holds :
      (best : ℕ) (seen : List Rule) (sel : Selected) (groups : List Group)
      → Holds path seen sel
      → Holds path (seen ++ selected_rules best groups) (over_groups path best sel groups)
  unfolding over_groups selected_rules
  over_groups-Holds best seen sel [] h = rw append-nil h
  over_groups-Holds best seen sel (g ∷ gs) h = elim (Bool-cases (is_selected best g)) [
    | inl e ↦ rw e (
        subst (λ seen'. Holds path seen' (over_groups path best (over_rules path sel g.rules) gs))
          (append_assoc seen g.rules (selected_rules best gs))
          (over_groups-Holds best (seen ++ g.rules) (over_rules path sel g.rules) gs
            (over_rules-Holds seen sel g.rules h)))
    | inr e ↦ rw e (over_groups-Holds best seen sel gs h)
  ]

rule_for-IsBest :
    (path : Text) (groups : List Group) (best : Option ℕ)
    → IsBest path (rules_for groups best) (rule_for path groups best)
unfolding rule_for rules_for
rule_for-IsBest path groups none = tt
rule_for-IsBest path groups (some best) = (over_groups-Holds path best [] none groups (tt, tt)).1

-- The rule that `matching_rule` returns is listed in a group that names the crawler best, matches
-- the path, and no matching rule of those groups is more specific, nor an allow rule as specific
-- as a returned deny rule. Nothing is returned only if no rule of those groups matches.
pub matching_rule-IsBest :
    (path : Text) (groups : List Group)
    → IsBest path (applicable_rules groups) (matching_rule path groups)
unfolding matching_rule applicable_rules
matching_rule-IsBest path groups = rule_for-IsBest path groups (best_agent_match groups)
