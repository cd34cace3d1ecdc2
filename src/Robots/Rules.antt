-- ===== src/Robots/Rules.antt =====
-- `matching_rule` and `group_agent_match` of crates/basecrawl-core/src/robots.rs.
pub mod Best
pub mod Agents
use basecrawl.Prelude.{
  ℕ, ◌+◌, Bool, true, false, not, ◌&&◌, ◌||◌, Option, none, some, List, [], ◌∷◌, Text, length, ◌==◌,
  ltb, if◌then◌else◌, codes, text_eq, contains, as_bytes,
}
use basecrawl.Robots.Parse.{Rule, Group}
use basecrawl.Robots.Wildcard.{star, rule_matches}

abbrev pub user_agent : Text
user_agent = codes "basecrawl"

-- `Iterator::max` over the values that are there
unfoldable pub max_of : Option ℕ → Option ℕ → Option ℕ
max_of none b = b
max_of (some a) none = some a
max_of (some a) (some b) = if ltb a b then some b else some a

pub agent_match : Text → Option ℕ
agent_match agent =
    if text_eq agent (codes "*")
    then some 0
    else if contains user_agent agent
    then some (length agent)
    else none

pub agents_match : List Text → Option ℕ
unfolding max_of agent_match
agents_match [] = none
agents_match (agent ∷ agents) = max_of (agent_match agent) (agents_match agents)

unfoldable pub group_agent_match : Group → Option ℕ
unfolding agents_match
group_agent_match group = agents_match group.agents

unfoldable pub best_agent_match : List Group → Option ℕ
unfolding max_of group_agent_match
best_agent_match [] = none
best_agent_match (g ∷ gs) = max_of (group_agent_match g) (best_agent_match gs)

pub count_unstarred : Text → ℕ
count_unstarred [] = 0
count_unstarred (c ∷ s) = (if c == star then 0 else 1) + count_unstarred s

unfoldable pub specificity : Rule → ℕ
unfolding count_unstarred
specificity r = count_unstarred (as_bytes r.path)

-- `selected`: the rule so far with its specificity
abbrev pub Selected : Type 0
Selected = Option (ℕ × Rule)

-- the test of `replace`
pub replaces : ℕ → Rule → Selected → Bool
replaces n r none = true
replaces n r (some (m, best)) = ltb m n || (n == m && r.allow && not best.allow)

pub consider : Text → Selected → Rule → Selected
unfolding replaces
consider path sel r =
    if not (rule_matches path r.path)
    then sel
    else if replaces (specificity r) r sel
    then some (specificity r, r)
    else sel

pub over_rules : Text → Selected → List Rule → Selected
unfolding consider
over_rules path sel [] = sel
over_rules path sel (r ∷ rs) = over_rules path (consider path sel r) rs

-- `group_agent_match(group) == Some(best_agent_match)`
pub is_selected : ℕ → Group → Bool
is_selected best g = elim (group_agent_match g) [ none ↦ false | some n ↦ n == best ]

pub over_groups : Text → ℕ → Selected → List Group → Selected
unfolding over_rules is_selected
over_groups path best sel [] = sel
over_groups path best sel (g ∷ gs) =
    over_groups path best (if is_selected best g then over_rules path sel g.rules else sel) gs

abbrev pub chosen : Selected → Option Rule
chosen none = none
chosen (some (n, r)) = some r

pub rule_for : Text → List Group → Option ℕ → Option Rule
unfolding over_groups
rule_for path groups none = none
rule_for path groups (some best) = chosen (over_groups path best none groups)

unfoldable pub matching_rule : Text → List Group → Option Rule
unfolding best_agent_match rule_for specificity
matching_rule path groups = rule_for path groups (best_agent_match groups)
