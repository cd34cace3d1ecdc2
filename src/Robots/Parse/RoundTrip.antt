-- ===== src/Robots/Parse/RoundTrip.antt =====
-- The lines that declare groups, and the state that they lead the parser of
-- crates/basecrawl-core/src/robots.rs to.
use mathlib.Core.List.{append-nil, append_assoc}
use basecrawl.Prelude.{
  none, some, List, [], ◌∷◌, ◌++◌, map, Text, ◌≡◌, ◌≢◌, ◌⊎◌, inl, inr, ◌∙◌, refl, sym, subst, arith,
  ap, All,
}
use basecrawl.Robots.Parse.Groups.{List-cases}
use basecrawl.Robots.Parse.{
  Rule, Group, Line, user_agent, rule, State, init, fresh, step, run, close, add_agent, add_rule,
}

abbrev rule_line : Rule → Line
rule_line r = rule r.allow r.path

-- The lines of a robots file that declares these groups, in order.
unfoldable pub group_lines : Group → List Line
group_lines g = map user_agent g.agents ++ map rule_line g.rules

unfoldable pub file_lines : List Group → List Line
unfolding group_lines
file_lines [] = []
file_lines (g ∷ gs) = group_lines g ++ file_lines gs

run-append : (s : State) (xs ys : List Line) → run s (xs ++ ys) ≡ run (run s xs) ys
unfolding run
run-append s [] ys = refl
run-append s (x ∷ xs) ys = run-append (step s x) xs ys

module _ (groups : List Group) (urls : List Text) where
  abbrev within : Group → State
  within g = record { groups = groups; sitemap_urls = urls; current = some g }

  more_agents :
      (names more : List Text)
      → run (within (record { agents = names; rules = [] })) (map user_agent more)
        ≡ within (record { agents = names ++ more; rules = [] })
  unfolding run step add_agent
  more_agents names [] = rw append-nil
  more_agents names (a ∷ more) = more_agents (names ++ a ∷ []) more ∙ rw append_assoc

  more_rules :
      (n : Text) (names : List Text) (rules more : List Rule)
      → run (within (record { agents = n ∷ names; rules = rules })) (map rule_line more)
        ≡ within (record { agents = n ∷ names; rules = rules ++ more })
  unfolding run step add_rule
  more_rules n names rules [] = rw append-nil
  more_rules n names rules (r ∷ more) = more_rules n names (rules ++ r ∷ []) more ∙ rw append_assoc

-- Between two groups: nothing under way, or a group that has its rules.
abbrev IsSettled : State → Type 0
IsSettled s = (s.current ≡ none) ⊎ ((g : Group) × (s.current ≡ some g) × (g.rules ≢ []))

first_agent :
    (s : State) (a : Text)
    → IsSettled s
    → step s (user_agent a) ≡ within (close s).groups s.sitemap_urls (fresh a)
unfolding step close add_agent
first_agent s a (inl e) = rw e refl
first_agent s a (inr (g, e, ne)) = ground arith

-- A group that a file can declare: with an agent, and with a rule to end the list of agents.
abbrev pub IsFull : Group → Type 0
IsFull g = (g.agents ≢ []) × (g.rules ≢ [])

read_full :
    (s : State) (a : Text) (names : List Text) (rules : List Rule)
    → IsSettled s
    → run s (map user_agent (a ∷ names) ++ map rule_line rules)
      ≡ within (close s).groups s.sitemap_urls (record { agents = a ∷ names; rules = rules })
unfolding run
read_full s a names rules h =
    ap (λ t. run t (map user_agent names ++ map rule_line rules)) (first_agent s a h)
    ∙ rw run-append (rw more_agents (more_rules (close s).groups s.sitemap_urls a names [] rules))

read_group :
    (s : State) (g : Group)
    → IsSettled s
    → IsFull g
    → run s (group_lines g) ≡ within (close s).groups s.sitemap_urls g
unfolding group_lines
read_group s g h (named, ruled) = elim (List-cases g.agents) [
  | inl e ↦ absurd (named e)
  | inr (a, names, e) ↦
      subst
        (λ agents.
          run s (map user_agent agents ++ map rule_line g.rules)
          ≡ within (close s).groups s.sitemap_urls (record { agents = agents; rules = g.rules }))
        (sym e) (read_full s a names g.rules h)
]

read_file :
    (s : State) (gs : List Group)
    → IsSettled s
    → All IsFull gs
    → (close (run s (file_lines gs))).groups ≡ (close s).groups ++ gs
unfolding file_lines run close
read_file s [] h full = rw append-nil
read_file s (g ∷ gs) h (f, full) =
    let after = within (close s).groups s.sitemap_urls g in
    rw (run-append, read_group s g h f)
      (read_file after gs (inr (g, refl, f.1)) full ∙ append_assoc (close s).groups (g ∷ []) gs)

-- The lines of groups give these groups, in order.
pub run-file_lines :
    (groups : List Group)
    → All IsFull groups
    → (close (run init (file_lines groups))).groups ≡ groups
unfolding close
run-file_lines groups full = read_file init groups (inl refl) full
