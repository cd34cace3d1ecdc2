-- ===== src/Robots/Parse/Whole.antt =====
-- `parse` of crates/basecrawl-core/src/robots.rs reads from a whole robots text what was written.
use mathlib.Core.List.{append-nil, append_assoc}
use basecrawl.Prelude.{
  Option, Option-cases, none, true, false, some, List, [], ◌∷◌, ◌++◌, map, Text, ◌≡◌, inl, inr, ◌∙◌,
  refl, ap, All, All-append, codes, to_ascii_lowercase,
}
use basecrawl.Robots.Parse.{
  Group, Line, add_agent, add_rule, Rule, State, init, step, run, close, read_line, lines, parse,
}
use basecrawl.Robots.Parse.Lines.{IsPlain, IsInline, lines-nil, lines-cons}
use basecrawl.Robots.Parse.RoundTrip.{IsFull, file_lines, run-file_lines}
use basecrawl.Robots.Parse.Written.{
  IsWritten, agent, allowed, disallowed, IsText, nothing, line, location, remark, plain-IsInline,
  blanks-IsPlain, comment-IsInline, All-up, field-IsInline, read_line-IsWritten, location_read,
  written-IsInline, read_line-remark,
}

-- the state with other sitemaps
abbrev with_urls : State → List Text → State
with_urls s urls = record s { sitemap_urls = urls }

agent_joins :
    (a : Text) (s : State) (urls agents : List Text) (rules : List Rule)
    → add_agent a (with_urls s urls) (some (record { agents = agents; rules = rules }))
      ≡ with_urls (add_agent a s (some (record { agents = agents; rules = rules }))) urls
unfolding add_agent
agent_joins a s urls agents [] = refl
agent_joins a s urls agents (r ∷ rules) = refl

rule_joins :
    (r : Rule) (s : State) (urls agents : List Text) (rules : List Rule)
    → add_rule r (with_urls s urls) (some (record { agents = agents; rules = rules }))
      ≡ with_urls (add_rule r s (some (record { agents = agents; rules = rules }))) urls
unfolding add_rule
rule_joins r s urls [] rules = refl
rule_joins r s urls (a ∷ agents) rules = refl

add_agent-with_urls :
    (a : Text) (s : State) (urls : List Text) (o : Option Group)
    → add_agent a (with_urls s urls) o ≡ with_urls (add_agent a s o) urls
unfolding add_agent
add_agent-with_urls a s urls none = refl
add_agent-with_urls a s urls (some g) = agent_joins a s urls g.agents g.rules

add_rule-with_urls :
    (r : Rule) (s : State) (urls : List Text) (o : Option Group)
    → add_rule r (with_urls s urls) o ≡ with_urls (add_rule r s o) urls
unfolding add_rule
add_rule-with_urls r s urls none = refl
add_rule-with_urls r s urls (some g) = rule_joins r s urls g.agents g.rules

step-with_urls :
    (s : State) (urls : List Text) (l : Line) (raw : Text)
    → IsWritten l raw
    → step (with_urls s urls) l ≡ with_urls (step s l) urls
unfolding step
step-with_urls s urls _ _ (agent written raw f) =
    add_agent-with_urls (to_ascii_lowercase written) s urls s.current
step-with_urls s urls _ _ (allowed path raw f) =
    add_rule-with_urls (record { allow = true; path = path }) s urls s.current
step-with_urls s urls _ _ (disallowed path raw f) =
    add_rule-with_urls (record { allow = false; path = path }) s urls s.current

run-with_urls :
    (s : State) (xs : List Text) (ls : List Line) (urls : List Text) (text : Text)
    → IsText ls urls text
    → run (with_urls s xs) ls ≡ with_urls (run s ls) xs
unfolding run
run-with_urls s xs _ _ _ nothing = refl
run-with_urls s xs _ _ _ (line l ls urls raw ending text w e rest) =
    ap (λ t. run t ls) (step-with_urls s xs l raw w) ∙ run-with_urls (step s l) xs ls urls text rest
run-with_urls s xs _ _ _ (location ls url urls raw ending text f e rest) =
    run-with_urls s xs ls urls text rest
run-with_urls s xs _ _ _ (remark ls urls blanks comment ending text h k e rest) =
    run-with_urls s xs ls urls text rest

run-IsText :
    (s : State) (ls : List Line) (urls : List Text) (text : Text)
    → IsText ls urls text
    → run s (map read_line (lines text)) ≡ with_urls (run s ls) (s.sitemap_urls ++ urls)
unfolding run step
run-IsText s _ _ _ nothing = rw lines-nil (rw append-nil refl)
run-IsText s _ _ _ (line l ls urls raw ending text w e rest) =
    rw (lines-cons raw ending text (written-IsInline l raw w) e, read_line-IsWritten l raw w)
      (run-IsText (step s l) ls urls text rest
        ∙ ap (λ xs. with_urls (run (step s l) ls) (xs ++ urls))
            (ap (λ t. t.sitemap_urls) (step-with_urls s s.sitemap_urls l raw w)))
run-IsText s _ _ _ (location ls url urls raw ending text f e rest) =
    rw
      (
        lines-cons raw ending text (field-IsInline (codes "sitemap") url raw f) e,
        location_read url raw f,
      )
      (run-IsText (with_urls s (s.sitemap_urls ++ url ∷ [])) ls urls text rest
        ∙ ap (λ t. with_urls t ((s.sitemap_urls ++ url ∷ []) ++ urls))
            (run-with_urls s (s.sitemap_urls ++ url ∷ []) ls urls text rest)
        ∙ ap (with_urls (run s ls)) (append_assoc s.sitemap_urls (url ∷ []) urls))
run-IsText s _ _ _ (remark ls urls blanks comment ending text h k e rest) =
    rw
      (
        lines-cons (blanks ++ comment) ending text
            (All-append IsInline blanks comment
              (All-up IsPlain IsInline plain-IsInline blanks (blanks-IsPlain blanks h))
              (comment-IsInline comment k))
            e,
        read_line-remark blanks comment h k,
      )
      (run-IsText s ls urls text rest)

close-with_urls :
    (s : State) (urls : List Text)
    → close (with_urls s urls) ≡ record { groups = (close s).groups; sitemap_urls = urls }
unfolding close
close-with_urls s urls = elim (Option-cases s.current) [
  | inl e ↦ rw e refl
  | inr (g, e) ↦ rw e refl
]

-- A robots text that declares groups, each with an agent and a rule, and names sitemaps is parsed to
-- these groups and these locations, both in order: whatever the case of its field names and agents
-- (which are read in lower case), whatever spaces and tabs stand around a name and a value, with
-- comments, blank lines, the sitemaps anywhere between the other lines, and lines that end in a
-- newline, with a return before it or not. The agents, paths and locations are not empty, and hold
-- no `#`, no end of line, and no space at either end.
pub parse-IsText :
    (groups : List Group) (urls : List Text) (source : Text)
    → All IsFull groups
    → IsText (file_lines groups) urls source
    → parse source ≡ record { groups = groups; sitemap_urls = urls }
unfolding parse
parse-IsText groups urls source full written =
    ap close (run-IsText init (file_lines groups) urls source written)
    ∙ close-with_urls (run init (file_lines groups)) urls
    ∙ ap (λ gs. record { groups = gs; sitemap_urls = urls }) (run-file_lines groups full)
