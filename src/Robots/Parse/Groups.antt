-- ===== src/Robots/Parse/Groups.antt =====
-- What `parse` guarantees of its groups, and the files that it reads back.
use basecrawl.Prelude.{
  split_once, before, Option, none, some, List, [], ◌∷◌, ◌++◌, map, Text, ◌≡◌, ◌≢◌, refl, arith,
  All, All-append, trim, to_ascii_lowercase, is_empty, Bool-cases, Option-cases, ◌⊎◌, inl, inr,
  subst,
}
use basecrawl.Robots.Parse.{
  Rule, Group, ParsedRobots, Line, skip, sitemap, user_agent, rule, read_line, name_line, State,
  init, step, run, close, parse, add_agent, add_rule, lines,
}

-- A line as `read_line` gives it: a rule has a path, a sitemap a location.
abbrev IsFilled : Line → Type 0
IsFilled skip = Unit
IsFilled (sitemap url) = url ≢ []
IsFilled (user_agent agent) = Unit
IsFilled (rule allow path) = path ≢ []

pub List-cases {ℓ} :
    {A : Type ℓ} (xs : List A) → (xs ≡ []) ⊎ ((x : A) × (ys : List A) × (xs ≡ x ∷ ys))
List-cases [] = inl refl
List-cases (x ∷ xs) = inr (x, xs, refl)

name_line-IsFilled : (name value : Text) → IsFilled (name_line name value)
unfolding name_line is_empty
name_line-IsFilled name value = elim (List-cases value) [
  | inl e ↦ rw e (ground arith)
  | inr (c, t, e) ↦ rw e (ground arith)
]

read_line-IsFilled : (raw_line : Text) → IsFilled (read_line raw_line)
unfolding read_line
read_line-IsFilled raw_line = elim (Bool-cases (is_empty (trim (before b'#' raw_line)))) [
  | inl e ↦ rw e tt
  | inr e ↦ elim (Option-cases (split_once b':' (trim (before b'#' raw_line)))) [
    | inl e' ↦ rw (e, e') tt
    | inr ((name, value), e') ↦
        rw (e, e') (name_line-IsFilled (to_ascii_lowercase (trim name)) (trim value))
  ]
]

-- The rules of a robots file before the first `User-agent` line are dropped, and so on: every
-- group has an agent, and every rule a path.
pub record IsGroup (g : Group) : Type 0 where
  pub agents : g.agents ≢ []
  pub paths : All (λ r. r.path ≢ []) g.rules

abbrev OptGroup : Option Group → Type 0
OptGroup none = Unit
OptGroup (some g) = IsGroup g

record IsState (s : State) : Type 0 where
  groups : All IsGroup s.groups
  sitemaps : All (λ url. url ≢ []) s.sitemap_urls
  current : OptGroup s.current

append-ne-nil {ℓ} : {A : Type ℓ} (xs : List A) (x : A) → xs ++ x ∷ [] ≢ []
append-ne-nil [] x = ground arith
append-ne-nil (y ∷ xs) x = ground arith

add_agent-IsState :
    (agent : Text) (s : State) (o : Option Group)
    → IsState s
    → OptGroup o
    → IsState (add_agent agent s o)
unfolding add_agent
add_agent-IsState agent s none h k = record {
  groups = h.groups;
  sitemaps = h.sitemaps;
  current = record { agents = ground arith; paths = tt };
}
add_agent-IsState agent s (some g) h k = elim (List-cases g.rules) [
  | inl e ↦ rw e (record {
    groups = h.groups;
    sitemaps = h.sitemaps;
    current = record { agents = append-ne-nil g.agents agent; paths = rw e tt };
  })
  | inr (r, rs, e) ↦ rw e (record {
    groups = All-append IsGroup s.groups (g ∷ []) h.groups (k, tt);
    sitemaps = h.sitemaps;
    current = record { agents = ground arith; paths = tt };
  })
]

add_rule-IsState :
    (r : Rule) (s : State) (o : Option Group)
    → r.path ≢ []
    → IsState s
    → OptGroup o
    → IsState (add_rule r s o)
unfolding add_rule
add_rule-IsState r s none f h k = h
add_rule-IsState r s (some g) f h k = elim (List-cases g.agents) [
  | inl e ↦ absurd (k.agents e)
  | inr (a, names, e) ↦ rw e (record {
    groups = h.groups;
    sitemaps = h.sitemaps;
    current = record { agents = k.agents; paths = All-append _ g.rules (r ∷ []) k.paths (f, tt) };
  })
]

step-IsState : (s : State) (l : Line) → IsFilled l → IsState s → IsState (step s l)
unfolding step
step-IsState s skip f h = h
step-IsState s (sitemap url) f h = record {
  groups = h.groups;
  sitemaps = All-append _ s.sitemap_urls (url ∷ []) h.sitemaps (f, tt);
  current = h.current;
}
step-IsState s (user_agent agent) f h = add_agent-IsState agent s s.current h h.current
step-IsState s (rule allow path) f h =
    add_rule-IsState (record { allow = allow; path = path }) s s.current f h h.current

run-IsState : (s : State) (texts : List Text) → IsState s → IsState (run s (map read_line texts))
unfolding run
run-IsState s [] h = h
run-IsState s (t ∷ ts) h =
    run-IsState (step s (read_line t)) ts (step-IsState s (read_line t) (read_line-IsFilled t) h)

pub record IsParsed (p : ParsedRobots) : Type 0 where
  pub groups : All IsGroup p.groups
  pub sitemaps : All (λ url. url ≢ []) p.sitemap_urls

close-IsParsed : (s : State) → IsState s → IsParsed (close s)
unfolding close
close-IsParsed s h = elim (Option-cases s.current) [
  | inl e ↦ rw e (record { groups = h.groups; sitemaps = h.sitemaps })
  | inr (g, e) ↦ rw e (record {
    groups = All-append IsGroup s.groups (g ∷ []) h.groups (subst OptGroup e h.current, tt);
    sitemaps = h.sitemaps;
  })
]

-- Whatever the text of the robots file, every group that `parse` returns has an agent, every rule
-- in it has a path, and every sitemap location is non-empty.
pub parse-IsParsed : (source : Text) → IsParsed (parse source)
unfolding parse
parse-IsParsed source =
    close-IsParsed (run init (map read_line (lines source)))
      (run-IsState init (lines source) (record { groups = tt; sitemaps = tt; current = tt }))
