-- ===== src/Robots/Rules/Agents.antt =====
-- The best agent match is the greatest one.
use mathlib.Core.List.{Memᴰ}
use basecrawl.Prelude.{
  ℕ, ◌≤◌, ltb, Option, none, some, List, [], ◌∷◌, All, ◌≡◌, inl, inr, refl, sym, subst, arith,
  Bool-cases,
}
use basecrawl.Robots.Parse.{Group}
use basecrawl.Robots.Rules.{max_of, group_agent_match, best_agent_match}

-- A group names the crawler at most as well as the best one; `none` is a group that does not.
abbrev pub AtMost : ℕ → Option ℕ → Type 0
AtMost n none = Unit
AtMost n (some m) = m ≤ n

AtMost-mono : {n k : ℕ} (o : Option ℕ) → n ≤ k → AtMost n o → AtMost k o
AtMost-mono none h a = tt
AtMost-mono (some m) h a = omega arith

All-AtMost_mono :
    {n k : ℕ} (groups : List Group)
    → n ≤ k
    → All (λ g. AtMost n (group_agent_match g)) groups
    → All (λ g. AtMost k (group_agent_match g)) groups
All-AtMost_mono [] h a = tt
All-AtMost_mono (g ∷ gs) h (a, rest) =
    (AtMost-mono (group_agent_match g) h a, All-AtMost_mono gs h rest)

-- The best agent match is that of some group and no group has a better one; without one no group
-- names the crawler.
abbrev pub IsGreatest : List Group → Option ℕ → Type 0
IsGreatest groups none = All (λ g. group_agent_match g ≡ none) groups
IsGreatest groups (some n) =
    ((g : Group) × Memᴰ g groups × (group_agent_match g ≡ some n))
    × All (λ g. AtMost n (group_agent_match g)) groups

not_above :
    (n : ℕ) (groups : List Group)
    → All (λ g. group_agent_match g ≡ none) groups
    → All (λ g. AtMost n (group_agent_match g)) groups
not_above n [] h = tt
not_above n (g ∷ gs) (h, hs) = (subst (AtMost n) (sym h) tt, not_above n gs hs)

max_of-IsGreatest :
    (g : Group) (gs : List Group) (m o : Option ℕ)
    → group_agent_match g ≡ m
    → IsGreatest gs o
    → IsGreatest (g ∷ gs) (max_of m o)
unfolding max_of
max_of-IsGreatest g gs none none e h = (e, h)
max_of-IsGreatest g gs none (some n) e ((g', listed, e'), h) =
    ((g', Memᴰ.tail listed, e'), (subst (AtMost n) (sym e) tt, h))
max_of-IsGreatest g gs (some m) none e h =
    ((g, Memᴰ.head refl, e), (subst (AtMost m) (sym e) (omega arith), not_above m gs h))
max_of-IsGreatest g gs (some m) (some n) e ((g', listed, e'), h) = elim (Bool-cases (ltb m n)) [
  | inl lt ↦ rw lt ((g', Memᴰ.tail listed, e'), (subst (AtMost n) (sym e) (ground arith), h))
  | inr ge ↦ rw ge (
    (g, Memᴰ.head refl, e),
    (subst (AtMost m) (sym e) (omega arith), All-AtMost_mono gs (ground arith) h),
  )
]

-- The best agent match is that of some group, and no group has a better one. There is none only if
-- no group names the crawler.
pub best_agent_match-IsGreatest :
    (groups : List Group) → IsGreatest groups (best_agent_match groups)
unfolding best_agent_match
best_agent_match-IsGreatest [] = tt
best_agent_match-IsGreatest (g ∷ gs) =
    max_of-IsGreatest g gs (group_agent_match g) (best_agent_match gs) refl
      (best_agent_match-IsGreatest gs)
