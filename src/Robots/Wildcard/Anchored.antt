-- ===== src/Robots/Wildcard/Anchored.antt =====
-- How `wildcard_matches_prefix` treats a pattern with an end anchor.
use basecrawl.Prelude.{
  ℕ, zero, suc, Bool, true, Option, none, some, Text, [], ◌∷◌, ◌++◌, ◌≡◌, inl, inr, refl, arith,
  length, ◌==◌, Bool-cases, not, ==_iff, all, text_eq,
}
use basecrawl.Robots.Wildcard.{star, finish, Back, go_back, scan, wildcard_matches_prefix}
use basecrawl.Robots.Wildcard.Matching.{Matches, ended, stop, more, byte}

-- What an anchored scan accepts, it matches: the loop may hand back to the last star.
abbrev Resumes : Type 0 → Back → Type 0
Resumes G none = Unit
Resumes G (some (q, u)) = Matches true (star ∷ q) u → G

finish_sound : (p : Text) → finish true p ≡ true → Matches true p []
unfolding finish
finish_sound [] h = ended
finish_sound (a ∷ p) h = stop (ground arith) (finish_sound p (ground arith))

go_back-none : (w : Back) → ¬ (go_back (λ _ _ _. none) w ≡ some true)
unfolding go_back
go_back-none none h = cc
go_back-none (some (q, [])) h = cc
go_back-none (some (q, x ∷ u)) h = cc

go_back_sound :
    (G : Type 0) (again : Text → Text → Back → Option Bool) (w : Back)
    → Resumes G w
    → ((q u : Text)
        → (Matches true q u → G)
        → (Matches true (star ∷ q) u → G)
        → again q u (some (q, u)) ≡ some true
        → G)
    → go_back again w ≡ some true
    → G
unfolding go_back
go_back_sound G again none later next h = absurd (ground arith)
go_back_sound G again (some (q, [])) later next h = next q [] (λ m. later (stop refl m)) later h
go_back_sound G again (some (q, x ∷ u)) later next h =
    next q u (λ m. later (more refl (stop refl m))) (λ m. later (more refl m)) h

scan_sound :
    (G : Type 0) (k : ℕ) (p v : Text) (w : Back)
    → (Matches true p v → G)
    → Resumes G w
    → scan true k p v w ≡ some true
    → G
unfolding scan
scan_sound G k p [] w now later h = now (finish_sound p (ground arith))
scan_sound G k [] (c ∷ v) w now later h = absurd (ground arith)
scan_sound G zero (a ∷ p) (c ∷ v) w now later h = elim (Bool-cases (a == star)) [
  | inl e ↦
      let same = (==_iff a star).0 e in
      scan_sound G zero p (c ∷ v) (some (p, c ∷ v)) (λ m. now (stop same m)) (λ m. now (rw same m))
        (rw (e, scan) at h)
  | inr e ↦ elim (Bool-cases (a == c)) [
    | inl e' ↦
        scan_sound G zero p v w (λ m. now (byte (ground arith) (ground arith) m)) later
          (rw (e, e', scan) at h)
    | inr e' ↦ absurd (go_back-none w (rw (e, e', scan) at h))
  ]
]
scan_sound G (suc k) (a ∷ p) (c ∷ v) w now later h = elim (Bool-cases (a == star)) [
  | inl e ↦
      let same = (==_iff a star).0 e in
      scan_sound G (suc k) p (c ∷ v) (some (p, c ∷ v)) (λ m. now (stop same m))
        (λ m. now (rw same m)) (rw (e, scan) at h)
  | inr e ↦ elim (Bool-cases (a == c)) [
    | inl e' ↦
        scan_sound G (suc k) p v w (λ m. now (byte (ground arith) (ground arith) m)) later
          (rw (e, e', scan) at h)
    | inr e' ↦
        go_back_sound G (scan true k) w later (λ q u. scan_sound G k q u (some (q, u)))
          (rw (e, e', scan) at h)
  ]
]

-- An anchored pattern that the matcher accepts matches the whole value.
pub anchored_sound :
    (pattern value : Text)
    → wildcard_matches_prefix pattern value true ≡ some true
    → Matches true pattern value
unfolding wildcard_matches_prefix
anchored_sound pattern value h =
    scan_sound (Matches true pattern value) (length value) pattern value none (λ m. m) tt h

abbrev pub IsLiteral : Text → Type 0
IsLiteral p = all (λ a. not (a == star)) p ≡ true

scan_literal : (k : ℕ) (p v : Text) → IsLiteral p → scan true k p v none ≡ some (text_eq p v)
unfolding scan finish go_back
scan_literal k [] [] l = refl
scan_literal k (a ∷ p) [] l = ground arith
scan_literal k [] (c ∷ v) l = refl
scan_literal zero (a ∷ p) (c ∷ v) l = ground (arith, scan_literal zero p v)
scan_literal (suc k) (a ∷ p) (c ∷ v) l = ground (arith, scan_literal (suc k) p v)

scan_trailing_star :
    (k : ℕ) (p v : Text) → IsLiteral p → scan true k (p ++ star ∷ []) v none ≡ some (text_eq p v)
unfolding scan finish go_back
scan_trailing_star k [] [] l = refl
scan_trailing_star k (a ∷ p) [] l = ground arith
scan_trailing_star zero [] (c ∷ v) l = refl
scan_trailing_star (suc k) [] (c ∷ v) l = refl
scan_trailing_star zero (a ∷ p) (c ∷ v) l = ground (arith, scan_trailing_star zero p v)
scan_trailing_star (suc k) (a ∷ p) (c ∷ v) l = ground (arith, scan_trailing_star (suc k) p v)

-- An anchored pattern with no star accepts exactly its own text; with one star put at its end it
-- still accepts nothing but that text.
pub anchored_literal :
    (pattern value : Text)
    → IsLiteral pattern
    → (wildcard_matches_prefix pattern value true ≡ some (text_eq pattern value))
      × (wildcard_matches_prefix (pattern ++ star ∷ []) value true ≡ some (text_eq pattern value))
unfolding wildcard_matches_prefix
anchored_literal pattern value l =
    (scan_literal (length value) pattern value l, scan_trailing_star (length value) pattern value l)
