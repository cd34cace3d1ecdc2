-- ===== src/Robots/Wildcard/Prefix.antt =====
-- How `wildcard_matches_prefix` treats a pattern with no end anchor.
use basecrawl.Prelude.{
  ℕ, zero, suc, Bool, true, false, Option, none, some, Text, [], ◌∷◌, ◌++◌, ◌≡◌, ◌↔◌, inl, inr,
  refl, ap, arith, length, ◌≤◌, ◌==◌, Bool-cases, if◌then◌else◌, ==_iff,
}
use basecrawl.Robots.Wildcard.{star, finish, Back, go_back, scan, wildcard_matches_prefix}
use basecrawl.Robots.Wildcard.Matching.{Matches, ended, prefix, stop, more, byte, byte_inv}

-- Behind a star an unanchored scan accepts whatever comes.
finish-false : (p : Text) → finish false p ≡ true
unfolding finish
finish-false [] = refl
finish-false (a ∷ p) = ground (arith, finish-false p)

go_back_accepts :
    (again : Text → Text → Back → Option Bool) (k : ℕ) (q u : Text)
    → length u ≤ suc k
    → ((q u : Text) → length u ≤ k → again q u (some (q, u)) ≡ some true)
    → go_back again (some (q, u)) ≡ some true
unfolding go_back
go_back_accepts again k q [] f h = h q [] (omega arith)
go_back_accepts again k q (x ∷ u) f h = h q u (omega arith)

scan_behind_star :
    (k : ℕ) (p v q u : Text)
    → length v ≤ k
    → length u ≤ k
    → scan false k p v (some (q, u)) ≡ some true
unfolding scan
scan_behind_star k p [] q u h f = ap some (finish-false p)
scan_behind_star k [] (c ∷ v) q u h f = refl
scan_behind_star zero (a ∷ p) (c ∷ v) q u h f = absurd (omega arith)
scan_behind_star (suc k) (a ∷ p) (c ∷ v) q u h f = ground (
  arith,
  scan_behind_star (suc k) p (c ∷ v) p (c ∷ v),
  scan_behind_star (suc k) p v q u,
  go_back_accepts (scan false k) k q u f (λ q u fits. scan_behind_star k q u q u fits fits),
)

-- The bytes of a pattern without its stars, which it matches.
fill : Text → Text
fill [] = []
fill (a ∷ p) = if a == star then fill p else a ∷ fill p

Matches-fill : (p : Text) → Matches false p (fill p)
unfolding fill
Matches-fill [] = ended
Matches-fill (a ∷ p) = elim (Bool-cases (a == star)) [
  | inl e ↦ rw e (stop (ground arith) (Matches-fill p))
  | inr e ↦ rw e (byte (ground arith) refl (Matches-fill p))
]

star_any :
    {a : ℕ} {p : Text} (v w : Text) → a ≡ star → Matches false p w → Matches false (a ∷ p) (v ++ w)
star_any [] w e m = stop e m
star_any (c ∷ v) w e m = more e (star_any v w e m)

refused : ¬ (some false ≡ some true)
refused e = cc

scan_prefix_sound :
    (k : ℕ) (p v : Text)
    → scan false k p v none ≡ some true
    → (rest : Text) × Matches false p (v ++ rest)
unfolding scan go_back
scan_prefix_sound k p [] h = (fill p, Matches-fill p)
scan_prefix_sound k [] (c ∷ v) h = ([], prefix refl)
scan_prefix_sound zero (a ∷ p) (c ∷ v) h = elim (Bool-cases (a == star)) [
  | inl e ↦ (fill p, star_any (c ∷ v) (fill p) ((==_iff a star).0 e) (Matches-fill p))
  | inr e ↦ elim (Bool-cases (a == c)) [
    | inl e' ↦
        let (rest, m) = scan_prefix_sound zero p v (rw (e, e', scan) at h) in
        (rest, byte (ground arith) (ground arith) m)
    | inr e' ↦ absurd (refused (rw (e, e', scan) at h))
  ]
]
scan_prefix_sound (suc k) (a ∷ p) (c ∷ v) h = elim (Bool-cases (a == star)) [
  | inl e ↦ (fill p, star_any (c ∷ v) (fill p) ((==_iff a star).0 e) (Matches-fill p))
  | inr e ↦ elim (Bool-cases (a == c)) [
    | inl e' ↦
        let (rest, m) = scan_prefix_sound (suc k) p v (rw (e, e', scan) at h) in
        (rest, byte (ground arith) (ground arith) m)
    | inr e' ↦ absurd (refused (rw (e, e', scan) at h))
  ]
]

scan_prefix_complete :
    (k : ℕ) (p v rest : Text)
    → length v ≤ k
    → Matches false p (v ++ rest)
    → scan false k p v none ≡ some true
unfolding scan
scan_prefix_complete k p [] rest h m = ap some (finish-false p)
scan_prefix_complete k [] (c ∷ v) rest h m = refl
scan_prefix_complete zero (a ∷ p) (c ∷ v) rest h m = absurd (omega arith)
scan_prefix_complete (suc k) (a ∷ p) (c ∷ v) rest h m = elim (Bool-cases (a == star)) [
  | inl e ↦ rw e (scan_behind_star (suc k) p (c ∷ v) p (c ∷ v) h h)
  | inr e ↦
      let (same, m') = byte_inv (ground arith) m in
      ground (arith, scan_prefix_complete (suc k) p v rest (omega arith) m')
]

-- An unanchored pattern accepts a value exactly when it matches a prefix of the value or of some
-- longer text that begins with the value.
pub unanchored_iff :
    (pattern value : Text)
    → (wildcard_matches_prefix pattern value false ≡ some true)
      ↔ ((rest : Text) × Matches false pattern (value ++ rest))
unfolding wildcard_matches_prefix
unanchored_iff pattern value = (
  scan_prefix_sound (length value) pattern value,
  λ (rest, m). scan_prefix_complete (length value) pattern value rest (omega arith) m,
)
