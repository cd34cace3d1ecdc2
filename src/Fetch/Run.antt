-- ===== src/Fetch/Run.antt =====
-- What a computation of the fetch comes to: it returns, it panics, or its model is out of fuel.
use basecrawl.Error.Outcome.{Outcome, ok, err}

pub data Run {ℓ} (A : Type ℓ) : Type ℓ where
  returns : Outcome A → Run A
  panics : Run A
  unfinished : Run A

infixl 5 ◌>>=◌ ◌>>◌
abbrev pub ◌>>=◌ {ℓ κ} : {A : Type ℓ} {B : Type κ} → Run A → (A → Run B) → Run B
returns (ok a) >>= next = next a
returns (err error) >>= next = returns (err error)
panics >>= next = panics
unfinished >>= next = unfinished

abbrev pub ◌>>◌ {ℓ} : {B : Type ℓ} → Run (Unit {0}) → Run B → Run B
first >> rest = first >>= λ _. rest

-- It ends, by a return or by a panic.
abbrev pub Finished {ℓ} : {A : Type ℓ} → Run A → Type 0
Finished (returns outcome) = Unit
Finished panics = Unit
Finished unfinished = ⊥

pub >>=-Finished {ℓ κ} :
    {A : Type ℓ} {B : Type κ} (m : Run A) (f : A → Run B)
    → Finished m
    → ((a : A) → Finished (f a))
    → Finished (m >>= f)
>>=-Finished (returns (ok a)) f h k = k a
>>=-Finished (returns (err error)) f h k = tt
>>=-Finished panics f h k = tt
>>=-Finished unfinished f h k = h

-- It returned an error.
abbrev pub Failed {ℓ} : {A : Type ℓ} → Run A → Type 0
Failed (returns (ok a)) = ⊥
Failed (returns (err error)) = Unit
Failed panics = ⊥
Failed unfinished = ⊥
