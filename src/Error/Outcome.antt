-- ===== src/Error/Outcome.antt =====
-- `Result<T, Error>` of crates/basecrawl-core, and the early return of `?`.
use basecrawl.Prelude.{Bool, true, false}
use basecrawl.Error.{Error}

pub data Outcome {ℓ} (A : Type ℓ) : Type ℓ where
  ok : A → Outcome A
  err : Error → Outcome A

infixl 5 ◌>>=◌ ◌>>◌
abbrev pub ◌>>=◌ {ℓ κ} : {A : Type ℓ} {B : Type κ} → Outcome A → (A → Outcome B) → Outcome B
ok a >>= next = next a
err error >>= next = err error

abbrev pub ◌>>◌ {ℓ} : {B : Type ℓ} → Outcome (Unit {0}) → Outcome B → Outcome B
first >> rest = first >>= λ _. rest

-- `if !test { return Err(error) }`
abbrev pub unless : Bool → Error → Outcome (Unit {0})
unless true error = ok tt
unless false error = err error
