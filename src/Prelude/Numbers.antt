-- ===== src/Prelude/Numbers.antt =====
-- Words of 64 bits, and the digits that `from_str_radix` and `parse` read.
use Prim.Native.Nat.{ℕ, ◌+◌, ◌-◌, ◌*◌, ◌%◌}
use mathlib.Core.Bool.{◌&&◌}
use mathlib.Core.Option.{Option, none, some}
use mathlib.Core.List.{[], ◌∷◌}
use basecrawl.Prelude.Tests.{leb, ltb, ◌==◌, if◌then◌else◌}
use basecrawl.Prelude.Strings.{Text}

abbrev pub word_mod : ℕ
word_mod = 18446744073709551616

-- `+` on `usize` in a release build, which wraps around
unfoldable pub add_word : ℕ → ℕ → ℕ
add_word a b = (a + b) % word_mod

-- `char::to_digit`
unfoldable pub to_digit : ℕ → ℕ → Option ℕ
to_digit radix c =
    let value =
      if leb b'0' c && leb c b'9'
      then c - b'0'
      else if leb b'a' c && leb c b'z'
      then c - b'a' + 10
      else if leb b'A' c && leb c b'Z'
      then c - b'A' + 10
      else radix in
    if ltb value radix then some value else none

-- the digits, below a bound that the type sets
unfoldable pub read_digits : ℕ → ℕ → ℕ → Text → Option ℕ
unfolding to_digit
read_digits bound radix value [] = some value
read_digits bound radix value (c ∷ s) = elim (to_digit radix c) [
  | none ↦ none
  | some d ↦
      (let rest = read_digits bound radix (value * radix + d) s in
        if ltb (value * radix + d) bound then rest else none)
]

unfoldable pub unsigned : ℕ → ℕ → Text → Option ℕ
unfolding read_digits
unsigned bound radix [] = none
unsigned bound radix (c ∷ s) = read_digits bound radix 0 (c ∷ s)

-- `from_str_radix` of an unsigned type: a plus sign, then at least one digit
unfoldable pub from_str_radix : ℕ → ℕ → Text → Option ℕ
unfolding unsigned
from_str_radix bound radix [] = none
from_str_radix bound radix (c ∷ s) =
    if c == b'+' then unsigned bound radix s else unsigned bound radix (c ∷ s)
