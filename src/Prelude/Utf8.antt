-- ===== src/Prelude/Utf8.antt =====
-- `std::str::from_utf8`: the code points of bytes, which are refused unless they are UTF-8.
use Prim.Native.Nat.{ℕ, suc, zero, ◌+◌, ◌-◌, ◌*◌}
use mathlib.Core.Bool.{Bool, true, ◌&&◌}
use mathlib.Core.Option.{Option, none, some}
use mathlib.Core.List.{List, [], ◌∷◌}
use mathlib.Core.Path.{◌≡◌, refl, ap, ◌∙◌}
use basecrawl.Prelude.Lists.{all}
use basecrawl.Prelude.Tests.{&&-both, if_true, leb, ltb, ◌==◌, if◌then◌else◌}
use basecrawl.Prelude.Strings.{Text}

-- Between two code points, or within one: the continuation bytes that are due, the range of the
-- next of them, and the bits so far.
pub data Cursor : Type 0 where
  ready : Cursor
  due : (count low high bits : ℕ) → Cursor

pub data Decoding : Type 0 where
  refused : Decoding
  within : Cursor → Decoding
  point : ℕ → Decoding

abbrev between : ℕ → ℕ → ℕ → Bool
between low high b = leb low b && leb b high

lead : ℕ → Decoding
lead b =
    if ltb b 128
    then point b
    else if between 0xc2 0xdf b
    then within (due 0 0x80 0xbf (b - 0xc0))
    else if b == 0xe0
    then within (due 1 0xa0 0xbf 0)
    else if b == 0xed
    then within (due 1 0x80 0x9f 13)
    else if between 0xe1 0xef b
    then within (due 1 0x80 0xbf (b - 0xe0))
    else if b == 0xf0
    then within (due 2 0x90 0xbf 0)
    else if between 0xf1 0xf3 b
    then within (due 2 0x80 0xbf (b - 0xf0))
    else if b == 0xf4
    then within (due 2 0x80 0x8f 4)
    else refused

unfoldable pub decode_byte : Cursor → ℕ → Decoding
unfolding lead
decode_byte ready b = lead b
decode_byte (due zero low high bits) b =
    if between low high b then point (bits * 64 + (b - 128)) else refused
decode_byte (due (suc n) low high bits) b =
    if between low high b then within (due n 0x80 0xbf (bits * 64 + (b - 128))) else refused

abbrev pub put : ℕ → Option Text → Option Text
put c none = none
put c (some s) = some (c ∷ s)

unfoldable pub decode_from : Cursor → List ℕ → Option Text
unfolding decode_byte
decode_from ready [] = some []
decode_from (due _ _ _ _) [] = none
decode_from state (b ∷ bs) = elim (decode_byte state b) [
  | refused ↦ none
  | within next ↦ decode_from next bs
  | point c ↦ put c (decode_from ready bs)
]

unfoldable pub from_utf8 : List ℕ → Option Text
unfolding decode_from
from_utf8 bytes = decode_from ready bytes

decode_byte-ascii : (c : ℕ) → ltb c 128 ≡ true → decode_byte ready c ≡ point c
unfolding decode_byte
decode_byte-ascii c h = if_true (ltb c 128) (point c) _ h

pub from_utf8-ascii : (s : Text) → all (λ c. ltb c 128) s ≡ true → from_utf8 s ≡ some s
unfolding from_utf8
from_utf8-ascii [] h = refl
from_utf8-ascii (c ∷ s) h =
    let (low, rest) = &&-both (ltb c 128) (all (λ c. ltb c 128) s) h in
    ap
      (λ (d : Decoding). elim d [
        | refused ↦ none
        | within next ↦ decode_from next s
        | point c ↦ put c (decode_from ready s)
      ])
      (decode_byte-ascii c low)
    ∙ ap (put c) (from_utf8-ascii s rest)

-- `String::from_utf8_lossy`: each longest beginning of a code point that is not one becomes U+FFFD,
-- and the byte that ended it is read again.
unfoldable pub lossy_from : Cursor → List ℕ → Text
unfolding decode_byte
lossy_from ready [] = []
lossy_from (due _ _ _ _) [] = 0xfffd ∷ []
lossy_from ready (b ∷ bs) = elim (decode_byte ready b) [
  | refused ↦ 0xfffd ∷ lossy_from ready bs
  | within next ↦ lossy_from next bs
  | point c ↦ c ∷ lossy_from ready bs
]
lossy_from (due n low high bits) (b ∷ bs) = elim (decode_byte (due n low high bits) b) [
  | refused ↦ elim (decode_byte ready b) [
    | refused ↦ 0xfffd ∷ 0xfffd ∷ lossy_from ready bs
    | within next ↦ 0xfffd ∷ lossy_from next bs
    | point c ↦ 0xfffd ∷ c ∷ lossy_from ready bs
  ]
  | within next ↦ lossy_from next bs
  | point c ↦ c ∷ lossy_from ready bs
]

unfoldable pub from_utf8_lossy : List ℕ → Text
unfolding lossy_from
from_utf8_lossy bytes = lossy_from ready bytes
