-- ===== src/Format/Tokens.antt =====
-- A token stands for one format.
use mathlib.Core.Option.{some-injective}
use basecrawl.Prelude.{
  Bool, true, false, Option, some, List, [], ◌∷◌, Text, text_eq, text_eq_iff, if◌then◌else◌, ◌≡◌,
  refl, ap, sym, ◌∙◌, Bool-cases, inl, inr, ◌↔◌,
}
use basecrawl.Format.{
  Format, markdown, html, raw_html, links, metadata, screenshot, json, as_str, find_token,
  from_token, all_formats,
}

from_token-as_str : (f : Format) → from_token (as_str f) ≡ some f
unfolding from_token find_token as_str
from_token-as_str markdown = refl
from_token-as_str html = refl
from_token-as_str raw_html = refl
from_token-as_str links = refl
from_token-as_str metadata = refl
from_token-as_str screenshot = refl
from_token-as_str json = refl

found :
    (g f : Format) (o : Option Format) {b : Bool}
    → b ≡ true
    → (if b then some g else o) ≡ some f
    → g ≡ f
found g f o {b = true} e h = some-injective g f h
found g f o {b = false} e h = cc

other :
    (g : Format) (o : Option Format) {b : Bool} {r : Option Format}
    → b ≡ false
    → (if b then some g else o) ≡ r
    → o ≡ r
other g o {b = true} e h = cc
other g o {b = false} e h = h

find_token-as_str :
    (fs : List Format) (t : Text) (f : Format) → find_token fs t ≡ some f → as_str f ≡ t
unfolding find_token
find_token-as_str [] t f h = cc
find_token-as_str (g ∷ gs) t f h = elim (Bool-cases (text_eq (as_str g) t)) [
  | inl e ↦
      let same : g ≡ f = found g f (find_token gs t) e h in
      ap as_str (sym same) ∙ (text_eq_iff (as_str g) t).0 e
  | inr e ↦ find_token-as_str gs t f (other g (find_token gs t) e h)
]

-- A token parses to a format exactly if it is that format's wire token.
from_token_iff : (t : Text) (f : Format) → (from_token t ≡ some f) ↔ (as_str f ≡ t)
unfolding from_token
from_token_iff t f =
    (λ h. find_token-as_str all_formats t f h, λ e. ap from_token (sym e) ∙ from_token-as_str f)
