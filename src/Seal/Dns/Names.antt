-- ===== src/Seal/Dns/Names.antt =====
-- Names on the wire, and that the reader of a message skips exactly such a name.
use mathlib.Core.List.{append_assoc}
use basecrawl.Prelude.{
  ℕ, zero, suc, ◌+◌, ◌/◌, ◌≤◌, ◌<◌, true, false, not, List, [], ◌∷◌, ◌++◌, length, All, leb, ltb,
  ◌==◌, ◌≡◌, refl, sym, ap, ◌∙◌, arith, length-append, subst, word_mod,
}
use basecrawl.Seal.{ok}
use basecrawl.Seal.Dns.{byte, ended, label, read_label, skip_labels, skip_name}

-- How a name ends: at the root, or by a pointer to a name that stands before it.
pub data Ending : Type 0 where
  root : Ending
  pointer : (high low : ℕ) → Ending

abbrev pub IsEnding : Ending → Type 0
IsEnding root = Unit
IsEnding (pointer high low) = high < 64

abbrev pub IsLabel : List ℕ → Type 0
IsLabel l = (0 < length l) × (length l < 64)

-- a name in front of what follows it
abbrev pub wire : List (List ℕ) → Ending → List ℕ → List ℕ
wire [] root rest = 0 ∷ rest
wire [] (pointer high low) rest = (192 + high) ∷ low ∷ rest
wire (l ∷ ls) e rest = length l ∷ (l ++ wire ls e rest)

abbrev pub wire_length : List (List ℕ) → Ending → ℕ
wire_length [] root = 1
wire_length [] (pointer high low) = 2
wire_length (l ∷ ls) e = suc (length l + wire_length ls e)

pub length-wire :
    (ls : List (List ℕ)) (e : Ending) (rest : List ℕ)
    → length (wire ls e rest) ≡ wire_length ls e + length rest
length-wire [] root rest = omega arith
length-wire [] (pointer high low) rest = omega arith
length-wire (l ∷ ls) e rest =
    omega (arith, length-append {0} l (wire ls e rest), length-wire ls e rest)

-- Reading at an offset behind a prefix.
pub byte-append :
    (before bytes : List ℕ) (k : ℕ) → byte (before ++ bytes) (length before + k) ≡ byte bytes k
byte-append [] bytes k = ap (byte bytes) {x = 0 + k} {y = k} (omega arith)
byte-append (b ∷ before) bytes k =
    ap (byte (b ∷ before ++ bytes)) {x = suc (length before) + k} {y = suc (length before + k)}
      (omega arith)
    ∙ byte-append before bytes k

pub byte_here : (before bytes : List ℕ) → byte (before ++ bytes) (length before) ≡ byte bytes 0
byte_here before bytes =
    ap (byte (before ++ bytes)) {x = length before} {y = length before + 0} (omega arith)
    ∙ byte-append before bytes 0

module _ (before : List ℕ) where
  read_label-label :
      (l more : List ℕ)
      → IsLabel l
      → length (before ++ length l ∷ (l ++ more)) < word_mod
      → read_label (before ++ length l ∷ (l ++ more)) (length before)
        ≡ label (length before + (1 + length l))
  unfolding read_label
  read_label-label l more (pos, short) fits =
      let message = before ++ length l ∷ (l ++ more) in
      let total : length message ≡ length before + suc (length (l ++ more)) =
        length-append before (length l ∷ (l ++ more)) in
      let whole : length (l ++ more) ≡ length l + length more = length-append l more in
      let inside : leb (length message) (length before) ≡ false = ground arith in
      let nonzero : (length l == 0) ≡ false = ground arith in
      let plain : (length l / 64 == 3) ≡ false = ground arith in
      let small : not (length l / 64 == 0) ≡ false = ground arith in
      let room : ltb (length before + (1 + length l)) word_mod ≡ true = ground arith in
      rw (inside, byte_here before (length l ∷ (l ++ more))) (rw (nonzero, plain, small, room) refl)

  read_label-root :
      (rest : List ℕ) → read_label (before ++ 0 ∷ rest) (length before) ≡ ended (length before + 1)
  unfolding read_label
  read_label-root rest =
      let inside : leb (length (before ++ 0 ∷ rest)) (length before) ≡ false =
        ground (arith, length-append {0} before (0 ∷ rest)) in
      rw (inside, byte_here before (0 ∷ rest)) refl

  read_label-pointer :
      (high low : ℕ) (rest : List ℕ)
      → high < 64
      → read_label (before ++ (192 + high) ∷ low ∷ rest) (length before) ≡ ended (length before + 2)
  unfolding read_label
  read_label-pointer high low rest h =
      let message = before ++ (192 + high) ∷ low ∷ rest in
      let inside : leb (length message) (length before) ≡ false =
        ground (arith, length-append {0} before ((192 + high) ∷ low ∷ rest)) in
      let nonzero : ((192 + high) == 0) ≡ false = ground arith in
      let points : ((192 + high) / 64 == 3) ≡ true = ground arith in
      let whole : leb (length message) (length before + 1) ≡ false =
        ground (arith, length-append {0} before ((192 + high) ∷ low ∷ rest)) in
      rw (inside, byte_here before ((192 + high) ∷ low ∷ rest)) (rw (nonzero, points, whole) refl)

skip_labels-ended :
    (left : ℕ) (message : List ℕ) (offset end : ℕ)
    → read_label message offset ≡ ended end
    → skip_labels left message offset ≡ ok end
unfolding skip_labels
skip_labels-ended zero message offset end e = rw (e, skip_labels) refl
skip_labels-ended (suc left) message offset end e = rw (e, skip_labels) refl

skip_labels-label :
    (left : ℕ) (message : List ℕ) (offset next : ℕ)
    → read_label message offset ≡ label next
    → skip_labels (suc left) message offset ≡ skip_labels left message next
unfolding skip_labels
skip_labels-label left message offset next e = rw (e, skip_labels) refl

skip_labels-wire :
    (left : ℕ) (before : List ℕ) (ls : List (List ℕ)) (e : Ending) (rest : List ℕ)
    → All IsLabel ls
    → IsEnding e
    → length ls ≤ left
    → length (before ++ wire ls e rest) < word_mod
    → skip_labels left (before ++ wire ls e rest) (length before)
      ≡ ok (length before + wire_length ls e)
skip_labels-wire left before [] root rest w h k fits =
    skip_labels-ended left (before ++ 0 ∷ rest) (length before) (length before + 1)
      (read_label-root before rest)
skip_labels-wire left before [] (pointer high low) rest w h k fits =
    skip_labels-ended left (before ++ (192 + high) ∷ low ∷ rest) (length before) (length before + 2)
      (read_label-pointer before high low rest h)
skip_labels-wire zero before (l ∷ ls) e rest w h k fits = absurd (omega arith)
skip_labels-wire (suc left) before (l ∷ ls) e rest (i, w) h k fits =
    let seam : before ++ length l ∷ (l ++ wire ls e rest)
        ≡ (before ++ length l ∷ l) ++ wire ls e rest =
      sym (append_assoc before (length l ∷ l) (wire ls e rest)) in
    let moved : length (before ++ length l ∷ l) ≡ length before + (1 + length l) =
      omega (arith, length-append {0} before (length l ∷ l)) in
    skip_labels-label left (before ++ wire (l ∷ ls) e rest) (length before)
      (length before + (1 + length l)) (read_label-label before l (wire ls e rest) i fits)
    ∙ ap (λ m. skip_labels left m (length before + (1 + length l))) seam
    ∙ ap (skip_labels left ((before ++ length l ∷ l) ++ wire ls e rest)) (sym moved)
    ∙ skip_labels-wire left (before ++ length l ∷ l) ls e rest w h (omega arith)
        (subst (λ m. length m < word_mod) seam fits)
    ∙ ap ok (omega (arith, moved))

-- A name of at most 128 labels is skipped as a whole.
pub skip_name-wire :
    (before : List ℕ) (ls : List (List ℕ)) (e : Ending) (rest : List ℕ)
    → All IsLabel ls
    → IsEnding e
    → length ls ≤ 128
    → length (before ++ wire ls e rest) < word_mod
    → skip_name (before ++ wire ls e rest) (length before) ≡ ok (length before + wire_length ls e)
unfolding skip_name
skip_name-wire before ls e rest = skip_labels-wire 128 before ls e rest
