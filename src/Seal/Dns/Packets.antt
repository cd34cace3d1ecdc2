-- ===== src/Seal/Dns/Packets.antt =====
-- DNS responses as their questions and records, against the reader of their bytes.
use mathlib.Core.List.{append_assoc, append-nil}
use basecrawl.Prelude.{
  ℕ, ◌+◌, ◌*◌, ◌/◌, ◌%◌, ◌≤◌, ◌<◌, true, List, [], ◌∷◌, ◌++◌, length, All, leb, ltb, ◌≡◌, refl, sym,
  ap, ◌∙◌, arith, length-append, subst, word_mod, take, drop, drop-append_add, take-append,
}
use basecrawl.Seal.{ok}
use basecrawl.Seal.Dns.{
  IpAddr, byte, word_at, skip_name, skip_questions, address_of, read_record, read_answers,
}
use basecrawl.Seal.Dns.Names.{
  Ending, IsEnding, IsLabel, wire, wire_length, length-wire, byte_here, byte-append, skip_name-wire,
}

pub record Name : Type 0 where
  pub labels : List (List ℕ)
  pub ending : Ending

pub record IsName (n : Name) : Type 0 where
  pub sized : All IsLabel n.labels
  pub ended : IsEnding n.ending
  pub few : length n.labels ≤ 128

pub record Question : Type 0 where
  pub name : Name
  pub type_high : ℕ
  pub type_low : ℕ
  pub class_high : ℕ
  pub class_low : ℕ

-- The class and the four bytes of the TTL are not read.
pub record Record : Type 0 where
  pub name : Name
  pub rtype : ℕ
  pub class_high : ℕ
  pub class_low : ℕ
  pub ttl_0 : ℕ
  pub ttl_1 : ℕ
  pub ttl_2 : ℕ
  pub ttl_3 : ℕ
  pub rdata : List ℕ

abbrev pub IsQuestion : Question → Type 0
IsQuestion q = IsName q.name

pub record IsRecord (r : Record) : Type 0 where
  pub named : IsName r.name
  pub typed : r.rtype < 65536
  pub sized : length r.rdata < 65536

abbrev pub name_wire : Name → List ℕ → List ℕ
name_wire n rest = wire n.labels n.ending rest

abbrev record_body : Record → List ℕ → List ℕ
record_body r rest =
    (r.rtype / 256 % 256)
    ∷ (r.rtype % 256)
    ∷ r.class_high
    ∷ r.class_low
    ∷ r.ttl_0
    ∷ r.ttl_1
    ∷ r.ttl_2
    ∷ r.ttl_3
    ∷ (length r.rdata / 256 % 256)
    ∷ (length r.rdata % 256)
    ∷ (r.rdata ++ rest)

abbrev pub records_wire : List Record → List ℕ → List ℕ
records_wire [] rest = rest
records_wire (r ∷ rs) rest = name_wire r.name (record_body r (records_wire rs rest))

abbrev pub questions_wire : List Question → List ℕ → List ℕ
questions_wire [] rest = rest
questions_wire (q ∷ qs) rest =
    name_wire q.name
      (q.type_high ∷ q.type_low ∷ q.class_high ∷ q.class_low ∷ questions_wire qs rest)

-- the addresses of the records, in order
abbrev pub addresses : ℕ → List Record → List IpAddr
addresses expected [] = []
addresses expected (r ∷ rs) = address_of expected r.rtype r.rdata ++ addresses expected rs

wire_split :
    (ls : List (List ℕ)) (e : Ending) (rest : List ℕ) → wire ls e rest ≡ wire ls e [] ++ rest
wire_split [] Ending.root rest = refl
wire_split [] (Ending.pointer high low) rest = refl
wire_split (l ∷ ls) e rest =
    ap (λ x. length l ∷ (l ++ x)) (wire_split ls e rest)
    ∙ ap (length l ∷◌) (sym (append_assoc l (wire ls e []) rest))

-- A name behind a prefix, with the prefix and the name as the prefix of what follows.
past_name :
    (before : List ℕ) (n : Name) (rest : List ℕ)
    → before ++ name_wire n rest ≡ (before ++ name_wire n []) ++ rest
past_name before n rest =
    ap (before ++◌) (wire_split n.labels n.ending rest)
    ∙ sym (append_assoc before (name_wire n []) rest)

length-past_name :
    (before : List ℕ) (n : Name)
    → length (before ++ name_wire n []) ≡ length before + wire_length n.labels n.ending
length-past_name before n =
    omega (arith, length-append {0} before (name_wire n []), length-wire n.labels n.ending [])

skip_name-past :
    (before : List ℕ) (n : Name) (rest : List ℕ)
    → IsName n
    → length (before ++ name_wire n rest) < word_mod
    → skip_name (before ++ name_wire n rest) (length before)
      ≡ ok (length (before ++ name_wire n []))
skip_name-past before n rest w fits =
    skip_name-wire before n.labels n.ending rest w.sized w.ended w.few fits
    ∙ ap ok (sym (length-past_name before n))

word_lem : (n : ℕ) → n < 65536 → (n / 256 % 256) * 256 + n % 256 ≡ n
word_lem n h = omega arith

-- The body of a record behind a prefix.
module _ (before : List ℕ) (r : Record) (w : IsRecord r) (more : List ℕ) where
  abbrev message : List ℕ
  message = before ++ record_body r more

  length-message : length message ≡ length before + (10 + (length r.rdata + length more))
  length-message =
      omega (arith, length-append {0} before (record_body r more), length-append {0} r.rdata more)

  type_lem : word_at message (length before) ≡ r.rtype
  type_lem =
      let high : byte message (length before) ≡ r.rtype / 256 % 256 =
        byte_here before (record_body r more) in
      let low : byte message (length before + 1) ≡ r.rtype % 256 =
        byte-append before (record_body r more) 1 in
      omega (arith, high, low, w.typed)

  size_lem : word_at message (length before + 8) ≡ length r.rdata
  size_lem =
      let high : byte message (length before + 8) ≡ length r.rdata / 256 % 256 =
        byte-append before (record_body r more) 8 in
      let low : byte message (length before + 8 + 1) ≡ length r.rdata % 256 =
        ap (byte message) {x = length before + 8 + 1} {y = length before + 9} (omega arith)
        ∙ byte-append before (record_body r more) 9 in
      omega (arith, high, low, w.sized)

  rdata_lem : take (length r.rdata) (drop (length before + 10) message) ≡ r.rdata
  rdata_lem =
      ap (take (length r.rdata)) (drop-append_add 10 before (record_body r more))
      ∙ take-append r.rdata more

  read_record-record :
      (expected : ℕ)
      → read_record expected message (length before)
        ≡ ok (length before + 10 + length r.rdata, address_of expected r.rtype r.rdata)
  unfolding read_record
  read_record-record expected =
      let header : leb (length before + 10) (length message) ≡ true =
        ground (arith, length-message) in
      let whole : leb (length before + 10 + length r.rdata) (length message) ≡ true =
        ground (arith, length-message) in
      rw (header, size_lem) (rw (whole, type_lem, rdata_lem) refl)

body_split : (r : Record) (more : List ℕ) → record_body r more ≡ record_body r [] ++ more
body_split r more = simp append-nil

-- The records behind a prefix, as many as are counted.
pub read_answers-records :
    (expected : ℕ) (before : List ℕ) (rs : List Record) (rest : List ℕ)
    → All IsRecord rs
    → length (before ++ records_wire rs rest) < word_mod
    → read_answers expected (length rs) (before ++ records_wire rs rest) (length before)
      ≡ ok (addresses expected rs)
unfolding read_answers
read_answers-records expected before [] rest w fits = refl
read_answers-records expected before (r ∷ rs) rest (v, w) fits =
    let more = records_wire rs rest in
    let named = before ++ name_wire r.name [] in
    let header = record_body r [] in
    let m = before ++ name_wire r.name (record_body r more) in
    let at_body : m ≡ named ++ record_body r more = past_name before r.name (record_body r more) in
    let record_lem : read_record expected m (length named)
        ≡ ok (length named + 10 + length r.rdata, address_of expected r.rtype r.rdata) =
      ap (λ x. read_record expected x (length named)) at_body
      ∙ read_record-record named r v more expected in
    let behind : m ≡ (named ++ header) ++ more =
      at_body ∙ ap (named ++◌) (body_split r more) ∙ sym (append_assoc named header more) in
    let moved : length (named ++ header) ≡ length named + 10 + length r.rdata =
      omega (arith, length-append {0} named header, length-append {0} r.rdata []) in
    let later : read_answers expected (length rs) m (length named + 10 + length r.rdata)
        ≡ ok (addresses expected rs) =
      ap (λ x. read_answers expected (length rs) x (length named + 10 + length r.rdata)) behind
      ∙ ap (read_answers expected (length rs) ((named ++ header) ++ more)) (sym moved)
      ∙ read_answers-records expected (named ++ header) rs rest w
          (subst (λ x. length x < word_mod) behind fits) in
    rw (skip_name-past before r.name (record_body r more) v.named fits)
      (rw record_lem (rw later refl))

pub skip_questions-questions :
    (before : List ℕ) (qs : List Question) (rest : List ℕ)
    → All IsQuestion qs
    → length (before ++ questions_wire qs rest) < word_mod
    → (passed : List ℕ) × (before ++ questions_wire qs rest ≡ passed ++ rest)
      × (skip_questions (length qs) (before ++ questions_wire qs rest) (length before)
          ≡ ok (length passed))
unfolding skip_questions
skip_questions-questions before [] rest w fits = (before, refl, refl)
skip_questions-questions before (q ∷ qs) rest (v, w) fits =
    let more = questions_wire qs rest in
    let named = before ++ name_wire q.name [] in
    let kind = q.type_high ∷ q.type_low ∷ q.class_high ∷ q.class_low ∷ [] in
    let m = before ++ questions_wire (q ∷ qs) rest in
    let behind : m ≡ (named ++ kind) ++ more =
      past_name before q.name (q.type_high ∷ q.type_low ∷ q.class_high ∷ q.class_low ∷ more)
      ∙ sym (append_assoc named kind more) in
    let moved : length (named ++ kind) ≡ length named + 4 = length-append named kind in
    let total : length m ≡ length named + 4 + length more =
      omega (arith, ap length behind, length-append {0} (named ++ kind) more, moved) in
    let fine : ltb (length named + 4) word_mod ≡ true = ground (arith, total, fits) in
    let (passed, split, skipped) =
      skip_questions-questions (named ++ kind) qs rest w
        (subst (λ x. length x < word_mod) behind fits) in
    (
      passed,
      behind ∙ split,
      rw
          (skip_name-past before q.name
            (q.type_high ∷ q.type_low ∷ q.class_high ∷ q.class_low ∷ more) v fits)
          (rw fine (
            ap (λ x. skip_questions (length qs) x (length named + 4)) behind
            ∙ ap (skip_questions (length qs) ((named ++ kind) ++ more)) (sym moved)
            ∙ skipped)),
    )
