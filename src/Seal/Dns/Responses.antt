-- ===== src/Seal/Dns/Responses.antt =====
-- What the resolver reads in a DNS response that is laid out by RFC 1035.
use basecrawl.Prelude.{
  ℕ, ◌/◌, ◌%◌, ◌<◌, true, List, [], ◌∷◌, ◌++◌, length, All, leb, ◌==◌, ◌≡◌, refl, ap, ◌∙◌, arith,
  subst, word_mod, if◌then◌else◌, Bool-cases, inl, inr,
}
use basecrawl.Seal.{ok}
use basecrawl.Seal.Dns.{word_at, read_answers, read_counts, parse_answers}
use basecrawl.Seal.Dns.Packets.{
  Question, IsQuestion, Record, IsRecord, questions_wire, records_wire, addresses,
  skip_questions-questions, read_answers-records,
}

-- A response: its identifier and flags, its questions and answers, the counts of the other two
-- sections, and whatever bytes those have.
pub record Packet : Type 0 where
  pub id_high : ℕ
  pub id_low : ℕ
  pub flags_high : ℕ
  pub flags_low : ℕ
  pub questions : List Question
  pub records : List Record
  pub counts_0 : ℕ
  pub counts_1 : ℕ
  pub counts_2 : ℕ
  pub counts_3 : ℕ
  pub rest : List ℕ

abbrev pub header : Packet → List ℕ
header p =
    p.id_high
    ∷ p.id_low
    ∷ p.flags_high
    ∷ p.flags_low
    ∷ (length p.questions / 256 % 256)
    ∷ (length p.questions % 256)
    ∷ (length p.records / 256 % 256)
    ∷ (length p.records % 256)
    ∷ p.counts_0
    ∷ p.counts_1
    ∷ p.counts_2
    ∷ p.counts_3
    ∷ []

abbrev pub packet_bytes : Packet → List ℕ
packet_bytes p = header p ++ questions_wire p.questions (records_wire p.records p.rest)

pub record IsPacket (p : Packet) : Type 0 where
  pub asked : All IsQuestion p.questions
  pub answered : All IsRecord p.records
  pub few_questions : length p.questions < 65536
  pub few_records : length p.records < 65536
  pub fits : length (packet_bytes p) < word_mod

module _ (p : Packet) (w : IsPacket p) (expected : ℕ) where
  questions_count : word_at (packet_bytes p) 4 ≡ length p.questions
  questions_count = omega (arith, w.few_questions)

  records_count : word_at (packet_bytes p) 6 ≡ length p.records
  records_count = omega (arith, w.few_records)

  counted : read_counts (packet_bytes p) expected ≡ ok (addresses expected p.records)
  unfolding read_counts
  counted =
      let (passed, split, skipped) =
        skip_questions-questions (header p) p.questions (records_wire p.records p.rest) w.asked
          w.fits in
      rw (questions_count, records_count, skipped)
        (ap (λ x. read_answers expected (length p.records) x (length passed)) split
          ∙ read_answers-records expected passed p.records p.rest w.answered
              (subst (λ x. length x < word_mod) split w.fits))

-- In a response that is laid out by RFC 1035, with names of at most 128 labels or pointers, the
-- resolver finds exactly the addresses of the records of the expected type and of its size, in
-- their order. With a response code other than zero it finds none.
pub parse_answers-packet :
    (p : Packet) (expected : ℕ)
    → IsPacket p
    → parse_answers (packet_bytes p) expected
      ≡ ok (if p.flags_low % 16 == 0 then addresses expected p.records else [])
unfolding parse_answers
parse_answers-packet p expected w =
    let long : leb 12 (length (packet_bytes p)) ≡ true = ground arith in
    let code : word_at (packet_bytes p) 2 % 16 ≡ p.flags_low % 16 = omega arith in
    elim (Bool-cases (p.flags_low % 16 == 0)) [
      | inl fine ↦ rw (long, code, fine) (counted p w expected)
      | inr failed ↦ rw (long, code, failed) refl
    ]
