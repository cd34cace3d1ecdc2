-- ===== src/Fingerprint.antt =====
-- crates/basecrawl-fp/src/lib.rs: the seed of a profile and the pseudo-random choices that are drawn
-- from it. SHA-256 is an argument; the tables of a profile are not modelled.
pub mod Shuffled
mod Tests
use basecrawl.Prelude.{
  ℕ, zero, suc, ◌+◌, ◌-◌, ◌*◌, ◌/◌, ◌%◌, ◌^◌, Bool, true, false, not, ◌&&◌, ◌||◌, Option, none,
  some, List, [], ◌∷◌, ◌++◌, Text, codes, as_bytes, length, all, is_empty, trim, to_ascii_lowercase,
  get_elem?, set, take, drop, ltb, ◌==◌, if◌then◌else◌,
}
use basecrawl.Attestation.Hex.{encode_hex, decode_hex}
use basecrawl.Attestation.Quote.{is_ascii_hexdigit}

abbrev pub seed_domain_tag : List ℕ
seed_domain_tag = codes "basecrawl/fingerprint-seed/v1" ++ 0 ∷ []

unfoldable pub is_hex64 : Text → Bool
is_hex64 value = length (as_bytes value) == 64 && all is_ascii_hexdigit (as_bytes value)

-- the bytes of a 64-bit word, the lowest first, and back
abbrev pub le_bytes : (count n : ℕ) → List ℕ
le_bytes zero n = []
le_bytes (suc count) n = n % 256 ∷ le_bytes count (n / 256)

abbrev pub of_le_bytes : List ℕ → ℕ
of_le_bytes [] = 0
of_le_bytes (b ∷ bs) = b + 256 * of_le_bytes bs

-- `filter(|s| !s.is_empty())`
abbrev pub if_some : Option Text → Option Text
if_some none = none
if_some (some s) = if is_empty s then none else some s

-- `map(str::trim)`
abbrev pub trimmed : Option Text → Option Text
trimmed none = none
trimmed (some s) = some (trim s)

pub record Lane : Type 0 where
  pub state : List ℕ
  pub offset : ℕ

-- `items.swap(i, j)`, where `none` is the panic on a place that is not there
unfoldable pub swap : ℕ → ℕ → List ℕ → Option (List ℕ)
swap i j items = elim (get_elem? items i) [
  | none ↦ none
  | some a ↦ elim (get_elem? items j) [ none ↦ none | some b ↦ some (set (set items i b) j a) ]
]

-- `(0..n).collect()`, from a first number on
unfoldable pub count_from : (first n : ℕ) → List ℕ
count_from first zero = []
count_from first (suc n) = first ∷ count_from (suc first) n

module _ (sha256 : List ℕ → List ℕ) where
  unfoldable pub normalize_seed : Text → Text
  unfolding is_hex64 trim to_ascii_lowercase encode_hex
  normalize_seed input =
      if is_hex64 (trim input)
      then to_ascii_lowercase (trim input)
      else encode_hex (sha256 (seed_domain_tag ++ as_bytes (trim input)))

  unfoldable pub resolve_seed : (explicit task_id nonce : Option Text) → (fallback : Text) → Text
  unfolding normalize_seed
  resolve_seed explicit task_id nonce fallback = elim (if_some (trimmed explicit)) [
    | some seed ↦ normalize_seed seed
    | none ↦ elim (if_some task_id) [
      | some task ↦ elim (if_some nonce) [
        | some n ↦ normalize_seed (task ++ 0 ∷ [] ++ n)
        | none ↦ normalize_seed task
      ]
      | none ↦ elim (if_some nonce) [ some n ↦ normalize_seed n | none ↦ normalize_seed fallback ]
    ]
  ]

  -- `SeedStream::lane`
  unfoldable pub lane : List ℕ → ℕ → Lane
  lane seed number = record {
    state = sha256 (codes "basecrawl/fp-stream/v1" ++ 0 ∷ [] ++ seed ++ le_bytes 8 number);
    offset = 0;
  }

  unfoldable pub refill : Lane → Lane
  refill l = record {
    state = sha256 (codes "basecrawl/fp-stream-block/v1" ++ 0 ∷ [] ++ l.state);
    offset = 0;
  }

  abbrev pub ready : Lane → Lane
  ready l = if ltb 32 (l.offset + 8) then refill l else l

  unfoldable pub next_u64 : Lane → ℕ × Lane
  unfolding refill
  next_u64 l =
      let from = ready l in
      (
        of_le_bytes (take 8 (drop from.offset from.state)),
        record { state = from.state; offset = from.offset + 8 },
      )

  unfoldable pub next_usize : Lane → ℕ → ℕ × Lane
  unfolding next_u64
  next_usize l bound =
      let drawn = next_u64 l in if bound == 0 then (0, l) else (drawn.0 % bound, drawn.1)

  -- the item that is picked, where `none` is the panic on no items
  unfoldable pub pick : {A : Type 0} → Lane → List A → Option A
  unfolding next_usize
  pick l items = get_elem? items (next_usize l (length items)).0

  abbrev pub and_then : Option (List ℕ) → (List ℕ → Option (List ℕ)) → Option (List ℕ)
  and_then none next = none
  and_then (some items) next = next items

  -- the loop over `(1..n).rev()`, from its first number on
  unfoldable pub shuffle : Lane → ℕ → List ℕ → Option (List ℕ)
  unfolding next_usize swap
  shuffle l zero items = some items
  shuffle l (suc i) items =
      let (j, l') = next_usize l (suc i + 1) in and_then (swap (suc i) j items) (shuffle l' i)

  unfoldable pub permutation : Lane → ℕ → Option (List ℕ)
  unfolding shuffle count_from
  permutation l n = shuffle l (n - 1) (count_from 0 n)
