-- ===== src/Fingerprint/Tests.antt =====
-- The seed and the shuffle, with a digest that counts what it is given.
use basecrawl.Prelude.{
  ℕ, some, none, List, [], ◌∷◌, codes, replicate, length, trim, is_empty, ◌≡◌, refl, ◌%◌,
}
use basecrawl.Fingerprint.{
  Lane, count_from, permutation, shuffle, swap, next_usize, next_u64, resolve_seed, normalize_seed,
}
use basecrawl.Fingerprint.Shuffled.{IsReordered, permutation-IsReordered}

abbrev digest : List ℕ → List ℕ
digest bytes = replicate 32 (length bytes % 256)

abbrev zeros : Lane
zeros = record { state = replicate 32 0; offset = 0 }

shuffled_example : IsReordered (count_from 0 5) (permutation digest zeros 5)
shuffled_example = permutation-IsReordered digest zeros 5

shuffles : permutation digest zeros 3 ≡ some (1 ∷ 2 ∷ 0 ∷ [])
unfolding permutation shuffle count_from swap next_usize next_u64
shuffles = refl

-- an explicit seed that is blank is passed over for the task
seed :
    resolve_seed digest (some (codes " ")) (some (codes "t")) none (codes "f")
    ≡ normalize_seed digest (codes "t")
unfolding resolve_seed trim is_empty
seed = refl
