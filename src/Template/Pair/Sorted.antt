-- ===== src/Template/Pair/Sorted.antt =====
-- The steps of the pair template that sort addresses.
use blockchain_task_server.Common.{
  String, Bool, true, ◌||◌, List, [], ◌∷◌, ◌≡◌, refl, arith, if◌then◌else◌, Bool-cases, inl, inr,
  false, ◌&&◌, str_eq, eq_iff,
}
use blockchain_task_server.Arrays.{contains}
use blockchain_task_server.Arrays.Members.{contains-unique, has_no_repeats, has_no_repeats-unique}
use blockchain_task_server.Template.Pair.Data.{PairInfo, zero_address}
use blockchain_task_server.Template.Pair.Addresses.{
  pairs_of, tokens_of, grouping, split_checked, head_or_false, tail, is_zero_address, split_infos,
}

-- `grouping` returns the pairs and the tokens of the infos, each of them once.
pub grouping_lem :
    (infos : List PairInfo) (x : String)
    → let (multi, single) = grouping infos in
      (contains x multi ≡ contains x (pairs_of infos))
      × (contains x single ≡ contains x (tokens_of infos))
      × (has_no_repeats multi ≡ true)
      × (has_no_repeats single ≡ true)
unfolding grouping
grouping_lem infos x = (
  contains-unique x (pairs_of infos),
  contains-unique x (tokens_of infos),
  has_no_repeats-unique (pairs_of infos),
  has_no_repeats-unique (tokens_of infos),
)

-- A pure single token: not weird, and both of its tokens are the zero address.
abbrev pub IsPure : PairInfo → Type 0
IsPure i = (i.weird ≡ false) × (i.token0 ≡ zero_address) × (i.token1 ≡ zero_address)

-- The addresses of the infos are sorted into those of pure single tokens and all others, both in order.
pub data IsSorted : List PairInfo → List String → List String → Type 0 where
  empty : IsSorted [] [] []
  single :
      {i : PairInfo} {infos : List PairInfo} {singles others : List String}
      → IsPure i
      → IsSorted infos singles others
      → IsSorted (i ∷ infos) (i.pair ∷ singles) others
  rejected :
      {i : PairInfo} {infos : List PairInfo} {singles others : List String}
      → ¬ IsPure i
      → IsSorted infos singles others
      → IsSorted (i ∷ infos) singles (i.pair ∷ others)

abbrev are_zero : PairInfo → Bool
are_zero i = str_eq i.token0 zero_address && str_eq i.token1 zero_address

-- The three branches of the callback.
step :
    (i : PairInfo) (infos : List PairInfo) (singles others : List String) (weird both : Bool)
    → i.weird ≡ weird
    → are_zero i ≡ both
    → IsSorted infos singles others
    → let split : List String × List String =
        if weird
        then (singles, i.pair ∷ others)
        else if both
        then (i.pair ∷ singles, others)
        else (singles, i.pair ∷ others) in
      IsSorted (i ∷ infos) split.0 split.1
step i infos singles others true both e f rest =
    rejected (λ (sane, first, second). absurd (ground (arith, sane, e))) rest
step i infos singles others false true e f rest =
    single
      (
        e,
        ground (arith, f, eq_iff i.token0 zero_address, eq_iff i.token1 zero_address),
        ground (arith, f, eq_iff i.token0 zero_address, eq_iff i.token1 zero_address),
      )
      rest
step i infos singles others false false e f rest =
    rejected
      (λ (sane, first, second). absurd (
        ground
          (arith, f, first, second, eq_iff i.token0 zero_address, eq_iff i.token1 zero_address)))
      rest

-- The check of the single tokens sorts every info: the pure single tokens are those that are
-- not weird and whose two tokens are the zero address, the invalid ones all the others, both in order.
pub split_infos-IsSorted :
    (infos : List PairInfo) → IsSorted infos (split_infos infos).0 (split_infos infos).1
unfolding split_infos is_zero_address
split_infos-IsSorted [] = empty
split_infos-IsSorted (i ∷ infos) =
    step i infos (split_infos infos).0 (split_infos infos).1 i.weird (are_zero i) refl refl
      (split_infos-IsSorted infos)

-- Every address is kept: as valid or as invalid.
pub contains-split_checked :
    (x : String) (addresses : List String) (checks : List Bool)
    → let (valid, invalid) = split_checked addresses checks in
      (contains x valid || contains x invalid) ≡ contains x addresses
unfolding split_checked
contains-split_checked x [] checks = refl
contains-split_checked x (a ∷ rest) checks = elim (Bool-cases (head_or_false checks)) [
  | inl e ↦ rw e (ground (arith, contains-split_checked x rest (tail checks)))
  | inr e ↦ rw e (ground (arith, contains-split_checked x rest (tail checks)))
]
