-- ===== src/Arrays.antt =====
-- libs/helper/src/array.ts: the helpers that compute by themselves. Those that only call lodash are
-- parameters of the code that uses them.
pub mod Sequences
pub mod Members
use blockchain_task_server.Common.{
  ℕ, zero, suc, ◌+◌, String, Bool, Option, none, some, List, [], ◌∷◌, ◌++◌, map, any, length, ◌==◌,
  str_eq, if◌then◌else◌,
}

-- `Array.from({ length }, (_, i) => i + start)`, from the index on
unfoldable pub sequence_from : ℕ → ℕ → ℕ → List ℕ
sequence_from zero start i = []
sequence_from (suc n) start i = (i + start) ∷ sequence_from n start (i + 1)

unfoldable pub fill_sequence_number : ℕ → ℕ → List ℕ
unfolding sequence_from
fill_sequence_number number start = sequence_from number start 0

-- `array.flat()`, on an array of arrays
unfoldable pub flat : {A : Type 0} → List (List A) → List A
flat [] = []
flat (xs ∷ xss) = xs ++ flat xss

-- `removeNull`, where null is none
unfoldable pub remove_null : {A : Type 0} → List (Option A) → List A
remove_null [] = []
remove_null (none ∷ xs) = remove_null xs
remove_null (some x ∷ xs) = x ∷ remove_null xs

abbrev pub contains : String → List String → Bool
contains x xs = any (str_eq x) xs

-- `_.without`
unfoldable pub without : List String → List String → List String
without [] values = []
without (x ∷ xs) values =
    let rest = without xs values in if contains x values then rest else x ∷ rest

-- `[...new Set(array)]`: the first occurrence of each value, in order.
unfoldable pub unique : List String → List String
unfolding without
unique [] = []
unique (x ∷ xs) = x ∷ without (unique xs) (x ∷ [])

-- `removeStringValues`, over any conversion to lower case
unfoldable pub remove_string_values : (String → String) → List String → List String → List String
unfolding without
remove_string_values to_lower array removed =
    let lower = map to_lower array in
    let lower_removed = map to_lower removed in
    if length lower_removed == 0 then lower else without lower lower_removed
