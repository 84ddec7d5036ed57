-- ===== src/Arrays/Members.antt =====
-- What the helpers that remove and merge values keep.
use text.Mathlib.TextPositions.{eq_refl}
use blockchain_task_server.Common.{
  String, Bool, true, not, ◌&&◌, List, [], ◌∷◌, ◌≡◌, refl, arith, map, eq_iff,
}
use blockchain_task_server.Arrays.{contains, without, unique, remove_string_values}

pub contains-without :
    (x : String) (xs values : List String)
    → contains x (without xs values) ≡ (contains x xs && not (contains x values))
unfolding without
contains-without x [] values = ground arith
contains-without x (y ∷ ys) values = ground (arith, eq_iff x y, contains-without x ys values)

-- The values that are left are those of the array, in lower case, that are no removed value in lower
-- case.
pub contains-remove_string_values :
    (to_lower : String → String) (x : String) (array removed : List String)
    → contains x (remove_string_values to_lower array removed)
      ≡ (contains x (map to_lower array) && not (contains x (map to_lower removed)))
unfolding remove_string_values
contains-remove_string_values to_lower x array [] = ground arith
contains-remove_string_values to_lower x array (r ∷ rs) =
    ground (arith, contains-without x (map to_lower array) (map to_lower (r ∷ rs)))

pub contains-unique : (x : String) (xs : List String) → contains x (unique xs) ≡ contains x xs
unfolding unique
contains-unique x [] = refl
contains-unique x (y ∷ ys) =
    ground (arith, contains-without x (unique ys) (y ∷ []), contains-unique x ys)

-- No value occurs twice.
unfoldable pub has_no_repeats : List String → Bool
has_no_repeats [] = true
has_no_repeats (x ∷ xs) = not (contains x xs) && has_no_repeats xs

has_no_repeats-without :
    (xs values : List String) → has_no_repeats xs ≡ true → has_no_repeats (without xs values) ≡ true
unfolding has_no_repeats without
has_no_repeats-without [] values h = refl
has_no_repeats-without (x ∷ xs) values h =
    ground (arith, contains-without x xs values, has_no_repeats-without xs values)

pub has_no_repeats-unique : (xs : List String) → has_no_repeats (unique xs) ≡ true
unfolding has_no_repeats unique
has_no_repeats-unique [] = refl
has_no_repeats-unique (x ∷ xs) = ground (
  arith,
  eq_refl x,
  contains-without x (unique xs) (x ∷ []),
  has_no_repeats-without (unique xs) (x ∷ []) (has_no_repeats-unique xs),
)
