-- ===== src/BigNumber/Naturals.antt =====
-- The wrappers on natural numbers.
use blockchain_task_server.Common.{ℕ, ◌-◌, ◌+◌, ◌≤◌, ◌≡◌, ltb, leb, ◌∙◌, ap}
use blockchain_task_server.BigNumber.{
  BigNumberLib, IsExact, number, big, of_ℕ, to_number, add, sub, is_greater_than,
  is_greater_than_or_equal, is_less_than,
}

module _ {B : Type 0} (lib : BigNumberLib B) (exact : IsExact lib) where
  pub add-number : (a b : ℕ) → to_number lib (add lib (number a) (number b)) ≡ a + b
  unfolding add
  add-number a b = ap (to_number lib) (exact.plus_law a b) ∙ exact.number_law (a + b)

  pub sub-number : (a b : ℕ) → b ≤ a → to_number lib (sub lib (number a) (number b)) ≡ a - b
  unfolding sub
  sub-number a b h = ap (to_number lib) (exact.minus_law a b h) ∙ exact.number_law (a - b)

  pub is_greater_than_number : (a b : ℕ) → is_greater_than lib (number a) (number b) ≡ ltb b a
  unfolding is_greater_than
  is_greater_than_number a b = exact.greater_law a b

  pub is_less_than_number : (a b : ℕ) → is_less_than lib (number a) (number b) ≡ ltb a b
  unfolding is_less_than
  is_less_than_number a b = exact.less_law a b

  pub is_greater_than_or_equal_number :
      (a b : ℕ) → is_greater_than_or_equal lib (number a) (number b) ≡ leb b a
  unfolding is_greater_than_or_equal
  is_greater_than_or_equal_number a b = exact.greater_or_equal_law a b

  -- The test `isGreaterThan(sub(a, b), c)`.
  pub is_greater_than-sub :
      (a b c : ℕ)
      → b ≤ a
      → is_greater_than lib (big (sub lib (number a) (number b))) (number c) ≡ ltb c (a - b)
  unfolding is_greater_than sub
  is_greater_than-sub a b c h =
      ap (λ x. lib.greater? x (of_ℕ lib c))
        (exact.new_big-to_string (lib.minus (of_ℕ lib a) (of_ℕ lib b)) ∙ exact.minus_law a b h)
      ∙ exact.greater_law (a - b) c
