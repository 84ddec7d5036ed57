-- ===== src/BigNumber.antt =====
-- libs/helper/src/bignumber.ts: the wrappers of bignumber.js that the services call. The library is
-- a record of operations, with its documented behaviour on the natural numbers; a JavaScript number
-- that counts something is a ℕ, and the counts stay below 2^53.
pub mod Naturals
pub mod Decimals
use blockchain_task_server.Common.{ℕ, ◌-◌, ◌+◌, ◌*◌, ◌≤◌, String, Bool, ◌≡◌, ltb, leb, ◌==◌}

pub record BigNumberLib (B : Type 0) : Type 0 where
  -- `new BigNumber(text)`, and the text of a value
  pub new_big : String → B
  pub to_string : B → String
  pub plus : B → B → B
  pub minus : B → B → B
  pub multiplied_by : B → B → B
  pub divided_by : B → B → B
  pub to_power : B → B → B
  pub negated : B → B
  pub shifted_up : B → ℕ → B
  pub shifted_down : B → ℕ → B
  pub fixed : B → ℕ → String
  pub zero? : B → Bool
  pub greater? : B → B → Bool
  pub greater_or_equal? : B → B → Bool
  pub less? : B → B → Bool
  pub less_or_equal? : B → B → Bool
  -- `toString` of a JavaScript number, and `Number` of a text
  pub print_number : ℕ → String
  pub read_number : String → ℕ

-- An argument of a wrapper, which calls its `toString`.
pub data Value (B : Type 0) : Type 0 where
  number : ℕ → Value B
  big : B → Value B
  text : String → Value B

module _ {B : Type 0} (lib : BigNumberLib B) where
  open lib use {
    new_big, to_string, shifted_up, fixed, plus, minus, multiplied_by, divided_by, to_power, zero?,
    greater?, greater_or_equal?, less?, less_or_equal?, print_number, read_number,
  }

  abbrev pub value_string : Value B → String
  value_string (number n) = print_number n
  value_string (big b) = to_string b
  value_string (text s) = s

  unfoldable pub to_big_number : Value B → B
  to_big_number value = new_big (value_string value)

  unfoldable pub is_zero : Value B → Bool
  unfolding to_big_number
  is_zero value = zero? (to_big_number value)

  unfoldable pub add : Value B → Value B → B
  unfolding to_big_number
  add a b = plus (to_big_number a) (to_big_number b)

  unfoldable pub sub : Value B → Value B → B
  unfolding to_big_number
  sub a b = minus (to_big_number a) (to_big_number b)

  unfoldable pub mul : Value B → Value B → B
  unfolding to_big_number
  mul a b = multiplied_by (to_big_number a) (to_big_number b)

  unfoldable pub div : Value B → Value B → B
  unfolding to_big_number
  div a b = divided_by (to_big_number a) (to_big_number b)

  unfoldable pub pow : Value B → Value B → B
  unfolding to_big_number
  pow a b = to_power (to_big_number a) (to_big_number b)

  unfoldable pub to_negated : Value B → B
  unfolding to_big_number
  to_negated value = lib.negated (to_big_number value)

  unfoldable pub to_fixed : Value B → ℕ → String
  unfolding to_big_number
  to_fixed value point = fixed (to_big_number value) point

  unfoldable pub shift : Value B → ℕ → B
  unfolding to_big_number
  shift value n = shifted_up (to_big_number value) n

  unfoldable pub is_greater_than : Value B → Value B → Bool
  unfolding to_big_number
  is_greater_than a b = greater? (to_big_number a) (to_big_number b)

  unfoldable pub is_greater_than_or_equal : Value B → Value B → Bool
  unfolding to_big_number
  is_greater_than_or_equal a b = greater_or_equal? (to_big_number a) (to_big_number b)

  unfoldable pub is_less_than : Value B → Value B → Bool
  unfolding to_big_number
  is_less_than a b = less? (to_big_number a) (to_big_number b)

  unfoldable pub is_less_than_or_equal : Value B → Value B → Bool
  unfolding to_big_number
  is_less_than_or_equal a b = less_or_equal? (to_big_number a) (to_big_number b)

  -- `Number(value)`
  abbrev pub to_number : B → ℕ
  to_number b = read_number (to_string b)

  -- The number that a natural is for the library.
  abbrev pub of_ℕ : ℕ → B
  of_ℕ n = new_big (print_number n)

  -- The documented behaviour.
  pub record IsExact : Type 0 where
    pub new_big-to_string : (b : B) → new_big (to_string b) ≡ b
    pub plus_law : (a b : ℕ) → plus (of_ℕ a) (of_ℕ b) ≡ of_ℕ (a + b)
    pub minus_law : (a b : ℕ) → b ≤ a → minus (of_ℕ a) (of_ℕ b) ≡ of_ℕ (a - b)
    pub times_law : (a b : ℕ) → multiplied_by (of_ℕ a) (of_ℕ b) ≡ of_ℕ (a * b)
    pub zero_law : (a : ℕ) → zero? (of_ℕ a) ≡ (a == 0)
    pub greater_law : (a b : ℕ) → greater? (of_ℕ a) (of_ℕ b) ≡ ltb b a
    pub greater_or_equal_law : (a b : ℕ) → greater_or_equal? (of_ℕ a) (of_ℕ b) ≡ leb b a
    pub less_law : (a b : ℕ) → less? (of_ℕ a) (of_ℕ b) ≡ ltb a b
    pub less_or_equal_law : (a b : ℕ) → less_or_equal? (of_ℕ a) (of_ℕ b) ≡ leb a b
    pub number_law : (a : ℕ) → to_number (of_ℕ a) ≡ a
