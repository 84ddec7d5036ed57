-- ===== src/MdexJob/Meanings.antt =====
-- What the big numbers of the loop over the halvings stand for, where they compute exactly.
use blockchain_task_server.Common.{ℕ, ◌+◌, ◌-◌, ◌*◌, ◌≤◌, ◌≡◌, refl, ap, ◌∙◌, ltb}
use blockchain_task_server.BigNumber.{
  BigNumberLib, IsExact, Value, number, big, of_ℕ, to_big_number, add, sub, mul, is_greater_than,
}

module _ {B : Type 0} (lib : BigNumberLib B) (exact : IsExact lib) where
  abbrev pub Means : Value B → ℕ → Type 0
  Means v x = to_big_number lib v ≡ of_ℕ lib x

  pub big-Means : (b : B) (x : ℕ) → b ≡ of_ℕ lib x → Means (big b) x
  unfolding to_big_number
  big-Means b x e = exact.new_big-to_string b ∙ e

  pub number-Means : (x : ℕ) → Means (number x) x
  unfolding to_big_number
  number-Means x = refl

  pub add-Means : (v w : Value B) (x y : ℕ) → Means v x → Means w y → add lib v w ≡ of_ℕ lib (x + y)
  unfolding add
  add-Means v w x y e f =
      ap (λ a. lib.plus a (to_big_number lib w)) e
      ∙ (ap (lib.plus (of_ℕ lib x)) f ∙ exact.plus_law x y)

  pub mul-Means : (v w : Value B) (x y : ℕ) → Means v x → Means w y → mul lib v w ≡ of_ℕ lib (x * y)
  unfolding mul
  mul-Means v w x y e f =
      ap (λ a. lib.multiplied_by a (to_big_number lib w)) e
      ∙ (ap (lib.multiplied_by (of_ℕ lib x)) f ∙ exact.times_law x y)

  pub sub-Means :
      (v w : Value B) (x y : ℕ) → y ≤ x → Means v x → Means w y → sub lib v w ≡ of_ℕ lib (x - y)
  unfolding sub
  sub-Means v w x y h e f =
      ap (λ a. lib.minus a (to_big_number lib w)) e
      ∙ (ap (lib.minus (of_ℕ lib x)) f ∙ exact.minus_law x y h)

  pub greater-Means :
      (v w : Value B) (x y : ℕ) → Means v x → Means w y → is_greater_than lib v w ≡ ltb y x
  unfolding is_greater_than
  greater-Means v w x y e f =
      ap (λ a. lib.greater? a (to_big_number lib w)) e
      ∙ (ap (lib.greater? (of_ℕ lib x)) f ∙ exact.greater_law x y)

  -- `add(a, mul(sub(r, l), k))`
  pub segment-Means :
      (a r l k : Value B) (t x y z : ℕ)
      → y ≤ x
      → Means a t
      → Means r x
      → Means l y
      → Means k z
      → add lib a (big (mul lib (big (sub lib r l)) k)) ≡ of_ℕ lib (t + (x - y) * z)
  segment-Means a r l k t x y z h ea er el ek = add-Means a _ t ((x - y) * z) ea (
      big-Means _ _
        (mul-Means (big (sub lib r l)) k (x - y) z (big-Means _ _ (sub-Means r l x y h er el)) ek))
