-- ===== src/Arrays/Sequences.antt =====
-- The numbers of a sequence, and a sequence in two parts.
use mathlib.Core.Path.{ap₂}
use native.Mathlib.Nat.{zero-add, suc-add}
use blockchain_task_server.Common.{
  ℕ, zero, suc, ◌+◌, none, some, ◌∷◌, ◌++◌, ◌≡◌, refl, ap, ◌∙◌, arith, length, get_elem?,
  if◌then◌else◌, ltb,
}
use blockchain_task_server.Arrays.{sequence_from, fill_sequence_number}

get_elem?-sequence_from :
    (n start i k : ℕ)
    → get_elem? (sequence_from n start i) k ≡ (if ltb k n then some (i + k + start) else none)
unfolding sequence_from
get_elem?-sequence_from zero start i k = ground arith
get_elem?-sequence_from (suc n) start i zero = ground arith
get_elem?-sequence_from (suc n) start i (suc k) =
    get_elem?-sequence_from n start (i + 1) k ∙ ground arith

-- The sequence holds `start + k` at each place `k` below its length, and nothing behind.
pub get_elem?-fill_sequence_number :
    (number start k : ℕ)
    → get_elem? (fill_sequence_number number start) k
      ≡ (if ltb k number then some (k + start) else none)
unfolding fill_sequence_number
get_elem?-fill_sequence_number number start k =
    get_elem?-sequence_from number start 0 k ∙ ground arith

pub length-sequence_from : (n start i : ℕ) → length (sequence_from n start i) ≡ n
unfolding sequence_from
length-sequence_from zero start i = refl
length-sequence_from (suc n) start i = ap suc (length-sequence_from n start (i + 1))

-- A sequence depends on its first number only.
sequence_from-eq : (n a i b j : ℕ) → i + a ≡ j + b → sequence_from n a i ≡ sequence_from n b j
unfolding sequence_from
sequence_from-eq zero a i b j h = refl
sequence_from-eq (suc n) a i b j h =
    ap₂ ◌∷◌ h (sequence_from-eq n a (i + 1) b (j + 1) (omega arith))

sequence_from_split :
    (m n start i : ℕ)
    → sequence_from (m + n) start i ≡ sequence_from m start i ++ sequence_from n start (i + m)
unfolding sequence_from
sequence_from_split zero n start i =
    rw zero-add (sequence_from-eq n start i start (i + 0) (omega arith))
sequence_from_split (suc m) n start i = rw suc-add (
    ap (◌∷◌ (i + start)) (
      sequence_from_split m n start (i + 1)
      ∙ ap (λ k. sequence_from m start (i + 1) ++ k)
          (sequence_from-eq n start (i + 1 + m) start (i + suc m) (omega arith))))

-- Two adjacent sequences are one: what one tick leaves, the next one begins with.
pub fill_sequence_number_split :
    (m n start : ℕ)
    → fill_sequence_number (m + n) start
      ≡ fill_sequence_number m start ++ fill_sequence_number n (start + m)
unfolding fill_sequence_number
fill_sequence_number_split m n start =
    sequence_from_split m n start 0
    ∙ ap (λ k. sequence_from m start 0 ++ k)
        (sequence_from-eq n start (0 + m) (start + m) 0 (omega arith))
