-- ===== src/Swap/Distinct.antt =====
-- The filter of `getAllCurrencyCombinations` on the first occurrence of a pair.
use mathlib.Core.Option.{some-injective}
use blockchain_task_server.Common.{
  ℕ, zero, suc, ◌+◌, ◌≤◌, ◌<◌, Bool, true, false, Option, none, some, List, [], ◌∷◌, ◌≡◌, ap, ◌∙◌,
  arith, get_elem?, map, All, Option-cases, Bool-cases, inl, inr,
}
use blockchain_task_server.Swap.{
  find_index, is_at, is_same_pair, first_from, all_pairs, sort_pair, get_all_currency_combinations,
}

-- The first index is at most that of any value that passes the test.
find_index-le :
    {A : Type 0} (test : A → Bool) (xs : List A) (i j : ℕ) (x : A)
    → get_elem? xs i ≡ some x
    → test x ≡ true
    → find_index test xs ≡ some j
    → j ≤ i
unfolding find_index
find_index-le test [] i j x h t e = cc
find_index-le test (y ∷ ys) zero j x h t e = ground (arith, some-injective y x h)
find_index-le test (y ∷ ys) (suc i) j x h t e = elim (Option-cases (find_index test ys)) [
  | inl none-left ↦ ground arith
  | inr (k, found) ↦ let le = find_index-le test ys i k x h t found in ground arith
]

module _ {A : Type 0} (equals sorts_before : A → A → Bool) where
  -- No two pairs of the list have the same two tokens.
  abbrev pub AreDistinct : List (A × A) → Type 0
  AreDistinct [] = Unit
  AreDistinct (x ∷ xs) = All (λ y. is_same_pair equals sorts_before y x ≡ false) xs × AreDistinct xs

  is_at-some : (i : ℕ) (o : Option ℕ) → is_at i o ≡ true → o ≡ some i
  is_at-some i none e = cc
  is_at-some i (some j) e = ground arith

  -- A pair that is kept behind a place has not the same tokens as the pair at that place.
  first_from-later :
      (k : ℕ) (xs pairs : List (A × A)) (i : ℕ) (x : A × A)
      → i < k
      → get_elem? pairs i ≡ some x
      → All
          (λ y. is_same_pair equals sorts_before y x ≡ false)
          (first_from equals sorts_before k xs pairs)
  unfolding first_from
  first_from-later k [] pairs i x lt h = tt
  first_from-later k (y ∷ ys) pairs i x lt h =
      let test = is_same_pair equals sorts_before y in
      let later = first_from-later (suc k) ys pairs i x (omega arith) h in
      elim (Bool-cases (is_at k (find_index test pairs))) [
        | inl kept ↦ rw kept (
          elim (Bool-cases (test x)) [
            | inl same ↦
                let le = find_index-le test pairs i k x h same (is_at-some k _ kept) in ground arith
            | inr differs ↦ differs
          ],
          later,
        )
        | inr dropped ↦ rw dropped later
      ]

  first_from-AreDistinct :
      (k : ℕ) (xs pairs : List (A × A))
      → ((i : ℕ) → get_elem? pairs (k + i) ≡ get_elem? xs i)
      → AreDistinct (first_from equals sorts_before k xs pairs)
  unfolding first_from
  first_from-AreDistinct k [] pairs h = tt
  first_from-AreDistinct k (x ∷ xs) pairs h =
      let rest =
        first_from-AreDistinct (suc k) xs pairs
          λ i. ap (get_elem? pairs) (omega arith) ∙ h (suc i) in
      elim (Bool-cases (is_at k (find_index (is_same_pair equals sorts_before x) pairs))) [
        | inl kept ↦ rw kept (
          first_from-later (suc k) xs pairs k x (omega arith)
              (ap (get_elem? pairs) (omega arith) ∙ h 0),
          rest,
        )
        | inr dropped ↦ rw dropped rest
      ]

  is_same_pair-sort_pair :
      (y x : A × A)
      → is_same_pair equals sorts_before
          (sort_pair equals sorts_before y)
          (sort_pair equals sorts_before x)
        ≡ is_same_pair equals sorts_before y x
  unfolding is_same_pair
  is_same_pair-sort_pair (y0, y1) (x0, x1) = ground arith

  All-sort_pair :
      (x : A × A) (ys : List (A × A))
      → All (λ y. is_same_pair equals sorts_before y x ≡ false) ys
      → All
          (λ y. is_same_pair equals sorts_before y (sort_pair equals sorts_before x) ≡ false)
          (map (sort_pair equals sorts_before) ys)
  All-sort_pair x [] h = tt
  All-sort_pair x (y ∷ ys) (h, hs) = (is_same_pair-sort_pair y x ∙ h, All-sort_pair x ys hs)

  AreDistinct-sort_pair :
      (xs : List (A × A)) → AreDistinct xs → AreDistinct (map (sort_pair equals sorts_before) xs)
  AreDistinct-sort_pair [] h = tt
  AreDistinct-sort_pair (x ∷ xs) (h, hs) = (All-sort_pair x xs h, AreDistinct-sort_pair xs hs)

  -- No two of the pairs that a swap may go through have the same two tokens, in either order.
  pub combinations-AreDistinct :
      (a b : A) (common : List A)
      → AreDistinct (get_all_currency_combinations equals sorts_before a b common)
  unfolding get_all_currency_combinations
  combinations-AreDistinct a b common =
      let pairs = all_pairs equals sorts_before a b common in
      AreDistinct-sort_pair (first_from equals sorts_before 0 pairs pairs)
        (first_from-AreDistinct 0 pairs pairs λ i. ap (get_elem? pairs) (omega arith))
