-- ===== src/Swap.antt =====
-- src/swap/swap.service.ts: the pairs of tokens that a swap may go through, and the choice of the best
-- trade. The tokens and trades of the Uniswap SDK are arguments with the operations that are called.
pub mod Distinct
pub mod Choice
pub mod Protocols
pub mod Reserves
pub mod Offers
pub mod Exchanges
pub mod Search
use blockchain_task_server.Effects.{Result, ok, then_result}
use blockchain_task_server.Common.{
  ℕ, zero, suc, ◌+◌, Bool, true, false, not, ◌&&◌, ◌||◌, Option, none, some, List, [], ◌∷◌, ◌++◌,
  map, ◌==◌, if◌then◌else◌,
}

-- `array.findIndex(test)`, which is none where nothing is found.
unfoldable pub find_index : {A : Type 0} → (A → Bool) → List A → Option ℕ
find_index test [] = none
find_index test (x ∷ xs) =
    let rest = find_index test xs in
    if test x then some 0 else elim rest [ none ↦ none | some i ↦ some (suc i) ]

abbrev pub is_at : ℕ → Option ℕ → Bool
is_at i none = false
is_at i (some j) = i == j

abbrev pub filter : {A : Type 0} → (A → Bool) → List A → List A
filter test [] = []
filter test (x ∷ xs) = let rest = filter test xs in if test x then x ∷ rest else rest

-- `base.flatMap(b => others.map(o => [b, o]))`
abbrev pub products : {A : Type 0} → List A → List A → List (A × A)
products [] others = []
products (b ∷ bases) others = map (λ o. (b, o)) others ++ products bases others

-- `equals` and `sortsBefore` of a token of the SDK
module _ {A : Type 0} (equals sorts_before : A → A → Bool) where
  abbrev pub differ : A × A → Bool
  differ (t0, t1) = not (equals t0 t1)

  unfoldable pub is_same_pair : A × A → A × A → Bool
  is_same_pair (t0, t1) (o0, o1) = (equals t0 o0 && equals t1 o1) || (equals t0 o1 && equals t1 o0)

  -- The `filter` on the index of the first pair with the same two tokens, from an index on.
  unfoldable pub first_from : ℕ → List (A × A) → List (A × A) → List (A × A)
  unfolding is_same_pair find_index
  first_from i [] pairs = []
  first_from i (x ∷ xs) pairs =
      let rest = first_from (suc i) xs pairs in
      if is_at i (find_index (is_same_pair x) pairs) then x ∷ rest else rest

  unfoldable pub all_pairs : A → A → List A → List (A × A)
  all_pairs a b common = filter differ (
      (a, b)
      ∷ (map (λ base. (a, base)) common
          ++ (map (λ base. (b, base)) common ++ filter differ (products common common))))

  abbrev pub sort_pair : A × A → A × A
  sort_pair (t0, t1) = if sorts_before t0 t1 then (t0, t1) else (t1, t0)

  unfoldable pub get_all_currency_combinations : A → A → List A → List (A × A)
  unfolding all_pairs first_from
  get_all_currency_combinations a b common =
      let pairs = all_pairs a b common in map sort_pair (first_from 0 pairs pairs)

-- The price of a trade, `asFraction.multiply` of a price by one and the minimal difference of 50 in 10000 that
-- `getBestTrade` asks for, and `lessThan` on prices; `best_within` is the first trade of
-- `Trade.bestTradeExactIn` with at most so many hops, if there is one, which throws where there are no pairs.
module _ {A F : Type 0} (price : A → F) (scaled : F → F) (less_than : F → F → Bool) where
  -- `isTradeBetter`, as a condition
  unfoldable pub is_trade_better : Option A → Option A → Bool
  is_trade_better (some a) none = false
  is_trade_better none (some b) = true
  is_trade_better none none = false
  is_trade_better (some a) (some b) = less_than (scaled (price a)) (price b)

  unfoldable pub keep_better : Option A → Option A → Option A
  unfolding is_trade_better
  keep_better best current = if is_trade_better best current then current else best

  -- The loop over the numbers of hops.
  unfoldable pub get_best_trade : (ℕ → Result (Option A)) → Result (Option A)
  unfolding keep_better
  get_best_trade best_within = then_result (best_within 1) λ first.
      then_result (best_within 2) λ second.
        then_result (best_within 3)
          λ third. ok (keep_better (keep_better (keep_better none first) second) third)
