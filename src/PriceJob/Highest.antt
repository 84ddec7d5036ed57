-- ===== src/PriceJob/Highest.antt =====
-- The choice of the pair with the highest liquidity.
use mathlib.Core.Path.{subst}
use blockchain_task_server.Common.{
  ℕ, suc, Bool, true, false, Option, none, some, List, [], ◌∷◌, ◌≡◌, refl, sym, ◌∙◌, ap, ◌⊎◌, inl,
  inr, All, get_elem?, Bool-cases, arith, if◌then◌else◌,
}
use blockchain_task_server.Effects.{Action}
use blockchain_task_server.Lodash.{Lodash}
use blockchain_task_server.BigNumber.{BigNumberLib, big, is_greater_than}
use blockchain_task_server.PriceJob.Params.{PriceToken, PairToken, Erc20Calls, zero_big}
use blockchain_task_server.PriceJob.SingleAmm.{
  liquidity_of, keep_higher, highest_from, find_highest_liquidity_pair,
}

module _ {S B : Type 0} (lib : BigNumberLib B) (lodash : Lodash) (calls : Erc20Calls S)
    (find_configured_pairs : PriceToken → Action S (List PairToken)) where
  abbrev pub liquidity_of_best : Option PairToken → B
  liquidity_of_best none = zero_big lib
  liquidity_of_best (some pair) = liquidity_of lib lodash calls find_configured_pairs pair

  abbrev pub above : Option PairToken → Option PairToken → Bool
  above a b = is_greater_than lib (big (liquidity_of_best a)) (big (liquidity_of_best b))

  -- The comparison of big numbers is a strict order, in which NaN is neither above nor below a number.
  pub record IsStrict : Type 0 where
    pub irreflexive : (a : B) → is_greater_than lib (big a) (big a) ≡ false
    pub transitive :
        (a b c : B)
        → is_greater_than lib (big a) (big b) ≡ true
        → is_greater_than lib (big b) (big c) ≡ true
        → is_greater_than lib (big a) (big c) ≡ true

  -- The pair is the one before, or stands in the list and is above it, and none of the list is above it.
  abbrev IsUpmost : Option PairToken → List PairToken → Option PairToken → Type 0
  IsUpmost best pairs result =
      ((result ≡ best) ⊎ (((k : ℕ) × (get_elem? pairs k ≡ result)) × (above result best ≡ true)))
      × All (λ pair. above (some pair) result ≡ false) pairs

  module _ (strict : IsStrict) where
    not_above :
        (a b c : Option PairToken)
        → above a c ≡ false
        → (b ≡ c) ⊎ (above b c ≡ true)
        → above a b ≡ false
    not_above a b c low (inl e) = ap (above a) e ∙ low
    not_above a b c low (inr high) = elim (Bool-cases (above a b)) [
      | inr done ↦ done
      | inl over ↦ absurd (
          ground (
            arith,
            low,
            strict.transitive (liquidity_of_best a) (liquidity_of_best b) (liquidity_of_best c) over
                high,
          ))
    ]

    position :
        (best result : Option PairToken) (pair : PairToken) (pairs : List PairToken)
        → (result ≡ best) ⊎ (((k : ℕ) × (get_elem? pairs k ≡ result)) × (above result best ≡ true))
        → (result ≡ best)
          ⊎ (((k : ℕ) × (get_elem? (pair ∷ pairs) k ≡ result)) × (above result best ≡ true))
    position best result pair pairs (inl e) = inl e
    position best result pair pairs (inr ((k, at), high)) = inr ((suc k, at), high)

    is_up :
        (best result : Option PairToken) (pairs : List PairToken)
        → (result ≡ best) ⊎ (((k : ℕ) × (get_elem? pairs k ≡ result)) × (above result best ≡ true))
        → (result ≡ best) ⊎ (above result best ≡ true)
    is_up best result pairs (inl e) = inl e
    is_up best result pairs (inr (_, high)) = inr high

    -- A pair that is higher than the best one before.
    moved_up :
        (best result : Option PairToken) (pair : PairToken) (pairs : List PairToken)
        → above (some pair) best ≡ true
        → IsUpmost (some pair) pairs result
        → IsUpmost best (pair ∷ pairs) result
    moved_up best result pair pairs high (inl e, rest) = (
      inr ((0, sym e), ap (λ o. above o best) e ∙ high),
      (
        not_above (some pair) result (some pair)
            (strict.irreflexive (liquidity_of_best (some pair))) (inl e),
        rest,
      ),
    )
    moved_up best result pair pairs high (inr ((k, at), over), rest) = (
      inr (
        (suc k, at),
        strict.transitive (liquidity_of_best result) (liquidity_of_best (some pair))
            (liquidity_of_best best) over high,
      ),
      (
        not_above (some pair) result (some pair)
            (strict.irreflexive (liquidity_of_best (some pair))) (inr over),
        rest,
      ),
    )

    kept :
        (best : Option PairToken) (pair : PairToken)
        → keep_higher lib lodash calls find_configured_pairs (best, liquidity_of_best best) pair ≡ (
            if above (some pair) best
            then (some pair, liquidity_of_best (some pair))
            else (best, liquidity_of_best best))
    unfolding keep_higher
    kept best pair = refl

    abbrev found_from : Option PairToken × B → List PairToken → Option PairToken
    found_from state pairs = (highest_from lib lodash calls find_configured_pairs state pairs).0

    highest_from-IsUpmost :
        (pairs : List PairToken) (best : Option PairToken)
        → IsUpmost best pairs (found_from (best, liquidity_of_best best) pairs)
    unfolding highest_from
    highest_from-IsUpmost [] best = (inl refl, tt)
    highest_from-IsUpmost (pair ∷ pairs) best = elim (Bool-cases (above (some pair) best)) [
      | inl high ↦
          subst (λ x. IsUpmost best (pair ∷ pairs) (found_from x pairs))
            (sym (kept best pair ∙ rw high refl))
            (moved_up best _ pair pairs high (highest_from-IsUpmost pairs (some pair)))
      | inr low ↦
          let (place, rest) = highest_from-IsUpmost pairs best in
          subst (λ x. IsUpmost best (pair ∷ pairs) (found_from x pairs))
            (sym (kept best pair ∙ rw low refl))
            (
              position best _ pair pairs place,
              (not_above (some pair) _ best low (is_up best _ pairs place), rest),
            )
    ]

    -- If the comparison of big numbers is a strict order, then the pair that is found is one of the pairs and
    -- its liquidity is above zero, or there is none; and no pair has a liquidity above that of the one that
    -- is found, or above zero if there is none.
    pub find_highest_liquidity_pair_lem :
        (pairs : List PairToken)
        → let result = find_highest_liquidity_pair lib lodash calls find_configured_pairs pairs in
          ((result ≡ none)
            ⊎ (((k : ℕ) × (get_elem? pairs k ≡ result)) × (above result none ≡ true)))
          × All (λ pair. above (some pair) result ≡ false) pairs
    unfolding find_highest_liquidity_pair
    find_highest_liquidity_pair_lem pairs = highest_from-IsUpmost pairs none
