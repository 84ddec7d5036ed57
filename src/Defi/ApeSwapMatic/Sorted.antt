-- ===== src/Defi/ApeSwapMatic/Sorted.antt =====
-- The reward tokens of a farm, which are sorted, and its amounts, which are not computed with the sorted
-- ones.
use mathlib.Core.Option.{some-injective}
use blockchain_task_server.Common.{
  ℕ, Bool, true, false, if◌then◌else◌, sym, ap, ◌∙◌, Option, none, some, List, [], ◌∷◌, ◌≡◌, ◌≢◌,
  arith, eq_iff,
}
use blockchain_task_server.Effects.{ok, then_result}
use blockchain_task_server.Lodash.{Lodash}
use blockchain_task_server.BigNumber.{BigNumberLib, number}
use blockchain_task_server.BigNumber.Decimals.{divide_decimals}
use blockchain_task_server.FarmJob.Yields.{FarmToken}
use blockchain_task_server.Contracts.Results.{ok-injective, then_result-ok}
use blockchain_task_server.Defi.FarmWallet.{Farm, first_of}
use blockchain_task_server.Defi.ApeSwapMatic.{
  second_of, ApeMaticContext, RewardedFarm, tokens_at, sort_by_reward_tokens, rewarded_amounts,
  rewarded_farm,
}

module _ {S B : Type 0} (lib : BigNumberLib B) (lodash : Lodash) (c : ApeMaticContext S) where
  sorted_pair :
      (base extra : FarmToken)
      → base.address ≢ extra.address
      → sort_by_reward_tokens (extra ∷ base ∷ []) (base.address ∷ extra.address ∷ [])
        ≡ (base ∷ []) ∷ (extra ∷ []) ∷ []
  unfolding sort_by_reward_tokens tokens_at
  sorted_pair base extra apart = ground (
    arith,
    eq_iff extra.address base.address,
    eq_iff base.address base.address,
    eq_iff extra.address extra.address,
    eq_iff base.address extra.address,
  )

  kept :
      (test : Bool) (r found : RewardedFarm B)
      → (if test then none else some r) ≡ some found
      → r ≡ found
  kept true r found e = cc
  kept false r found e = some-injective r found e

  amounts :
      (farm : Farm) (sorted : List (List FarmToken)) (staked reward more : ℕ)
      (stake base extra : FarmToken) (found : RewardedFarm B)
      → rewarded_amounts lib lodash c farm sorted staked reward more stake extra base ≡ some found
      → (found.reward_tokens ≡ sorted)
        × (found.reward_amount
            ≡ divide_decimals lib (number reward) extra.decimals
              ∷ divide_decimals lib (number more) base.decimals
              ∷ [])
  unfolding rewarded_amounts
  amounts farm sorted staked reward more stake base extra found e =
      let same = kept _ _ found e in
      (
        sym (ap (λ (f : RewardedFarm B). f.reward_tokens) same),
        sym (ap (λ (f : RewardedFarm B). f.reward_amount) same),
      )

  from_stored :
      (farm : Farm) (base extra : FarmToken) (staked reward more : ℕ) (stake : FarmToken)
      (tokens : List FarmToken) (sorted : List (List FarmToken)) (r : Option (RewardedFarm B))
      → tokens ≡ extra ∷ base ∷ []
      → then_result (first_of tokens) (λ a.
        then_result
          (second_of tokens)
          λ b. ok (rewarded_amounts lib lodash c farm sorted staked reward more stake a b))
        ≡ ok r
      → ok (rewarded_amounts lib lodash c farm sorted staked reward more stake extra base) ≡ ok r
  from_stored farm base extra staked reward more stake tokens sorted r stored e = rw stored at e

  -- If a farm has the token of its rewarder before the token of the exchange, and these have different
  -- addresses, and the callback returns the farm, then its reward tokens become two lists with one token
  -- each, that of the exchange first, whereas the rewards in the token of the exchange, which stand first
  -- too, are divided by the decimals of the rewarder's token, and the others by those of the exchange's.
  pub rewarded_farm-swapped :
      (farm : Farm) (base extra : FarmToken) (staked reward more : ℕ) (found : RewardedFarm B)
      → farm.reward_tokens ≡ extra ∷ base ∷ []
      → c.token_address ≡ base.address
      → base.address ≢ extra.address
      → rewarded_farm lib lodash c farm staked reward more extra.address ≡ ok (some found)
      → (found.reward_tokens ≡ (base ∷ []) ∷ (extra ∷ []) ∷ [])
        × (found.reward_amount
            ≡ divide_decimals lib (number reward) extra.decimals
              ∷ divide_decimals lib (number more) base.decimals
              ∷ [])
  unfolding rewarded_farm
  rewarded_farm-swapped farm base extra staked reward more found stored token apart e =
      let (stake, _, taken) = then_result-ok (first_of farm.stake_tokens) _ (some found) e in
      let (sorted, divided) = amounts farm _ staked reward more stake base extra found (
        ok-injective _ _
          (from_stored farm base extra staked reward more stake _ _ _ stored taken)) in
      (sorted ∙ (rw (stored, token) (sorted_pair base extra apart)), divided)
