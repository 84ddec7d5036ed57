-- ===== src/Defi/FarmWallet.antt =====
-- `getFarmWalletInfo`, what a wallet has in the farms of an exchange, by two calls for each farm. Each
-- service in src/defi holds its own copy of these lines, with other calls; those of
-- src/defi/pancake-swap/pancake-swap.bsc.service.ts are the ones here.
use blockchain_task_server.Common.{
  ℕ, String, ◌&&◌, Option, none, some, List, [], ◌∷◌, ◌≡◌, refl, map, if◌then◌else◌, arith,
}
use blockchain_task_server.Effects.{
  Result, ok, err, Action, from_result, ◌>>=◌, collect, then_result,
}
use blockchain_task_server.Lodash.{Lodash, IsDocumented}
use blockchain_task_server.Arrays.{flat}
use blockchain_task_server.BigNumber.{BigNumberLib, number, big, is_zero}
use blockchain_task_server.BigNumber.Decimals.{divide_decimals}
use blockchain_task_server.Contracts.{Call, Reply, Answers, decode_or}
use blockchain_task_server.Contracts.Batch.{batch-item_by_item}
use blockchain_task_server.Template.Pair.Data.{type_error}
use blockchain_task_server.FarmJob.Yields.{FarmToken}

-- The columns of a farm that the services read.
pub record Farm : Type 0 where
  pub name : String
  pub address : String
  pub pid : ℕ
  pub stake_tokens : List FarmToken
  pub reward_tokens : List FarmToken
  pub json : String

-- A farm with what the wallet has in it.
pub record WalletFarm (B : Type 0) : Type 0 where
  pub farm : Farm
  pub stake_amount : List B
  pub reward_amount : List B

-- The first item, where the code reads a property of it.
abbrev pub first_of : {A : Type 0} → List A → Result A
first_of [] = err type_error
first_of (x ∷ xs) = ok x

module _ {B : Type 0} (lib : BigNumberLib B) (decode_staked decode_reward : String → Result ℕ) where
  -- The amounts of a farm, unless both are zero once more behind the decimals.
  unfoldable pub wallet_amounts : Farm → ℕ → ℕ → FarmToken → FarmToken → Option (WalletFarm B)
  unfolding divide_decimals
  wallet_amounts farm staked reward stake_token reward_token =
      let stake_amount = divide_decimals lib (number staked) stake_token.decimals in
      let reward_amount = divide_decimals lib (number reward) reward_token.decimals in
      if is_zero lib (big stake_amount) && is_zero lib (big reward_amount)
      then none
      else some (record {
        farm = farm;
        stake_amount = stake_amount ∷ [];
        reward_amount = reward_amount ∷ [];
      })

  -- The rest of the callback behind the two decoded amounts.
  unfoldable pub wallet_farm : Farm → ℕ → ℕ → Result (Option (WalletFarm B))
  unfolding wallet_amounts
  wallet_farm farm staked reward =
      if is_zero lib (number staked) && is_zero lib (number reward)
      then ok none
      else then_result (first_of farm.stake_tokens) λ stake_token.
        then_result (first_of farm.reward_tokens)
          λ reward_token. ok (wallet_amounts farm staked reward stake_token reward_token)

  -- The callback on a farm with its two replies.
  unfoldable pub wallet_info : Farm → Reply → Reply → Result (Option (WalletFarm B))
  unfolding wallet_farm decode_or
  wallet_info farm user pending = then_result (decode_or decode_staked 0 user) λ staked.
      then_result (decode_or decode_reward 0 pending) λ reward. wallet_farm farm staked reward

  -- The callback with its destructuring, which throws where a part is `undefined`.
  unfoldable pub zipped_info : Option Farm × Option (List Reply) → Result (Option (WalletFarm B))
  unfolding wallet_info
  zipped_info (some farm, some (user ∷ pending ∷ rest)) = wallet_info farm user pending
  zipped_info _ = err type_error

  module _ {S : Type 0} (lodash : Lodash) (aggregate : List Call → Action S (List Reply))
      (user_call pending_call : Farm → Call) where
    abbrev pub wallet_calls : Farm → List Call
    wallet_calls farm = user_call farm ∷ pending_call farm ∷ []

    unfoldable pub farm_wallet_info : List Farm → Action S (List (WalletFarm B))
    unfolding zipped_info flat collect
    farm_wallet_info farms = do
      replies ← aggregate (flat (map wallet_calls farms))
      from_result (collect zipped_info (lodash.zip farms (lodash.chunk replies 2)))

    module _ (documented : IsDocumented lodash) (answer : S → Call → Reply)
        (answers : Answers aggregate answer) where
      -- What the wallet has in each farm, by the answers to the two calls for this farm.
      pub farm_by_farm : S → List Farm → Result (List (WalletFarm B))
      farm_by_farm s =
          collect
            λ farm. wallet_info farm (answer s (user_call farm)) (answer s (pending_call farm))

      -- If the batch call returns, the wallet's part in the farms is what the answers for each farm say of
      -- this farm, for one farm after the other: no reply is read for another farm.
      pub farm_wallet_info_lem :
          (farms : List Farm) (s : S) (replies : List Reply)
          → (aggregate (flat (map wallet_calls farms)) s).0 ≡ ok replies
          → (farm_wallet_info farms s).0 ≡ farm_by_farm s farms
      unfolding farm_wallet_info farm_by_farm zipped_info
      farm_wallet_info_lem =
          batch-item_by_item lodash documented aggregate answer answers wallet_calls 2 (omega arith)
            (λ farm. refl) zipped_info
