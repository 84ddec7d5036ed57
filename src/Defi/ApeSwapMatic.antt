-- ===== src/Defi/ApeSwapMatic.antt =====
-- src/defi/ape-swap/ape-swap.matic.service.ts, with sortByRewardTokens in src/defi/defi-farm.ts: farms that
-- reward in a second token.
pub mod Sorted
pub mod Infos
use blockchain_task_server.Common.{
  ℕ, String, Bool, ◌&&◌, Option, none, some, List, [], ◌∷◌, map, str_eq, if◌then◌else◌,
}
use blockchain_task_server.Effects.{
  Result, ok, err, Action, pure, throw, from_result, ◌>>=◌, map_each, map_result, then_result,
}
use blockchain_task_server.Lodash.{Lodash}
use blockchain_task_server.Arrays.{flat, remove_null}
use blockchain_task_server.BigNumber.{BigNumberLib, number, big, is_zero}
use blockchain_task_server.BigNumber.Decimals.{divide_decimals}
use blockchain_task_server.Contracts.{Call, Reply, decode_or}
use blockchain_task_server.Contracts.Infos.{decode_or_null, batch_infos}
use blockchain_task_server.Template.Pair.Data.{type_error}
use blockchain_task_server.FarmJob.Yields.{FarmToken}
use blockchain_task_server.RewarderJob.{RewarderInfo}
use blockchain_task_server.Defi.FarmWallet.{Farm, first_of}

-- What the second contract of farms tells of a pid.
pub record Farm2Pool : Type 0 where
  pub want : String
  pub strat : String

-- The calls of the service, its encoded functions, and their decoded results; and what
-- `get(JSON.parse(data), 'rewarder')` returns.
pub record ApeMaticContext (S : Type 0) : Type 0 where
  pub farm_address : String
  pub farm2_address : String
  pub amm_factory_address : String
  pub token_address : String
  pub aggregate : List Call → Action S (List Reply)
  pub get_farm_rewarder_reward_token : String → Action S String
  pub encode_pool_info : ℕ → String
  pub encode_farm2_pool_info : ℕ → String
  pub encode_all_pairs : ℕ → String
  pub encode_lp_token : ℕ → String
  pub encode_rewarder : ℕ → String
  pub encode_user_info : ℕ → String → String
  pub encode_pending_banana : ℕ → String → String
  pub encode_pending_tokens : ℕ → String → String
  pub decode_alloc_point : String → Result ℕ
  pub decode_farm2_pool_info : String → Result Farm2Pool
  pub decode_all_pairs : String → Result String
  pub decode_lp_token : String → Result String
  pub decode_rewarder : String → Result String
  pub decode_user_amount : String → Result ℕ
  pub decode_pending_banana : String → Result ℕ
  pub decode_pending_tokens : String → Result ℕ
  pub rewarder_of : String → Result String

-- A farm with its new `reward_tokens` and what the wallet has in it.
pub record RewardedFarm (B : Type 0) : Type 0 where
  pub farm : Farm
  pub reward_tokens : List (List FarmToken)
  pub stake_amount : List B
  pub reward_amount : List B

unfoldable pub tokens_at : List FarmToken → String → List FarmToken
tokens_at [] address = []
tokens_at (t ∷ ts) address =
    let rest = tokens_at ts address in if str_eq t.address address then t ∷ rest else rest

-- The tokens of each address: a list of lists.
unfoldable pub sort_by_reward_tokens : List FarmToken → List String → List (List FarmToken)
unfolding tokens_at
sort_by_reward_tokens tokens addresses = map (tokens_at tokens) addresses

-- The second item, where the code reads a property of it.
abbrev pub second_of : {A : Type 0} → List A → Result A
second_of (x ∷ y ∷ xs) = ok y
second_of _ = err type_error

module _ {S B : Type 0} (lib : BigNumberLib B) (lodash : Lodash) (c : ApeMaticContext S) where
  abbrev pub info_calls : ℕ → List Call
  info_calls pid =
      (c.farm_address, c.encode_pool_info pid)
      ∷ (c.farm_address, c.encode_lp_token pid)
      ∷ (c.farm_address, c.encode_rewarder pid)
      ∷ []

  -- The info of a pid, or null where a part is.
  abbrev pub joined : Option ℕ → Option String → Option String → Option RewarderInfo
  joined (some alloc_point) (some lp_token) (some rewarder) =
      some (record { lp_token = lp_token; alloc_point = alloc_point; rewarder = rewarder })
  joined _ _ _ = none

  -- The callback on the replies for a pid.
  unfoldable pub info_of : List Reply → Result (Option RewarderInfo)
  unfolding decode_or_null
  info_of (pool ∷ lp ∷ last ∷ rest) =
      then_result (decode_or_null c.decode_alloc_point pool) λ alloc_point.
        then_result (decode_or_null c.decode_lp_token lp) λ lp_token.
          then_result (decode_or_null c.decode_rewarder last)
            λ rewarder. ok (joined alloc_point lp_token rewarder)
  info_of _ = err type_error

  unfoldable pub get_farm_infos : List ℕ → Action S (List (Option RewarderInfo))
  unfolding info_of flat map_result
  get_farm_infos pids = do
    replies ← c.aggregate (flat (map info_calls pids))
    from_result (map_result info_of (lodash.chunk replies 3))

  unfoldable pub get_farm2_infos : List ℕ → Action S (List (Option Farm2Pool))
  unfolding batch_infos
  get_farm2_infos =
      batch_infos c.aggregate (λ pid. (c.farm2_address, c.encode_farm2_pool_info pid))
        c.decode_farm2_pool_info

  -- The address of a pair, or none, where the code returns an empty array.
  unfoldable pub get_amm_factory_infos : List ℕ → Action S (List (Option String))
  unfolding batch_infos
  get_amm_factory_infos =
      batch_infos c.aggregate (λ pid. (c.amm_factory_address, c.encode_all_pairs pid))
        c.decode_all_pairs

  -- The three calls for a farm, the last to the rewarder in its data.
  unfoldable pub farm_calls : String → Farm → Result (List Call)
  farm_calls wallet farm = then_result (c.rewarder_of farm.json) λ rewarder. ok (
      (c.farm_address, c.encode_user_info farm.pid wallet)
      ∷ (c.farm_address, c.encode_pending_banana farm.pid wallet)
      ∷ (rewarder, c.encode_pending_tokens farm.pid wallet)
      ∷ [])

  -- The amounts of a farm, unless all are zero once more behind the decimals.
  unfoldable pub rewarded_amounts :
      Farm
      → List (List FarmToken)
      → ℕ
      → ℕ
      → ℕ
      → FarmToken
      → FarmToken
      → FarmToken
      → Option (RewardedFarm B)
  unfolding divide_decimals
  rewarded_amounts farm sorted staked reward extra stake_token reward_token extra_token =
      let stake_amount = divide_decimals lib (number staked) stake_token.decimals in
      let reward_amount = divide_decimals lib (number reward) reward_token.decimals in
      let extra_amount = divide_decimals lib (number extra) extra_token.decimals in
      if is_zero lib (big stake_amount)
        && (is_zero lib (big reward_amount) && is_zero lib (big extra_amount))
      then none
      else some (record {
        farm = farm;
        reward_tokens = sorted;
        stake_amount = stake_amount ∷ [];
        reward_amount = reward_amount ∷ extra_amount ∷ [];
      })

  -- The callback behind the address of the rewarder's token. The tokens of the amounts are those that the
  -- farm had before they were sorted.
  unfoldable pub rewarded_farm : Farm → ℕ → ℕ → ℕ → String → Result (Option (RewardedFarm B))
  unfolding sort_by_reward_tokens rewarded_amounts
  rewarded_farm farm staked reward extra extra_address =
      let sorted =
        sort_by_reward_tokens farm.reward_tokens (c.token_address ∷ extra_address ∷ []) in
      then_result (first_of farm.stake_tokens) λ stake_token.
        then_result (first_of farm.reward_tokens) λ reward_token.
          then_result (second_of farm.reward_tokens) λ extra_token.
            ok (
              rewarded_amounts farm sorted staked reward extra stake_token reward_token extra_token)

  -- The callback behind the three decoded amounts.
  unfoldable pub wallet_farm : Farm → String → ℕ → ℕ → ℕ → Action S (Option (RewardedFarm B))
  unfolding rewarded_farm
  wallet_farm farm rewarder staked reward extra =
      if is_zero lib (number staked) && (is_zero lib (number reward) && is_zero lib (number extra))
      then pure none
      else (c.get_farm_rewarder_reward_token rewarder >>= λ address.
          from_result (rewarded_farm farm staked reward extra address))

  -- The callback on a farm with its replies, which throws where a part is `undefined`.
  unfoldable pub zipped_farm :
      Option Farm × Option (List Reply) → Action S (Option (RewardedFarm B))
  unfolding wallet_farm decode_or
  zipped_farm (some farm, some (user ∷ pending ∷ last ∷ rest)) = do
    rewarder ← from_result (c.rewarder_of farm.json)
    staked ← from_result (decode_or c.decode_user_amount 0 user)
    reward ← from_result (decode_or c.decode_pending_banana 0 pending)
    extra ← from_result (decode_or c.decode_pending_tokens 0 last)
    wallet_farm farm rewarder staked reward extra
  zipped_farm _ = throw type_error

  unfoldable pub get_farm_wallet_info : List Farm → String → Action S (List (RewardedFarm B))
  unfolding farm_calls zipped_farm flat map_result map_each remove_null
  get_farm_wallet_info farms wallet = do
    calls ← from_result (map_result (farm_calls wallet) farms)
    replies ← c.aggregate (flat calls)
    found ← map_each zipped_farm (lodash.zip farms (lodash.chunk replies 3))
    pure (remove_null found)
