-- ===== src/Defi/BiSwap.antt =====
-- src/defi/bi-swap/bi-swap.bsc.service.ts
use blockchain_task_server.Common.{ℕ, String, Option, List}
use blockchain_task_server.Effects.{Result, Action, pure, ◌>>=◌}
use blockchain_task_server.Lodash.{Lodash}
use blockchain_task_server.BigNumber.{BigNumberLib, number, big, mul, div}
use blockchain_task_server.Contracts.{Call, Reply}
use blockchain_task_server.Contracts.Infos.{batch_infos}
use blockchain_task_server.Defi.FarmWallet.{Farm, WalletFarm, farm_wallet_info}
use blockchain_task_server.FarmJob.Yields.{FarmInfo}

-- What the service asks of the contracts: its calls, its encoded functions, and their decoded results.
pub record BiSwapContext (S : Type 0) : Type 0 where
  pub farm_address : String
  pub amm_factory_address : String
  pub aggregate : List Call → Action S (List Reply)
  pub pool_length : Action S ℕ
  pub total_alloc_point : Action S ℕ
  pub bsw_per_block : Action S ℕ
  pub staking_percent : Action S ℕ
  pub percent_dec : Action S ℕ
  pub all_pairs_length : Action S ℕ
  pub encode_pool_info : ℕ → String
  pub encode_all_pairs : ℕ → String
  pub encode_user_info : ℕ → String → String
  pub encode_pending_bsw : ℕ → String → String
  pub decode_pool_info : String → Result FarmInfo
  pub decode_all_pairs : String → Result String
  pub decode_user_amount : String → Result ℕ
  pub decode_pending_bsw : String → Result ℕ

module _ {S B : Type 0} (lib : BigNumberLib B) (lodash : Lodash) (c : BiSwapContext S) where
  unfoldable pub get_farm_total_length : Action S ℕ
  get_farm_total_length = c.pool_length

  unfoldable pub get_farm_total_alloc_point : Action S ℕ
  get_farm_total_alloc_point = c.total_alloc_point

  unfoldable pub get_farm_reward_per_block : Action S String
  get_farm_reward_per_block = do
    reward ← c.bsw_per_block
    percent ← c.staking_percent
    dec ← c.percent_dec
    pure (lib.to_string (div lib (big (mul lib (number reward) (number percent))) (number dec)))

  abbrev pub pool_info_call : ℕ → Call
  pool_info_call pid = (c.farm_address, c.encode_pool_info pid)

  unfoldable pub get_farm_infos : List ℕ → Action S (List (Option FarmInfo))
  unfolding batch_infos
  get_farm_infos = batch_infos c.aggregate pool_info_call c.decode_pool_info

  unfoldable pub get_amm_factory_total_length : Action S ℕ
  get_amm_factory_total_length = c.all_pairs_length

  -- The address of a pair, or none, where the code returns an empty array.
  unfoldable pub get_amm_factory_infos : List ℕ → Action S (List (Option String))
  unfolding batch_infos
  get_amm_factory_infos =
      batch_infos c.aggregate (λ pid. (c.amm_factory_address, c.encode_all_pairs pid))
        c.decode_all_pairs

  abbrev pub user_info_call : String → Farm → Call
  user_info_call wallet farm = (c.farm_address, c.encode_user_info farm.pid wallet)

  abbrev pub pending_call : String → Farm → Call
  pending_call wallet farm = (c.farm_address, c.encode_pending_bsw farm.pid wallet)

  unfoldable pub get_farm_wallet_info : List Farm → String → Action S (List (WalletFarm B))
  unfolding farm_wallet_info
  get_farm_wallet_info farms wallet =
      farm_wallet_info lib c.decode_user_amount c.decode_pending_bsw lodash c.aggregate
        (user_info_call wallet) (pending_call wallet) farms
