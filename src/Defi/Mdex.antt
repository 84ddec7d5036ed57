-- ===== src/Defi/Mdex.antt =====
-- src/defi/mdex/mdex.bsc.service.ts, of which src/defi/mdex/mdex.heco.service.ts is a copy.
use blockchain_task_server.Common.{ℕ, String, Option, List}
use blockchain_task_server.Effects.{Result, Action}
use blockchain_task_server.Lodash.{Lodash}
use blockchain_task_server.BigNumber.{BigNumberLib}
use blockchain_task_server.Contracts.{Call, Reply}
use blockchain_task_server.Contracts.Infos.{batch_infos}
use blockchain_task_server.Defi.FarmWallet.{Farm, WalletFarm, farm_wallet_info}

-- What the contract tells of a pid.
pub record MdexInfo : Type 0 where
  pub lp_token : String
  pub alloc_point : ℕ
  pub total_amount : ℕ

-- The calls of the service, its encoded functions, and their decoded results.
pub record MdexService (S : Type 0) : Type 0 where
  pub farm_address : String
  pub amm_factory_address : String
  pub aggregate : List Call → Action S (List Reply)
  pub encode_pool_info : ℕ → String
  pub encode_all_pairs : ℕ → String
  pub encode_user_info : ℕ → String → String
  pub encode_pending : ℕ → String → String
  pub decode_pool_info : String → Result MdexInfo
  pub decode_all_pairs : String → Result String
  pub decode_user_amount : String → Result ℕ
  pub decode_pending : String → Result ℕ

module _ {S B : Type 0} (lib : BigNumberLib B) (lodash : Lodash) (c : MdexService S) where
  unfoldable pub get_farm_infos : List ℕ → Action S (List (Option MdexInfo))
  unfolding batch_infos
  get_farm_infos =
      batch_infos c.aggregate (λ pid. (c.farm_address, c.encode_pool_info pid)) c.decode_pool_info

  -- The address of a pair, or none, where the code returns an empty array.
  unfoldable pub get_amm_factory_infos : List ℕ → Action S (List (Option String))
  unfolding batch_infos
  get_amm_factory_infos =
      batch_infos c.aggregate (λ pid. (c.amm_factory_address, c.encode_all_pairs pid))
        c.decode_all_pairs

  unfoldable pub get_farm_wallet_info : List Farm → String → Action S (List (WalletFarm B))
  unfolding farm_wallet_info
  get_farm_wallet_info farms wallet =
      farm_wallet_info lib c.decode_user_amount c.decode_pending lodash c.aggregate
        (λ farm. (c.farm_address, c.encode_user_info farm.pid wallet))
        (λ farm. (c.farm_address, c.encode_pending farm.pid wallet)) farms
