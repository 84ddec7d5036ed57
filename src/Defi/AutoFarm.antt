-- ===== src/Defi/AutoFarm.antt =====
-- src/defi/auto-farm/auto-farm.bsc.service.ts
use blockchain_task_server.Common.{ℕ, String, Option, List}
use blockchain_task_server.Effects.{Result, Action}
use blockchain_task_server.Lodash.{Lodash}
use blockchain_task_server.BigNumber.{BigNumberLib}
use blockchain_task_server.Contracts.{Call, Reply}
use blockchain_task_server.Contracts.Infos.{batch_infos}
use blockchain_task_server.AutoFarmJob.{StratInfo}
use blockchain_task_server.Defi.FarmWallet.{Farm, WalletFarm, farm_wallet_info}

-- The calls of the service, its encoded functions, and their decoded results.
pub record AutoFarmContext (S : Type 0) : Type 0 where
  pub farm_address : String
  pub aggregate : List Call → Action S (List Reply)
  pub encode_pool_info : ℕ → String
  pub encode_user_info : ℕ → String → String
  pub encode_pending_auto : ℕ → String → String
  pub decode_pool_info : String → Result StratInfo
  pub decode_user_shares : String → Result ℕ
  pub decode_pending_auto : String → Result ℕ

module _ {S B : Type 0} (lib : BigNumberLib B) (lodash : Lodash) (c : AutoFarmContext S) where
  unfoldable pub get_farm_infos : List ℕ → Action S (List (Option StratInfo))
  unfolding batch_infos
  get_farm_infos =
      batch_infos c.aggregate (λ pid. (c.farm_address, c.encode_pool_info pid)) c.decode_pool_info

  unfoldable pub get_farm_wallet_info : List Farm → String → Action S (List (WalletFarm B))
  unfolding farm_wallet_info
  get_farm_wallet_info farms wallet =
      farm_wallet_info lib c.decode_user_shares c.decode_pending_auto lodash c.aggregate
        (λ farm. (c.farm_address, c.encode_user_info farm.pid wallet))
        (λ farm. (c.farm_address, c.encode_pending_auto farm.pid wallet)) farms

  unfoldable pub get_wallet_farms : List Farm → String → Action S (List (WalletFarm B))
  unfolding get_farm_wallet_info
  get_wallet_farms = get_farm_wallet_info
