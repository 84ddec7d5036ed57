-- ===== src/Defi/Bakery.antt =====
-- src/defi/bakery-swap/bakery-swap.bsc.service.ts, whose farms are known by the address of their stake token.
use blockchain_task_server.Common.{ℕ, String, Bool, Option, none, some, List, [], ◌∷◌, map}
use blockchain_task_server.Effects.{
  Result, ok, err, Action, from_result, ◌>>=◌, map_result, collect, then_result,
}
use blockchain_task_server.Lodash.{Lodash}
use blockchain_task_server.Arrays.{flat}
use blockchain_task_server.BigNumber.{BigNumberLib}
use blockchain_task_server.Contracts.{Call, Reply, decode_or}
use blockchain_task_server.Contracts.Infos.{decode_or_null, batch_infos}
use blockchain_task_server.Template.Pair.Data.{type_error}
use blockchain_task_server.Defi.FarmWallet.{Farm, WalletFarm, zipped_info}

-- What the contract tells of a stake token, and with it the address of the token.
pub record PoolInfo : Type 0 where
  pub alloc_point : ℕ
  pub exists : Bool

pub record BakeryInfo : Type 0 where
  pub lp_token : String
  pub pool : PoolInfo

-- The calls of the service, its encoded functions, and their decoded results; and what
-- `get(JSON.parse(data), 'lpToken')` returns.
pub record BakeryContext (S : Type 0) : Type 0 where
  pub farm_address : String
  pub zero_address : String
  pub amm_factory_address : String
  pub aggregate : List Call → Action S (List Reply)
  pub encode_pool_addresses : ℕ → String
  pub encode_pool_info_map : String → String
  pub encode_all_pairs : ℕ → String
  pub encode_pool_user_info_map : String → String → String
  pub encode_pending_token : String → String → String
  pub decode_pool_addresses : String → Result String
  pub decode_all_pairs : String → Result String
  pub decode_pool_info_map : String → Result PoolInfo
  pub decode_user_amount : String → Result ℕ
  pub decode_pending_token : String → Result ℕ
  pub lp_token_of : String → Result String

module _ {S B : Type 0} (lib : BigNumberLib B) (lodash : Lodash) (c : BakeryContext S) where
  abbrev pub address_call : ℕ → Call
  address_call pid = (c.farm_address, c.encode_pool_addresses pid)

  abbrev pub info_call : String → Call
  info_call address = (c.farm_address, c.encode_pool_info_map address)

  -- The callback on an address with the reply for it, either of which `zip` may have padded.
  unfoldable pub address_info : Option String × Option Reply → Result (Option BakeryInfo)
  unfolding decode_or_null
  address_info (some address, some reply) =
      then_result (decode_or_null c.decode_pool_info_map reply) (λ pool.
        ok (elim pool [
          | none ↦ none
          | some info ↦ some (record { lp_token = address; pool = info })
        ]))
  address_info _ = err type_error

  -- The second batch call, for the infos at the addresses.
  unfoldable pub infos_at : List String → Action S (List (Option BakeryInfo))
  unfolding address_info map_result
  infos_at addresses = do
    replies ← c.aggregate (map info_call addresses)
    from_result (map_result address_info (lodash.zip addresses replies))

  unfoldable pub get_farm_infos : List ℕ → Action S (List (Option BakeryInfo))
  unfolding infos_at decode_or map_result
  get_farm_infos pids = do
    replies ← c.aggregate (map address_call pids)
    addresses ← from_result (map_result (decode_or c.decode_pool_addresses c.zero_address) replies)
    infos_at addresses

  -- The address of a pair, or none, where the code returns an empty array.
  unfoldable pub get_amm_factory_infos : List ℕ → Action S (List (Option String))
  unfolding batch_infos
  get_amm_factory_infos =
      batch_infos c.aggregate (λ pid. (c.amm_factory_address, c.encode_all_pairs pid))
        c.decode_all_pairs

  -- The two calls for a farm, by the address in its data.
  unfoldable pub farm_calls : String → Farm → Result (List Call)
  farm_calls wallet farm = then_result (c.lp_token_of farm.json) λ lp_token. ok (
      (c.farm_address, c.encode_pool_user_info_map lp_token wallet)
      ∷ (c.farm_address, c.encode_pending_token lp_token wallet)
      ∷ [])

  unfoldable pub get_farm_wallet_info : List Farm → String → Action S (List (WalletFarm B))
  unfolding farm_calls map_result flat zipped_info collect
  get_farm_wallet_info farms wallet = do
    calls ← from_result (map_result (farm_calls wallet) farms)
    replies ← c.aggregate (flat calls)
    from_result (
        collect (zipped_info lib c.decode_user_amount c.decode_pending_token)
          (lodash.zip farms (lodash.chunk replies 2)))
