-- ===== src/FarmJob.antt =====
-- src/scheduler-job/pancake-swap-job/pancake-swap-job.bsc.farm.service.ts, over farm.template.ts: the job
-- that registers the farms of an exchange and refreshes their yields, each in a transaction of its own.
pub mod Yields
pub mod Loop
pub mod Isolation
pub mod Units
pub mod Refinement
use blockchain_task_server.Common.{
  ℕ, String, Bool, true, false, not, ◌&&◌, ◌||◌, Option, none, some, List, [], ◌∷◌, ◌++◌, get_elem?,
  if◌then◌else◌,
}
use blockchain_task_server.Exceptions.{Thrown}
use blockchain_task_server.Effects.{
  Action, pure, throw, from_result, gets, modify, try_catch, try_finally, ◌>>=◌, ◌>>◌, when,
  for_each,
}
use blockchain_task_server.Platform.{Platform, other}
use blockchain_task_server.BigNumber.{
  BigNumberLib, Value, number, big, mul, div, is_zero, to_big_number,
}
use blockchain_task_server.SchedulerJob.{World}
use blockchain_task_server.Template.{Local, on_env, in_transaction}
use blockchain_task_server.Template.Pair.Data.{type_error}
use blockchain_task_server.FarmJob.Loop.{FarmNotes, attempt_with, run_farms}
use blockchain_task_server.FarmJob.Yields.{
  FarmToken, Farm, FarmInfo, FarmState, FarmWrite, create_farm, update_farm, deactivate,
  FarmContext, get_farm_asset_name, get_farm_state, farm_yield,
}

module _ {S T B : Type 0} (p : Platform FarmWrite S T) (lib : BigNumberLib B)
    (c : FarmContext S B) where
  -- `registerFarm`, on the stake token that it has found. No caller passes `data`.
  unfoldable pub register_with : ℕ → Option FarmToken → Action S Bool
  unfolding get_farm_asset_name
  register_with pid none = pure false
  register_with pid (some stake) = do
    p.write_in (
        other (
          create_farm pid (get_farm_asset_name (stake ∷ []) (c.reward_token ∷ [])) stake
            c.reward_token))
    pure true

  unfoldable pub register_farm : ℕ → String → Action S Bool
  unfolding register_with
  register_farm pid lp_token = c.find_token_in lp_token >>= register_with pid

  -- `refreshFarm`, on the stake tokens of an active farm.
  unfoldable pub refresh_with : ℕ → FarmState B → ℕ → List FarmToken → Action S (Unit {0})
  unfolding farm_yield
  refresh_with alloc_point state farm_id [] = throw type_error
  refresh_with alloc_point state farm_id (stake ∷ stakes) = do
    balance ← c.get_safe_erc20_balance_of stake.address
    p.write_in (other (update_farm farm_id (farm_yield lib alloc_point state stake balance)))

  unfoldable pub refresh_found : ℕ → FarmState B → Option Farm → Action S (Unit {0})
  unfolding refresh_with
  refresh_found alloc_point state none = throw type_error
  refresh_found alloc_point state (some farm) =
      when farm.status (refresh_with alloc_point state farm.id farm.stake_tokens)

  unfoldable pub refresh_farm : ℕ → ℕ → FarmState B → Action S (Unit {0})
  unfolding refresh_found
  refresh_farm pid alloc_point state = c.find_farm_in pid >>= refresh_found alloc_point state

  -- An inactive pool: its farm, if there is one, loses its status.
  unfoldable pub deactivate_farm : Option Farm → Action S (Unit {0})
  deactivate_farm none = pure tt
  deactivate_farm (some farm) = p.write (other (deactivate farm.id))

  -- The registration of a farm that is not there yet.
  unfoldable pub ensure_farm : ℕ → String → Option Farm → Action S Bool
  unfolding register_farm
  ensure_farm pid lp_token none = register_farm pid lp_token
  ensure_farm pid lp_token (some farm) = pure true

  -- The writes of the transaction.
  unfoldable pub farm_writes : ℕ → FarmState B → Option Farm → FarmInfo → Action S (Unit {0})
  unfolding ensure_farm refresh_farm
  farm_writes pid state farm info = do
    initialized ← ensure_farm pid info.lp_token farm
    when initialized (refresh_farm pid info.alloc_point state)

  -- The calls from the query runner's `connect` to its `commitTransaction`.
  unfoldable pub store : ℕ → FarmState B → Option Farm → FarmInfo → Action S (Unit {0})
  unfolding in_transaction farm_writes
  store pid state farm info = in_transaction p (farm_writes pid state farm info)

  -- The rest of the `try` block of a pid, on `farmInfos[pid]`: `undefined`, null or an info.
  unfoldable pub visit_info :
      ℕ
      → FarmState B
      → Option Farm
      → Option (Option FarmInfo)
      → Action (Local S FarmNotes) (Unit {0})
  unfolding deactivate_farm store
  visit_info pid state farm none = throw type_error
  visit_info pid state farm (some none) = pure tt
  visit_info pid state farm (some (some info)) =
      if is_zero lib (number info.alloc_point)
      then on_env (deactivate_farm farm)
      else (modify (λ l. record l { runner = true }) >> on_env (store pid state farm info))

  unfoldable pub visit_try :
      FarmState B → List (Option FarmInfo) → ℕ → Action (Local S FarmNotes) (Unit {0})
  unfolding visit_info
  visit_try state infos pid =
      on_env (c.find_farm pid) >>= λ farm. visit_info pid state farm (get_elem? infos pid)

  unfoldable pub attempt : Action (Local S FarmNotes) (Unit {0})
  unfolding attempt_with visit_try get_farm_state
  attempt =
      attempt_with p c.to_json c.get_farm_total_length c.get_farm_infos (get_farm_state lib c)
        visit_try

  unfoldable pub run : Action (World S) (Unit {0})
  unfolding attempt
  run = run_farms attempt
