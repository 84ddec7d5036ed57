-- ===== src/AutoFarmJob.antt =====
-- src/scheduler-job/auto-farm-job/auto-farm-job.bsc.farm.service.ts: the job for farms that hand their
-- stakes to a contract with a strategy.
pub mod Units
pub mod Refinement
use blockchain_task_server.Common.{
  ℕ, String, Bool, true, false, Option, none, some, List, [], ◌∷◌, get_elem?, if◌then◌else◌,
}
use blockchain_task_server.Exceptions.{Thrown}
use blockchain_task_server.Effects.{Action, pure, throw, modify, ◌>>=◌, ◌>>◌, when}
use blockchain_task_server.Platform.{Platform, other}
use blockchain_task_server.BigNumber.{
  BigNumberLib, Value, number, big, text, mul, div, is_zero, to_big_number,
}
use blockchain_task_server.BigNumber.Decimals.{divide_decimals}
use blockchain_task_server.SchedulerJob.{World}
use blockchain_task_server.Template.{Local, on_env, in_transaction}
use blockchain_task_server.Template.Pair.Data.{type_error}
use blockchain_task_server.FarmJob.Yields.{
  FarmToken, Farm, FarmState, FarmYield, get_farm_asset_name, year_value,
}
use blockchain_task_server.FarmJob.Loop.{FarmNotes, attempt_with, run_logging}

-- What the contract tells of a pid: the stake token, the points, and the contract with the strategy.
pub record StratInfo : Type 0 where
  pub want : String
  pub alloc_point : ℕ
  pub strat : String

-- A farm to be created at a pid, with its assets' name, its stake token, its reward token and its data;
-- the new values and data of a farm; and the end of a farm.
pub data StratWrite : Type 0 where
  create_farm : ℕ → String → FarmToken → FarmToken → String → StratWrite
  update_farm : ℕ → FarmYield → String → StratWrite
  deactivate : ℕ → StratWrite

-- The DeFi service, the multicall contract, the farm and token services, and what `JSON.stringify`
-- returns for an error and for a strategy.
pub record StratContext (S B : Type 0) : Type 0 where
  pub get_farm_total_length : Action S ℕ
  pub get_farm_infos : List ℕ → Action S (List (Option StratInfo))
  pub get_farm_total_alloc_point : Action S ℕ
  pub get_farm_reward_per_block : Action S ℕ
  pub get_farm_strat_share_total : String → Action S ℕ
  pub get_safe_check_ca : String → Action S Bool
  pub block_time_second : Value B
  pub reward_token : FarmToken
  pub find_farm : ℕ → Action S (Option Farm)
  pub find_farm_in : ℕ → Action S (Option Farm)
  pub find_token_in : String → Action S (Option FarmToken)
  pub to_json : Thrown → Option String
  pub strat_json : String → String

module _ {S T B : Type 0} (p : Platform StratWrite S T) (lib : BigNumberLib B)
    (c : StratContext S B) where
  unfoldable pub get_farm_state : Action S (FarmState B)
  unfolding year_value
  get_farm_state = do
    total ← c.get_farm_total_alloc_point
    reward ← c.get_farm_reward_per_block
    pure (record {
      total_alloc_point = total;
      reward_value_in_one_year = year_value lib c.block_time_second c.reward_token reward;
    })

  -- `registerFarm`, on the stake token that it has found.
  unfoldable pub register_with : ℕ → String → Option FarmToken → Action S Bool
  unfolding get_farm_asset_name
  register_with pid strat none = pure false
  register_with pid strat (some stake) = do
    p.write_in (
        other (
          create_farm pid (get_farm_asset_name (stake ∷ []) (c.reward_token ∷ [])) stake
            c.reward_token (c.strat_json strat)))
    pure true

  unfoldable pub register_farm : ℕ → StratInfo → Action S Bool
  unfolding register_with
  register_farm pid info = c.find_token_in info.want >>= register_with pid info.strat

  -- The arithmetic of `refreshFarm`, on the shares of the strategy. It divides by the value of the
  -- liquidity whenever there are rewards.
  unfoldable pub strat_yield : ℕ → FarmState B → FarmToken → ℕ → FarmYield
  unfolding divide_decimals
  strat_yield alloc_point state stake shares =
      let amount = divide_decimals lib (number shares) stake.decimals in
      let value = mul lib (big amount) (text stake.price_value) in
      let share = div lib (number alloc_point) (number state.total_alloc_point) in
      let allocated = mul lib (big state.reward_value_in_one_year) (big share) in
      let apr =
        if is_zero lib (big allocated)
        then to_big_number lib (number 0)
        else mul lib (big (div lib (big allocated) (big value))) (number 100) in
      record {
        liquidity_amount = lib.to_string amount;
        liquidity_value = lib.to_string value;
        apr = lib.to_string apr;
      }

  -- `refreshFarm`, on the stake tokens of an active farm.
  unfoldable pub refresh_with : StratInfo → FarmState B → ℕ → List FarmToken → Action S (Unit {0})
  unfolding strat_yield
  refresh_with info state farm_id [] = throw type_error
  refresh_with info state farm_id (stake ∷ stakes) = do
    shares ← c.get_farm_strat_share_total info.strat
    p.write_in (
        other (
          update_farm farm_id (strat_yield info.alloc_point state stake shares)
            (c.strat_json info.strat)))

  unfoldable pub refresh_found : StratInfo → FarmState B → Option Farm → Action S (Unit {0})
  unfolding refresh_with
  refresh_found info state none = throw type_error
  refresh_found info state (some farm) =
      when farm.status (refresh_with info state farm.id farm.stake_tokens)

  unfoldable pub refresh_farm : ℕ → StratInfo → FarmState B → Action S (Unit {0})
  unfolding refresh_found
  refresh_farm pid info state = c.find_farm_in pid >>= refresh_found info state

  -- An inactive pool: its farm, if there is one, loses its status.
  unfoldable pub deactivate_farm : Option Farm → Action S (Unit {0})
  deactivate_farm none = pure tt
  deactivate_farm (some farm) = p.write (other (deactivate farm.id))

  -- The registration of a farm that is not there yet.
  unfoldable pub ensure_farm : ℕ → StratInfo → Option Farm → Action S Bool
  unfolding register_farm
  ensure_farm pid info none = register_farm pid info
  ensure_farm pid info (some farm) = pure true

  -- The writes of the transaction.
  unfoldable pub farm_writes : ℕ → FarmState B → Option Farm → StratInfo → Action S (Unit {0})
  unfolding ensure_farm refresh_farm
  farm_writes pid state farm info = do
    initialized ← ensure_farm pid info farm
    when initialized (refresh_farm pid info state)

  -- The rest of the `try` block of a pid whose strategy is a contract.
  unfoldable pub visit_valid :
      ℕ → FarmState B → Option Farm → StratInfo → Action (Local S FarmNotes) (Unit {0})
  unfolding deactivate_farm in_transaction farm_writes
  visit_valid pid state farm info =
      if is_zero lib (number info.alloc_point)
      then on_env (deactivate_farm farm)
      else (modify (λ l. record l { runner = true })
          >> on_env (in_transaction p (farm_writes pid state farm info)))

  -- The `try` block of a pid behind `findFarm`, on `farmInfos[pid]`: `undefined`, null or an info.
  unfoldable pub visit_info :
      ℕ
      → FarmState B
      → Option Farm
      → Option (Option StratInfo)
      → Action (Local S FarmNotes) (Unit {0})
  unfolding visit_valid
  visit_info pid state farm none = throw type_error
  visit_info pid state farm (some none) = pure tt
  visit_info pid state farm (some (some info)) =
      on_env (c.get_safe_check_ca info.strat) >>= λ valid.
      when valid (visit_valid pid state farm info)

  unfoldable pub visit_try :
      FarmState B → List (Option StratInfo) → ℕ → Action (Local S FarmNotes) (Unit {0})
  unfolding visit_info
  visit_try state infos pid =
      on_env (c.find_farm pid) >>= λ farm. visit_info pid state farm (get_elem? infos pid)

  unfoldable pub attempt : Action (Local S FarmNotes) (Unit {0})
  unfolding attempt_with visit_try get_farm_state
  attempt =
      attempt_with p c.to_json c.get_farm_total_length c.get_farm_infos get_farm_state visit_try

  unfoldable pub run : Action (World S) (Unit {0})
  unfolding attempt
  run = run_logging attempt
