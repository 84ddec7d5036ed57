-- ===== src/RewarderJob.antt =====
-- src/scheduler-job/ape-swap-job/ape-swap-job.matic.farm.service.ts, of which
-- src/scheduler-job/sushi-swap-job/sushi-swap-job.matic.farm.service.ts is a copy: the job for farms that
-- reward in a second token, which a contract of the farm pays out, the rewarder.
pub mod Units
pub mod Unrewarded
pub mod Refinement
use blockchain_task_server.Common.{
  ℕ, String, Bool, true, false, Option, none, some, List, [], ◌∷◌, ◌||◌, get_elem?, if◌then◌else◌,
  str_eq,
}
use blockchain_task_server.Exceptions.{Thrown}
use blockchain_task_server.Effects.{Action, pure, throw, modify, ◌>>=◌, ◌>>◌, when}
use blockchain_task_server.Platform.{Platform, other}
use blockchain_task_server.BigNumber.{
  BigNumberLib, Value, number, big, text, add, mul, div, is_zero, to_big_number,
}
use blockchain_task_server.BigNumber.Decimals.{divide_decimals}
use blockchain_task_server.SchedulerJob.{World}
use blockchain_task_server.Template.{Local, on_env, in_transaction}
use blockchain_task_server.Template.Pair.Data.{type_error}
use blockchain_task_server.FarmJob.Yields.{
  FarmToken, Farm, FarmYield, get_farm_asset_name, farm_yield,
}
use blockchain_task_server.FarmJob.Loop.{FarmNotes, attempt_with, run_farms}

-- What the contract tells of a pid.
pub record RewarderInfo : Type 0 where
  pub lp_token : String
  pub alloc_point : ℕ
  pub rewarder : String

-- The points of all farms, and the rewards of a second.
pub record RewarderState : Type 0 where
  pub total_alloc_point : ℕ
  pub reward_per_second : ℕ

-- A farm to be created at a pid, with its assets' name, its stake token, its reward tokens and its data;
-- the new values and data of a farm; and the end of a farm.
pub data RewarderWrite : Type 0 where
  create_farm : ℕ → String → FarmToken → List FarmToken → String → RewarderWrite
  update_farm : ℕ → FarmYield → String → RewarderWrite
  deactivate : ℕ → RewarderWrite

-- The DeFi service, the multicall contract, the farm and token services, and what `JSON.stringify`
-- returns for an error and for a rewarder.
pub record RewarderContext (S B : Type 0) : Type 0 where
  pub get_farm_total_length : Action S ℕ
  pub get_farm_infos : List ℕ → Action S (List (Option RewarderInfo))
  pub get_farm_total_alloc_point : Action S ℕ
  pub get_farm_reward_per_second : Action S ℕ
  pub get_farm_rewarder_reward_per_second : String → Action S ℕ
  pub get_farm_rewarder_reward_token : String → Action S String
  pub get_safe_check_ca : String → Action S Bool
  pub get_safe_erc20_balance_of : String → Action S ℕ
  pub reward_token : FarmToken
  pub zero_address : String
  pub find_farm : ℕ → Action S (Option Farm)
  pub find_farm_in : ℕ → Action S (Option Farm)
  pub find_token : String → Action S (Option FarmToken)
  pub find_token_in : String → Action S (Option FarmToken)
  pub to_json : Thrown → Option String
  pub rewarder_json : String → String

module _ {S B : Type 0} (lib : BigNumberLib B) (c : RewarderContext S B) where
  -- The value of a year of rewards, from those of a second.
  unfoldable pub year_value : ℕ → FarmToken → B
  unfolding divide_decimals
  year_value per_second token =
      let amount = divide_decimals lib (number per_second) token.decimals in
      let value = mul lib (big amount) (text token.price_value) in
      mul lib (big value) (number 31536000)

  -- The additional rewards.
  unfoldable pub rewarder_value : String → Option FarmToken → Action S B
  unfolding year_value
  rewarder_value rewarder none = pure (to_big_number lib (number 0))
  rewarder_value rewarder (some token) =
      if str_eq rewarder c.zero_address
      then pure (to_big_number lib (number 0))
      else (c.get_farm_rewarder_reward_per_second rewarder >>= λ n. pure (year_value n token))

  unfoldable pub get_farm_state : ℕ → String → Option FarmToken → Action S B
  unfolding rewarder_value
  get_farm_state per_second rewarder token =
      let base = year_value per_second c.reward_token in
      rewarder_value rewarder token >>= λ extra. pure (add lib (big base) (big extra))

module _ {S T B : Type 0} (p : Platform RewarderWrite S T) (lib : BigNumberLib B)
    (c : RewarderContext S B) where
  -- `registerFarm`, on the stake token that it has found and the token of the rewarder.
  unfoldable pub register_with : ℕ → String → Option FarmToken → Option FarmToken → Action S Bool
  unfolding get_farm_asset_name
  register_with pid rewarder (some extra) (some stake) = do
    p.write_in (
        other (
          create_farm pid (get_farm_asset_name (stake ∷ []) (c.reward_token ∷ extra ∷ [])) stake
            (c.reward_token ∷ extra ∷ []) (c.rewarder_json rewarder)))
    pure true
  register_with pid rewarder _ _ = pure false

  unfoldable pub register_farm : ℕ → RewarderInfo → Option FarmToken → Action S Bool
  unfolding register_with
  register_farm pid info extra =
      c.find_token_in info.lp_token >>= register_with pid info.rewarder extra

  -- `refreshFarm`, on the value of a year's rewards and the stake tokens of an active farm.
  unfoldable pub refresh_with :
      RewarderInfo → RewarderState → B → ℕ → List FarmToken → Action S (Unit {0})
  unfolding farm_yield
  refresh_with info state value farm_id [] = throw type_error
  refresh_with info state value farm_id (stake ∷ stakes) = do
    balance ← c.get_safe_erc20_balance_of stake.address
    p.write_in (
        other (
          update_farm farm_id
            (farm_yield lib info.alloc_point
              (record {
                total_alloc_point = state.total_alloc_point;
                reward_value_in_one_year = value;
              })
              stake balance)
            (c.rewarder_json info.rewarder)))

  unfoldable pub refresh_found :
      RewarderInfo → RewarderState → B → Option Farm → Action S (Unit {0})
  unfolding refresh_with
  refresh_found info state value none = throw type_error
  refresh_found info state value (some farm) =
      when farm.status (refresh_with info state value farm.id farm.stake_tokens)

  unfoldable pub refresh_farm :
      ℕ → RewarderInfo → Option FarmToken → RewarderState → Action S (Unit {0})
  unfolding refresh_found get_farm_state
  refresh_farm pid info extra state =
      get_farm_state lib c state.reward_per_second info.rewarder extra >>= λ value.
      c.find_farm_in pid >>= refresh_found info state value

  -- An inactive pool: its farm, if there is one, loses its status.
  unfoldable pub deactivate_farm : Option Farm → Action S (Unit {0})
  deactivate_farm none = pure tt
  deactivate_farm (some farm) = p.write (other (deactivate farm.id))

  -- The token of the rewarder, where the rewarder is a contract and its token is an active one.
  unfoldable pub rewarder_token : String → Action S (Option FarmToken)
  rewarder_token rewarder = c.get_safe_check_ca rewarder >>= λ valid.
      if valid then c.get_farm_rewarder_reward_token rewarder >>= c.find_token else pure none

  -- The registration of a farm that is not there yet.
  unfoldable pub ensure_farm : ℕ → RewarderInfo → Option FarmToken → Option Farm → Action S Bool
  unfolding register_farm
  ensure_farm pid info extra none = register_farm pid info extra
  ensure_farm pid info extra (some farm) = pure true

  -- The writes of the transaction.
  unfoldable pub farm_writes :
      ℕ → RewarderState → Option Farm → RewarderInfo → Option FarmToken → Action S (Unit {0})
  unfolding ensure_farm refresh_farm
  farm_writes pid state farm info extra = do
    initialized ← ensure_farm pid info extra farm
    when initialized (refresh_farm pid info extra state)

  -- The rest of the `try` block of a pid, on the token of its rewarder.
  unfoldable pub store :
      ℕ
      → RewarderState
      → Option Farm
      → RewarderInfo
      → Option FarmToken
      → Action (Local S FarmNotes) (Unit {0})
  unfolding in_transaction farm_writes
  store pid state farm info extra =
      modify (λ l. record l { runner = true })
      >> on_env (in_transaction p (farm_writes pid state farm info extra))

  -- The `try` block of a pid behind `findFarm`, on `farmInfos[pid]`: `undefined`, null or an info.
  unfoldable pub visit_info :
      ℕ
      → RewarderState
      → Option Farm
      → Option (Option RewarderInfo)
      → Action (Local S FarmNotes) (Unit {0})
  unfolding deactivate_farm rewarder_token store
  visit_info pid state farm none = throw type_error
  visit_info pid state farm (some none) = pure tt
  visit_info pid state farm (some (some info)) =
      if is_zero lib (number info.alloc_point)
      then on_env (deactivate_farm farm)
      else (on_env (rewarder_token info.rewarder) >>= store pid state farm info)

  unfoldable pub visit_try :
      RewarderState → List (Option RewarderInfo) → ℕ → Action (Local S FarmNotes) (Unit {0})
  unfolding visit_info
  visit_try state infos pid =
      on_env (c.find_farm pid) >>= λ farm. visit_info pid state farm (get_elem? infos pid)

  unfoldable pub get_state : Action S RewarderState
  get_state = do
    total ← c.get_farm_total_alloc_point
    reward ← c.get_farm_reward_per_second
    pure (record { total_alloc_point = total; reward_per_second = reward })

  unfoldable pub attempt : Action (Local S FarmNotes) (Unit {0})
  unfolding attempt_with visit_try get_state
  attempt = attempt_with p c.to_json c.get_farm_total_length c.get_farm_infos get_state visit_try

  unfoldable pub run : Action (World S) (Unit {0})
  unfolding attempt
  run = run_farms attempt
