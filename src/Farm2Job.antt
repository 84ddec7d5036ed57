-- ===== src/Farm2Job.antt =====
-- src/scheduler-job/pancake-swap-job/pancake-swap-job.bsc.farm2.service.ts: the job for the farms that are
-- contracts of their own, each with its stake token and its reward token.
pub mod Transaction
use blockchain_task_server.Common.{
  ℕ, String, Bool, true, false, Option, none, some, List, [], ◌∷◌, get_elem?, if◌then◌else◌,
}
use blockchain_task_server.Exceptions.{Thrown}
use blockchain_task_server.Effects.{
  Action, pure, throw, modify, try_catch, try_finally, ◌>>=◌, ◌>>◌, when,
}
use blockchain_task_server.Platform.{Platform, other}
use blockchain_task_server.BigNumber.{
  BigNumberLib, Value, number, big, text, mul, div, is_zero, is_greater_than_or_equal,
  to_big_number,
}
use blockchain_task_server.BigNumber.Decimals.{divide_decimals}
use blockchain_task_server.Arrays.{fill_sequence_number}
use blockchain_task_server.SchedulerLogger.{LogValue}
use blockchain_task_server.SchedulerJob.{World}
use blockchain_task_server.Template.{Local, on_env, on_notes}
use blockchain_task_server.Template.Pair.Data.{type_error}
use blockchain_task_server.FarmJob.Yields.{FarmToken, FarmYield, get_farm_asset_name}
use blockchain_task_server.FarmJob.Loop.{FarmNotes, visit_catch, visit_finally, run_farms}

-- What the subgraph tells of a farm: its address, the addresses of its tokens, its rewards of a block, and
-- the block in which it ends.
pub record Farm2Info : Type 0 where
  pub id : String
  pub stake_token : String
  pub earn_token : String
  pub reward : String
  pub end_block : String

-- The columns of a farm that the job reads.
pub record Farm2 : Type 0 where
  pub id : ℕ
  pub stake_tokens : List FarmToken
  pub reward_tokens : List FarmToken
  pub status : Bool

-- A farm to be created at an address and a pid, with its assets' name, its stake token and its reward
-- token; the new values of a farm; and the end of a farm.
pub data Farm2Write : Type 0 where
  create_farm : String → ℕ → String → FarmToken → FarmToken → Farm2Write
  update_farm : ℕ → FarmYield → Farm2Write
  deactivate : ℕ → Farm2Write

-- The DeFi service, the multicall contract, the farm and token services, and what `JSON.stringify`
-- returns. The number of farms may be `undefined`; a balance is that of a holder in a token.
pub record Farm2Context (S B : Type 0) : Type 0 where
  pub get_block_number : Action S ℕ
  pub get_farm2_total_length : Action S (Option ℕ)
  pub get_farm2_infos : ℕ → Action S (List (Option Farm2Info))
  pub block_time_second : Value B
  pub get_safe_erc20_balance_of : String → String → Action S ℕ
  pub find_farm : String → ℕ → Action S (Option Farm2)
  pub find_farm_in : String → ℕ → Action S (Option Farm2)
  pub find_token : String → Action S (Option FarmToken)
  pub to_json : Thrown → Option String

-- A `for` loop whose body may return from the function around it.
unfoldable pub loop_until : {S A : Type 0} → (A → Action S Bool) → List A → Action S (Unit {0})
loop_until body [] = pure tt
loop_until body (x ∷ xs) = body x >>= λ goes_on. when goes_on (loop_until body xs)

module _ {S T B : Type 0} (p : Platform Farm2Write S T) (lib : BigNumberLib B)
    (c : Farm2Context S B) where
  -- `registerFarm`, on the two tokens that it has found.
  unfoldable pub register_with : String → ℕ → Option FarmToken → Option FarmToken → Action S Bool
  unfolding get_farm_asset_name
  register_with address pid (some stake) (some reward) = do
    p.write_in (
        other
          (create_farm address pid (get_farm_asset_name (stake ∷ []) (reward ∷ [])) stake reward))
    pure true
  register_with address pid _ _ = pure false

  unfoldable pub register_farm : ℕ → Farm2Info → Action S Bool
  unfolding register_with
  register_farm pid info = c.find_token info.stake_token >>= λ stake.
      c.find_token info.earn_token >>= λ reward. register_with info.id pid stake reward

  -- The arithmetic of `refreshFarm`, on the farm's balance of its stake token.
  unfoldable pub farm2_yield : String → FarmToken → FarmToken → ℕ → FarmYield
  unfolding divide_decimals
  farm2_yield reward stake reward_token balance =
      let amount = divide_decimals lib (number balance) stake.decimals in
      let value = mul lib (big amount) (text stake.price_value) in
      let blocks_in_one_day = div lib (number 86400) c.block_time_second in
      let in_one_day = mul lib (big blocks_in_one_day) (text reward) in
      let value_in_one_day = mul lib (big in_one_day) (text reward_token.price_value) in
      let value_in_one_year = mul lib (number 365) (big value_in_one_day) in
      let apr =
        if is_zero lib (big value_in_one_year)
        then to_big_number lib (number 0)
        else mul lib (big (div lib (big value_in_one_year) (big value))) (number 100) in
      record {
        liquidity_amount = lib.to_string amount;
        liquidity_value = lib.to_string value;
        apr = lib.to_string apr;
      }

  -- `refreshFarm` behind the balance, on the reward tokens.
  unfoldable pub refresh_rewards : String → ℕ → FarmToken → ℕ → List FarmToken → Action S (Unit {0})
  unfolding farm2_yield
  refresh_rewards reward farm_id stake balance [] = throw type_error
  refresh_rewards reward farm_id stake balance (token ∷ tokens) =
      p.write_in (other (update_farm farm_id (farm2_yield reward stake token balance)))

  -- `refreshFarm`, on the stake tokens of an active farm.
  unfoldable pub refresh_with :
      String → String → ℕ → List FarmToken → List FarmToken → Action S (Unit {0})
  unfolding refresh_rewards
  refresh_with address reward farm_id [] rewards = throw type_error
  refresh_with address reward farm_id (stake ∷ stakes) rewards =
      c.get_safe_erc20_balance_of stake.address address >>= λ balance.
      refresh_rewards reward farm_id stake balance rewards

  unfoldable pub refresh_found : String → String → Option Farm2 → Action S (Unit {0})
  unfolding refresh_with
  refresh_found address reward none = throw type_error
  refresh_found address reward (some farm) =
      when farm.status (refresh_with address reward farm.id farm.stake_tokens farm.reward_tokens)

  unfoldable pub refresh_farm : ℕ → Farm2Info → Action S (Unit {0})
  unfolding refresh_found
  refresh_farm pid info = c.find_farm_in info.id pid >>= refresh_found info.id info.reward

  -- The registration of a farm that is not there yet.
  unfoldable pub ensure_farm : ℕ → Farm2Info → Option Farm2 → Action S Bool
  unfolding register_farm
  ensure_farm pid info none = register_farm pid info
  ensure_farm pid info (some farm) = pure true

  -- The calls from the query runner's `connect` on, of which none commits.
  unfoldable pub store : ℕ → Farm2Info → Option Farm2 → Action S (Unit {0})
  unfolding ensure_farm refresh_farm
  store pid info farm = do
    p.connect
    p.start_transaction
    initialized ← ensure_farm pid info farm
    when initialized (refresh_farm pid info)

  -- A farm that has ended: its row, if there is one, loses its status.
  unfoldable pub end_farm : Option Farm2 → Action S (Unit {0})
  end_farm none = pure tt
  end_farm (some farm) = p.write (other (deactivate farm.id))

  -- The rest of the `try` block of a pid, on its farm; and whether the loop goes on.
  unfoldable pub visit_farm : ℕ → ℕ → Farm2Info → Option Farm2 → Action (Local S FarmNotes) Bool
  unfolding end_farm store
  visit_farm block pid info farm =
      if is_greater_than_or_equal lib (number block) (text info.end_block)
      then (on_env (end_farm farm) >> pure true)
      else (modify (λ l. record l { runner = true }) >> (on_env (store pid info farm) >> pure true))

  -- The `try` block of a pid, on `farmInfos[pid]`, which returns from `run` without an info.
  unfoldable pub visit_info : ℕ → ℕ → Option (Option Farm2Info) → Action (Local S FarmNotes) Bool
  unfolding visit_farm
  visit_info block pid none = pure false
  visit_info block pid (some none) = pure false
  visit_info block pid (some (some info)) =
      on_env (c.find_farm info.id pid) >>= visit_farm block pid info

  -- An iteration of the loop.
  unfoldable pub visit : ℕ → List (Option Farm2Info) → ℕ → Action (Local S FarmNotes) Bool
  unfolding visit_info visit_catch visit_finally
  visit block infos pid =
      modify (λ l. record l { runner = false })
      >> try_finally
          (try_catch (visit_info block pid (get_elem? infos pid))
            λ e. visit_catch p c.to_json pid e >> pure true)
          (visit_finally p c.to_json)

  -- `run` from `networkPid.toString()` on.
  unfoldable pub attempt_total : ℕ → Option ℕ → Action (Local S FarmNotes) (Unit {0})
  unfolding visit loop_until
  attempt_total block none = throw type_error
  attempt_total block (some n) = do
    on_notes (λ notes. record notes { total = LogValue.number n })
    infos ← on_env (c.get_farm2_infos n)
    loop_until (visit block infos) (fill_sequence_number n 0)

  unfoldable pub attempt : Action (Local S FarmNotes) (Unit {0})
  unfolding attempt_total
  attempt =
      on_env c.get_block_number >>= λ block. on_env c.get_farm2_total_length >>= attempt_total block

  unfoldable pub run : Action (World S) (Unit {0})
  unfolding attempt
  run = run_farms attempt
