-- ===== src/Tests/Uncommitted.antt =====
-- The transaction of the job for farms that are contracts of their own.
use blockchain_task_server.Common.{none, ℕ, String, true, some, [], ◌∷◌, ◌≡◌, refl}
use blockchain_task_server.Effects.{pure}
use blockchain_task_server.Platform.{Platform, other}
use blockchain_task_server.Platform.Memory.{Memory, Tables, memory, memory-IsLawful}
use blockchain_task_server.BigNumber.{number}
use blockchain_task_server.FarmJob.Yields.{FarmToken}
use blockchain_task_server.Farm2Job.{
  Farm2Info, Farm2Write, create_farm, update_farm, Farm2Context, farm2_yield, store,
}
use blockchain_task_server.Farm2Job.Transaction.{IsReader, store-uncommitted}
use blockchain_task_server.Tests.Samples.{tallies, memory_state}

abbrev platform : Platform Farm2Write (Memory Farm2Write) (Tables Farm2Write)
platform = memory Farm2Write

abbrev cake : FarmToken
cake = record { address = "c"; symbol = "CAKE"; decimals = 0; price_value = "||" }

abbrev info : String → Farm2Info
info last = record { id = "f"; stake_token = "s"; earn_token = "c"; reward = "|"; end_block = last }

-- The first farm has ended, and the second one has not.
abbrev context : Farm2Context (Memory Farm2Write) ℕ
context = record {
  get_block_number = pure 2;
  get_farm2_total_length = pure (some 2);
  get_farm2_infos = λ n. pure (some (info "|") ∷ some (info "|||") ∷ []);
  block_time_second = number 86400;
  get_safe_erc20_balance_of = λ token holder. pure 3;
  find_farm = λ address pid. pure (
      some (record { id = 7; stake_tokens = cake ∷ []; reward_tokens = cake ∷ []; status = true }));
  find_farm_in = λ address pid. pure (
      some (record { id = 7; stake_tokens = cake ∷ []; reward_tokens = cake ∷ []; status = true }));
  find_token = λ address. pure (some cake);
  to_json = λ e. some "{}";
}

context-IsReader : IsReader platform context
context-IsReader = record {
  block_reads = λ s. refl;
  total_reads = λ s. refl;
  infos_reads = λ n s. refl;
  balance_reads = λ token holder s. refl;
  farm_reads = λ address pid s. refl;
  farm_in_reads = λ address pid s. refl;
  token_reads = λ address s. refl;
}

store-uncommitted_example :
    (store platform tallies context 1 (info "|||") none memory_state).1.tables ≡ memory_state.tables
store-uncommitted_example =
    store-uncommitted platform context context-IsReader (memory-IsLawful Farm2Write).write_in_law
      tallies 1 (info "|||") none memory_state

-- The creation and the refresh are left open.
store_pending :
    (store platform tallies context 1 (info "|||") none memory_state).1.pending
    ≡ other (create_farm "f" 1 "CAKE/CAKE" cake cake)
      ∷ other (update_farm 7 (farm2_yield platform tallies context "|" cake cake 3))
      ∷ []
unfolding store
store_pending = refl
