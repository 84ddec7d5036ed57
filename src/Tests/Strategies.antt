-- ===== src/Tests/Strategies.antt =====
-- Runs of the job for farms with a strategy.
use blockchain_task_server.Common.{ℕ, true, none, some, [], ◌∷◌, refl}
use blockchain_task_server.Effects.{pure}
use blockchain_task_server.Platform.{Platform}
use blockchain_task_server.Platform.Memory.{Memory, Tables, memory, memory-IsLawful}
use blockchain_task_server.BigNumber.{number}
use blockchain_task_server.FarmJob.Yields.{FarmToken}
use blockchain_task_server.SchedulerJob.Exclusion.{ticks}
use blockchain_task_server.SchedulerJob.Machine.{Reaches}
use blockchain_task_server.AutoFarmJob.{StratWrite, StratContext, run}
use blockchain_task_server.AutoFarmJob.Units.{IsVisit, IsReader}
use blockchain_task_server.AutoFarmJob.Refinement.{strat_ticks_refine}
use blockchain_task_server.Tests.Samples.{tallies, memory_state, world}
use blockchain_task_server.Tests.Samples.{context as job_context}

abbrev platform : Platform StratWrite (Memory StratWrite) (Tables StratWrite)
platform = memory StratWrite

abbrev auto : FarmToken
auto = record { address = "c"; symbol = "AUTO"; decimals = 0; price_value = "||" }

abbrev context : StratContext (Memory StratWrite) ℕ
context = record {
  get_farm_total_length = pure 1;
  get_farm_infos = λ pids. pure (some (record { want = "w"; alloc_point = 1; strat = "s" }) ∷ []);
  get_farm_total_alloc_point = pure 4;
  get_farm_reward_per_block = pure 1;
  get_farm_strat_share_total = λ strat. pure 3;
  get_safe_check_ca = λ address. pure true;
  block_time_second = number 86400;
  reward_token = auto;
  find_farm = λ pid. pure none;
  find_farm_in = λ pid. pure (some (record { id = 7; stake_tokens = auto ∷ []; status = true }));
  find_token_in = λ address. pure (some auto);
  to_json = λ e. some "{}";
  strat_json = λ strat. strat;
}

context-IsReader : IsReader platform (memory-IsLawful StratWrite) context
context-IsReader = record {
  total_reads = λ s. (refl, refl);
  infos_reads = λ pids s. (refl, refl);
  alloc_reads = λ s. (refl, refl);
  reward_reads = λ s. (refl, refl);
  shares_reads = λ strat s. (refl, refl);
  check_reads = λ address s. (refl, refl);
  farm_reads = λ pid s. (refl, refl);
  farm_in_reads = λ pid s. (refl, refl);
  token_in_reads = λ address s. (refl, refl);
}

strat_ticks_refine_example :
    Reaches platform
      (memory-IsLawful StratWrite)
      "a"
      (IsVisit platform context)
      memory_state.tables
      (ticks platform "a" job_context
        (run platform tallies context)
        ((5, 9) ∷ (65, 66) ∷ [])
        world).env.tables
unfolding world
strat_ticks_refine_example =
    strat_ticks_refine platform (memory-IsLawful StratWrite) context context-IsReader tallies "a"
      job_context ((5, 9) ∷ (65, 66) ∷ []) world
