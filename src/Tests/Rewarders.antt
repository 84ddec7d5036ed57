-- ===== src/Tests/Rewarders.antt =====
-- Runs of the job for farms with a rewarder.
use blockchain_task_server.Common.{
  ℕ, true, false, none, some, List, [], ◌∷◌, ◌≡◌, refl, String, Option, str_eq,
}
use blockchain_task_server.Effects.{pure}
use blockchain_task_server.Platform.{Platform}
use blockchain_task_server.Platform.Memory.{Memory, Tables, memory, memory-IsLawful}
use blockchain_task_server.BigNumber.{is_zero}
use blockchain_task_server.SchedulerLogger.{LogValue}
use blockchain_task_server.Template.{Local}
use blockchain_task_server.FarmJob.Yields.{FarmToken}
use blockchain_task_server.FarmJob.Loop.{FarmNotes, visit_with}
use blockchain_task_server.SchedulerJob.Exclusion.{ticks}
use blockchain_task_server.SchedulerJob.Machine.{Reaches}
use blockchain_task_server.RewarderJob.{
  RewarderInfo, RewarderState, RewarderWrite, create_farm, RewarderContext, visit_try, run,
}
use blockchain_task_server.RewarderJob.Units.{IsVisit, IsReader}
use blockchain_task_server.RewarderJob.Refinement.{rewarder_ticks_refine}
use blockchain_task_server.Tests.Samples.{tallies, memory_state, world}
use blockchain_task_server.Tests.Samples.{context as job_context}

abbrev platform : Platform RewarderWrite (Memory RewarderWrite) (Tables RewarderWrite)
platform = memory RewarderWrite

abbrev banana : FarmToken
banana = record { address = "b"; symbol = "BANANA"; decimals = 0; price_value = "||" }

abbrev info : String → RewarderInfo
info rewarder = record { lp_token = "l"; alloc_point = 1; rewarder = rewarder }

-- The rewarder of the first pid is a contract, that of the second one is not.
abbrev context : RewarderContext (Memory RewarderWrite) ℕ
context = record {
  get_farm_total_length = pure 2;
  get_farm_infos = λ pids. pure (some (info "r") ∷ some (info "0") ∷ []);
  get_farm_total_alloc_point = pure 4;
  get_farm_reward_per_second = pure 0;
  get_farm_rewarder_reward_per_second = λ rewarder. pure 0;
  get_farm_rewarder_reward_token = λ rewarder. pure "c";
  get_safe_check_ca = λ address. pure (str_eq address "r");
  get_safe_erc20_balance_of = λ address. pure 3;
  reward_token = banana;
  zero_address = "0";
  find_farm = λ pid. pure none;
  find_farm_in = λ pid. pure (some (record { id = 7; stake_tokens = banana ∷ []; status = false }));
  find_token = λ address. pure (some banana);
  find_token_in = λ address. pure (some banana);
  to_json = λ e. some "{}";
  rewarder_json = λ rewarder. rewarder;
}

abbrev state : RewarderState
state = record { total_alloc_point = 4; reward_per_second = 0 }

abbrev infos : List (Option RewarderInfo)
infos = some (info "r") ∷ some (info "0") ∷ []

abbrev local : Local (Memory RewarderWrite) FarmNotes
local = record {
  env = memory_state;
  runner = true;
  notes = record { total = LogValue.null; failed = [] };
}

context-IsReader : IsReader platform (memory-IsLawful RewarderWrite) context
context-IsReader = record {
  total_reads = λ s. (refl, refl);
  infos_reads = λ pids s. (refl, refl);
  alloc_reads = λ s. (refl, refl);
  reward_reads = λ s. (refl, refl);
  extra_reads = λ rewarder s. (refl, refl);
  extra_token_reads = λ rewarder s. (refl, refl);
  check_reads = λ address s. (refl, refl);
  balance_reads = λ address s. (refl, refl);
  farm_reads = λ pid s. (refl, refl);
  farm_in_reads = λ pid s. (refl, refl);
  token_reads = λ address s. (refl, refl);
  token_in_reads = λ address s. (refl, refl);
}

-- The farm of the first pid is registered.
rewarded_registered :
    (visit_with platform context.to_json
      (visit_try platform tallies context state infos 0)
      0
      local).1.env.tables.others
    ≡ create_farm 0 "BANANA/BANANA&BANANA" banana (banana ∷ banana ∷ []) "r" ∷ []
unfolding visit_with visit_try is_zero
rewarded_registered = refl

rewarder_ticks_refine_example :
    Reaches platform
      (memory-IsLawful RewarderWrite)
      "a"
      (IsVisit platform context)
      memory_state.tables
      (ticks platform "a" job_context
        (run platform tallies context)
        ((5, 9) ∷ (65, 66) ∷ [])
        world).env.tables
unfolding world
rewarder_ticks_refine_example =
    rewarder_ticks_refine platform (memory-IsLawful RewarderWrite) context context-IsReader tallies
      "a" job_context ((5, 9) ∷ (65, 66) ∷ []) world
