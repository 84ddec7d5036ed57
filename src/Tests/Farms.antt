-- ===== src/Tests/Farms.antt =====
-- Runs of the farm job over a platform in memory.
use blockchain_task_server.Common.{ℕ, true, false, none, some, [], ◌∷◌, ◌≡◌, refl}
use blockchain_task_server.Effects.{ok, pure, for_each}
use blockchain_task_server.Platform.{Platform}
use blockchain_task_server.Platform.Memory.{Memory, Tables, memory}
use blockchain_task_server.BigNumber.{number, is_zero}
use blockchain_task_server.SchedulerLogger.{LogValue}
use blockchain_task_server.Template.{Local}
use blockchain_task_server.FarmJob.Loop.{FarmNotes, visit_with}
use blockchain_task_server.FarmJob.{visit_try}
use blockchain_task_server.FarmJob.Yields.{
  FarmToken, FarmState, FarmWrite, FarmContext, create_farm,
}
use blockchain_task_server.FarmJob.Isolation.{visit, visits, for_each-visits}
use blockchain_task_server.Platform.Memory.{memory-IsLawful}
use blockchain_task_server.SchedulerJob.Exclusion.{ticks}
use blockchain_task_server.SchedulerJob.Machine.{Reaches}
use blockchain_task_server.FarmJob.{run}
use blockchain_task_server.FarmJob.Units.{IsVisit, IsReader}
use blockchain_task_server.FarmJob.Refinement.{farm_ticks_refine}
use blockchain_task_server.Tests.Samples.{tallies, memory_state, world}
use blockchain_task_server.Tests.Samples.{context as job_context}

abbrev platform : Platform FarmWrite (Memory FarmWrite) (Tables FarmWrite)
platform = memory FarmWrite

abbrev cake : FarmToken
cake = record { address = "c"; symbol = "CAKE"; decimals = 0; price_value = "||" }

-- One farm is known already, and is inactive.
abbrev context : FarmContext (Memory FarmWrite) ℕ
context = record {
  get_farm_total_length = pure 2;
  get_farm_infos = λ pids. pure [];
  get_farm_total_alloc_point = pure 4;
  get_farm_reward_per_block = pure 1;
  block_time_second = number 86400;
  reward_token = cake;
  get_safe_erc20_balance_of = λ address. pure 3;
  find_farm = λ pid. pure none;
  find_farm_in = λ pid. pure (some (record { id = 7; stake_tokens = cake ∷ []; status = false }));
  find_token_in = λ address. pure (some cake);
  to_json = λ e. some "{}";
}

abbrev state : FarmState ℕ
state = record { total_alloc_point = 4; reward_value_in_one_year = 730 }

abbrev local : Local (Memory FarmWrite) FarmNotes
local = record {
  env = memory_state;
  runner = true;
  notes = record { total = LogValue.null; failed = [] };
}

for_each-visits_example :
    for_each
      (visit platform context.to_json (visit_try platform tallies context state []))
      (0 ∷ 1 ∷ [])
      local
    ≡ (
      ok tt,
      visits platform context.to_json
          (visit_try platform tallies context state [])
          (0 ∷ 1 ∷ [])
          local,
    )
for_each-visits_example =
    for_each-visits platform context.to_json (visit_try platform tallies context state [])
      (λ s. refl) (λ s. refl) (λ pid l e thrown. ("{}", refl)) (0 ∷ 1 ∷ []) local

-- Both pids have no info, and both failures are kept.
visits_failed :
    (visits platform context.to_json
      (visit_try platform tallies context state [])
      (0 ∷ 1 ∷ [])
      local).notes.failed
    ≡ (0, "{}") ∷ (1, "{}") ∷ []
unfolding visit_with visit_try
visits_failed = refl

-- A new farm is registered, and its yield is left for a time when it is active.
visits_registered :
    (visits platform context.to_json
      (visit_try platform tallies context state
        (some (record { lp_token = "l"; alloc_point = 1 }) ∷ []))
      (0 ∷ [])
      local).env.tables.others
    ≡ create_farm 0 "CAKE/CAKE" cake cake ∷ []
unfolding visit_with visit_try is_zero
visits_registered = refl

context-IsReader : IsReader platform (memory-IsLawful FarmWrite) context
context-IsReader = record {
  total_reads = λ s. (refl, refl);
  infos_reads = λ pids s. (refl, refl);
  alloc_reads = λ s. (refl, refl);
  reward_reads = λ s. (refl, refl);
  balance_reads = λ address s. (refl, refl);
  farm_reads = λ pid s. (refl, refl);
  farm_in_reads = λ pid s. (refl, refl);
  token_in_reads = λ address s. (refl, refl);
}

farm_ticks_refine_example :
    Reaches platform
      (memory-IsLawful FarmWrite)
      "a"
      (IsVisit platform context)
      memory_state.tables
      (ticks platform "a" job_context
        (run platform tallies context)
        ((5, 9) ∷ (65, 66) ∷ [])
        world).env.tables
unfolding world
farm_ticks_refine_example =
    farm_ticks_refine platform (memory-IsLawful FarmWrite) context context-IsReader tallies "a"
      job_context ((5, 9) ∷ (65, 66) ∷ []) world
