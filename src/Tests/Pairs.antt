-- ===== src/Tests/Pairs.antt =====
-- Runs of the pair template over a platform in memory.
use blockchain_task_server.Common.{
  String, true, false, some, List, [], ◌∷◌, ◌≡◌, refl, map, str_eq, if◌then◌else◌,
}
use blockchain_task_server.Effects.{ok, pure}
use blockchain_task_server.Platform.{Platform}
use blockchain_task_server.Platform.Memory.{Memory, Tables, memory, memory-IsLawful}
use blockchain_task_server.SchedulerLogger.{LogValue}
use blockchain_task_server.BigNumber.{is_greater_than_or_equal}
use blockchain_task_server.Template.{Local, scheduler_pid}
use blockchain_task_server.Template.Atomic.{Moved}
use blockchain_task_server.Template.Pair.{PairNotes, body}
use blockchain_task_server.Template.Pair.Data.{TokenParams, PairInfo, TokenInfo, PairContext}
use blockchain_task_server.Template.Pair.Addresses.{split_infos}
use blockchain_task_server.Template.Pair.Sorted.{IsSorted, split_infos-IsSorted}
use blockchain_task_server.Template.Pair.Staging.{IsReader}
use blockchain_task_server.Template.Pair.Transaction.{IsWindow, body_atomic}
use blockchain_task_server.SchedulerJob.Machine.{Reaches}
use blockchain_task_server.SchedulerJob.Exclusion.{ticks}
use blockchain_task_server.Template.Refinement.{pair_ticks_refine}
use blockchain_task_server.Template.Pair.{run}
use blockchain_task_server.Tests.Samples.{tallies, memory_state, world}
use blockchain_task_server.Tests.Samples.{context as job_context}

abbrev platform :
    Platform (List TokenParams) (Memory (List TokenParams)) (Tables (List TokenParams))
platform = memory (List TokenParams)

-- The address "p" is the pair of "a" and "b"; all others are single tokens.
abbrev pair_info : String → PairInfo
pair_info address =
    if str_eq address "p"
    then (record { pair = "p"; token0 = "a"; token1 = "b"; weird = false })
    else (record {
      pair = address;
      token0 = "0x0000000000000000000000000000000000000000";
      token1 = "0x0000000000000000000000000000000000000000";
      weird = false;
    })

abbrev token_info : String → TokenInfo
token_info address = record { name = address; symbol = address; decimals = 18 }

abbrev context : PairContext (Memory (List TokenParams))
context = record {
  network = "bsc";
  get_amm_factory_total_length = pure 1;
  get_amm_factory_infos = λ pids. pure ("p" ∷ []);
  get_batch_pair_infos = λ addresses. pure (map pair_info addresses);
  get_safe_pair_infos = λ address. pure (pair_info address);
  get_batch_check_ca = λ addresses. pure (map (λ a. true) addresses);
  get_batch_erc20_token_infos = λ addresses. pure (map token_info addresses);
  get_safe_erc20_token_info = λ address. pure (token_info address);
  find_tokens = λ addresses. pure [];
  find_token_in =
      λ address. pure (some (record { address = address; symbol = address; status = true }));
  to_check_sum_address = λ address. ok address;
  to_lower = λ s. s;
  print_number = λ n. "18";
}

context-IsReader : IsReader platform (memory-IsLawful (List TokenParams)) "a" context
context-IsReader = record {
  total_reads = λ s. (refl, refl);
  amm_infos_reads = λ pids s. (refl, refl);
  batch_pairs_reads = λ ts s. (refl, refl);
  safe_pair_reads = λ t s. (refl, refl);
  check_ca_reads = λ ts s. (refl, refl);
  batch_infos_reads = λ ts s. (refl, refl);
  safe_info_reads = λ t s. (refl, refl);
  find_tokens_reads = λ ts s. (refl, refl);
  find_token_reads = λ t s. (refl, refl);
}

abbrev local : Local (Memory (List TokenParams)) PairNotes
local = record {
  env = memory_state;
  runner = false;
  notes = record {
    total = LogValue.null;
    current = LogValue.null;
    start = LogValue.null;
    end = LogValue.null;
  };
}

body_atomic_example :
    Moved platform
      (memory-IsLawful (List TokenParams))
      (IsWindow platform (memory-IsLawful (List TokenParams)) "a" context context-IsReader)
      memory_state.tables
      (body platform "a" context tallies local).1.env.tables
body_atomic_example =
    body_atomic platform (memory-IsLawful (List TokenParams)) "a" context context-IsReader tallies
      local

-- The first tick registers two single tokens, and the pair in a write of its own.
body_first_tick :
    map
      (map (λ (t : TokenParams). t.address))
      (body platform "a" context tallies local).1.env.tables.others
    ≡ ("a" ∷ "b" ∷ []) ∷ ("p" ∷ []) ∷ []
unfolding body scheduler_pid is_greater_than_or_equal
body_first_tick = refl

split_infos-IsSorted_example :
    IsSorted
      (pair_info "p" ∷ pair_info "q" ∷ [])
      (split_infos (pair_info "p" ∷ pair_info "q" ∷ [])).0
      (split_infos (pair_info "p" ∷ pair_info "q" ∷ [])).1
split_infos-IsSorted_example = split_infos-IsSorted (pair_info "p" ∷ pair_info "q" ∷ [])

pair_ticks_refine_example :
    let job = run platform "a" context tallies in
    Reaches platform
      (memory-IsLawful (List TokenParams))
      "a"
      (IsWindow platform (memory-IsLawful (List TokenParams)) "a" context context-IsReader)
      memory_state.tables
      (ticks platform "a" job_context job ((5, 9) ∷ (65, 66) ∷ []) world).env.tables
unfolding world
pair_ticks_refine_example =
    pair_ticks_refine platform (memory-IsLawful (List TokenParams)) "a" context context-IsReader
      tallies job_context ((5, 9) ∷ (65, 66) ∷ []) world
