-- ===== src/Tests/Interactions.antt =====
-- Runs of the interaction template over a platform in memory.
use blockchain_task_server.Common.{true, none, some, List, [], ◌∷◌, ◌≡◌, refl, map}
use blockchain_task_server.Exceptions.{Thrown, error}
use blockchain_task_server.Effects.{pure, throw}
use blockchain_task_server.Platform.{Platform}
use blockchain_task_server.Platform.Memory.{Memory, Tables, memory, memory-IsLawful}
use blockchain_task_server.BigNumber.{is_greater_than_or_equal}
use blockchain_task_server.SchedulerJob.{check_state, update_processing, process_work}
use blockchain_task_server.SchedulerJob.ErrorHandler.{error_handler}
use blockchain_task_server.SchedulerJob.Exclusion.{IsBusy, ticks}
use blockchain_task_server.Template.Atomic.{Moved}
use blockchain_task_server.Template.Interaction.{
  Interaction, InteractionContext, block, get_scheduler_block_number, run,
}
use blockchain_task_server.Template.Interaction.Writes.{IsReader, IsBlocks, run_atomic}
use blockchain_task_server.Template.Interaction.Blocked.{node_error_blocks}
use blockchain_task_server.SchedulerJob.Machine.{Reaches}
use blockchain_task_server.Template.Refinement.{interaction_ticks_refine}
use blockchain_task_server.Tests.Samples.{tallies, memory_state, world}
use blockchain_task_server.Tests.Samples.{context as job_context}

abbrev platform :
    Platform (List Interaction) (Memory (List Interaction)) (Tables (List Interaction))
platform = memory (List Interaction)

abbrev context : InteractionContext (Memory (List Interaction))
context = record {
  network = "bsc";
  chunk_size = 2;
  get_block_number = pure 5;
  get_batch_block_infos = λ blocks. pure (
      block ((record { from = "x"; to = some "y" }) ∷ (record { from = "z"; to = none }) ∷ [])
      ∷ []);
  get_batch_check_ca = λ addresses. pure (true ∷ []);
}

context-IsReader : IsReader platform (memory-IsLawful (List Interaction)) "a" context
context-IsReader = record {
  block_number_reads = λ s. (refl, refl);
  block_infos_reads = λ bs s. (refl, refl);
  check_ca_reads = λ ts s. (refl, refl);
}

run_atomic_example :
    Moved platform
      (memory-IsLawful (List Interaction))
      (IsBlocks platform (memory-IsLawful (List Interaction)) "a" context)
      memory_state.tables
      (run platform "a" context tallies world).1.env.tables
unfolding world
run_atomic_example =
    run_atomic platform (memory-IsLawful (List Interaction)) "a" context context-IsReader tallies
      world

-- The first tick keeps the one call of a contract.
run_first_tick :
    map
      (map (λ (i : Interaction). i.from_address))
      (run platform "a" context tallies world).1.env.tables.others
    ≡ ("x" ∷ []) ∷ []
unfolding run world is_greater_than_or_equal
run_first_tick = refl

abbrev hang_up : Thrown
hang_up = error (some "socket hang up")

abbrev hanging : InteractionContext (Memory (List Interaction))
hanging = record context { get_block_number = throw hang_up }

hanging-IsReader : IsReader platform (memory-IsLawful (List Interaction)) "a" hanging
hanging-IsReader = record {
  block_number_reads = λ s. (refl, refl);
  block_infos_reads = λ bs s. (refl, refl);
  check_ca_reads = λ ts s. (refl, refl);
}

node_error_blocks_example :
    let job = run platform "a" hanging tallies in
    let (result, w) = process_work platform "a" job_context job 5 9 world in
    (result ≡ error_handler hang_up)
    × IsBusy platform (memory-IsLawful (List Interaction)) "a" job_context w.env
    × IsBusy platform
        (memory-IsLawful (List Interaction))
        "a"
        job_context
        (ticks platform "a" job_context job ((65, 66) ∷ (125, 126) ∷ []) w).env
unfolding world check_state update_processing get_scheduler_block_number
node_error_blocks_example =
    node_error_blocks platform (memory-IsLawful (List Interaction)) "a" hanging hanging-IsReader
      tallies job_context 5 9 ((65, 66) ∷ (125, 126) ∷ []) world 0 (some "socket hang up")
      (refl, refl) refl refl

interaction_ticks_refine_example :
    let job = run platform "a" context tallies in
    Reaches platform
      (memory-IsLawful (List Interaction))
      "a"
      (IsBlocks platform (memory-IsLawful (List Interaction)) "a" context)
      memory_state.tables
      (ticks platform "a" job_context job ((5, 9) ∷ (65, 66) ∷ []) world).env.tables
unfolding world
interaction_ticks_refine_example =
    interaction_ticks_refine platform (memory-IsLawful (List Interaction)) "a" context
      context-IsReader tallies job_context ((5, 9) ∷ (65, 66) ∷ []) world
