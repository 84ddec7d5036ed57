-- ===== src/Tests/Templates.antt =====
-- Runs of the templates over a platform in memory.
use blockchain_task_server.Common.{
  ℕ, ◌-◌, true, false, none, some, List, [], ◌∷◌, ◌++◌, ◌≡◌, refl, arith,
}
use blockchain_task_server.Exceptions.{Thrown, error}
use blockchain_task_server.Effects.{Action, pure}
use blockchain_task_server.Entities.{no_columns}
use blockchain_task_server.Platform.{Platform, update_scheduler}
use blockchain_task_server.Platform.Memory.{
  Memory, Tables, memory, memory_with, memory-IsLawful, memory_with-IsLawful,
}
use blockchain_task_server.SchedulerLogger.{LogValue}
use blockchain_task_server.BigNumber.{
  number, sub, add, to_number, is_greater_than, is_greater_than_or_equal,
}
use blockchain_task_server.Arrays.{fill_sequence_number}
use blockchain_task_server.Template.{Local, scheduler_pid, chunk_end}
use blockchain_task_server.Template.Window.{window_split}
use blockchain_task_server.Template.Nft.{NftNotes, body, store}
use blockchain_task_server.Template.Nft.Store.{store-loses}
use blockchain_task_server.Template.Nft.Outcomes.{Outcome, body_outcomes}
use blockchain_task_server.Tests.Samples.{tallies, tallies-IsExact, memory_state, scheduler}

-- The crawled tokens are given by their ids.
abbrev platform : Platform (List ℕ) (Memory (List ℕ)) (Tables (List ℕ))
platform = memory (List ℕ)

abbrev fault : Thrown
fault = error (some "Lock wait timeout exceeded")

abbrev faulty : Platform (List ℕ) (Memory (List ℕ)) (Tables (List ℕ))
faulty = memory_with (some fault) (List ℕ)

abbrev count : Action (Memory (List ℕ)) ℕ
count = pure 12

abbrev crawl_all : List ℕ → Action (Memory (List ℕ)) (List ℕ)
crawl_all pids = pure pids

abbrev local : Local (Memory (List ℕ)) NftNotes
local = record {
  env = memory_state;
  runner = false;
  notes = record { total = LogValue.text ""; worked = [] };
}

-- The first tick reads the tokens 0 to 9, and moves the scheduler on to 10.
body_first_tick : (body platform "a" tallies count crawl_all local).1.env.tables ≡ record {
  schedulers =
      scheduler "a" false (some 10) ∷ scheduler "b" true (some 7) ∷ scheduler "c" false none ∷ [];
  others = (0 ∷ 1 ∷ 2 ∷ 3 ∷ 4 ∷ 5 ∷ 6 ∷ 7 ∷ 8 ∷ 9 ∷ []) ∷ [];
}
unfolding body scheduler_pid is_greater_than_or_equal chunk_end fill_sequence_number is_greater_than
    sub add
body_first_tick = refl

body_outcomes_example :
    Outcome platform
      (memory-IsLawful (List ℕ))
      "a"
      tallies
      count
      crawl_all
      (λ s. refl)
      (λ pids s. refl)
      (body platform "a" tallies count crawl_all local)
      memory_state.tables
body_outcomes_example =
    body_outcomes platform (memory-IsLawful (List ℕ)) "a" tallies count crawl_all (λ s. refl)
      (λ pids s. refl) local

window_split_example :
    let end = chunk_end tallies 10 3 40 in
    fill_sequence_number (to_number tallies (sub tallies (number end) (number 3))) 3
      ++ fill_sequence_number (40 - end) end
    ≡ fill_sequence_number 37 3
window_split_example = window_split tallies tallies-IsExact 10 3 40 (omega arith) (omega arith)

store-loses_example :
    let t = (store faulty "a" (0 ∷ 1 ∷ []) 2 memory_state).1 in
    (t.tables
      ≡ faulty.effect
          (update_scheduler (some "a") (record no_columns { pid = some 2 }))
          memory_state.tables)
    × (faulty.scheduler_row t.tables "a" ≡ some (scheduler "a" false (some 2)))
store-loses_example =
    store-loses faulty (memory_with-IsLawful (some fault) (List ℕ)) "a" (0 ∷ 1 ∷ []) 2 memory_state
      fault (scheduler "a" false none) refl refl refl refl refl refl
