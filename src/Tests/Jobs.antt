-- ===== src/Tests/Jobs.antt =====
-- Ticks of a job over a platform in memory.
use blockchain_task_server.Common.{ℕ, true, false, none, some, [], ◌∷◌, ◌≡◌, ◌⊎◌, refl, OnSome}
use blockchain_task_server.Exceptions.{
  Exception, fatal, Thrown, exception, error, caught, internal_exception, get_exception_code,
}
use blockchain_task_server.Exceptions.Lookup.{get_exception_code-message_at, message_at}
use blockchain_task_server.Effects.{err, Action, throw, pure}
use blockchain_task_server.Platform.{Platform, SameData}
use blockchain_task_server.Platform.Rows.{row}
use blockchain_task_server.Platform.Memory.{Memory, Tables, memory, memory-IsLawful}
use blockchain_task_server.SchedulerJob.{World, process_work, check_state, update_processing}
use blockchain_task_server.SchedulerJob.ErrorHandler.{matches, error_handler}
use blockchain_task_server.SchedulerJob.Verdicts.{error_handler_level}
use blockchain_task_server.SchedulerJob.Settles.{IsIdle, IsRetired, process_work-Settled}
use blockchain_task_server.SchedulerJob.Exclusion.{
  IsBusy, ticks, process_work-busy, process_work_blocks,
}
use blockchain_task_server.SchedulerJobService.{start}
use blockchain_task_server.SchedulerJobService.Reset.{start_unmarks}
use blockchain_task_server.Tests.Samples.{context, memory_state, scheduler, world}

abbrev platform : Platform ℕ (Memory ℕ) (Tables ℕ)
platform = memory ℕ

abbrev hang_up : Thrown
hang_up = error (some "socket hang up")

abbrev offline : Thrown
offline = error (some "could not detect network (event=noNetwork)")

abbrev rest : Action (World (Memory ℕ)) (Unit {0})
rest = pure tt

abbrev break_off : Action (World (Memory ℕ)) (Unit {0})
break_off = throw hang_up

abbrev fail_for_good : Action (World (Memory ℕ)) (Unit {0})
fail_for_good = throw (exception internal_exception)

process_work-busy_example :
    (process_work platform "b" context rest 5 9 world
      ≡ process_work platform "b" context break_off 5 9 world)
    × SameData platform (world {W = ℕ}).env (process_work platform "b" context rest 5 9 world).1.env
unfolding world
process_work-busy_example =
    process_work-busy platform (memory-IsLawful ℕ) "b" context rest break_off 5 9 world
      (scheduler "b" true (some 7), refl, refl)

process_work-Settled_example :
    let w = (process_work platform "a" context fail_for_good 5 9 world).1 in
    IsIdle platform (memory-IsLawful ℕ) "a" w.env ⊎ IsRetired platform (memory-IsLawful ℕ) "a" w.env
unfolding process_work world internal_exception
process_work-Settled_example =
    process_work-Settled platform (memory-IsLawful ℕ) "a" context fail_for_good 5 9 world refl refl

process_work_blocks_example :
    let (result, w) = process_work platform "a" context break_off 5 9 world in
    (result ≡ error_handler hang_up)
    × IsBusy platform (memory-IsLawful ℕ) "a" context w.env
    × IsBusy platform
        (memory-IsLawful ℕ)
        "a"
        context
        (ticks platform "a" context break_off ((65, 66) ∷ (125, 126) ∷ []) w).env
unfolding world check_state update_processing
process_work_blocks_example =
    process_work_blocks platform (memory-IsLawful ℕ) "a" context break_off 5 9
      ((65, 66) ∷ (125, 126) ∷ []) world (some "socket hang up") (refl, refl) refl refl

start_unmarks_example :
    OnSome (λ r. r.process ≡ false) (row platform (start platform memory_state).1 "b")
unfolding start
start_unmarks_example = start_unmarks platform (memory-IsLawful ℕ) memory_state "b" refl

-- A scheduler without a cron job loses its status.
start_retires :
    row platform (start platform memory_state).1 "c"
    ≡ some (record (scheduler "c" false none) { status = false })
unfolding start
start_retires = refl

error_handler_level_example :
    (x : Exception) × (error_handler {A = ℕ} hang_up ≡ err (exception x))
    × (x.level ≡ fatal)
    × (x.payload ≡ some (caught (some "socket hang up")))
unfolding matches
error_handler_level_example = error_handler_level hang_up

get_exception_code-message_at_example : get_exception_code "ETIMEDOUT" ≡ some "ERR1003"
unfolding message_at
get_exception_code-message_at_example =
    get_exception_code-message_at "ERR1003" "ETIMEDOUT" refl (λ e. cc) (λ e. cc)
