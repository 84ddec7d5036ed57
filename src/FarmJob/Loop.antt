-- ===== src/FarmJob/Loop.antt =====
-- The loop over the pids, as src/scheduler-job/pancake-swap-job/pancake-swap-job.bsc.farm.service.ts has
-- it: the source file of each farm job holds its own copy of these lines.
pub mod Tables
pub mod Writes
use blockchain_task_server.Common.{
  ℕ, String, Option, none, some, true, false, not, ◌&&◌, List, [], ◌∷◌, ◌++◌,
}
use blockchain_task_server.Exceptions.{Thrown}
use blockchain_task_server.Effects.{
  Result, ok, err, Action, and_then, from_result, gets, modify, try_catch, try_finally, ◌>>=◌, ◌>>◌,
  when, for_each,
}
use blockchain_task_server.Platform.{Platform}
use blockchain_task_server.Arrays.{fill_sequence_number}
use blockchain_task_server.SchedulerLogger.{LogData, LogValue, set_data}
use blockchain_task_server.SchedulerJob.{World}
use blockchain_task_server.SchedulerJob.ErrorHandler.{error_handler}
use blockchain_task_server.Template.{Local, on_env, on_notes, run_with}
use blockchain_task_server.Template.Pair.Data.{type_error}

-- `loggerData`: the pids that failed, each with its error.
pub record FarmNotes : Type 0 where
  pub total : LogValue
  pub failed : List (ℕ × String)

abbrev pub entries : FarmNotes → LogData
entries n = ("total", n.total) ∷ ("failed", LogValue.failures n.failed) ∷ []

-- `JSON.stringify`, which throws where there is no text.
abbrev pub stringified : Option String → Result String
stringified none = err type_error
stringified (some text) = ok text

module _ {W S T : Type 0} (p : Platform W S T) (to_json : Thrown → Option String) where
  -- The `catch` and the `finally` block of a pid.
  unfoldable pub visit_catch : ℕ → Thrown → Action (Local S FarmNotes) (Unit {0})
  visit_catch pid e = do
    l ← gets (λ (l : Local S FarmNotes). l)
    when (l.runner && p.is_transaction_active l.env) (on_env p.rollback)
    text ← from_result (stringified (to_json e))
    on_notes (λ n. record n { failed = n.failed ++ ((pid, text) ∷ []) })

  unfoldable pub visit_finally : Action (Local S FarmNotes) (Unit {0})
  visit_finally = do
    l ← gets (λ (l : Local S FarmNotes). l)
    when (l.runner && not (p.is_released l.env)) (on_env p.release)

  -- An iteration of the loop, around its `try` block.
  unfoldable pub visit_with :
      Action (Local S FarmNotes) (Unit {0}) → ℕ → Action (Local S FarmNotes) (Unit {0})
  unfolding visit_catch visit_finally
  visit_with body pid =
      modify (λ l. record l { runner = false })
      >> try_finally (try_catch body (visit_catch pid)) visit_finally

  -- The `try` block of `run`: the number of pids, their infos, the state of all farms, and the loop.
  unfoldable pub attempt_with :
      {I F : Type 0}
      → Action S ℕ
      → (List ℕ → Action S (List I))
      → Action S F
      → (F → List I → ℕ → Action (Local S FarmNotes) (Unit {0}))
      → Action (Local S FarmNotes) (Unit {0})
  unfolding visit_with for_each
  attempt_with network_pid get_farm_infos get_farm_state visit_try = do
    n ← on_env network_pid
    on_notes (λ notes. record notes { total = LogValue.number n })
    infos ← on_env (get_farm_infos (fill_sequence_number n 0))
    state ← on_env get_farm_state
    for_each (λ pid. visit_with (visit_try state infos pid) pid) (fill_sequence_number n 0)

-- `run` with its `catch` and `finally`.
abbrev pub run_farms :
    {S : Type 0} → Action (Local S FarmNotes) (Unit {0}) → Action (World S) (Unit {0})
run_farms attempt =
    run_with entries (record { total = LogValue.null; failed = [] })
      (try_catch attempt λ e. from_result (error_handler e))

abbrev pub first_local : {S : Type 0} → S → Local S FarmNotes
first_local s = record {
  env = s;
  runner = false;
  notes = record { total = LogValue.null; failed = [] };
}

-- The `try` block of the jobs that hand their data to the logger behind the loop, in place of a
-- `finally`; src/scheduler-job/auto-farm-job/auto-farm-job.bsc.farm.service.ts is one of them.
abbrev pub attempt_logging :
    {S : Type 0} → Action (Local S FarmNotes) (Unit {0}) → Action (World S) (Unit {0})
attempt_logging attempt w =
    let (r, l) = attempt (first_local w.env) in
    and_then r (λ _. modify (λ v. record v { logger = set_data (entries l.notes) v.logger }))
      (record w { env = l.env })

abbrev pub run_logging :
    {S : Type 0} → Action (Local S FarmNotes) (Unit {0}) → Action (World S) (Unit {0})
run_logging attempt = try_catch (attempt_logging attempt) λ e. from_result (error_handler e)
