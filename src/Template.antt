-- ===== src/Template.antt =====
-- src/scheduler-job/template: what the templates of the jobs share. Each source file holds its own copy
-- of these lines.
pub mod Window
pub mod Atomic
pub mod Nft
pub mod Pair
pub mod Interaction
pub mod Refinement
pub mod Machine
use blockchain_task_server.Common.{
  ℕ, zero, ◌+◌, String, Bool, true, false, not, ◌&&◌, Option, none, some, List, if◌then◌else◌,
}
use blockchain_task_server.Exceptions.{Thrown, error}
use blockchain_task_server.Effects.{
  Result, ok, err, Action, pure, throw, from_result, gets, modify, try_catch, try_finally, ◌>>=◌,
  ◌>>◌, when,
}
use blockchain_task_server.SchedulerJob.ErrorHandler.{error_handler}
use blockchain_task_server.Entities.{Scheduler, no_columns}
use blockchain_task_server.Platform.{Platform, update_scheduler}
use blockchain_task_server.BigNumber.{
  BigNumberLib, number, big, add, sub, is_greater_than, to_number,
}
use blockchain_task_server.SchedulerLogger.{LogData, set_data}
use blockchain_task_server.SchedulerJob.{World}

-- The variables of a `run`: whether `queryRunner` is set, and `loggerData`.
pub record Local (S D : Type 0) : Type 0 where
  pub env : S
  pub runner : Bool
  pub notes : D

abbrev pub on_env : {S D A : Type 0} → Action S A → Action (Local S D) A
on_env m l = let (r, s) = m l.env in (r, record l { env = s })

abbrev pub on_notes : {S D : Type 0} → (D → D) → Action (Local S D) (Unit {0})
on_notes f = modify (λ l. record l { notes = f l.notes })

-- A `run` as a method of a job, whose `finally` hands its data to the logger of the tick.
abbrev pub run_with :
    {S D : Type 0} → (D → LogData) → D → Action (Local S D) (Unit {0}) → Action (World S) (Unit {0})
run_with entries start body w =
    let (r, l) = body (record { env = w.env; runner = false; notes = start }) in
    (r, record w { env = l.env; logger = set_data (entries l.notes) w.logger })

abbrev or_zero : Option ℕ → ℕ
or_zero none = 0
or_zero (some n) = n

-- `schedulerPid`, on the row that it has found
unfoldable pub pid_of : {S : Type 0} → Option Scheduler → Action S ℕ
pid_of none = throw (error (some "Not found scheduler"))
pid_of (some r) = pure (or_zero r.pid)

unfoldable pub scheduler_pid : {W S T : Type 0} → Platform W S T → String → Action S ℕ
unfolding pid_of
scheduler_pid p id = p.find_scheduler id >>= pid_of

-- `ePid` behind the guard on the chunk size
unfoldable pub chunk_end : {B : Type 0} → BigNumberLib B → ℕ → ℕ → ℕ → ℕ
chunk_end lib chunk_size s e =
    if is_greater_than lib (big (sub lib (number e) (number s))) (number chunk_size)
    then to_number lib (add lib (number s) (number chunk_size))
    else e

-- The calls of the pair and the interaction template from the query runner's `connect` to its
-- `commitTransaction`, around the writes of the template.
unfoldable pub in_transaction :
    {W S T : Type 0} → Platform W S T → Action S (Unit {0}) → Action S (Unit {0})
in_transaction p writes = do p.connect; p.start_transaction; writes; p.commit

module _ {W S T D : Type 0} (p : Platform W S T) where
  -- The `catch` block of the pair and the interaction template.
  unfoldable pub roll_back : Thrown → Action (Local S D) (Unit {0})
  unfolding error_handler
  roll_back e = do
    l ← gets (λ (l : Local S D). l)
    when l.runner (on_env p.rollback)
    from_result (error_handler e)

  -- Their `finally` block.
  unfoldable pub release_runner : Action (Local S D) (Unit {0})
  release_runner = do
    l ← gets (λ (l : Local S D). l)
    when (l.runner && not (p.is_released l.env)) (on_env p.release)

  -- Their `try` block with both.
  unfoldable pub guarded : Action (Local S D) (Unit {0}) → Action (Local S D) (Unit {0})
  unfolding roll_back release_runner
  guarded attempt = try_finally (try_catch attempt roll_back) release_runner
