-- ===== src/Template/Nft.antt =====
-- src/scheduler-job/template/nft.template.ts: a job that reads the NFTs of a collection, ten at a time.
-- `N` is the type of the rows that a crawl yields. The abstract methods are arguments, and the
-- connection is there when the query runner is made.
pub mod Store
pub mod Outcomes
use blockchain_task_server.Common.{
  ℕ, String, Bool, true, false, ◌&&◌, Option, none, some, List, [], ◌∷◌, if◌then◌else◌,
}
use blockchain_task_server.Exceptions.{Thrown}
use blockchain_task_server.Effects.{
  Result, ok, err, Action, pure, from_result, gets, modify, try_catch, try_finally, ◌>>=◌, ◌>>◌,
  when,
}
use blockchain_task_server.Entities.{no_columns}
use blockchain_task_server.Platform.{Platform, Write, update_scheduler, other}
use blockchain_task_server.BigNumber.{
  BigNumberLib, number, sub, is_greater_than_or_equal, to_number,
}
use blockchain_task_server.Arrays.{fill_sequence_number}
use blockchain_task_server.SchedulerLogger.{LogData, LogValue}
use blockchain_task_server.SchedulerJob.{World}
use blockchain_task_server.SchedulerJob.ErrorHandler.{error_handler}
use blockchain_task_server.Template.{Local, on_env, on_notes, run_with, scheduler_pid, chunk_end}

-- `loggerData`
pub record NftNotes : Type 0 where
  pub total : LogValue
  pub worked : List ℕ

abbrev entries : NftNotes → LogData
entries n = ("total", n.total) ∷ ("worked", LogValue.numbers n.worked) ∷ []

module _ {N S T : Type 0} (p : Platform (List N) S T) (id : String) where
  -- `updateSchedulerPid`, as `run` calls it: without the manager of the transaction.
  unfoldable pub update_scheduler_pid : ℕ → Action S (Unit {0})
  update_scheduler_pid end =
      p.write (update_scheduler (some id) (record no_columns { pid = some end }))

  -- The calls from the query runner's `connect` to its `commitTransaction`.
  unfoldable pub store : List N → ℕ → Action S (Unit {0})
  unfolding update_scheduler_pid
  store tokens end = do
    p.connect
    p.start_transaction
    p.write_in (other tokens)
    update_scheduler_pid end
    p.commit

  module _ {B : Type 0} (lib : BigNumberLib B) (network_pid : Action S ℕ)
      (crawl_nf_tokens : List ℕ → Action S (List N)) where
    -- The part of the `try` block behind the test for new tokens.
    unfoldable pub crawl : ℕ → ℕ → Action (Local S NftNotes) (Unit {0})
    unfolding store
    crawl s end = do
      let pids = fill_sequence_number (to_number lib (sub lib (number end) (number s))) s
      on_notes (λ n. record n { worked = pids })
      tokens ← on_env (crawl_nf_tokens pids)
      modify (λ l. record l { runner = true })
      on_env (store tokens end)

    -- The two numbers are awaited together; both calls only read.
    unfoldable pub attempt : Action (Local S NftNotes) (Unit {0})
    unfolding crawl
    attempt = do
      n ← on_env network_pid
      s ← on_env (scheduler_pid p id)
      on_notes (λ notes. record notes { total = LogValue.number n })
      if is_greater_than_or_equal lib (number s) (number n)
          then pure tt
          else crawl s (chunk_end lib 10 s n)

    unfoldable pub handle : Thrown → Action (Local S NftNotes) (Unit {0})
    handle e = do
      l ← gets (λ (l : Local S NftNotes). l)
      when l.runner (on_env p.rollback)
      from_result (error_handler e)

    unfoldable pub finish : Action (Local S NftNotes) (Unit {0})
    finish = do
      l ← gets (λ (l : Local S NftNotes). l)
      when (l.runner && p.is_transaction_active l.env) (on_env p.rollback)

    -- The body of `run`, up to the call of the logger.
    unfoldable pub body : Action (Local S NftNotes) (Unit {0})
    unfolding attempt handle finish
    body = try_finally (try_catch attempt handle) finish

    unfoldable pub run : Action (World S) (Unit {0})
    unfolding body
    run = run_with entries (record { total = LogValue.text ""; worked = [] }) body
