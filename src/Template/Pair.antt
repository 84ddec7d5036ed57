-- ===== src/Template/Pair.antt =====
-- src/scheduler-job/template/pair.template.ts: a job that reads the pairs of an exchange, ten at a time,
-- and registers their tokens and the tokens of which they are composed.
pub mod Data
pub mod Addresses
pub mod Infos
pub mod Tokens
pub mod Sorted
pub mod Fallback
pub mod Staging
pub mod Transaction
use blockchain_task_server.Common.{
  ℕ, String, Bool, true, false, some, List, [], ◌∷◌, length, ltb, if◌then◌else◌,
}
use blockchain_task_server.Effects.{Action, pure, modify, ◌>>=◌, ◌>>◌, when}
use blockchain_task_server.Entities.{no_columns}
use blockchain_task_server.Platform.{Platform, update_scheduler}
use blockchain_task_server.BigNumber.{
  BigNumberLib, number, sub, is_greater_than_or_equal, to_number,
}
use blockchain_task_server.Arrays.{fill_sequence_number}
use blockchain_task_server.SchedulerLogger.{LogData, LogValue}
use blockchain_task_server.SchedulerJob.{World}
use blockchain_task_server.Template.{
  Local, on_env, on_notes, run_with, scheduler_pid, chunk_end, in_transaction, guarded,
}
use blockchain_task_server.Template.Pair.Data.{TokenParams, PairContext}
use blockchain_task_server.Template.Pair.Addresses.{
  grouping, remove_registered_tokens, remove_invalid_tokens, check_multi_token_in_single_position,
}
use blockchain_task_server.Template.Pair.Infos.{get_token_infos}
use blockchain_task_server.Template.Pair.Tokens.{create_single_tokens, create_multi_tokens}

-- `loggerData`
pub record PairNotes : Type 0 where
  pub total : LogValue
  pub current : LogValue
  pub start : LogValue
  pub end : LogValue

abbrev entries : PairNotes → LogData
entries n = ("total", n.total) ∷ ("current", n.current) ∷ ("start", n.start) ∷ ("end", n.end) ∷ []

module _ {S T : Type 0} (p : Platform (List TokenParams) S T) (id : String)
    (c : PairContext S) where
  unfoldable pub do_task : List String → Action S (Unit {0})
  unfolding grouping remove_registered_tokens remove_invalid_tokens
      check_multi_token_in_single_position get_token_infos create_single_tokens create_multi_tokens
  do_task tokens = do
    composed ← c.get_batch_pair_infos tokens
    fresh ← remove_registered_tokens c (grouping composed).0 (grouping composed).1
    valid ← remove_invalid_tokens c fresh.0 fresh.1
    pure_tokens ← check_multi_token_in_single_position c valid.0 valid.1.0 valid.1.1
    infos ← get_token_infos c pure_tokens.0 pure_tokens.1.0
    when (ltb 0 (length pure_tokens.1.0)) (create_single_tokens c p pure_tokens.1.0 infos.1)
    when (ltb 0 (length pure_tokens.0))
        (create_multi_tokens c p pure_tokens.0 infos.0 composed pure_tokens.1.1)

  -- The update of the scheduler's `pid`, through the manager.
  unfoldable pub move_on : ℕ → Action S (Unit {0})
  move_on end = p.write_in (update_scheduler (some id) (record no_columns { pid = some end }))

  unfoldable pub store : List String → ℕ → Action S (Unit {0})
  unfolding in_transaction do_task move_on
  store tokens end = in_transaction p (do_task tokens >> move_on end)

  module _ {B : Type 0} (lib : BigNumberLib B) where
    -- The part of the `try` block behind the test for new pairs.
    unfoldable pub crawl : ℕ → ℕ → Action (Local S PairNotes) (Unit {0})
    unfolding store
    crawl s end = do
      on_notes (λ n. record n { start = LogValue.number s; end = LogValue.number end })
      let pids = fill_sequence_number (to_number lib (sub lib (number end) (number s))) s
      tokens ← on_env (c.get_amm_factory_infos pids)
      modify (λ l. record l { runner = true })
      on_env (store tokens end)

    -- The two numbers are awaited together; both calls only read.
    unfoldable pub attempt : Action (Local S PairNotes) (Unit {0})
    unfolding crawl
    attempt = do
      n ← on_env c.get_amm_factory_total_length
      s ← on_env (scheduler_pid p id)
      on_notes (λ notes. record notes { total = LogValue.number n; current = LogValue.number s })
      if is_greater_than_or_equal lib (number s) (number n)
          then pure tt
          else crawl s (chunk_end lib 10 s n)

    -- The body of `run`, up to the call of the logger.
    unfoldable pub body : Action (Local S PairNotes) (Unit {0})
    unfolding attempt guarded
    body = guarded p attempt

    unfoldable pub run : Action (World S) (Unit {0})
    unfolding body
    run =
        run_with entries
          (record {
            total = LogValue.null;
            current = LogValue.null;
            start = LogValue.null;
            end = LogValue.null;
          })
          body
