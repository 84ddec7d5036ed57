-- ===== src/Template/Interaction.antt =====
-- src/scheduler-job/template/interaction.template.ts: a job that reads blocks, some at a time, and keeps
-- which account has called which contract.
pub mod Writes
pub mod Blocked
use blockchain_task_server.Common.{
  ℕ, zero, String, Bool, true, false, Option, none, some, List, [], ◌∷◌, map, length, ◌==◌, ltb,
  if◌then◌else◌,
}
use blockchain_task_server.Exceptions.{Thrown, error}
use blockchain_task_server.Effects.{Result, Action, pure, throw, modify, ◌>>=◌, ◌>>◌, map_each}
use blockchain_task_server.Entities.{Scheduler, no_columns}
use blockchain_task_server.Platform.{Platform, update_scheduler, other}
use blockchain_task_server.BigNumber.{
  BigNumberLib, number, sub, is_greater_than_or_equal, to_number,
}
use blockchain_task_server.Arrays.{fill_sequence_number, flat}
use blockchain_task_server.SchedulerLogger.{LogData, LogValue}
use blockchain_task_server.SchedulerJob.{World, on_env as on_world}
use blockchain_task_server.Template.{Local, on_env, run_with, chunk_end, in_transaction, guarded}
use blockchain_task_server.Template.Pair.Data.{zero_address}

-- A transaction of a block: `to` is null where it creates a contract.
pub record Transaction : Type 0 where
  pub from : String
  pub to : Option String

-- The node's response for a block: an error, or the transactions.
pub data Response : Type 0 where
  failed : Response
  block : List Transaction → Response

-- A row to be created.
pub record Interaction : Type 0 where
  pub network : String
  pub from_address : String
  pub to_address : Option String

-- The calls of the node and of the multicall contract, the network, and the chunk size of the job.
pub record InteractionContext (S : Type 0) : Type 0 where
  pub network : String
  pub chunk_size : ℕ
  pub get_block_number : Action S ℕ
  pub get_batch_block_infos : List ℕ → Action S (List Response)
  pub get_batch_check_ca : List String → Action S (List Bool)

-- `loggerData`
pub record InteractionNotes : Type 0 where
  pub total : ℕ
  pub start : ℕ
  pub end : ℕ

abbrev entries : InteractionNotes → LogData
entries n =
    ("total", LogValue.number n.total)
    ∷ ("start", LogValue.number n.start)
    ∷ ("end", LogValue.number n.end)
    ∷ []

abbrev or_zero : Option ℕ → ℕ
or_zero none = 0
or_zero (some n) = n

-- `getSchedulerBlockNumber`, on the row that it has found
unfoldable pub block_of : {S : Type 0} → Option Scheduler → Action S ℕ
block_of none = throw (error (some "Not found scheduler"))
block_of (some r) = pure (or_zero r.block_number)

abbrev pub callee : Option String → String
callee none = zero_address
callee (some a) = a

-- The transactions whose check is true; a check behind the end is falsy.
unfoldable pub contract_calls : List Transaction → List Bool → List Transaction
contract_calls [] checks = []
contract_calls (t ∷ ts) [] = []
contract_calls (t ∷ ts) (b ∷ checks) =
    let rest = contract_calls ts checks in if b then t ∷ rest else rest

-- The lists that are pushed.
abbrev pub non_empty : {A : Type 0} → List (List A) → List (List A)
non_empty [] = []
non_empty (xs ∷ xss) = let rest = non_empty xss in if ltb 0 (length xs) then xs ∷ rest else rest

module _ {S T : Type 0} (p : Platform (List Interaction) S T) (id : String)
    (c : InteractionContext S) where
  unfoldable pub get_scheduler_block_number : Action S ℕ
  unfolding block_of
  get_scheduler_block_number = p.find_scheduler id >>= block_of

  -- `updateSchedulerBlockNumber`, through the manager
  unfoldable pub update_scheduler_block_number : ℕ → Action S (Unit {0})
  update_scheduler_block_number end =
      p.write_in (update_scheduler (some id) (record no_columns { block_number = some end }))

  unfoldable pub bulk_create : List Interaction → Action S (Unit {0})
  bulk_create params = p.write_in (other params)

  unfoldable pub interaction_of : Transaction → Interaction
  interaction_of t = record { network = c.network; from_address = t.from; to_address = t.to }

  unfoldable pub parse_contract_interaction_transaction :
      List Transaction → Action S (List Interaction)
  unfolding contract_calls interaction_of
  parse_contract_interaction_transaction [] = pure []
  parse_contract_interaction_transaction (t ∷ ts) = do
    checks ← c.get_batch_check_ca (map (λ (x : Transaction). callee x.to) (t ∷ ts))
    pure (map interaction_of (contract_calls (t ∷ ts) checks))

  -- The callback on a response; one with an error pushes nothing.
  unfoldable pub parse_response : Response → Action S (List Interaction)
  unfolding parse_contract_interaction_transaction
  parse_response failed = pure []
  parse_response (block ts) = parse_contract_interaction_transaction ts

  unfoldable pub store : List Interaction → ℕ → Action S (Unit {0})
  unfolding in_transaction bulk_create update_scheduler_block_number
  store params end = in_transaction p (bulk_create params >> update_scheduler_block_number end)

  module _ {B : Type 0} (lib : BigNumberLib B) where
    -- The `try` block, on the blocks of `getBatchBlockWithTransaction`.
    unfoldable pub crawl : ℕ → ℕ → Action (Local S InteractionNotes) (Unit {0})
    unfolding parse_response map_each flat store
    crawl s end = do
      let blocks = fill_sequence_number (to_number lib (sub lib (number end) (number s))) s
      responses ← on_env (c.get_batch_block_infos blocks)
      params ← on_env (map_each parse_response responses)
      modify (λ l. record l { runner = true })
      on_env (store (flat (non_empty params)) end)

    -- The part of `run` behind its first test: the data reach the logger there only.
    unfoldable pub work_on : ℕ → ℕ → ℕ → Action (World S) (Unit {0})
    unfolding guarded crawl
    work_on n s end =
        run_with entries (record { total = n; start = s; end = end }) (guarded p (crawl s end))

    -- `run`, which awaits the two block numbers outside of its `try`.
    unfoldable pub run : Action (World S) (Unit {0})
    unfolding get_scheduler_block_number work_on
    run = do
      s ← on_world get_scheduler_block_number
      n ← on_world c.get_block_number
      if is_greater_than_or_equal lib (number s) (number n)
          then pure tt
          else work_on n s (chunk_end lib c.chunk_size s n)
