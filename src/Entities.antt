-- ===== src/Entities.antt =====
-- libs/repository/src/*/entity.ts: the rows that the modelled code reads and writes. A nullable
-- column is an option, and a column of which the modelled code reads nothing is left out.
use blockchain_task_server.Common.{ℕ, String, Bool, Option, none, some}

-- libs/repository/src/scheduler/entity.ts
pub record Scheduler : Type 0 where
  pub id : String
  pub type : String
  pub identity : String
  pub cron : String
  pub block_number : Option ℕ
  pub pid : Option ℕ
  pub error : Bool
  pub process : Bool
  pub status : Bool

-- The columns that an update of a scheduler sets.
pub record SchedulerSet : Type 0 where
  pub process : Option Bool
  pub status : Option Bool
  pub error : Option Bool
  pub pid : Option ℕ
  pub block_number : Option ℕ

abbrev pub no_columns : SchedulerSet
no_columns = record { process = none; status = none; error = none; pid = none; block_number = none }

-- `scheduler.updateBlockNumber(blockNumber)`
unfoldable pub update_block_number : ℕ → Scheduler → Scheduler
update_block_number n s = record s { block_number = some n }

-- `scheduler.updatePid(pid)`, which writes the other column.
unfoldable pub update_pid : ℕ → Scheduler → Scheduler
update_pid n s = record s { block_number = some n }
