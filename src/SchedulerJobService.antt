-- ===== src/SchedulerJobService.antt =====
-- src/scheduler-job/scheduler-job.service.ts: `start`, which runs when the server boots.
pub mod Reset
use blockchain_task_server.Common.{String, Bool, true, false, not, none, some, List, if◌then◌else◌}
use blockchain_task_server.Effects.{Action, pure, gets, try_catch, ◌>>=◌, ◌>>◌, for_each}
use blockchain_task_server.Entities.{Scheduler, no_columns}
use blockchain_task_server.Platform.{Platform, update_scheduler}

module _ {W S T : Type 0} (p : Platform W S T) where
  -- The callback of the `forEach`, up to its rejection.
  unfoldable pub start_one : Scheduler → Action S (Unit {0})
  start_one r s =
      (if not (p.registered s r.id)
          then p.write (update_scheduler (some r.id) (record no_columns { status = some false }))
          else p.start_job r.id)
        s

  -- `forEach` awaits no callback: a rejection stops neither the others nor `start`. The callbacks
  -- write different rows, so that it does not matter how they are interleaved.
  unfoldable pub start_each : List Scheduler → Action S (Unit {0})
  unfolding start_one for_each
  start_each = for_each (λ r. try_catch (start_one r) (λ e. pure tt))

  unfoldable pub start : Action S (Unit {0})
  unfolding start_each
  start = do
    schedulers ← p.find_active_schedulers
    p.write (update_scheduler none (record no_columns { process = some false }))
    start_each schedulers
