-- ===== src/SchedulerJob.antt =====
-- src/scheduler-job/scheduler-job.base.ts: one tick of a cron job, over any platform. `run` is the
-- abstract method, the work of the job.
pub mod ErrorHandler
pub mod Checks
pub mod Exclusion
pub mod Verdicts
pub mod Settles
pub mod Machine
use blockchain_task_server.Common.{
  ℕ, String, ◌<>◌, Bool, true, false, not, Option, none, some, List, [], ◌∷◌, ◌++◌, if◌then◌else◌,
  str_eq,
}
use blockchain_task_server.Exceptions.{
  Exception, ExceptionLevel, normal, fatal, Thrown, exception, error,
}
use blockchain_task_server.Effects.{
  Result, ok, err, Action, pure, from_result, gets, modify, try_catch, try_finally, ◌>>=◌, ◌>>◌,
  when,
}
use blockchain_task_server.Entities.{Scheduler, no_columns}
use blockchain_task_server.Platform.{Platform, update_scheduler}
use blockchain_task_server.SchedulerLogger.{
  SchedulerLoggerLevel, SchedulerLoggerDto, LogMethod, new_logger, set_logger_level, set_message,
  set_error, stop_timer, log_method,
}
use blockchain_task_server.SchedulerJob.ErrorHandler.{error_handler}

-- The job object in its surroundings: `cron` is its private field, none where it holds `undefined`,
-- `logger` is the logger of this tick, and `logs` are the calls of the logger service so far.
pub record World (S : Type 0) : Type 0 where
  pub env : S
  pub cron : Option String
  pub logger : SchedulerLoggerDto
  pub logs : List (LogMethod × SchedulerLoggerDto)

-- What a job knows of the libraries apart from the platform: the enum `CronExpression` of
-- @nestjs/schedule, whether `new CronTime` accepts a value, and `JSON.stringify`.
pub record Context : Type 0 where
  pub cron_expression : String → Option String
  pub is_cron_string : Option String → Bool
  pub to_json : Exception → Option String

-- `a === b` on strings that may be `undefined`
unfoldable pub same_cron : Option String → Option String → Bool
same_cron none none = true
same_cron (some a) (some b) = str_eq a b
same_cron _ _ = false

-- How a template literal prints a value that may be `undefined`.
abbrev pub print_cron : Option String → String
print_cron none = "undefined"
print_cron (some s) = s

module _ {S : Type 0} where
  -- An action of the platform, run by the job.
  abbrev pub on_env : {A : Type 0} → Action S A → Action (World S) A
  on_env m w = let (r, s) = m w.env in (r, record w { env = s })

  abbrev pub on_logger : (SchedulerLoggerDto → SchedulerLoggerDto) → Action (World S) (Unit {0})
  on_logger f = modify (λ w. record w { logger = f w.logger })

module _ {W S T : Type 0} (p : Platform W S T) (id : String) where
  unfoldable pub get_scheduler : Action S (Option Scheduler)
  get_scheduler = p.find_scheduler id

  unfoldable pub update_processing : Bool → Action S (Unit {0})
  update_processing b =
      p.write (update_scheduler (some id) (record no_columns { process = some b }))

  unfoldable pub update_status : Bool → Action S (Unit {0})
  update_status b = p.write (update_scheduler (some id) (record no_columns { status = some b }))

  unfoldable pub update_error : Bool → Action S (Unit {0})
  update_error b = p.write (update_scheduler (some id) (record no_columns { error = some b }))

  -- The calls of the catch block for a fatal exception, and for any other.
  unfoldable pub retire : Action S (Unit {0})
  unfolding update_status update_error
  retire = do p.delete_cron_job id; update_status false; update_error true

  unfoldable pub revive : Action S (Unit {0})
  unfolding update_status update_processing
  revive = do update_status true; update_processing false

  unfoldable pub reset_timer : Option String → Action S (Unit {0})
  reset_timer wanted = do p.set_time id wanted; p.start_job id

  module _ (c : Context) where
    -- The branch of a changed cron string.
    unfoldable pub adopt_cron : Option String → Action (World S) Bool
    unfolding reset_timer
    adopt_cron wanted w =
        (if c.is_cron_string wanted
            then (do
              on_logger (
                  set_message (
                    "change cron ("
                    <> (print_cron w.cron <> (" => " <> (print_cron wanted <> ")")))))
              modify (λ (w : World S). record w { cron = wanted })
              on_env (reset_timer wanted)
              pure false)
            else (on_logger (set_message "Invalid cron string") >> pure false))
          w

    -- `checkState`, on the row that it has found
    unfoldable pub check_row : Option Scheduler → Action (World S) Bool
    unfolding adopt_cron same_cron
    check_row none w =
        (do
          on_env (p.delete_cron_job id)
          on_logger (set_message "Not found scheduler")
          on_logger (set_logger_level SchedulerLoggerLevel.warn)
          pure false)
          w
    check_row (some r) w =
        (if r.process
            then (do
              on_logger (set_message "already processing")
              on_logger (set_logger_level SchedulerLoggerLevel.warn)
              pure false)
            else if same_cron w.cron (c.cron_expression r.cron)
            then pure true
            else adopt_cron (c.cron_expression r.cron))
          w

    unfoldable pub check_state : Action (World S) Bool
    unfolding get_scheduler check_row
    check_state = do r ← on_env get_scheduler; check_row r

    -- What the catch makes of an error that is no exception of the program: `errorHandler` throws.
    unfoldable pub target_of : Thrown → Result Exception
    unfolding error_handler
    target_of (exception e) = ok e
    target_of (error m) = error_handler (error m)

    unfoldable pub handle_level : ExceptionLevel → Action (World S) (Unit {0})
    unfolding retire revive
    handle_level fatal = do on_logger (set_logger_level SchedulerLoggerLevel.fail); on_env retire
    handle_level normal = do on_logger (set_logger_level SchedulerLoggerLevel.warn); on_env revive

    -- The `catch` block.
    unfoldable pub handle : Thrown → Action (World S) (Unit {0})
    unfolding target_of handle_level
    handle thrown = do
      e ← from_result (target_of thrown)
      on_logger (set_error c.to_json (exception e))
      handle_level e.level

    -- The `finally` block; `log` hands the logger's record to the service.
    unfoldable pub finish : ℕ → Action (World S) (Unit {0})
    finish now = do
      on_logger (stop_timer now)
      modify (λ w. record w { logs = w.logs ++ ((log_method w.logger, w.logger) ∷ []) })

    module _ (run : Action (World S) (Unit {0})) where
      -- The part of the `try` block behind the check.
      unfoldable pub work : Action (World S) (Unit {0})
      unfolding update_processing
      work = do
        on_env (update_processing true)
        run
        on_env (update_processing false)
        on_logger (set_message "success")

      -- The `try` block of `processWork`.
      unfoldable pub attempt : Action (World S) (Unit {0})
      unfolding check_state work
      attempt = do do_job ← check_state; when do_job work

      -- `processWork`, begun and ended at the two times.
      unfoldable pub process_work : ℕ → ℕ → Action (World S) (Unit {0})
      unfolding attempt handle finish
      process_work begun ended = do
        modify (λ w. record w { logger = new_logger id begun })
        try_finally (try_catch attempt handle) (finish ended)
