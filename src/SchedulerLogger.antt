-- ===== src/SchedulerLogger.antt =====
-- app-scheduler/scheduler-logger/scheduler-logger.dto.ts, the record that one tick of a job fills, and
-- the choice of loggers in scheduler-logger.service.ts. Times are milliseconds of the clock, which
-- the caller gives. `to_json` is `JSON.stringify` with `errorToJSON`, none where it throws, as on a
-- cyclic value.
use blockchain_task_server.Common.{ℕ, ◌-◌, String, Option, none, some, List, leb, if◌then◌else◌}
use blockchain_task_server.Exceptions.{Exception, Payload, Thrown, exception, error}

-- scheduler-logger.constant.ts
pub data SchedulerLoggerLevel : Type 0 where
  success warn fail : SchedulerLoggerLevel

-- A value in the data that a job reports.
pub data LogValue : Type 0 where
  null : LogValue
  number : ℕ → LogValue
  numbers : List ℕ → LogValue
  text : String → LogValue
  failures : List (ℕ × String) → LogValue

abbrev pub LogData : Type 0
LogData = List (String × LogValue)

-- The difference of two times, in milliseconds.
pub data Elapsed : Type 0 where
  after before : ℕ → Elapsed

pub record SchedulerLoggerDto : Type 0 where
  pub id : String
  pub log_level : SchedulerLoggerLevel
  pub start_time : ℕ
  pub end_time : Option ℕ
  pub elapsed_time : Option Elapsed
  pub message : Option String
  pub log_data : Option LogData
  pub error : Option String
  pub error_code : Option String
  pub error_message : Option String
  pub error_data : Option Payload

-- The constructor.
unfoldable pub new_logger : String → ℕ → SchedulerLoggerDto
new_logger id now = record {
  id = id;
  log_level = success;
  start_time = now;
  end_time = none;
  elapsed_time = none;
  message = none;
  log_data = none;
  error = none;
  error_code = none;
  error_message = none;
  error_data = none;
}

unfoldable pub set_logger_level : SchedulerLoggerLevel → SchedulerLoggerDto → SchedulerLoggerDto
set_logger_level value dto = record dto { log_level = value }

unfoldable pub set_message : String → SchedulerLoggerDto → SchedulerLoggerDto
set_message value dto = record dto { message = some value }

unfoldable pub set_data : LogData → SchedulerLoggerDto → SchedulerLoggerDto
set_data value dto = record dto { log_data = some value }

-- `if (isNull(this.message)) this.message = this.errorMessage`
abbrev message_or : Option String → String → Option String
message_or none m = some m
message_or (some old) m = some old

-- `setError`: where the stringification throws, its catch drops the whole assignment.
unfoldable pub set_error :
    (Exception → Option String) → Thrown → SchedulerLoggerDto → SchedulerLoggerDto
set_error to_json (exception e) dto = elim (to_json e) [
  | none ↦ dto
  | some json_text ↦ record dto {
    error = some json_text;
    error_code = e.code;
    error_message = some e.message;
    error_data = e.payload;
    message = message_or dto.message e.message;
  }
]
set_error to_json (error m) dto = record dto { error = m }

unfoldable pub stop_timer : ℕ → SchedulerLoggerDto → SchedulerLoggerDto
stop_timer now dto = record dto {
  end_time = some now;
  elapsed_time = some (
      if leb dto.start_time now
      then after (now - dto.start_time)
      else before (dto.start_time - now));
}

-- The methods of the logger service, and the file that each writes.
pub data LogMethod : Type 0 where
  log_info log_warn log_error : LogMethod

pub data LogFile : Type 0 where
  info_file warn_file error_file : LogFile

-- `getFileLogger`
unfoldable pub get_file_logger : SchedulerLoggerLevel → LogFile
get_file_logger success = info_file
get_file_logger warn = warn_file
get_file_logger fail = error_file

-- `log`, `warn` and `error` of the service: the level that each asks `getFileLogger` for.
unfoldable pub level_of_method : LogMethod → SchedulerLoggerLevel
level_of_method log_info = success
level_of_method log_warn = warn
level_of_method log_error = fail

-- The switch of `log(logger)`: the method of the service that is called.
unfoldable pub log_method : SchedulerLoggerDto → LogMethod
log_method dto = elim dto.log_level [ success ↦ log_info | warn ↦ log_warn | fail ↦ log_error ]
