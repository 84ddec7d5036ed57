-- ===== src/SchedulerJob/ErrorHandler.antt =====
-- `SchedulerJobBase.errorHandler`: the classification of a caught error by its message. The patterns
-- hold no special character, so `String.prototype.match` looks for the pattern as a part of the text.
use Prim.Native.String.{find, len}
use blockchain_task_server.Common.{String, Bool, false, none, some, leb, if◌then◌else◌}
use blockchain_task_server.Exceptions.{
  ExceptionLevel, normal, fatal, Exception, caught, Thrown, exception, message_of, new_exception,
  err004, err1001, err1002, err1003, err1004, err1005, err1007, err1008, err1009, err1010,
}
use blockchain_task_server.Effects.{Result, err}

-- `e.message?.match(pattern)`, as a condition
unfoldable pub matches : Thrown → String → Bool
matches e pattern = elim (message_of e) [
  | none ↦ false
  | some text ↦ leb (find text pattern) (len text)
]

abbrev pub raised : String → ExceptionLevel → Thrown → Exception
raised code level e =
    new_exception code
      (record { http_code = none; level = some level; payload = some (caught (message_of e)) })

-- What `errorHandler` throws: the first of its tests that passes, or an unknown exception.
unfoldable pub classify : Thrown → Exception
classify e =
    if matches e err1002
    then raised err1002 normal e
    else if matches e err1003
    then raised err1003 normal e
    else if matches e err1004
    then raised err004 normal e
    else if matches e err1005
    then raised err1005 normal e
    else if matches e err1009
    then raised err1009 normal e
    else if matches e err1010
    then raised err1010 normal e
    else if matches e err1008
    then raised err1008 fatal e
    else if matches e err1007
    then raised err1007 fatal e
    else raised err1001 fatal e

-- It is declared to return an exception, and throws on every path.
unfoldable pub error_handler : {A : Type 0} → Thrown → Result A
unfolding classify
error_handler e = err (exception (classify e))
