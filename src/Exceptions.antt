-- ===== src/Exceptions.antt =====
-- common/exceptions/exception.service.ts: the exceptions that the program raises itself, and what a
-- `throw` of any kind carries.
mod Codes
pub mod Lookup
pub use Codes.*
use blockchain_task_server.Common.{
  ℕ, zero, String, Bool, true, false, Option, none, some, List, [], ◌∷◌, if◌then◌else◌, str_eq,
}

abbrev pub err000 : String
err000 = "Internal server error"

abbrev pub err001 : String
err001 = "API not found"

abbrev pub err002 : String
err002 = "Validation error"

abbrev pub err004 : String
err004 = ""

abbrev pub err1001 : String
err1001 = "Unknown exception"

abbrev pub err1002 : String
err1002 = "missing response"

abbrev pub err1003 : String
err1003 = "ETIMEDOUT"

abbrev pub err1004 : String
err1004 = "could not detect network"

abbrev pub err1005 : String
err1005 = "Expected rpc error"

abbrev pub err1007 : String
err1007 = "missing revert data in call exception"

abbrev pub err1008 : String
err1008 = "Too many connections"

abbrev pub err1009 : String
err1009 = "Too Many Requests"

abbrev pub err1010 : String
err1010 = "processing response error"

-- `keys.filter((x) => ExceptionCode[x] == enumValue)[0]`, or null
unfoldable pub first_key : String → List Entry → Option String
first_key value [] = none
first_key value ((key, message) ∷ rest) =
    if str_eq message value then some key else first_key value rest

unfoldable pub get_exception_code : String → Option String
unfolding first_key
get_exception_code value = first_key value exception_codes

-- What the `data` of an exception holds: a caught error, of which the program reads the message, or
-- any other value, as its JSON text.
pub data Payload : Type 0 where
  caught : Option String → Payload
  json : String → Payload

pub record Exception : Type 0 where
  pub message : String
  pub code : Option String
  pub level : ExceptionLevel
  pub http_code : ℕ
  pub payload : Option Payload

pub record ExceptionOptions : Type 0 where
  pub http_code : Option ℕ
  pub level : Option ExceptionLevel
  pub payload : Option Payload

-- `options?.httpCode || HttpStatus.INTERNAL_SERVER_ERROR`: 0 is false too.
abbrev or_internal : Option ℕ → ℕ
or_internal none = 500
or_internal (some zero) = 500
or_internal (some n) = n

abbrev or_fatal : Option ExceptionLevel → ExceptionLevel
or_fatal none = fatal
or_fatal (some level) = level

-- The constructor of `Exception`.
unfoldable pub new_exception : String → ExceptionOptions → Exception
unfolding get_exception_code
new_exception message options = record {
  message = message;
  code = get_exception_code message;
  level = or_fatal options.level;
  http_code = or_internal options.http_code;
  payload = options.payload;
}

unfoldable pub internal_exception : Exception
unfolding new_exception
internal_exception =
    new_exception err000 (record { http_code = some 500; level = some fatal; payload = none })

unfoldable pub not_found_api_exception : Exception
unfolding new_exception
not_found_api_exception =
    new_exception err001 (record { http_code = some 404; level = some fatal; payload = none })

unfoldable pub validation_exception : Payload → Exception
unfolding new_exception
validation_exception payload =
    new_exception err002
      (record { http_code = some 400; level = some fatal; payload = some payload })

-- What a `catch` receives: an exception of the program, or any other error with its message, if any.
pub data Thrown : Type 0 where
  exception : Exception → Thrown
  error : Option String → Thrown

-- `e.message`
abbrev pub message_of : Thrown → Option String
message_of (exception e) = some e.message
message_of (error message) = message
