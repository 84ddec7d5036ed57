-- ===== src/ExceptionFilter.antt =====
-- src/app/filter/all-exception.filter.ts: the answer to a request whose handler has thrown.
use blockchain_task_server.Common.{ℕ, String, Option}
use blockchain_task_server.Exceptions.{
  Payload, Exception, Thrown, exception, error, internal_exception, not_found_api_exception,
}

-- What the filter catches: a `NotFoundException` of NestJS, or anything else.
pub data Raised : Type 0 where
  not_found : Raised
  thrown : Thrown → Raised

-- The status, and the JSON that is sent. A payload is never falsy.
pub record Answer : Type 0 where
  pub status : ℕ
  pub message : String
  pub error_code : Option String
  pub payload : Option Payload

unfoldable pub target_exception : Raised → Exception
unfolding internal_exception not_found_api_exception
target_exception not_found = not_found_api_exception
target_exception (thrown (exception e)) = e
target_exception (thrown (error message)) = internal_exception

unfoldable pub answer_of : Raised → Answer
unfolding target_exception
answer_of raised =
    let e = target_exception raised in
    record { status = e.http_code; message = e.message; error_code = e.code; payload = e.payload }
