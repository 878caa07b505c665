-- ===== src/Api/Responses.antt =====
-- src/common/filters/http-exception.filter.ts and src/common/interceptors/transform.interceptor.ts: what the
-- client is sent. The statuses of NestJS's exceptions are a parameter; the messages of the services are
-- single texts.
use Prim.Native.String.{◌++◌}
use k_pos_be.Common.{ℕ, String, Option, none, some, List, [], ◌∷◌, or_else, show_ℕ}
use k_pos_be.Prisma.Action.{
  Error, Result, ok, err, bad_request, unauthorized, forbidden, not_found, conflict,
  service_unavailable, internal, unhealthy, sync_exception, database,
}
use k_pos_be.Sync.Failure.{code_text}

-- `HttpException.getStatus` and HttpStatus.INTERNAL_SERVER_ERROR
pub record HttpStatus : Type 0 where
  pub get_status : Error → ℕ
  pub internal_server_error : ℕ

-- `message` and `code` of `exception.getResponse()`, where the object has them
pub record ExceptionResponse : Type 0 where
  pub message : Option String
  pub code : Option String

abbrev pub plain_response : String → ExceptionResponse
plain_response m = record { message = some m; code = none }

-- `none` for what is no HttpException: the errors of queries
unfoldable pub get_response : Error → Option ExceptionResponse
unfolding code_text
get_response (bad_request m) = some (plain_response m)
get_response (unauthorized m) = some (plain_response m)
get_response (forbidden m) = some (plain_response m)
get_response (not_found m) = some (plain_response m)
get_response (conflict m) = some (plain_response m)
get_response (service_unavailable m) = some (plain_response m)
get_response (internal m) = some (plain_response m)
get_response (unhealthy m) = some (record { message = none; code = none })
get_response (sync_exception c m) = some (record { message = some m; code = some (code_text c) })
get_response (database e) = none

-- what the filter adds of the request
pub record RequestInfo : Type 0 where
  pub request_id : String
  pub path : String
  pub timestamp : ℕ

pub record ErrorBody : Type 0 where
  pub message : String
  pub code : String
  pub details : List String
  pub info : RequestInfo

pub data Response (A : Type 0) : Type 0 where
  success : A → Response A
  failure : ℕ → ErrorBody → Response A

module _ (http : HttpStatus) (info : RequestInfo) where
  abbrev pub status_of_error : Error → Option ExceptionResponse → ℕ
  status_of_error e none = http.internal_server_error
  status_of_error e (some r) = http.get_status e

  abbrev pub message_or_default : Option ExceptionResponse → String
  message_or_default none = "Internal server error"
  message_or_default (some r) = or_else r.message "Internal server error"

  abbrev pub code_or_status : ℕ → Option ExceptionResponse → String
  code_or_status status none = "HTTP_" ++ show_ℕ status
  code_or_status status (some r) = or_else r.code ("HTTP_" ++ show_ℕ status)

  -- `catch`
  unfoldable pub catch_exception : {A : Type 0} → Error → Response A
  unfolding get_response
  catch_exception e =
      let response = get_response e in
      let status = status_of_error e response in
      failure status (record {
        message = message_or_default response;
        code = code_or_status status response;
        details = message_or_default response ∷ [];
        info = info;
      })

  -- a call that returned goes through the interceptor, one that threw through the filter
  unfoldable pub respond : {A : Type 0} → Result A → Response A
  unfolding catch_exception
  respond (ok a) = success a
  respond (err e) = catch_exception e
