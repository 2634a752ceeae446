-- ===== src/Errors/Normalize.antt =====
-- packages/contracts/src/errors/normalize.ts: what `catch` receives, made into an ImgentError.
use imgent.Prelude.{
  ℕ, String, Option, none, some, Bool, ◌||◌, ◌==◌, leb, nat_beq, if◌then◌else◌, present,
}
use imgent.Errors.Codes.{
  ErrorCode, config_file_invalid, adapter_auth_required, adapter_permission_denied,
  adapter_rate_limited, adapter_service_unavailable, adapter_request_rejected,
  adapter_request_timeout, adapter_connection_failed,
}
use imgent.Errors.Descriptor.{ErrorDescriptor, ImgentError, no_options, new_error}

-- What the code reads of a value that is neither an ImgentError nor a descriptor: `name` and `code`
-- as text, empty where they are absent, whether `issues` is an array, and `status` where it is a
-- natural number.
pub record ForeignError : Type 0 where
  pub name : String
  pub has_issues : Bool
  pub status : Option ℕ
  pub node_code : String

-- The three kinds of values that normalizeError tells apart: `instanceof ImgentError`,
-- `isErrorDescriptor`, and the rest.
pub data Thrown : Type 0 where
  imgent_error : ImgentError → Thrown
  descriptor : ErrorDescriptor → Thrown
  foreign : ForeignError → Thrown

-- ["ECONNRESET", "ECONNREFUSED", "ENETUNREACH", "EPIPE"].includes(nodeCode)
abbrev pub is_connection_code : String → Bool
is_connection_code c =
    c == "ECONNRESET" || c == "ECONNREFUSED" || c == "ENETUNREACH" || c == "EPIPE"

abbrev pub is_timeout_code : String → Bool
is_timeout_code c = c == "ETIMEDOUT" || c == "UND_ERR_CONNECT_TIMEOUT"

node_error_code : String → ErrorCode → ErrorCode
node_error_code c fallback =
    if is_timeout_code c
    then adapter_request_timeout
    else if is_connection_code c
    then adapter_connection_failed
    else fallback

http_error_code : ℕ → String → ErrorCode → ErrorCode
http_error_code status c fallback =
    if nat_beq status 401
    then adapter_auth_required
    else if nat_beq status 403
    then adapter_permission_denied
    else if nat_beq status 429
    then adapter_rate_limited
    else if leb 500 status
    then adapter_service_unavailable
    else if leb 400 status
    then adapter_request_rejected
    else node_error_code c fallback

status_error_code : Option ℕ → String → ErrorCode → ErrorCode
status_error_code none c fallback = node_error_code c fallback
status_error_code (some status) c fallback = http_error_code status c fallback

-- The code that is given to a value that is neither.
unfoldable pub foreign_code : ForeignError → ErrorCode → ErrorCode
unfolding node_error_code http_error_code status_error_code
foreign_code e fallback =
    if e.name == "ZodError" || e.has_issues
    then config_file_invalid
    else status_error_code e.status e.node_code fallback

-- normalizeError(error, fallbackCode); of its options only the diagnostic is ever given, which is
-- logged and not kept.
unfoldable pub normalize_error : Thrown → ErrorCode → String → ImgentError
unfolding new_error
normalize_error (imgent_error e) fallback uuid = e
normalize_error (descriptor d) fallback uuid =
    new_error d.code
      (record { retry_after_ms = d.retry.retry_after_ms; incident_id = present d.incident_id }) uuid
normalize_error (foreign e) fallback uuid = new_error (foreign_code e fallback) no_options uuid
