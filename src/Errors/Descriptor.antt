-- ===== src/Errors/Descriptor.antt =====
-- packages/contracts/src/errors/descriptor.ts and imgent-error.ts.
-- A fresh UUID is an argument of what the source draws it in.
use imgent.Prelude.{ℕ, String, Option, none, some, or_value, text_append}
use imgent.Errors.Types.{ErrorDomain, ErrorKind, ErrorRetryPolicy}
use imgent.Errors.Codes.{ErrorCode, definition}

pub record ErrorDescriptor : Type 0 where
  pub code : ErrorCode
  pub domain : ErrorDomain
  pub kind : ErrorKind
  pub message_key : String
  pub action_key : Option String
  pub retry : ErrorRetryPolicy
  pub incident_id : Option String

-- ImgentError; its diagnostic and cause are only logged.
pub record ImgentError : Type 0 where
  pub code : ErrorCode
  pub descriptor : ErrorDescriptor

-- IMGentErrorOptions, without `cause` and `diagnostic`
pub record ErrorOptions : Type 0 where
  pub retry_after_ms : Option ℕ
  pub incident_id : Option String

abbrev pub no_options : ErrorOptions
no_options = record { retry_after_ms = none; incident_id = none }

-- new ImgentError(code, options)
unfoldable pub new_error : ErrorCode → ErrorOptions → String → ImgentError
new_error code options uuid =
    let d = definition code in
    record {
      code = code;
      descriptor = record {
        code = code;
        domain = d.domain;
        kind = d.kind;
        message_key = d.message_key;
        action_key = d.action_key;
        retry = record {
          strategy = d.retry.strategy;
          replay = d.retry.replay;
          retry_after_ms = options.retry_after_ms;
        };
        incident_id = some (or_value options.incident_id (text_append "err_" uuid));
      };
    }
