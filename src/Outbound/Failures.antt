-- ===== src/Outbound/Failures.antt =====
-- outboundError (src/runtime/outbound.ts): the codes that a failed send is reported with.
use imgent.Prelude.{◌≡◌, ◌⊎◌, inl, inr, refl, String, true, false}
use imgent.Errors.Types.{is_backoff}
use imgent.Errors.Codes.{
  ErrorCode, definition, adapter_rate_limited, adapter_reply_context_invalid,
  adapter_request_rejected, adapter_auth_required, adapter_permission_denied,
  adapter_session_invalid, adapter_compatibility_error, outbound_rate_limited, outbound_send_failed,
  outbound_context_expired, outbound_platform_rejected,
}
use imgent.Errors.Descriptor.{new_error}
use imgent.Errors.Normalize.{Thrown, normalize_error}
use imgent.Outbound.{outbound_code, outbound_error}

-- The codes that a failed send is reported with.
pub data IsSendCode : ErrorCode → Type 0 where
  limited : IsSendCode outbound_rate_limited
  send_failed : IsSendCode outbound_send_failed
  expired : IsSendCode outbound_context_expired
  rejected : IsSendCode outbound_platform_rejected

outbound_code-IsSendCode : (c : ErrorCode) → IsSendCode (outbound_code c)
unfolding outbound_code
outbound_code-IsSendCode outbound_rate_limited = limited
outbound_code-IsSendCode adapter_rate_limited = limited
outbound_code-IsSendCode outbound_context_expired = expired
outbound_code-IsSendCode adapter_reply_context_invalid = expired
outbound_code-IsSendCode adapter_request_rejected = rejected
outbound_code-IsSendCode adapter_auth_required = rejected
outbound_code-IsSendCode adapter_permission_denied = rejected
outbound_code-IsSendCode adapter_session_invalid = rejected
outbound_code-IsSendCode adapter_compatibility_error = rejected
outbound_code-IsSendCode outbound_platform_rejected = rejected
outbound_code-IsSendCode _ = send_failed

-- Whether an error of dispatch may be sent again.
pub data IsPassing : ErrorCode → Type 0 where
  limited : IsPassing outbound_rate_limited
  send_failed : IsPassing outbound_send_failed

pub data IsFinal : ErrorCode → Type 0 where
  expired : IsFinal outbound_context_expired
  rejected : IsFinal outbound_platform_rejected

send_code_cases :
    (c : ErrorCode)
    → IsSendCode c
    → (IsPassing c × (is_backoff (definition c).retry.strategy ≡ true))
      ⊎ (IsFinal c × (is_backoff (definition c).retry.strategy ≡ false))
unfolding definition
send_code_cases c limited = inl (limited, refl)
send_code_cases c send_failed = inl (send_failed, refl)
send_code_cases c expired = inr (expired, refl)
send_code_cases c rejected = inr (rejected, refl)

pub error_cases :
    (e : Thrown) (uuid uuid' : String)
    → (IsPassing (outbound_error e uuid uuid').code
        × (is_backoff (outbound_error e uuid uuid').descriptor.retry.strategy ≡ true))
      ⊎ (IsFinal (outbound_error e uuid uuid').code
          × (is_backoff (outbound_error e uuid uuid').descriptor.retry.strategy ≡ false))
unfolding outbound_error new_error
error_cases e uuid uuid' =
    send_code_cases _ (outbound_code-IsSendCode (normalize_error e outbound_send_failed uuid).code)
