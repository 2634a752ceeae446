-- ===== src/Errors/Types.antt =====
-- packages/contracts/src/errors/types.ts. `none` is a retry strategy here, as in the source.
use imgent.Prelude.{ℕ, String, Option, Bool, true, false}

pub data ErrorDomain : Type 0 where
  config storage adapter driver task outbound approval identity memory runtime internal :
      ErrorDomain

pub data ErrorKind : Type 0 where
  validation authentication authorization not_found conflict compatibility rate_limit timeout :
      ErrorKind
  transient cancelled internal : ErrorKind

pub data RetryStrategy : Type 0 where
  none backoff after_user_action : RetryStrategy

pub data ReplaySafety : Type 0 where
  safe unsafe unknown : ReplaySafety

-- The retry part of ErrorDefinition.
pub record RetryPolicy : Type 0 where
  pub strategy : RetryStrategy
  pub replay : ReplaySafety

-- ErrorRetryPolicy
pub record ErrorRetryPolicy : Type 0 where
  pub strategy : RetryStrategy
  pub replay : ReplaySafety
  pub retry_after_ms : Option ℕ

pub record ErrorDefinition : Type 0 where
  pub domain : ErrorDomain
  pub kind : ErrorKind
  pub message_key : String
  pub action_key : Option String
  pub retry : RetryPolicy

-- `strategy === "backoff"` and `replay === "safe"`
abbrev pub is_backoff : RetryStrategy → Bool
is_backoff RetryStrategy.backoff = true
is_backoff _ = false

abbrev pub is_safe : ReplaySafety → Bool
is_safe ReplaySafety.safe = true
is_safe _ = false
