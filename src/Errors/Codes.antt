-- ===== src/Errors/Codes.antt =====
-- packages/contracts/src/errors/definitions.ts: the error codes and what each stands for.
use imgent.Prelude.{String, some}
use imgent.Errors.Types.{ErrorDomain, ErrorKind, RetryStrategy, ReplaySafety, ErrorDefinition}

-- ErrorCode, the keys of ERROR_DEFINITIONS
pub data ErrorCode : Type 0 where
  config_file_unreadable : ErrorCode
  config_file_invalid : ErrorCode
  config_workspace_invalid : ErrorCode
  cli_usage_invalid : ErrorCode
  language_unsupported : ErrorCode
  runtime_node_unsupported : ErrorCode
  runtime_service_not_running : ErrorCode
  runtime_service_must_stop : ErrorCode
  runtime_control_unreachable : ErrorCode
  runtime_control_protocol_unsupported : ErrorCode
  runtime_instance_conflict : ErrorCode
  runtime_instance_mismatch : ErrorCode
  storage_unavailable : ErrorCode
  storage_schema_unsupported : ErrorCode
  adapter_auth_required : ErrorCode
  adapter_permission_denied : ErrorCode
  adapter_session_invalid : ErrorCode
  adapter_rate_limited : ErrorCode
  adapter_request_timeout : ErrorCode
  adapter_service_unavailable : ErrorCode
  adapter_request_rejected : ErrorCode
  adapter_reply_context_invalid : ErrorCode
  adapter_compatibility_error : ErrorCode
  adapter_connection_failed : ErrorCode
  agent_auth_required : ErrorCode
  agent_version_unsupported : ErrorCode
  agent_unavailable : ErrorCode
  agent_turn_start_failed : ErrorCode
  agent_turn_failed : ErrorCode
  agent_session_mismatch : ErrorCode
  agent_session_archive_failed : ErrorCode
  driver_protocol_incomplete : ErrorCode
  profile_or_driver_missing : ErrorCode
  task_execution_failed : ErrorCode
  task_retry_exhausted : ErrorCode
  task_unsafe_replay : ErrorCode
  process_restart_recovery : ErrorCode
  outbound_rate_limited : ErrorCode
  outbound_context_expired : ErrorCode
  outbound_platform_rejected : ErrorCode
  outbound_media_invalid : ErrorCode
  outbound_send_failed : ErrorCode
  approval_not_found : ErrorCode
  approval_forbidden : ErrorCode
  approval_expired : ErrorCode
  identity_operation_rejected : ErrorCode
  memory_operation_rejected : ErrorCode
  memory_record_not_found : ErrorCode
  memory_curation_failed : ErrorCode
  internal_unexpected_error : ErrorCode

abbrev define :
    ErrorDomain → ErrorKind → String → String → RetryStrategy → ReplaySafety → ErrorDefinition
define domain kind message_key action_key strategy replay = record {
  domain = domain;
  kind = kind;
  message_key = message_key;
  action_key = some action_key;
  retry = record { strategy = strategy; replay = replay };
}

-- ERROR_DEFINITIONS
unfoldable pub definition : ErrorCode → ErrorDefinition
definition config_file_unreadable =
    define ErrorDomain.config ErrorKind.validation "error.config_file_unreadable.message"
      "error.config_file_unreadable.action" RetryStrategy.after_user_action ReplaySafety.safe
definition config_file_invalid =
    define ErrorDomain.config ErrorKind.validation "error.config_file_invalid.message"
      "error.config_file_invalid.action" RetryStrategy.after_user_action ReplaySafety.safe
definition config_workspace_invalid =
    define ErrorDomain.config ErrorKind.validation "error.config_workspace_invalid.message"
      "error.config_workspace_invalid.action" RetryStrategy.after_user_action ReplaySafety.safe
definition cli_usage_invalid =
    define ErrorDomain.config ErrorKind.validation "error.cli_usage_invalid.message"
      "error.cli_usage_invalid.action" RetryStrategy.none ReplaySafety.safe
definition language_unsupported =
    define ErrorDomain.config ErrorKind.validation "error.language_unsupported.message"
      "error.language_unsupported.action" RetryStrategy.none ReplaySafety.safe
definition runtime_node_unsupported =
    define ErrorDomain.runtime ErrorKind.compatibility "error.runtime_node_unsupported.message"
      "error.runtime_node_unsupported.action" RetryStrategy.after_user_action ReplaySafety.safe
definition runtime_service_not_running =
    define ErrorDomain.runtime ErrorKind.not_found "error.runtime_service_not_running.message"
      "error.runtime_service_not_running.action" RetryStrategy.after_user_action ReplaySafety.safe
definition runtime_service_must_stop =
    define ErrorDomain.runtime ErrorKind.conflict "error.runtime_service_must_stop.message"
      "error.runtime_service_must_stop.action" RetryStrategy.after_user_action ReplaySafety.safe
definition runtime_control_unreachable =
    define ErrorDomain.runtime ErrorKind.transient "error.runtime_control_unreachable.message"
      "error.runtime_control_unreachable.action" RetryStrategy.backoff ReplaySafety.safe
definition runtime_control_protocol_unsupported =
    define ErrorDomain.runtime ErrorKind.compatibility
      "error.runtime_control_protocol_unsupported.message"
      "error.runtime_control_protocol_unsupported.action" RetryStrategy.after_user_action
      ReplaySafety.safe
definition runtime_instance_conflict =
    define ErrorDomain.runtime ErrorKind.conflict "error.runtime_instance_conflict.message"
      "error.runtime_instance_conflict.action" RetryStrategy.after_user_action ReplaySafety.safe
definition runtime_instance_mismatch =
    define ErrorDomain.runtime ErrorKind.conflict "error.runtime_instance_mismatch.message"
      "error.runtime_instance_mismatch.action" RetryStrategy.after_user_action ReplaySafety.safe
definition storage_unavailable =
    define ErrorDomain.storage ErrorKind.internal "error.storage_unavailable.message"
      "error.storage_unavailable.action" RetryStrategy.after_user_action ReplaySafety.unknown
definition storage_schema_unsupported =
    define ErrorDomain.storage ErrorKind.compatibility "error.storage_schema_unsupported.message"
      "error.storage_schema_unsupported.action" RetryStrategy.after_user_action ReplaySafety.safe
definition adapter_auth_required =
    define ErrorDomain.adapter ErrorKind.authentication "error.adapter_auth_required.message"
      "error.adapter_auth_required.action" RetryStrategy.after_user_action ReplaySafety.safe
definition adapter_permission_denied =
    define ErrorDomain.adapter ErrorKind.authorization "error.adapter_permission_denied.message"
      "error.adapter_permission_denied.action" RetryStrategy.after_user_action ReplaySafety.safe
definition adapter_session_invalid =
    define ErrorDomain.adapter ErrorKind.authentication "error.adapter_session_invalid.message"
      "error.adapter_session_invalid.action" RetryStrategy.after_user_action ReplaySafety.safe
definition adapter_rate_limited =
    define ErrorDomain.adapter ErrorKind.rate_limit "error.adapter_rate_limited.message"
      "error.adapter_rate_limited.action" RetryStrategy.backoff ReplaySafety.safe
definition adapter_request_timeout =
    define ErrorDomain.adapter ErrorKind.timeout "error.adapter_request_timeout.message"
      "error.adapter_request_timeout.action" RetryStrategy.backoff ReplaySafety.safe
definition adapter_service_unavailable =
    define ErrorDomain.adapter ErrorKind.transient "error.adapter_service_unavailable.message"
      "error.adapter_service_unavailable.action" RetryStrategy.backoff ReplaySafety.safe
definition adapter_request_rejected =
    define ErrorDomain.adapter ErrorKind.validation "error.adapter_request_rejected.message"
      "error.adapter_request_rejected.action" RetryStrategy.none ReplaySafety.safe
definition adapter_reply_context_invalid =
    define ErrorDomain.adapter ErrorKind.conflict "error.adapter_reply_context_invalid.message"
      "error.adapter_reply_context_invalid.action" RetryStrategy.none ReplaySafety.safe
definition adapter_compatibility_error =
    define ErrorDomain.adapter ErrorKind.compatibility "error.adapter_compatibility_error.message"
      "error.adapter_compatibility_error.action" RetryStrategy.none ReplaySafety.safe
definition adapter_connection_failed =
    define ErrorDomain.adapter ErrorKind.transient "error.adapter_connection_failed.message"
      "error.adapter_connection_failed.action" RetryStrategy.backoff ReplaySafety.safe
definition agent_auth_required =
    define ErrorDomain.driver ErrorKind.authentication "error.agent_auth_required.message"
      "error.agent_auth_required.action" RetryStrategy.after_user_action ReplaySafety.safe
definition agent_version_unsupported =
    define ErrorDomain.driver ErrorKind.compatibility "error.agent_version_unsupported.message"
      "error.agent_version_unsupported.action" RetryStrategy.after_user_action ReplaySafety.safe
definition agent_unavailable =
    define ErrorDomain.driver ErrorKind.transient "error.agent_unavailable.message"
      "error.agent_unavailable.action" RetryStrategy.backoff ReplaySafety.safe
definition agent_turn_start_failed =
    define ErrorDomain.driver ErrorKind.transient "error.agent_turn_start_failed.message"
      "error.agent_turn_start_failed.action" RetryStrategy.backoff ReplaySafety.safe
definition agent_turn_failed =
    define ErrorDomain.driver ErrorKind.internal "error.agent_turn_failed.message"
      "error.agent_turn_failed.action" RetryStrategy.none ReplaySafety.unknown
definition agent_session_mismatch =
    define ErrorDomain.driver ErrorKind.conflict "error.agent_session_mismatch.message"
      "error.agent_session_mismatch.action" RetryStrategy.after_user_action ReplaySafety.safe
definition agent_session_archive_failed =
    define ErrorDomain.driver ErrorKind.transient "error.agent_session_archive_failed.message"
      "error.agent_session_archive_failed.action" RetryStrategy.backoff ReplaySafety.safe
definition driver_protocol_incomplete =
    define ErrorDomain.driver ErrorKind.internal "error.driver_protocol_incomplete.message"
      "error.driver_protocol_incomplete.action" RetryStrategy.backoff ReplaySafety.safe
definition profile_or_driver_missing =
    define ErrorDomain.task ErrorKind.not_found "error.profile_or_driver_missing.message"
      "error.profile_or_driver_missing.action" RetryStrategy.after_user_action ReplaySafety.safe
definition task_execution_failed =
    define ErrorDomain.task ErrorKind.internal "error.task_execution_failed.message"
      "error.task_execution_failed.action" RetryStrategy.none ReplaySafety.unknown
definition task_retry_exhausted =
    define ErrorDomain.task ErrorKind.transient "error.task_retry_exhausted.message"
      "error.task_retry_exhausted.action" RetryStrategy.none ReplaySafety.safe
definition task_unsafe_replay =
    define ErrorDomain.task ErrorKind.conflict "error.task_unsafe_replay.message"
      "error.task_unsafe_replay.action" RetryStrategy.after_user_action ReplaySafety.unsafe
definition process_restart_recovery =
    define ErrorDomain.task ErrorKind.transient "error.process_restart_recovery.message"
      "error.process_restart_recovery.action" RetryStrategy.backoff ReplaySafety.safe
definition outbound_rate_limited =
    define ErrorDomain.outbound ErrorKind.rate_limit "error.outbound_rate_limited.message"
      "error.outbound_rate_limited.action" RetryStrategy.backoff ReplaySafety.safe
definition outbound_context_expired =
    define ErrorDomain.outbound ErrorKind.conflict "error.outbound_context_expired.message"
      "error.outbound_context_expired.action" RetryStrategy.none ReplaySafety.safe
definition outbound_platform_rejected =
    define ErrorDomain.outbound ErrorKind.validation "error.outbound_platform_rejected.message"
      "error.outbound_platform_rejected.action" RetryStrategy.none ReplaySafety.safe
definition outbound_media_invalid =
    define ErrorDomain.outbound ErrorKind.validation "error.outbound_media_invalid.message"
      "error.outbound_media_invalid.action" RetryStrategy.after_user_action ReplaySafety.safe
definition outbound_send_failed =
    define ErrorDomain.outbound ErrorKind.transient "error.outbound_send_failed.message"
      "error.outbound_send_failed.action" RetryStrategy.backoff ReplaySafety.safe
definition approval_not_found =
    define ErrorDomain.approval ErrorKind.not_found "error.approval_not_found.message"
      "error.approval_not_found.action" RetryStrategy.none ReplaySafety.safe
definition approval_forbidden =
    define ErrorDomain.approval ErrorKind.authorization "error.approval_forbidden.message"
      "error.approval_forbidden.action" RetryStrategy.none ReplaySafety.safe
definition approval_expired =
    define ErrorDomain.approval ErrorKind.conflict "error.approval_expired.message"
      "error.approval_expired.action" RetryStrategy.none ReplaySafety.safe
definition identity_operation_rejected =
    define ErrorDomain.identity ErrorKind.authorization "error.identity_operation_rejected.message"
      "error.identity_operation_rejected.action" RetryStrategy.none ReplaySafety.safe
definition memory_operation_rejected =
    define ErrorDomain.memory ErrorKind.authorization "error.memory_operation_rejected.message"
      "error.memory_operation_rejected.action" RetryStrategy.none ReplaySafety.safe
definition memory_record_not_found =
    define ErrorDomain.memory ErrorKind.not_found "error.memory_record_not_found.message"
      "error.memory_record_not_found.action" RetryStrategy.none ReplaySafety.safe
definition memory_curation_failed =
    define ErrorDomain.memory ErrorKind.transient "error.memory_curation_failed.message"
      "error.memory_curation_failed.action" RetryStrategy.backoff ReplaySafety.safe
definition internal_unexpected_error =
    define ErrorDomain.internal ErrorKind.internal "error.internal_unexpected_error.message"
      "error.internal_unexpected_error.action" RetryStrategy.none ReplaySafety.unknown

-- The code as the text that it is in the source.
unfoldable pub code_text : ErrorCode → String
code_text config_file_unreadable = "CONFIG_FILE_UNREADABLE"
code_text config_file_invalid = "CONFIG_FILE_INVALID"
code_text config_workspace_invalid = "CONFIG_WORKSPACE_INVALID"
code_text cli_usage_invalid = "CLI_USAGE_INVALID"
code_text language_unsupported = "LANGUAGE_UNSUPPORTED"
code_text runtime_node_unsupported = "RUNTIME_NODE_UNSUPPORTED"
code_text runtime_service_not_running = "RUNTIME_SERVICE_NOT_RUNNING"
code_text runtime_service_must_stop = "RUNTIME_SERVICE_MUST_STOP"
code_text runtime_control_unreachable = "RUNTIME_CONTROL_UNREACHABLE"
code_text runtime_control_protocol_unsupported = "RUNTIME_CONTROL_PROTOCOL_UNSUPPORTED"
code_text runtime_instance_conflict = "RUNTIME_INSTANCE_CONFLICT"
code_text runtime_instance_mismatch = "RUNTIME_INSTANCE_MISMATCH"
code_text storage_unavailable = "STORAGE_UNAVAILABLE"
code_text storage_schema_unsupported = "STORAGE_SCHEMA_UNSUPPORTED"
code_text adapter_auth_required = "ADAPTER_AUTH_REQUIRED"
code_text adapter_permission_denied = "ADAPTER_PERMISSION_DENIED"
code_text adapter_session_invalid = "ADAPTER_SESSION_INVALID"
code_text adapter_rate_limited = "ADAPTER_RATE_LIMITED"
code_text adapter_request_timeout = "ADAPTER_REQUEST_TIMEOUT"
code_text adapter_service_unavailable = "ADAPTER_SERVICE_UNAVAILABLE"
code_text adapter_request_rejected = "ADAPTER_REQUEST_REJECTED"
code_text adapter_reply_context_invalid = "ADAPTER_REPLY_CONTEXT_INVALID"
code_text adapter_compatibility_error = "ADAPTER_COMPATIBILITY_ERROR"
code_text adapter_connection_failed = "ADAPTER_CONNECTION_FAILED"
code_text agent_auth_required = "AGENT_AUTH_REQUIRED"
code_text agent_version_unsupported = "AGENT_VERSION_UNSUPPORTED"
code_text agent_unavailable = "AGENT_UNAVAILABLE"
code_text agent_turn_start_failed = "AGENT_TURN_START_FAILED"
code_text agent_turn_failed = "AGENT_TURN_FAILED"
code_text agent_session_mismatch = "AGENT_SESSION_MISMATCH"
code_text agent_session_archive_failed = "AGENT_SESSION_ARCHIVE_FAILED"
code_text driver_protocol_incomplete = "DRIVER_PROTOCOL_INCOMPLETE"
code_text profile_or_driver_missing = "PROFILE_OR_DRIVER_MISSING"
code_text task_execution_failed = "TASK_EXECUTION_FAILED"
code_text task_retry_exhausted = "TASK_RETRY_EXHAUSTED"
code_text task_unsafe_replay = "TASK_UNSAFE_REPLAY"
code_text process_restart_recovery = "PROCESS_RESTART_RECOVERY"
code_text outbound_rate_limited = "OUTBOUND_RATE_LIMITED"
code_text outbound_context_expired = "OUTBOUND_CONTEXT_EXPIRED"
code_text outbound_platform_rejected = "OUTBOUND_PLATFORM_REJECTED"
code_text outbound_media_invalid = "OUTBOUND_MEDIA_INVALID"
code_text outbound_send_failed = "OUTBOUND_SEND_FAILED"
code_text approval_not_found = "APPROVAL_NOT_FOUND"
code_text approval_forbidden = "APPROVAL_FORBIDDEN"
code_text approval_expired = "APPROVAL_EXPIRED"
code_text identity_operation_rejected = "IDENTITY_OPERATION_REJECTED"
code_text memory_operation_rejected = "MEMORY_OPERATION_REJECTED"
code_text memory_record_not_found = "MEMORY_RECORD_NOT_FOUND"
code_text memory_curation_failed = "MEMORY_CURATION_FAILED"
code_text internal_unexpected_error = "INTERNAL_UNEXPECTED_ERROR"
