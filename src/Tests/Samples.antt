-- ===== src/Tests/Samples.antt =====
-- Rows and databases on which the tests run: one conversation with a running turn, a follow-up that
-- waits behind it, and a task of another conversation.
use imgent.Prelude.{ℕ, String, none, some, true, false, [], ◌∷◌}
use imgent.Messaging.{Platform, ConversationKind, InboundMessage, OutboundMessage, text}
use imgent.Store.Rows.{TaskStatus, TaskRow, Risk, ApprovalStatus, ApprovalRow}
use imgent.Store.Directory.{PrincipalRow}
use imgent.Store.Db.{Db, empty_db}

abbrev pub hello : InboundMessage
hello = record {
  event_id = none;
  message_id = "m1";
  dedupe_key = "d1";
  sequence = none;
  platform = Platform.qq;
  bot_instance_id = "bot";
  conversation = record {
    kind = ConversationKind.direct;
    platform_conversation_id = "c";
    thread_id = none;
  };
  actor = record {
    platform_user_id = "u";
    platform_member_id = none;
    role = none;
    display_name = none;
  };
  parts = text "hello" ∷ [];
  mentions = [];
  reply_to = none;
  reply_context = none;
  platform_sent_at = none;
  received_at = 1;
  raw_ref = none;
  triggered = none;
}

abbrev pub reply : OutboundMessage
reply = record {
  bot_instance_id = "bot";
  conversation = hello.conversation;
  parts = text "done" ∷ [];
  reply_to = none;
  reply_context = none;
  idempotency_key = "t1:final";
}

abbrev pub sample : ℕ → String → String → TaskStatus → ℕ → TaskRow
sample rowid id key status created_at = record {
  rowid = rowid;
  id = id;
  inbound_event_id = some "e";
  schedule_run_id = none;
  agent_profile_id = "profile";
  principal_id = "p1";
  conversation_space_id = "space";
  conversation_key = key;
  execution_key = key;
  session_key = some key;
  idempotency_key = id;
  message = hello;
  reply_context = none;
  curate_memory = true;
  status = status;
  attempt = 0;
  dangerous_side_effect_started = false;
  final_text = none;
  error = none;
  incident_id = none;
  next_attempt_at = none;
  created_at = created_at;
}

abbrev pub running : TaskRow
running = record (sample 1 "t1" "k1" TaskStatus.active 1) { attempt = 1 }

abbrev pub follow_up : TaskRow
follow_up = sample 2 "t2" "k1" TaskStatus.queued 2

abbrev pub other : TaskRow
other = sample 3 "t3" "k2" TaskStatus.queued 3

abbrev pub busy : Db
busy = record empty_db { tasks = running ∷ follow_up ∷ other ∷ [] }

abbrev pub waiting : TaskRow
waiting = record running { status = TaskStatus.waiting_approval }

abbrev pub question : ApprovalRow
question = record {
  request_id = "r1";
  task_id = "t1";
  conversation_key = "k1";
  principal_id = "p1";
  tool_name = "shell";
  sanitized_input = "{}";
  risk = Risk.high;
  status = ApprovalStatus.pending;
  created_at = 5;
  expires_at = 100;
  decided_at = none;
  decision = none;
}

abbrev pub asker : PrincipalRow
asker = record {
  id = "p1";
  agent_profile_id = "profile";
  locale = none;
  workspace = none;
  created_at = 1;
}

-- The running conversation, whose principal is stored.
abbrev pub busy_with_principal : Db
busy_with_principal = record busy { principals = asker ∷ [] }

abbrev pub asking : Db
asking = record empty_db { tasks = waiting ∷ follow_up ∷ []; approvals = question ∷ [] }
