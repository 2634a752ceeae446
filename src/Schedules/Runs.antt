-- ===== src/Schedules/Runs.antt =====
-- src/schedule/service.ts: enqueue, which makes a turn of a schedule.
use imgent.Prelude.{
  ℕ, String, Option, none, some, Bool, true, false, not, ◌&&◌, ◌==◌, List, [], ◌∷◌, ◌++◌,
  text_append, iso_text, if◌then◌else◌, any_where, nat_beq,
}
use imgent.Messaging.{Actor, InboundMessage, text}
use imgent.Messaging.Conversation.{conversation_key}
use imgent.Store.Rows.{TaskStatus, TaskRow, is_open}
use imgent.Store.Directory.{SpaceRow, ScheduleRow, ScheduleRunRow, ContextMode, schedule_event}
use imgent.Store.Db.{Db, constraint, Exec, pure, run, gets, guard, ◌>>=◌, ◌>>◌}
use imgent.Store.Inserts.{next_rowid, insert_task}
use imgent.Schedules.Access.{principal_actor}

-- `schedule:${id}`
unfoldable pub schedule_key : String → String
schedule_key id = text_append "schedule:" id

-- execution_key = ? AND status IN ('queued', 'active', 'retry_wait', 'waiting_approval')
abbrev pub is_open_under : String → TaskRow → Bool
is_open_under key t = t.execution_key == key && is_open t.status

unfoldable pub has_open_run : String → Db → Bool
has_open_run id db = any_where (is_open_under (schedule_key id)) db.tasks

-- `${prefix}:${schedule.id}:${scheduledFor}`
abbrev pub occurrence_key : String → String → ℕ → String
occurrence_key prefix id scheduled_for =
    text_append prefix (text_append ":" (text_append id (text_append ":" (iso_text scheduled_for))))

-- The ids that an enqueue draws.
pub record RunDraws : Type 0 where
  pub run_id : String
  pub task_id : String

abbrev pub scheduled_message : ℕ → ScheduleRow → SpaceRow → ℕ → Bool → Actor → InboundMessage
scheduled_message now s space scheduled_for manual actor =
    let key = occurrence_key (if manual then "manual" else "scheduled") s.id scheduled_for in
    record {
      event_id = none;
      message_id = key;
      dedupe_key = key;
      sequence = none;
      platform = space.platform;
      bot_instance_id = space.bot_instance_id;
      conversation = record {
        kind = space.kind;
        platform_conversation_id = space.platform_conversation_id;
        thread_id = none;
      };
      actor = actor;
      parts = text s.prompt ∷ [];
      mentions = [];
      reply_to = none;
      reply_context = none;
      platform_sent_at = none;
      received_at = now;
      raw_ref = none;
      triggered = some true;
    }

abbrev pub session_of : ScheduleRow → Option String
session_of s = elim s.context_mode [
  | ContextMode.series ↦ some (schedule_key s.id)
  | ContextMode.fresh ↦ none
]

abbrev pub scheduled_task :
    ℕ → RunDraws → ScheduleRow → SpaceRow → ℕ → InboundMessage → List TaskRow → TaskRow
scheduled_task now draws s space scheduled_for message tasks = record {
  rowid = next_rowid tasks;
  id = draws.task_id;
  inbound_event_id = none;
  schedule_run_id = some draws.run_id;
  agent_profile_id = s.agent_profile_id;
  principal_id = s.principal_id;
  conversation_space_id = s.conversation_space_id;
  conversation_key =
      conversation_key s.agent_profile_id message.platform message.bot_instance_id
        message.conversation;
  execution_key = schedule_key s.id;
  session_key = session_of s;
  idempotency_key = occurrence_key "schedule" s.id scheduled_for;
  message = message;
  reply_context = none;
  curate_memory = false;
  status = TaskStatus.queued;
  attempt = 0;
  dangerous_side_effect_started = false;
  final_text = none;
  error = none;
  incident_id = none;
  next_attempt_at = none;
  created_at = now;
}

-- UNIQUE(schedule_id, scheduled_for)
abbrev pub is_run_of : String → ℕ → ScheduleRunRow → Bool
is_run_of id scheduled_for r = r.schedule_id == id && nat_beq r.scheduled_for scheduled_for

unfoldable pub insert_run : ℕ → RunDraws → String → ℕ → Exec Unit
insert_run now draws id scheduled_for = do
  taken ← gets (λ db. any_where (is_run_of id scheduled_for) db.schedule_runs)
  guard (not taken) constraint
  run (λ db. record db {
    schedule_runs =
        db.schedule_runs
        ++ record {
          id = draws.run_id;
          schedule_id = id;
          scheduled_for = scheduled_for;
          enqueued_at = now;
        }
          ∷ [];
  })

-- ScheduleService.enqueue, whose caller opens the transaction
unfoldable pub enqueue : ℕ → RunDraws → ScheduleRow → SpaceRow → ℕ → Bool → Exec String
enqueue now draws s space scheduled_for manual = do
  actor ← principal_actor space s.principal_id
  let message = scheduled_message now s space scheduled_for manual actor
  insert_run now draws s.id scheduled_for
  insert_task (scheduled_task now draws s space scheduled_for message)
  pure draws.task_id

-- ScheduleService.audit
unfoldable pub audit : ℕ → String → ScheduleRow → Db → Db
audit now event_type s db = record db {
  audit_events =
      db.audit_events
      ++ record {
        agent_profile_id = some s.agent_profile_id;
        principal_id = some s.principal_id;
        conversation_space_id = some s.conversation_space_id;
        event =
            schedule_event event_type s.id s.status s.schedule_kind s.context_mode s.next_run_at;
        created_at = now;
      }
        ∷ [];
}
