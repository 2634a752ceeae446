-- ===== src/Schedules/Service.antt =====
-- src/schedule/service.ts: what an operator does with schedules. An operation reads the clock once.
use imgent.Prelude.{
  ℕ, String, Option, none, some, Bool, true, false, not, ◌&&◌, ◌||◌, ◌==◌, [], ◌∷◌, ◌++◌,
  if◌then◌else◌, or_value, is_some, is_present, present, find_where, update_where, delete_where,
}
use imgent.Store.Directory.{
  SpaceRow, SessionRow, ScheduleRow, ScheduleKind, ContextMode, ScheduleStatus,
}
use imgent.Store.Db.{Db, Result, ok, err, Exec, pure, run, gets, guard, ◌>>=◌, ◌>>◌, transaction}
use imgent.Schedules.Rules.{Calendar, Timing, TimingInput, invalid, validate_text, parse_schedule}
use imgent.Schedules.Access.{
  Delivery, found_or, lift, require_space, require_executable, resolve_principal,
}
use imgent.Schedules.Runs.{RunDraws, schedule_key, has_open_run, enqueue, audit}

pub record CreateScheduleInput : Type 0 where
  pub name : String
  pub prompt : String
  pub context_mode : Option ContextMode
  pub timing : TimingInput
  pub conversation_space_id : String
  pub principal_id : Option String

pub record UpdateScheduleInput : Type 0 where
  pub name : Option String
  pub prompt : Option String
  pub context_mode : Option ContextMode
  pub timing : TimingInput

abbrev pub has_schedule_id : String → ScheduleRow → Bool
has_schedule_id id s = s.id == id

abbrev pub is_kept : String → ScheduleRow → Bool
is_kept id s = has_schedule_id id s && not (is_some s.removed_at)

-- storedSchedule
abbrev pub stored_schedule : ScheduleRow → ScheduleRow
stored_schedule s = record s {
  timezone = present s.timezone;
  blocked_reason = present s.blocked_reason;
}

abbrev pub stored : Option ScheduleRow → Option ScheduleRow
stored none = none
stored (some s) = some (stored_schedule s)

-- ScheduleService.get
unfoldable pub get : String → Db → Option ScheduleRow
get id db = stored (find_where (is_kept id) db.schedules)

-- ScheduleService.require
unfoldable pub require : String → Exec ScheduleRow
require id = do s ← gets (get id); found_or invalid s

-- ScheduleService.requireIncludingRemoved
unfoldable pub require_including_removed : String → Exec ScheduleRow
require_including_removed id = do
  s ← gets (λ db. stored (find_where (has_schedule_id id) db.schedules))
  found_or invalid s

abbrev pub set_schedule : String → (ScheduleRow → ScheduleRow) → Exec Unit
set_schedule id f =
    run (λ db. record db { schedules = update_where (has_schedule_id id) f db.schedules })

-- The audit of what the schedule has become, which is returned.
unfoldable pub audited : ℕ → String → String → Exec ScheduleRow
audited now event_type id = do s ← require id; run (audit now event_type s); require id

abbrev pub created_schedule :
    ℕ → String → String → String → ContextMode → SpaceRow → String → Timing → ScheduleRow
created_schedule now id name prompt context_mode space principal timing = record {
  id = id;
  name = name;
  prompt = prompt;
  conversation_space_id = space.id;
  principal_id = principal;
  agent_profile_id = space.agent_profile_id;
  schedule_kind = timing.kind;
  schedule_expression = timing.expression;
  timezone = timing.timezone;
  context_mode = context_mode;
  status = ScheduleStatus.active;
  next_run_at = some timing.next_run_at;
  skipped_run_count = 0;
  blocked_reason = none;
  removed_at = none;
  created_at = now;
}

-- ScheduleService.create; the type of contextMode has no third value to refuse.
unfoldable pub create : Delivery → Calendar → ℕ → String → CreateScheduleInput → Exec ScheduleRow
create delivery calendar now id input = do
  name ← lift (validate_text input.name 120)
  prompt ← lift (validate_text input.prompt 32000)
  space ← require_space input.conversation_space_id
  require_executable delivery space
  principal ← resolve_principal space input.principal_id
  timing ← lift (parse_schedule calendar now input.timing)
  run (λ db. record db {
    schedules =
        db.schedules
        ++ created_schedule now id name prompt (or_value input.context_mode ContextMode.fresh) space
            principal timing
          ∷ [];
  })
  audited now "schedule.created" id

abbrev pub is_cron : ScheduleKind → Bool
is_cron ScheduleKind.cron = true
is_cron ScheduleKind.once = false

abbrev pub parsed : Result Timing → Result (Option Timing)
parsed (ok t) = ok (some t)
parsed (err e) = err e

-- `parsed` of update: the new timing if the input changes it.
unfoldable pub new_timing : Calendar → ℕ → ScheduleRow → TimingInput → Result (Option Timing)
new_timing calendar now current input =
    if is_some input.at || is_some input.cron
    then parsed (parse_schedule calendar now input)
    else if is_some input.timezone && is_cron current.schedule_kind
    then parsed (
        parse_schedule calendar now (record {
          at = none;
          cron = some current.schedule_expression;
          timezone = input.timezone;
        }))
    else ok none

abbrev pub validate_new : Option String → String → ℕ → Result String
validate_new none current maximum = ok current
validate_new (some text) current maximum = validate_text text maximum

abbrev pub check_timing : Delivery → String → Option Timing → Exec Unit
check_timing delivery space none = pure tt
check_timing delivery space (some t) = require_space space >>= require_executable delivery

abbrev pub retimed : Option Timing → ScheduleRow → ScheduleRow
retimed none s = stored_schedule s
retimed (some t) s = record s {
  schedule_kind = t.kind;
  schedule_expression = t.expression;
  timezone = t.timezone;
  next_run_at = some t.next_run_at;
  status = ScheduleStatus.active;
  blocked_reason = none;
}

-- ScheduleService.update
unfoldable pub update : Delivery → Calendar → ℕ → String → UpdateScheduleInput → Exec ScheduleRow
update delivery calendar now id input = do
  current ← require id
  guard
      (not (is_some input.timing.timezone)
        || is_cron current.schedule_kind
        || is_present input.timing.cron)
      invalid
  timing ← lift (new_timing calendar now current input.timing)
  name ← lift (validate_new input.name current.name 120)
  prompt ← lift (validate_new input.prompt current.prompt 32000)
  check_timing delivery current.conversation_space_id timing
  set_schedule id (λ s. retimed timing (record s {
    name = name;
    prompt = prompt;
    context_mode = or_value input.context_mode current.context_mode;
  }))
  audited now "schedule.updated" id

-- The timing that a resumed schedule had.
abbrev pub own_timing : ScheduleRow → TimingInput
own_timing s = elim s.schedule_kind [
  | ScheduleKind.once ↦ record { at = some s.schedule_expression; cron = none; timezone = none }
  | ScheduleKind.cron ↦ record {
    at = none;
    cron = some s.schedule_expression;
    timezone = s.timezone;
  }
]

-- setStatus(id, "active")
unfoldable pub resume : Delivery → Calendar → ℕ → String → Exec ScheduleRow
resume delivery calendar now id = do
  current ← require id
  space ← require_space current.conversation_space_id
  require_executable delivery space
  timing ← lift (parse_schedule calendar now (own_timing current))
  set_schedule id (λ s. record s {
    status = ScheduleStatus.active;
    next_run_at = some timing.next_run_at;
    blocked_reason = none;
  })
  audited now "schedule.resumed" id

-- setStatus(id, "paused")
unfoldable pub pause : ℕ → String → Exec ScheduleRow
pause now id = do
  _ ← require id
  set_schedule id (λ s. record s { status = ScheduleStatus.paused })
  audited now "schedule.paused" id

-- ScheduleService.remove
unfoldable pub remove : ℕ → String → Exec ScheduleRow
remove now id = do
  _ ← require id
  set_schedule id
      (λ s. record s { status = ScheduleStatus.paused; next_run_at = none; removed_at = some now })
  removed ← require_including_removed id
  run (audit now "schedule.removed" (record removed { status = ScheduleStatus.paused }))
  pure (record removed { status = ScheduleStatus.paused })

abbrev pub is_session_of : String → SessionRow → Bool
is_session_of key s = s.conversation_key == key

-- ScheduleService.resetContext
unfoldable pub reset_context : ℕ → String → Exec ScheduleRow
reset_context now id = do
  _ ← require id
  running ← gets (has_open_run id)
  guard (not running) invalid
  run (λ db. record db {
    agent_sessions = delete_where (is_session_of (schedule_key id)) db.agent_sessions;
  })
  audited now "schedule.context-reset" id

abbrev pub is_blocked : ScheduleStatus → Bool
is_blocked ScheduleStatus.blocked = true
is_blocked _ = false

-- ScheduleService.trigger
unfoldable pub trigger : Delivery → ℕ → RunDraws → String → Exec String
trigger delivery now draws id = do
  s ← require id
  guard (not (is_blocked s.status)) invalid
  space ← require_space s.conversation_space_id
  require_executable delivery space
  pending ← gets (has_open_run id)
  guard (not pending) invalid
  task_id ← transaction (enqueue now draws s space now true)
  run (audit now "schedule.manual-run" s)
  pure task_id
