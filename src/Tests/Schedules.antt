-- ===== src/Tests/Schedules.antt =====
-- src/schedule/service.ts at concrete inputs.
use imgent.Prelude.{
  ◌≡◌, ◌<◌, none, some, true, false, [], ◌∷◌, arith, refl, find_where, count_where, any_where,
  filter_where, iso_text,
}
use imgent.Messaging.{Platform, direct}
use imgent.Store.Directory.{
  SpaceRow, IdentityRow, ScheduleRow, ScheduleKind, ContextMode, ScheduleStatus,
}
use imgent.Errors.Codes.{identity_operation_rejected}
use imgent.Store.Db.{Db, empty_db, err, coded}
use imgent.Schedules.Rules.{Calendar}
use imgent.Schedules.Access.{Delivery, Capabilities, require_space, require_executable}
use imgent.Schedules.Runs.{RunDraws, has_open_run}
use imgent.Schedules.Service.{trigger}
use imgent.Schedules.Due.{
  process_due, pump, next_due, first_due, scheduled_occurrence, executable_space,
}
use imgent.Schedules.First.{Processed, process_due-Processed}
use imgent.Schedules.Drain.{due_count, IsBeyond, pump_ends}
use imgent.Schedules.Alone.{IsAlone, process_due-IsAlone}
use imgent.Schedules.Manual.{Triggered, trigger-Triggered, trigger-IsAlone}
use imgent.Schedules.Stuck.{process_due-stranger}

epoch : iso_text 0 ≡ "1970-01-01T00:00:00.000Z"
unfolding iso_text
epoch = refl

leap_day : iso_text 1709210096789 ≡ "2024-02-29T12:34:56.789Z"
unfolding iso_text
leap_day = refl

abbrev pub home : SpaceRow
home = record {
  id = "space";
  agent_profile_id = "profile";
  platform = Platform.qq;
  bot_instance_id = "bot";
  kind = direct;
  platform_conversation_id = "u";
  created_at = 1;
}

abbrev pub person : IdentityRow
person = record {
  id = "i1";
  agent_profile_id = "profile";
  platform = Platform.qq;
  bot_instance_id = "bot";
  platform_user_id = "u";
  principal_id = "p1";
  display_name = none;
  paired = true;
  created_at = 1;
}

abbrev pub daily : ScheduleRow
daily = record {
  id = "s1";
  name = "news";
  prompt = "read the news";
  conversation_space_id = "space";
  principal_id = "p1";
  agent_profile_id = "profile";
  schedule_kind = ScheduleKind.cron;
  schedule_expression = "0 8 * * *";
  timezone = some "UTC";
  context_mode = ContextMode.series;
  status = ScheduleStatus.active;
  next_run_at = some 90;
  skipped_run_count = 0;
  blocked_reason = none;
  removed_at = none;
  created_at = 5;
}

abbrev planned : Db
planned = record empty_db {
  conversation_spaces = home ∷ [];
  platform_identities = person ∷ [];
  schedules = daily ∷ [];
}

abbrev chats : Capabilities
chats = record { supports_proactive_send = true; conversation_kinds = direct ∷ [] }

abbrev delivery : Delivery
delivery = record { adapters = λ bot. some chats; profile_ids = none; routes = none }

abbrev far_calendar : Calendar
far_calendar = record {
  date_of = λ text. none;
  is_timezone = λ zone. true;
  host_timezone = "UTC";
  next_run = λ expression zone now. some (some 900000);
  previous_run = λ expression zone now. some (some 90);
}

abbrev pub draws : RunDraws
draws = record { run_id = "r1"; task_id = "t1" }

planned-IsAlone : IsAlone planned
unfolding count_where
planned-IsAlone id = ground arith

process_due-Processed_example :
    Processed delivery far_calendar 100 planned
      (process_due delivery far_calendar 100 draws planned).0
      (process_due delivery far_calendar 100 draws planned).1
process_due-Processed_example = process_due-Processed delivery far_calendar 100 draws planned

process_due-IsAlone_example : IsAlone (process_due delivery far_calendar 100 draws planned).1
process_due-IsAlone_example =
    process_due-IsAlone delivery far_calendar 100 draws planned planned-IsAlone

far-IsBeyond : IsBeyond far_calendar 100 200
far-IsBeyond expression tz n h = let own : 900000 ≡ n = cc h in omega arith

one_due : due_count 200 planned < 2
unfolding due_count count_where
one_due = ground arith

pump_ends_example : (pump delivery far_calendar (λ k. 100) (λ k. draws) 2 0 planned).0 ≡ true
pump_ends_example =
    pump_ends delivery far_calendar (λ k. 100) (λ k. draws) 200 2 0 planned (λ k. omega arith)
      (λ k. far-IsBeyond) one_due

trigger-Triggered_example :
    Triggered 100 "s1" planned
      (trigger delivery 100 draws "s1" planned).0
      (trigger delivery 100 draws "s1" planned).1
trigger-Triggered_example = trigger-Triggered delivery 100 draws "s1" planned

trigger-IsAlone_example : IsAlone (trigger delivery 100 draws "s1" planned).1
trigger-IsAlone_example = trigger-IsAlone delivery 100 draws "s1" planned planned-IsAlone

-- Its person's identity was unbound.
abbrev orphaned : Db
orphaned = record planned {
  platform_identities = record person { principal_id = "p2"; paired = false } ∷ [];
}

process_due-stranger_example :
    process_due delivery far_calendar 100 draws orphaned
    ≡ (err (coded identity_operation_rejected), orphaned)
unfolding next_due first_due filter_where scheduled_occurrence executable_space require_space
    require_executable any_where find_where has_open_run
process_due-stranger_example =
    process_due-stranger delivery far_calendar 100 draws orphaned daily home 90 90 (some 900000)
      (coded identity_operation_rejected) refl refl refl refl refl refl refl
