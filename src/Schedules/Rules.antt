-- ===== src/Schedules/Rules.antt =====
-- src/schedule/service.ts: validateText, validateTimezone and parseSchedule. Dates, time zones and
-- the croner library are an argument.
use Prim.Native.Char.{Char, code}
use text.Mathlib.TextBridge.{to_list}
use imgent.Prelude.{
  ℕ, String, Option, none, some, Bool, false, not, ◌&&◌, ◌||◌, ◌==◌, List, [], ◌∷◌, leb, ltb,
  nat_beq, if◌then◌else◌, or_value, is_present, present, trim, utf16_length, field_count,
}
use imgent.Errors.Codes.{cli_usage_invalid}
use imgent.Store.Directory.{ScheduleKind}
use imgent.Store.Db.{Failure, coded, Result, ok, err}

-- `new Date(text)`, whether Intl takes a time zone, the host's zone, and croner. A cron expression
-- with a zone has a next run after a time and a previous run before one, or none, or is refused.
pub record Calendar : Type 0 where
  pub date_of : String → Option ℕ
  pub is_timezone : String → Bool
  pub host_timezone : String
  pub next_run : String → Option String → ℕ → Option (Option ℕ)
  pub previous_run : String → Option String → ℕ → Option (Option ℕ)

abbrev pub invalid : Failure
invalid = coded cli_usage_invalid

-- `parsed` of create and update
pub record Timing : Type 0 where
  pub kind : ScheduleKind
  pub expression : String
  pub timezone : Option String
  pub next_run_at : ℕ

-- The timing fields of an input.
pub record TimingInput : Type 0 where
  pub at : Option String
  pub cron : Option String
  pub timezone : Option String

-- validateText
unfoldable pub validate_text : String → ℕ → Result String
validate_text value maximum =
    let text = trim value in
    if text == "" || ltb maximum (utf16_length text) then err invalid else ok text

abbrev pub is_digit : ℕ → Bool
is_digit n = leb 48 n && leb n 57

abbrev pub is_sign : ℕ → Bool
is_sign n = nat_beq n 43 || nat_beq n 45

-- The whole text is `Z`, or a sign, two digits, a colon and two digits.
abbrev pub is_offset : List Char → Bool
is_offset (z ∷ []) = nat_beq (code z) 90
is_offset (s ∷ a ∷ b ∷ colon ∷ c ∷ d ∷ []) =
    is_sign (code s)
    && is_digit (code a)
    && is_digit (code b)
    && nat_beq (code colon) 58
    && is_digit (code c)
    && is_digit (code d)
is_offset _ = false

-- /(?:Z|[+-]\d{2}:\d{2})$/u
unfoldable pub ends_with_offset : List Char → Bool
ends_with_offset [] = false
ends_with_offset (c ∷ cs) = is_offset (c ∷ cs) || ends_with_offset cs

abbrev pub once_at : ℕ → String → Option ℕ → Result Timing
once_at reference text none = err invalid
once_at reference text (some date) =
    if leb date reference
    then err invalid
    else ok (record {
      kind = ScheduleKind.once;
      expression = text;
      timezone = none;
      next_run_at = date;
    })

unfoldable pub parse_once : Calendar → ℕ → String → Option String → Result Timing
parse_once calendar reference text timezone =
    if is_present timezone || not (ends_with_offset (to_list text))
    then err invalid
    else once_at reference text (calendar.date_of text)

abbrev pub cron_at : String → String → Option (Option ℕ) → Result Timing
cron_at expression timezone (some (some next)) = ok (record {
  kind = ScheduleKind.cron;
  expression = expression;
  timezone = some timezone;
  next_run_at = next;
})
cron_at expression timezone _ = err invalid

unfoldable pub parse_cron : Calendar → ℕ → String → Option String → Result Timing
parse_cron calendar reference text timezone =
    let expression = trim text in
    let zone = or_value timezone calendar.host_timezone in
    if nat_beq (field_count expression) 5 && calendar.is_timezone zone
    then cron_at expression zone (calendar.next_run expression (some zone) reference)
    else err invalid

-- parseSchedule
unfoldable pub parse_schedule : Calendar → ℕ → TimingInput → Result Timing
unfolding parse_once parse_cron
parse_schedule calendar reference input = elim (present input.at) [
  | some at ↦
      if is_present input.cron then err invalid else parse_once calendar reference at input.timezone
  | none ↦ elim (present input.cron) [
    | some cron ↦ parse_cron calendar reference cron input.timezone
    | none ↦ err invalid
  ]
]
