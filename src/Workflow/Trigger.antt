-- ===== src/Workflow/Trigger.antt =====
-- services/scheduled_workflows/trigger.rs: when a trigger fires next, and which triggers are accepted. An instant is a
-- number of milliseconds and a day a number of days; `chrono`, `chrono_tz` and `cron` are the parameter
-- `Calendar`.
pub mod Later
pub mod First
use corivo_desktop.Base.{
  ℕ, Bool, true, false, List, [], ◌∷◌, ◌++◌, Option, none, some, if◌then◌else◌, ltb, ◌==◌, any, ◌+◌,
  ◌*◌, suc, zero, ◌<◌, ◌≡◌,
}
use corivo_desktop.Base.Text.{Text, codes, is_whitespace}

pub data Weekday : Type 0 where
  mon : Weekday
  tue : Weekday
  wed : Weekday
  thu : Weekday
  fri : Weekday
  sat : Weekday
  sun : Weekday

-- The order of `chrono::Weekday`, from Monday.
abbrev pub to_chrono : Weekday → ℕ
to_chrono mon = 0
to_chrono tue = 1
to_chrono wed = 2
to_chrono thu = 3
to_chrono fri = 4
to_chrono sat = 5
to_chrono sun = 6

pub data WorkflowTrigger : Type 0 where
  interval : ℕ → WorkflowTrigger
  daily : ℕ → ℕ → Text → WorkflowTrigger
  weekly : List Weekday → ℕ → ℕ → Text → WorkflowTrigger
  once : ℕ → WorkflowTrigger
  cron : Text → Text → WorkflowTrigger

pub data LocalResult : Type 0 where
  single : ℕ → LocalResult
  ambiguous : ℕ → ℕ → LocalResult
  no_such_time : LocalResult

-- What the program uses of the three crates. `weekday` counts from Monday, and the one law is that of
-- the iterator that `Schedule::after` returns.
pub record Calendar : Type 1 where
  pub Tz : Type 0
  pub Naive : Type 0
  pub Schedule : Type 0
  pub tz_from_str : Text → Option Tz
  pub date_naive : Tz → ℕ → ℕ
  pub weekday : ℕ → ℕ
  pub and_hms_opt : ℕ → ℕ → ℕ → Option Naive
  pub from_local_datetime : Tz → Naive → LocalResult
  pub schedule_from_str : Text → Option Schedule
  pub schedule_after : Schedule → Tz → ℕ → Option ℕ
  pub schedule_after_lem :
      (s : Schedule) (zone : Tz) (t u : ℕ) → schedule_after s zone t ≡ some u → t < u

-- `split_whitespace().count()`: `inside` says that the character before belongs to a word.
abbrev pub count_words : Bool → Text → ℕ
count_words inside [] = 0
count_words inside (c ∷ s) =
    let in_word = count_words true s in
    let outside = count_words false s in
    if is_whitespace c then outside else (if inside then in_word else suc in_word)

unfoldable pub pad_to_six_field : Text → Text
pad_to_six_field expr = if count_words false expr == 5 then codes "0 " ++ expr else expr

pub data TriggerError : Type 0 where
  zero_interval : TriggerError
  no_weekday : TriggerError
  hour_out_of_range : ℕ → TriggerError
  minute_out_of_range : ℕ → TriggerError
  bad_cron : TriggerError
  bad_tz : Text → TriggerError

pub data Validated : Type 0 where
  valid : Validated
  invalid : TriggerError → Validated

-- The `?` of two checks in a row.
abbrev and_valid : Validated → Validated → Validated
and_valid valid next = next
and_valid (invalid e) next = invalid e

unfoldable pub validate_hm : ℕ → ℕ → Validated
validate_hm hour minute =
    if ltb 23 hour
    then invalid (hour_out_of_range hour)
    else if ltb 59 minute
    then invalid (minute_out_of_range minute)
    else valid

module _ (C : Calendar) where
  open C use {
    Tz, Naive, Schedule, tz_from_str, date_naive, weekday, and_hms_opt, from_local_datetime,
    schedule_from_str, schedule_after,
  }

  unfoldable pub validate_tz : Text → Validated
  validate_tz tz = elim (tz_from_str tz) [ some zone ↦ valid | none ↦ invalid (bad_tz tz) ]

  unfoldable pub validate : WorkflowTrigger → Validated
  validate (interval minutes) = if minutes == 0 then invalid zero_interval else valid
  validate (daily hour minute tz) = and_valid (validate_hm hour minute) (validate_tz tz)
  validate (weekly [] hour minute tz) = invalid no_weekday
  validate (weekly (w ∷ ws) hour minute tz) = and_valid (validate_hm hour minute) (validate_tz tz)
  validate (once at) = valid
  validate (cron expr tz) = elim (schedule_from_str (pad_to_six_field expr)) [
    | some schedule ↦ validate_tz tz
    | none ↦ invalid bad_cron
  ]

  abbrev first_occurrence : LocalResult → Option ℕ
  first_occurrence (single dt) = some dt
  first_occurrence (ambiguous earlier later) = some earlier
  first_occurrence no_such_time = none

  unfoldable pub local_hm_to_utc : Tz → ℕ → ℕ → ℕ → Option ℕ
  local_hm_to_utc zone day hour minute = elim (and_hms_opt day hour minute) [
    | none ↦ none
    | some naive ↦ first_occurrence (from_local_datetime zone naive)
  ]

  -- `if let Some(utc) = … { if utc > t { return Some(utc) } }`, else what the rest of the loop finds.
  abbrev pub or_later : ℕ → Option ℕ → Option ℕ → Option ℕ
  or_later t none rest = rest
  or_later t (some utc) rest = if ltb t utc then some utc else rest

  -- The loops over the days, `left` of them from `day` on.
  abbrev pub daily_from : ℕ → Tz → ℕ → ℕ → ℕ → ℕ → Option ℕ
  daily_from t zone hour minute day zero = none
  daily_from t zone hour minute day (suc left) =
      or_later t (local_hm_to_utc zone day hour minute)
        (daily_from t zone hour minute (suc day) left)

  abbrev pub weekly_from : ℕ → Tz → List ℕ → ℕ → ℕ → ℕ → ℕ → Option ℕ
  weekly_from t zone allowed hour minute day zero = none
  weekly_from t zone allowed hour minute day (suc left) =
      let rest = weekly_from t zone allowed hour minute (suc day) left in
      if any (λ w. w == weekday day) allowed
      then or_later t (local_hm_to_utc zone day hour minute) rest
      else rest

  abbrev pub chrono_days : List Weekday → List ℕ
  chrono_days [] = []
  chrono_days (w ∷ ws) = to_chrono w ∷ chrono_days ws

  unfoldable pub next_daily : ℕ → ℕ → ℕ → Text → Option ℕ
  next_daily t hour minute tz = elim (tz_from_str tz) [
    | none ↦ none
    | some zone ↦ daily_from t zone hour minute (date_naive zone t) 3
  ]

  unfoldable pub next_weekly : ℕ → List Weekday → ℕ → ℕ → Text → Option ℕ
  next_weekly t weekdays hour minute tz = elim (tz_from_str tz) [
    | none ↦ none
    | some zone ↦ weekly_from t zone (chrono_days weekdays) hour minute (date_naive zone t) 8
  ]

  unfoldable pub next_cron : ℕ → Text → Text → Option ℕ
  next_cron t expr tz = elim (tz_from_str tz) [
    | none ↦ none
    | some zone ↦ elim (schedule_from_str (pad_to_six_field expr)) [
      | none ↦ none
      | some schedule ↦ schedule_after schedule zone t
    ]
  ]

  unfoldable pub next_after : WorkflowTrigger → ℕ → Option ℕ
  next_after (interval minutes) t = some (t + minutes * 60000)
  next_after (daily hour minute tz) t = next_daily t hour minute tz
  next_after (weekly weekdays hour minute tz) t = next_weekly t weekdays hour minute tz
  next_after (once at) t = if ltb t at then some at else none
  next_after (cron expr tz) t = next_cron t expr tz
