-- ===== src/Workflow/Examples.antt =====
-- Concrete inputs to the properties of the scheduled workflows.
use corivo_desktop.Base.{
  length, ℕ, ◌≡◌, ◌<◌, ◌≤◌, ◌+◌, ◌*◌, ◌/◌, ◌%◌, refl, ◌&&◌, Bool, true, false, [], ◌∷◌, Option,
  none, some, if◌then◌else◌, arith, ltb, ◌==◌, suc, zero, inl, inr,
}
use corivo_desktop.Base.Text.{Text, codes, text_eq}
use corivo_desktop.Capture.Frame.{map_option}
use corivo_desktop.Workflow.Trigger.{
  Calendar, LocalResult, single, no_such_time, sun, interval, weekly, once, next_after, validate,
  local_hm_to_utc,
}
use corivo_desktop.Workflow.Trigger.Later.{next_after-later}
use corivo_desktop.Workflow.Trigger.First.{IsSkipped, next_weekly_first, next_weekly-gap}
use corivo_desktop.Workflow.Store.{
  WorkflowSchedule, WorkflowStore, UpsertSchedule, WorkflowRun, success, user, agent, get_schedule,
  list_and_advance_due, is_due,
}
use corivo_desktop.Workflow.Store.Due.{IsUnique, advanced, get_schedule-list_and_advance_due}
use corivo_desktop.Workflow.Store.Twice.{list_and_advance_due_twice}
use corivo_desktop.Workflow.Ticker.{TickerState, tick_once, run_now}
use corivo_desktop.Workflow.Ticker.Flight.{IsSingleFlight, tick_once-IsSingleFlight, tick_once_lost}
use corivo_desktop.Workflow.Slug.{kebab_from_name}
use corivo_desktop.Workflow.Slug.Kebab.{is_kebab, kebab_from_name-is_kebab}

-- Half past two, UTC, from the number of a day. Zone 1 leaves it out on day 10.
abbrev clock : ℕ → ℕ → ℕ → Option ℕ
clock day hour minute =
    if ltb hour 24 && ltb minute 60
    then some (day * 86400000 + (hour * 3600000 + minute * 60000))
    else none

abbrev local : ℕ → ℕ → LocalResult
local zone naive = if (zone == 1) && (naive == 873000000) then no_such_time else single naive

after_lem : (s z t u : ℕ) → some (t + s + 1) ≡ some u → t < u
after_lem s z t u h = ground arith

abbrev plain_calendar : Calendar
plain_calendar = record {
  Tz = ℕ;
  Naive = ℕ;
  Schedule = ℕ;
  tz_from_str = λ s.
      if text_eq s (codes "UTC")
      then some 0
      else (if text_eq s (codes "Gap") then some 1 else none);
  date_naive = λ z t. t / 86400000;
  weekday = λ d. (d + 3) % 7;
  and_hms_opt = clock;
  from_local_datetime = local;
  schedule_from_str = λ s. some 1;
  schedule_after = λ s z t. some (t + s + 1);
  schedule_after_lem = after_lem;
}

next_after-later_example : 5 < 900005
unfolding next_after validate
next_after-later_example = next_after-later plain_calendar (interval 15) 5 900005 refl refl

next_weekly_first_example :
    next_after plain_calendar (weekly (sun ∷ []) 2 30 (codes "UTC")) 270000000 ≡ some 873000000
unfolding local_hm_to_utc
next_weekly_first_example =
    next_weekly_first plain_calendar 270000000 0 (sun ∷ []) 2 30 (codes "UTC") 7 873000000 refl
      (omega arith) refl refl (omega arith) past
  where
    past : (j : ℕ) → j < 7 → IsSkipped plain_calendar 270000000 0 (6 ∷ []) 2 30 (3 + j)
    past zero h = inr (omega arith)
    past (suc j) h = inl (ground arith)

next_weekly-gap_example :
    next_after plain_calendar (weekly (sun ∷ []) 2 30 (codes "Gap")) 270000000 ≡ none
unfolding local_hm_to_utc
next_weekly-gap_example =
    next_weekly-gap plain_calendar 270000000 1 sun 2 30 (codes "Gap") refl (omega arith) others refl
  where
    others : (j : ℕ) → 0 < j → j < 7 → (6 == (3 + j + 3) % 7) ≡ false
    others j a b = ground arith

-- A one-shot that is due at 100, and a report every quarter of an hour.
abbrev one_shot : WorkflowSchedule
one_shot = record {
  slug = codes "call";
  trigger = once 100;
  enabled = true;
  last_run_at = none;
  next_run_at = some 100;
  last_status = none;
  source = user;
  created_by_thread_id = none;
  created_at = 1;
  updated_at = 1;
}

abbrev report : WorkflowSchedule
report = record {
  slug = codes "report";
  trigger = interval 15;
  enabled = true;
  last_run_at = none;
  next_run_at = some 900;
  last_status = none;
  source = agent;
  created_by_thread_id = some (codes "t1");
  created_at = 1;
  updated_at = 1;
}

abbrev two_schedules : WorkflowStore
two_schedules = record {
  schedules = one_shot ∷ report ∷ [];
  runs = [];
  pending_slugs = codes "call" ∷ [];
}

two_schedules-IsUnique : IsUnique two_schedules.schedules
two_schedules-IsUnique = ((λ e. ground arith, tt), (tt, tt))

get_schedule-list_and_advance_due_example :
    get_schedule (codes "call") (list_and_advance_due plain_calendar 120 two_schedules).1
    ≡ map_option
        (λ r. if is_due 120 r then advanced plain_calendar 120 r else r)
        (get_schedule (codes "call") two_schedules)
get_schedule-list_and_advance_due_example =
    get_schedule-list_and_advance_due plain_calendar (codes "call") 120 two_schedules
      two_schedules-IsUnique

list_and_advance_due_twice_example :
    (list_and_advance_due plain_calendar 120
      (list_and_advance_due plain_calendar 120 two_schedules).1).0
    ≡ []
unfolding validate
list_and_advance_due_twice_example =
    list_and_advance_due_twice plain_calendar 120 120 two_schedules (omega arith) (refl, (refl, tt))

abbrev edited : UpsertSchedule
edited = record {
  slug = codes "report";
  trigger = interval 30;
  enabled = true;
  source = user;
  created_by_thread_id = none;
}

abbrev finished : WorkflowRun
finished = record {
  id = codes "r1";
  slug = codes "report";
  thread_id = none;
  status = success;
  started_at = 5;
  finished_at = 6;
  error_message = none;
  summary = none;
}

abbrev defined : Text → Bool
defined slug = true

abbrev call_in_flight : TickerState
call_in_flight = record { store = two_schedules; queue = codes "call" ∷ [] }

tick_once-IsSingleFlight_example :
    IsSingleFlight (tick_once plain_calendar defined 1000 call_in_flight)
    × IsSingleFlight (run_now plain_calendar defined (codes "report") call_in_flight).1
tick_once-IsSingleFlight_example =
    tick_once-IsSingleFlight plain_calendar defined 1000 (codes "report") call_in_flight
      ((refl, tt), (refl, tt))

tick_once_lost_example :
    ((tick_once plain_calendar defined 120 call_in_flight).queue ≡ codes "call" ∷ [])
    × (map_option
          (λ q. q.enabled)
          (get_schedule (codes "call") (tick_once plain_calendar defined 120 call_in_flight).store)
        ≡ some false)
unfolding list_and_advance_due get_schedule
tick_once_lost_example =
    tick_once_lost plain_calendar defined 120 100 (codes "call") one_shot call_in_flight
      two_schedules-IsUnique (refl, tt) refl refl refl

kebab_from_name-is_kebab_example :
    (is_kebab true (kebab_from_name (codes "Weekly  Report!")) ≡ true)
    × (length (kebab_from_name (codes "Weekly  Report!")) ≤ 48)
kebab_from_name-is_kebab_example = kebab_from_name-is_kebab (codes "Weekly  Report!")
