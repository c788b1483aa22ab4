-- ===== src/Workflow/Store.antt =====
-- services/scheduled_workflows/store.rs: the tables `workflow_schedules` and `workflow_runs`, with each SQL
-- statement as a function on the list of rows, and the set of slugs with a run in flight. A statement's own
-- failure is not modelled, and a trigger is stored as it is, not as JSON.
pub mod Upsert
pub mod Due
pub mod Twice
use corivo_desktop.Base.{
  ℕ, Bool, true, false, ◌&&◌, List, [], ◌∷◌, ◌++◌, map, Option, none, some, if◌then◌else◌, leb, ltb,
  not, keep, take,
}
use corivo_desktop.Base.Text.{Text, text_eq, contains, insert}
use corivo_desktop.Workflow.Trigger.{
  WorkflowTrigger, interval, daily, weekly, once, cron, Calendar, next_after,
}

pub data WorkflowScheduleSource : Type 0 where
  user : WorkflowScheduleSource
  agent : WorkflowScheduleSource

pub data WorkflowRunStatus : Type 0 where
  success : WorkflowRunStatus
  failure : WorkflowRunStatus

pub record WorkflowSchedule : Type 0 where
  pub slug : Text
  pub trigger : WorkflowTrigger
  pub enabled : Bool
  pub last_run_at : Option ℕ
  pub next_run_at : Option ℕ
  pub last_status : Option WorkflowRunStatus
  pub source : WorkflowScheduleSource
  pub created_by_thread_id : Option Text
  pub created_at : ℕ
  pub updated_at : ℕ

pub record WorkflowRun : Type 0 where
  pub id : Text
  pub slug : Text
  pub thread_id : Option Text
  pub status : WorkflowRunStatus
  pub started_at : ℕ
  pub finished_at : ℕ
  pub error_message : Option Text
  pub summary : Option Text

pub record UpsertSchedule : Type 0 where
  pub slug : Text
  pub trigger : WorkflowTrigger
  pub enabled : Bool
  pub source : WorkflowScheduleSource
  pub created_by_thread_id : Option Text

pub record DispatchedSchedule : Type 0 where
  pub slug : Text
  pub trigger : WorkflowTrigger
  pub next_run_at : Option ℕ

pub record WorkflowStore : Type 0 where
  pub schedules : List WorkflowSchedule
  pub runs : List WorkflowRun
  pub pending_slugs : List Text

unfoldable pub try_claim_slug : Text → WorkflowStore → Bool × WorkflowStore
try_claim_slug slug s =
    if contains s.pending_slugs slug
    then (false, s)
    else (true, record s { pending_slugs = slug ∷ s.pending_slugs })

unfoldable pub release_slug : Text → WorkflowStore → WorkflowStore
release_slug slug s = record s { pending_slugs = keep (λ p. not (text_eq p slug)) s.pending_slugs }

abbrev pub find_schedule : Text → List WorkflowSchedule → Option WorkflowSchedule
find_schedule slug [] = none
find_schedule slug (r ∷ rs) = if text_eq r.slug slug then some r else find_schedule slug rs

unfoldable pub get_schedule : Text → WorkflowStore → Option WorkflowSchedule
get_schedule slug s = find_schedule slug s.schedules

unfoldable pub delete_schedule : Text → WorkflowStore → WorkflowStore
delete_schedule slug s = record s {
  schedules = keep (λ r. not (text_eq r.slug slug)) s.schedules;
  runs = keep (λ r. not (text_eq r.slug slug)) s.runs;
}

-- `enabled = 1 AND next_run_at IS NOT NULL AND next_run_at <= ?1`.
abbrev pub is_past : ℕ → Option ℕ → Bool
is_past now none = false
is_past now (some at) = leb at now

abbrev pub is_due : ℕ → WorkflowSchedule → Bool
is_due now r = r.enabled && is_past now r.next_run_at

abbrev pub at_or_zero : Option ℕ → ℕ
at_or_zero none = 0
at_or_zero (some at) = at

-- `ORDER BY next_run_at`.
abbrev pub insert_due : WorkflowSchedule → List WorkflowSchedule → List WorkflowSchedule
insert_due r [] = r ∷ []
insert_due r (q ∷ qs) =
    let rest = insert_due r qs in
    if leb (at_or_zero r.next_run_at) (at_or_zero q.next_run_at) then r ∷ (q ∷ qs) else q ∷ rest

abbrev pub order_by_next_run : List WorkflowSchedule → List WorkflowSchedule
order_by_next_run [] = []
order_by_next_run (r ∷ rs) = insert_due r (order_by_next_run rs)

abbrev pub is_once : WorkflowTrigger → Bool
is_once (once at) = true
is_once t = false

unfoldable pub record_run : WorkflowRun → WorkflowStore → WorkflowStore
record_run run s = record s {
  runs = run ∷ s.runs;
  schedules =
      map
        (λ r.
          if text_eq r.slug run.slug
          then record r {
            last_run_at = some run.finished_at;
            last_status = some run.status;
            updated_at = run.finished_at;
          }
          else r)
        s.schedules;
}

-- `ORDER BY started_at DESC LIMIT clamp(limit, 1, 200)`.
abbrev pub insert_run : WorkflowRun → List WorkflowRun → List WorkflowRun
insert_run r [] = r ∷ []
insert_run r (q ∷ qs) =
    let rest = insert_run r qs in if leb q.started_at r.started_at then r ∷ (q ∷ qs) else q ∷ rest

abbrev pub newest_first : List WorkflowRun → List WorkflowRun
newest_first [] = []
newest_first (r ∷ rs) = insert_run r (newest_first rs)

unfoldable pub clamp_limit : ℕ → ℕ
clamp_limit limit = if ltb limit 1 then 1 else (if ltb 200 limit then 200 else limit)

abbrev of_slug : Option Text → WorkflowRun → Bool
of_slug none run = true
of_slug (some slug) run = text_eq run.slug slug

unfoldable pub list_runs : Option Text → ℕ → WorkflowStore → List WorkflowRun
list_runs slug limit s = take (clamp_limit limit) (newest_first (keep (of_slug slug) s.runs))

module _ (C : Calendar) where
  abbrev pub next_if_enabled : UpsertSchedule → ℕ → Option ℕ
  next_if_enabled spec now = if spec.enabled then next_after C spec.trigger now else none

  -- `INSERT … ON CONFLICT(slug) DO UPDATE`.
  abbrev pub insert_or_update : UpsertSchedule → ℕ → List WorkflowSchedule → List WorkflowSchedule
  insert_or_update spec now [] =
      record {
        slug = spec.slug;
        trigger = spec.trigger;
        enabled = spec.enabled;
        last_run_at = none;
        next_run_at = next_if_enabled spec now;
        last_status = none;
        source = spec.source;
        created_by_thread_id = spec.created_by_thread_id;
        created_at = now;
        updated_at = now;
      }
      ∷ []
  insert_or_update spec now (r ∷ rs) =
      let rest = insert_or_update spec now rs in
      if text_eq r.slug spec.slug
      then record r {
        trigger = spec.trigger;
        enabled = spec.enabled;
        next_run_at = next_if_enabled spec now;
        updated_at = now;
      }
        ∷ rs
      else r ∷ rest

  unfoldable pub upsert_schedule :
      UpsertSchedule → ℕ → WorkflowStore → Option WorkflowSchedule × WorkflowStore
  upsert_schedule spec now s =
      let stored = record s { schedules = insert_or_update spec now s.schedules } in
      (get_schedule spec.slug stored, stored)

  abbrev spec_of : Text → Bool → WorkflowSchedule → UpsertSchedule
  spec_of slug enabled current = record {
    slug = slug;
    trigger = current.trigger;
    enabled = enabled;
    source = current.source;
    created_by_thread_id = current.created_by_thread_id;
  }

  -- None for the error that there is no such schedule.
  unfoldable pub set_enabled : Text → Bool → ℕ → WorkflowStore → Option WorkflowStore
  set_enabled slug enabled now s = elim (get_schedule slug s) [
    | none ↦ none
    | some current ↦ some (upsert_schedule (spec_of slug enabled current) now s).1
  ]

  -- The `UPDATE` of one due schedule.
  abbrev pub advance : ℕ → WorkflowSchedule → WorkflowSchedule → WorkflowSchedule
  advance now due r =
      if text_eq r.slug due.slug
      then record r {
        next_run_at = next_after C due.trigger now;
        enabled = not (is_once due.trigger);
        updated_at = now;
      }
      else r

  abbrev pub advance_all : ℕ → List WorkflowSchedule → List WorkflowSchedule → List WorkflowSchedule
  advance_all now [] rows = rows
  advance_all now (due ∷ dues) rows = advance_all now dues (map (advance now due) rows)

  abbrev pub dispatched : ℕ → WorkflowSchedule → DispatchedSchedule
  dispatched now r = record {
    slug = r.slug;
    trigger = r.trigger;
    next_run_at = next_after C r.trigger now;
  }

  unfoldable pub list_and_advance_due : ℕ → WorkflowStore → List DispatchedSchedule × WorkflowStore
  list_and_advance_due now s =
      let due = order_by_next_run (keep (is_due now) s.schedules) in
      (map (dispatched now) due, record s { schedules = advance_all now due s.schedules })
