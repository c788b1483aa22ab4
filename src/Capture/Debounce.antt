-- ===== src/Capture/Debounce.antt =====
-- services/capture_pipeline/{coordinator,debouncer,event_bus}.rs: from an event to a job for the runner. A timer task is
-- an entry of `handles` until it is aborted or its delay has passed, which is a step of its own; the channel
-- of jobs is a list, newest last, and its bound is not modelled.
pub mod Pending
use corivo_desktop.Base.{
  ℕ, Bool, true, false, not, List, [], ◌∷◌, ◌++◌, Option, none, some, ◌==◌, if◌then◌else◌, keep,
}
use corivo_desktop.Base.Text.{Text, codes, text_eq}
use corivo_desktop.Capture.Frame.{
  Trigger, focus_change, focused_window_changed, title_changed, quick_ask, manual,
}

pub record SnapshotJob : Type 0 where
  pub trigger : Trigger
  pub surface_key : Text

-- In milliseconds.
abbrev pub default_debounce : Trigger → ℕ
default_debounce focus_change = 0
default_debounce focused_window_changed = 0
default_debounce title_changed = 250
default_debounce manual = 0
default_debounce quick_ask = 0

abbrev pub manual_surface_key : Text
manual_surface_key = codes "<manual>"

abbrev pub ax_surface_key : Text
ax_surface_key = codes "<ax_active>"

pub data BusEvent : Type 0 where
  app_activated : Option Text → Option Text → BusEvent
  focused_window : BusEvent
  title_change : BusEvent
  manual_snapshot : Text → BusEvent
  shutdown : BusEvent

-- A timer that sleeps, with the job it will send.
pub record Handle : Type 0 where
  pub key : Text
  pub job : SnapshotJob

-- The debouncer, what it has sent, and whether the coordinator's loop has ended.
pub record Debouncer : Type 0 where
  pub handles : List Handle
  pub jobs : List SnapshotJob
  pub is_closed : Bool

abbrev pub without : Text → List Handle → List Handle
without key hs = keep (λ h. not (text_eq h.key key)) hs

unfoldable pub fire : Text → SnapshotJob → ℕ → Debouncer → Debouncer
fire key job delay d =
    if delay == 0
    then record d { handles = without key d.handles; jobs = d.jobs ++ (job ∷ []) }
    else record d { handles = record { key = key; job = job } ∷ without key d.handles }

unfoldable pub drain : Debouncer → Debouncer
drain d = record d { handles = [] }

abbrev fire_for : Trigger → Text → ℕ → Debouncer → Debouncer
fire_for trigger key delay d = fire key (record { trigger = trigger; surface_key = key }) delay d

-- One round of the coordinator's loop, and what follows it.
unfoldable pub handle_event : BusEvent → Debouncer → Debouncer
handle_event (app_activated from none) d = d
handle_event (app_activated from (some bundle_id)) d =
    fire_for focus_change bundle_id (default_debounce focus_change) d
handle_event focused_window d =
    fire_for focused_window_changed ax_surface_key (default_debounce focused_window_changed) d
handle_event title_change d =
    fire_for title_changed ax_surface_key (default_debounce title_changed) d
handle_event (manual_snapshot reason) d = fire_for manual manual_surface_key 0 d
handle_event shutdown d = record (drain d) { is_closed = true }

abbrev send_of : Text → List Handle → List SnapshotJob
send_of key [] = []
send_of key (h ∷ hs) = let rest = send_of key hs in if text_eq h.key key then h.job ∷ [] else rest

-- The delay of the timer with the key has passed.
unfoldable pub elapse : Text → Debouncer → Debouncer
elapse key d = record d { handles = without key d.handles; jobs = d.jobs ++ send_of key d.handles }

pub data Input : Type 0 where
  event : BusEvent → Input
  elapsed : Text → Input

-- A closed coordinator takes no more events, but a timer may still be there.
unfoldable pub step : Input → Debouncer → Debouncer
step (event e) d = if d.is_closed then d else handle_event e d
step (elapsed key) d = elapse key d

abbrev pub run_inputs : List Input → Debouncer → Debouncer
run_inputs [] d = d
run_inputs (i ∷ is) d = run_inputs is (step i d)
