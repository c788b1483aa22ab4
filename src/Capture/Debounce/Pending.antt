-- ===== src/Capture/Debounce/Pending.antt =====
-- Timers replace one another, and none is left after the end.
use corivo_desktop.Base.{
  suc, zero, ℕ, ◌≡◌, refl, ap, ◌∙◌, inl, inr, true, false, not, List, [], ◌∷◌, ◌++◌, none, some,
  ◌==◌, Bool-cases, All, All-keep,
}
use mathlib.Core.List.{append-nil}
use corivo_desktop.Base.Text.{Text, text_eq}
use corivo_desktop.Capture.Frame.{title_changed}
use corivo_desktop.Capture.Debounce.{
  SnapshotJob, manual_surface_key, ax_surface_key, BusEvent, Handle, Debouncer, without, fire,
  drain, handle_event, elapse, Input, step, run_inputs, app_activated, focused_window, title_change,
  manual_snapshot, shutdown, event, elapsed,
}

abbrev pub IsOnePerKey : List Handle → Type 0
IsOnePerKey [] = Unit
IsOnePerKey (h ∷ hs) = All (λ k. text_eq k.key h.key ≡ false) hs × IsOnePerKey hs

without-IsOnePerKey :
    (key : Text) (hs : List Handle) → IsOnePerKey hs → IsOnePerKey (without key hs)
without-IsOnePerKey key [] u = tt
without-IsOnePerKey key (h ∷ hs) u = elim (Bool-cases (text_eq h.key key)) [
  | inl e ↦ rw e (without-IsOnePerKey key hs u.1)
  | inr e ↦ rw e (All-keep _ (λ k. not (text_eq k.key key)) hs u.0, without-IsOnePerKey key hs u.1)
]

without-All :
    (key : Text) (hs : List Handle) → All (λ k. text_eq k.key key ≡ false) (without key hs)
without-All key [] = tt
without-All key (h ∷ hs) = elim (Bool-cases (text_eq h.key key)) [
  | inl e ↦ rw e (without-All key hs)
  | inr e ↦ rw e (e, without-All key hs)
]

fire-IsOnePerKey :
    (key : Text) (job : SnapshotJob) (delay : ℕ) (d : Debouncer)
    → IsOnePerKey d.handles
    → IsOnePerKey (fire key job delay d).handles
unfolding fire
fire-IsOnePerKey key job delay d u = elim (Bool-cases (delay == 0)) [
  | inl e ↦ rw e (without-IsOnePerKey key d.handles u)
  | inr e ↦ rw e (without-All key d.handles, without-IsOnePerKey key d.handles u)
]

handle_event-IsOnePerKey :
    (e : BusEvent) (d : Debouncer) → IsOnePerKey d.handles → IsOnePerKey (handle_event e d).handles
unfolding handle_event drain
handle_event-IsOnePerKey (app_activated from none) d u = u
handle_event-IsOnePerKey (app_activated from (some to)) d u = fire-IsOnePerKey to _ 0 d u
handle_event-IsOnePerKey focused_window d u = fire-IsOnePerKey ax_surface_key _ 0 d u
handle_event-IsOnePerKey title_change d u = fire-IsOnePerKey ax_surface_key _ 250 d u
handle_event-IsOnePerKey (manual_snapshot reason) d u = fire-IsOnePerKey manual_surface_key _ 0 d u
handle_event-IsOnePerKey shutdown d u = tt

step-IsOnePerKey :
    (i : Input) (d : Debouncer) → IsOnePerKey d.handles → IsOnePerKey (step i d).handles
unfolding step elapse
step-IsOnePerKey (event e) d u = elim (Bool-cases d.is_closed) [
  | inl closed ↦ simp closed u
  | inr open_still ↦ simp open_still (handle_event-IsOnePerKey e d u)
]
step-IsOnePerKey (elapsed key) d u = without-IsOnePerKey key d.handles u

-- If no two pending timers are for the same surface, no two are after any sequence of events and of
-- delays that pass.
pub run_inputs-IsOnePerKey :
    (is : List Input) (d : Debouncer)
    → IsOnePerKey d.handles
    → IsOnePerKey (run_inputs is d).handles
run_inputs-IsOnePerKey [] d u = u
run_inputs-IsOnePerKey (i ∷ is) d u = run_inputs-IsOnePerKey is (step i d) (step-IsOnePerKey i d u)

-- The coordinator after its loop, with no timer left.
abbrev closed_with : List SnapshotJob → Debouncer
closed_with jobs = record { handles = []; jobs = jobs; is_closed = true }

step-closed_with :
    (i : Input) (jobs : List SnapshotJob) → step i (closed_with jobs) ≡ closed_with jobs
unfolding step elapse
step-closed_with (event e) jobs = refl
step-closed_with (elapsed key) jobs = ap closed_with (append-nil jobs)

run_inputs-closed_with :
    (is : List Input) (jobs : List SnapshotJob)
    → run_inputs is (closed_with jobs) ≡ closed_with jobs
run_inputs-closed_with [] jobs = refl
run_inputs-closed_with (i ∷ is) jobs =
    ap (run_inputs is) (step-closed_with i jobs) ∙ run_inputs-closed_with is jobs

shutdown_closes :
    (d : Debouncer) → d.is_closed ≡ false → step (event shutdown) d ≡ closed_with d.jobs
unfolding step handle_event drain
shutdown_closes d open_still = simp open_still refl

-- If the coordinator is running, then after a shutdown no sequence of events, and no delay that passes, sends
-- another job or starts a timer, and no timer is left.
pub run_inputs-shutdown :
    (is : List Input) (d : Debouncer)
    → d.is_closed ≡ false
    → run_inputs (event shutdown ∷ is) d ≡ record { handles = []; jobs = d.jobs; is_closed = true }
run_inputs-shutdown is d open_still =
    ap (run_inputs is) (shutdown_closes d open_still) ∙ run_inputs-closed_with is d.jobs

abbrev pub title_job : SnapshotJob
title_job = record { trigger = title_changed; surface_key = ax_surface_key }

abbrev pub title_changes : ℕ → List Input
title_changes zero = []
title_changes (suc n) = event title_change ∷ title_changes n

-- The timer of the title is set, and the other surfaces have theirs.
abbrev waiting : List Handle → List SnapshotJob → Debouncer
waiting hs jobs = record {
  handles = record { key = ax_surface_key; job = title_job } ∷ without ax_surface_key hs;
  jobs = jobs;
  is_closed = false;
}

without-without : (key : Text) (hs : List Handle) → without key (without key hs) ≡ without key hs
without-without key [] = refl
without-without key (h ∷ hs) = elim (Bool-cases (text_eq h.key key)) [
  | inl e ↦ rw e (without-without key hs)
  | inr e ↦ rw e (rw e (ap (λ x. h ∷ x) (without-without key hs)))
]

title_waits :
    (d : Debouncer) → d.is_closed ≡ false → step (event title_change) d ≡ waiting d.handles d.jobs
unfolding step handle_event fire
title_waits d open_still = simp open_still refl

title_again :
    (hs : List Handle) (jobs : List SnapshotJob)
    → step (event title_change) (waiting hs jobs) ≡ waiting hs jobs
unfolding step handle_event fire
title_again hs jobs =
    ap
      (λ x. record {
        handles = record { key = ax_surface_key; job = title_job } ∷ x;
        jobs = jobs;
        is_closed = false;
      })
      (without-without ax_surface_key hs)

title_changes-waiting :
    (n : ℕ) (hs : List Handle) (jobs : List SnapshotJob)
    → run_inputs (title_changes n ++ (elapsed ax_surface_key ∷ [])) (waiting hs jobs) ≡ record {
      handles = without ax_surface_key hs;
      jobs = jobs ++ (title_job ∷ []);
      is_closed = false;
    }
unfolding step elapse
title_changes-waiting zero hs jobs =
    ap (λ x. record { handles = x; jobs = jobs ++ (title_job ∷ []); is_closed = false })
      (without-without ax_surface_key hs)
title_changes-waiting (suc n) hs jobs =
    ap (run_inputs (title_changes n ++ (elapsed ax_surface_key ∷ []))) (title_again hs jobs)
    ∙ title_changes-waiting n hs jobs

-- If the coordinator is running, then however many changes of the title come before the delay passes, one job is
-- sent for all of them, and the timers of the other surfaces are as they were.
pub run_inputs-title_changes :
    (n : ℕ) (d : Debouncer)
    → d.is_closed ≡ false
    → run_inputs (title_changes (suc n) ++ (elapsed ax_surface_key ∷ [])) d ≡ record {
      handles = without ax_surface_key d.handles;
      jobs = d.jobs ++ (title_job ∷ []);
      is_closed = false;
    }
run_inputs-title_changes n d open_still =
    ap (run_inputs (title_changes n ++ (elapsed ax_surface_key ∷ []))) (title_waits d open_still)
    ∙ title_changes-waiting n d.handles d.jobs
