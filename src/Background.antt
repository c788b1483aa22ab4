-- ===== src/Background.antt =====
-- services/background_agent_task/scheduler.rs: the queue of background tasks and the one worker that runs them. The
-- worker's loop is cut where other tasks can run between: a pop, the end of a run, and the
-- sight of a cancellation. What the app's state and the runner answer are arguments; the 60 s pause and the
-- logging are left out.
pub mod Census
pub mod Patience
pub mod Cancelled
mod Examples
use corivo_desktop.Base.{
  ℕ, Bool, true, false, ◌||◌, ◌++◌, not, List, [], ◌∷◌, map, Option, none, some, if◌then◌else◌, leb,
  keep, suc, ◌≡◌,
}
use corivo_desktop.Base.Text.{Text, codes, text_eq, contains}

-- A task as the scheduler sees it: which one it is, and its `cancellation_key()`.
pub record Task : Type 0 where
  pub id : ℕ
  pub cancellation_key : Option Text

abbrev pub max_deps_retries : ℕ
max_deps_retries = 5

pub record QueuedTask : Type 0 where
  pub task : Task
  pub deps_attempts : ℕ

-- What has become of a task: it ran, `on_dispatch_aborted` was called with a reason, or neither.
pub data Ended : Type 0 where
  done : Task → Ended
  aborted : Task → Text → Ended
  dropped : Task → Ended

-- The worker, with whether its oneshot channel has been signalled.
pub data Worker : Type 0 where
  idle : Worker
  running : Task → Bool → Worker

pub record SchedulerInner : Type 0 where
  pub queue : List QueuedTask
  pub cancellable : List Text
  pub worker : Worker
  pub ended : List Ended

unfoldable pub enqueue : Task → SchedulerInner → SchedulerInner
enqueue task s = record s { queue = s.queue ++ (record { task = task; deps_attempts = 0 } ∷ []) }

abbrev pub has_key : Text → Option Text → Bool
has_key key none = false
has_key key (some k) = text_eq k key

abbrev pub matches_key : Text → QueuedTask → Bool
matches_key key q = has_key key q.task.cancellation_key

abbrev pub remove_key : Text → List Text → List Text
remove_key key keys = keep (λ k. not (text_eq k key)) keys

abbrev remove_key_of : Option Text → List Text → List Text
remove_key_of none keys = keys
remove_key_of (some key) keys = remove_key key keys

abbrev insert_key_of : Option Text → List Text → List Text
insert_key_of none keys = keys
insert_key_of (some key) keys = key ∷ remove_key key keys

-- The sender that is in the map under the key is that of the task that runs.
abbrev pub signal : Text → Worker → Worker
signal key idle = idle
signal key (running task signalled) = running task (has_key key task.cancellation_key || signalled)

abbrev pub cancelled_by_user : QueuedTask → Ended
cancelled_by_user q = aborted q.task (codes "cancelled_by_user")

-- `cancel`'s second case, with the matching entries of the queue.
unfoldable pub cancel_queued : Text → SchedulerInner → Bool × SchedulerInner
cancel_queued key s = elim (keep (matches_key key) s.queue) [
  | [] ↦ (false, s)
  | q ∷ qs ↦ (
    true,
    record s {
      queue = keep (λ x. not (matches_key key x)) s.queue;
      ended = s.ended ++ map cancelled_by_user (q ∷ qs);
    },
  )
]

unfoldable pub cancel : Text → SchedulerInner → Bool × SchedulerInner
cancel key s =
    if contains s.cancellable key
    then (
      true,
      record s { cancellable = remove_key key s.cancellable; worker = signal key s.worker },
    )
    else cancel_queued key s

-- What the worker finds before a run: no `AppState`, dependencies that are not ready, or ready ones.
pub data Readiness : Type 0 where
  no_app_state : Readiness
  deps_not_ready : Text → Readiness
  ready : Readiness

-- `format!("deps_not_ready_exceeded_retries: {reason}")`.
abbrev exceeded : Text → Text
exceeded reason = codes "deps_not_ready_exceeded_retries: " ++ reason

abbrev end_with : Ended → List QueuedTask → SchedulerInner → SchedulerInner
end_with e rest s = record s { queue = rest; ended = s.ended ++ (e ∷ []) }

-- One pass of the loop, up to the run; without a task it waits.
unfoldable pub dispatch : Readiness → QueuedTask → List QueuedTask → SchedulerInner → SchedulerInner
dispatch no_app_state q rest s = end_with (dropped q.task) rest s
dispatch (deps_not_ready reason) q rest s =
    if leb max_deps_retries (suc q.deps_attempts)
    then end_with (aborted q.task (exceeded reason)) rest s
    else record s { queue = record q { deps_attempts = suc q.deps_attempts } ∷ rest }
dispatch ready q rest s = record s {
  queue = rest;
  cancellable = insert_key_of q.task.cancellation_key s.cancellable;
  worker = running q.task false;
}

unfoldable pub pop : Readiness → SchedulerInner → SchedulerInner
pop readiness s = elim s.queue [ [] ↦ s | q ∷ rest ↦ dispatch readiness q rest s ]

abbrev outcome : Task → Option Text → Ended
outcome task none = done task
outcome task (some error) = aborted task (codes "runner_error: " ++ error)

-- The run ends by itself, with an error or without one; and by the oneshot.
unfoldable pub run_ended : Option Text → Task → SchedulerInner → SchedulerInner
run_ended error task s = record s {
  cancellable = remove_key_of task.cancellation_key s.cancellable;
  worker = idle;
  ended = s.ended ++ (outcome task error ∷ []);
}

unfoldable pub run_cancelled : Task → SchedulerInner → SchedulerInner
run_cancelled task s = record s {
  cancellable = remove_key_of task.cancellation_key s.cancellable;
  worker = idle;
  ended = s.ended ++ (aborted task (codes "cancelled_by_user") ∷ []);
}

-- The tasks that run at the same time, one step of one of them each.
pub data Step : SchedulerInner → SchedulerInner → Type 0 where
  enqueues : (task : Task) (s : SchedulerInner) → Step s (enqueue task s)
  cancels : (key : Text) (s : SchedulerInner) → Step s (cancel key s).1
  pops : (r : Readiness) (s : SchedulerInner) → s.worker ≡ idle → Step s (pop r s)
  ends :
      (error : Option Text) (task : Task) (signalled : Bool) (s : SchedulerInner)
      → s.worker ≡ running task signalled
      → Step s (run_ended error task s)
  sees_cancel :
      (task : Task) (s : SchedulerInner)
      → s.worker ≡ running task true
      → Step s (run_cancelled task s)

pub data Steps : SchedulerInner → SchedulerInner → Type 0 where
  stay : (s : SchedulerInner) → Steps s s
  go : {s t u : SchedulerInner} → Step s t → Steps t u → Steps s u

abbrev pub new_scheduler : SchedulerInner
new_scheduler = record { queue = []; cancellable = []; worker = idle; ended = [] }
