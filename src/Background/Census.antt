-- ===== src/Background/Census.antt =====
-- Where a task is: in the queue, with the worker, or ended.
use corivo_desktop.Base.{
  suc, ℕ, ◌≡◌, refl, ap, ◌∙◌, inl, inr, Bool, true, false, not, List, [], ◌∷◌, ◌++◌, map, none,
  some, arith, leb, ◌==◌, if◌then◌else◌, Bool-cases, List-cases, keep, ◌+◌,
}
use corivo_desktop.Base.Text.{Text, codes, contains}
use corivo_desktop.Background.{
  Step, enqueues, cancels, pops, ends, sees_cancel, Steps, stay, go, exceeded, Task,
  max_deps_retries, QueuedTask, Ended, Worker, SchedulerInner, enqueue, matches_key, signal,
  cancelled_by_user, cancel_queued, cancel, Readiness, dispatch, pop, run_ended, run_cancelled,
  Step, Steps, done, aborted, dropped, idle, running, no_app_state, deps_not_ready, ready, enqueues,
  cancels, pops, ends, sees_cancel, stay, go,
}

abbrev one_if : Bool → ℕ
one_if b = if b then 1 else 0

abbrev pub task_of : Ended → Task
task_of (done t) = t
task_of (aborted t reason) = t
task_of (dropped t) = t

abbrev pub queued : ℕ → List QueuedTask → ℕ
queued id [] = 0
queued id (q ∷ qs) = one_if (q.task.id == id) + queued id qs

abbrev pub ended_count : ℕ → List Ended → ℕ
ended_count id [] = 0
ended_count id (e ∷ es) = one_if ((task_of e).id == id) + ended_count id es

abbrev pub at_worker : ℕ → Worker → ℕ
at_worker id idle = 0
at_worker id (running task signalled) = one_if (task.id == id)

-- How often the task with that id is anywhere.
abbrev pub census : ℕ → SchedulerInner → ℕ
census id s = queued id s.queue + at_worker id s.worker + ended_count id s.ended

queued-append :
    (id : ℕ) (qs rs : List QueuedTask) → queued id (qs ++ rs) ≡ queued id qs + queued id rs
queued-append id [] rs = omega arith
queued-append id (q ∷ qs) rs = omega (arith, queued-append id qs rs)

ended_count-append :
    (id : ℕ) (es fs : List Ended)
    → ended_count id (es ++ fs) ≡ ended_count id es + ended_count id fs
ended_count-append id [] fs = omega arith
ended_count-append id (e ∷ es) fs = omega (arith, ended_count-append id es fs)

queued-keep :
    (id : ℕ) (key : Text) (qs : List QueuedTask)
    → queued id (keep (λ x. not (matches_key key x)) qs)
        + ended_count id (map cancelled_by_user (keep (matches_key key) qs))
      ≡ queued id qs
queued-keep id key [] = refl
queued-keep id key (q ∷ qs) = elim (Bool-cases (matches_key key q)) [
  | inl e ↦ rw e (omega (arith, queued-keep id key qs))
  | inr e ↦ rw e (omega (arith, queued-keep id key qs))
]

at_worker-signal : (id : ℕ) (key : Text) (w : Worker) → at_worker id (signal key w) ≡ at_worker id w
at_worker-signal id key idle = refl
at_worker-signal id key (running task signalled) = refl

cancel_queued-census :
    (id : ℕ) (key : Text) (s : SchedulerInner) → census id (cancel_queued key s).1 ≡ census id s
unfolding cancel_queued
cancel_queued-census id key s =
    counted (keep (matches_key key) s.queue) (queued-keep id key s.queue)
  where
    counted :
        (found : List QueuedTask)
        → queued id (keep (λ x. not (matches_key key x)) s.queue)
            + ended_count id (map cancelled_by_user found)
          ≡ queued id s.queue
        → census id
            (elim found as (λ _. Bool × SchedulerInner) [
              | [] ↦ (false, s)
              | q ∷ qs ↦ (
                true,
                record s {
                  queue = keep (λ x. not (matches_key key x)) s.queue;
                  ended = s.ended ++ map cancelled_by_user (q ∷ qs);
                },
              )
            ]).1
          ≡ census id s
    counted [] h = refl
    counted (q ∷ qs) h =
        omega (arith, h, ended_count-append id s.ended (map cancelled_by_user (q ∷ qs)))

cancel-census :
    (id : ℕ) (key : Text) (s : SchedulerInner) → census id (cancel key s).1 ≡ census id s
unfolding cancel
cancel-census id key s = elim (Bool-cases (contains s.cancellable key)) [
  | inl e ↦
      rw e (
        ap (λ n. queued id s.queue + n + ended_count id s.ended) (at_worker-signal id key s.worker))
  | inr e ↦ rw e (cancel_queued-census id key s)
]

dispatch-census :
    (id : ℕ) (r : Readiness) (q : QueuedTask) (rest : List QueuedTask) (s : SchedulerInner)
    → s.queue ≡ q ∷ rest
    → s.worker ≡ idle
    → census id (dispatch r q rest s) ≡ census id s
unfolding dispatch
dispatch-census id no_app_state q rest s front free =
    rw front (rw free (omega (arith, ended_count-append id s.ended (dropped q.task ∷ []))))
dispatch-census id (deps_not_ready reason) q rest s front free =
    elim (Bool-cases (leb max_deps_retries (suc q.deps_attempts))) [
      | inl e ↦
          rw (e, dispatch)
            (rw front (
              rw free (
                omega
                  (arith, ended_count-append id s.ended (aborted q.task (exceeded reason) ∷ [])))))
      | inr e ↦ rw (e, dispatch) (rw front refl)
    ]
dispatch-census id ready q rest s front free = rw front (rw free (omega arith))

pop-census :
    (id : ℕ) (r : Readiness) (s : SchedulerInner)
    → s.worker ≡ idle
    → census id (pop r s) ≡ census id s
unfolding pop
pop-census id r s free = elim (List-cases s.queue) [
  | inl e ↦ rw (e, pop) (ap (λ q. queued id q + at_worker id s.worker + ended_count id s.ended) e)
  | inr (q, rest, e) ↦
      rw (e, pop)
        (dispatch-census id r q rest s e free
          ∙ ap (λ x. queued id x + at_worker id s.worker + ended_count id s.ended) e)
]

-- How often the task with that id is enqueued along the steps.
abbrev pub submitted_by : {s t : SchedulerInner} → ℕ → Step s t → ℕ
submitted_by id (enqueues task s) = one_if (task.id == id)
submitted_by id (cancels key s) = 0
submitted_by id (pops r s free) = 0
submitted_by id (ends error task signalled s busy) = 0
submitted_by id (sees_cancel task s busy) = 0

abbrev pub submitted : {s t : SchedulerInner} → ℕ → Steps s t → ℕ
submitted id (stay s) = 0
submitted id (go step steps) = submitted_by id step + submitted id steps

Step-census :
    {s t : SchedulerInner} (id : ℕ) (step : Step s t)
    → census id t ≡ submitted_by id step + census id s
unfolding enqueue run_ended run_cancelled
Step-census id (enqueues task s) =
    omega (arith, queued-append id s.queue (record { task = task; deps_attempts = 0 } ∷ []))
Step-census id (cancels key s) = omega (arith, cancel-census id key s)
Step-census id (pops r s free) = omega (arith, pop-census id r s free)
Step-census id (ends none task signalled s busy) =
    rw busy (omega (arith, ended_count-append id s.ended (done task ∷ [])))
Step-census id (ends (some error) task signalled s busy) = rw busy (
    omega
      (arith, ended_count-append id s.ended (aborted task (codes "runner_error: " ++ error) ∷ [])))
Step-census id (sees_cancel task s busy) =
    rw busy
      (omega (arith, ended_count-append id s.ended (aborted task (codes "cancelled_by_user") ∷ [])))

-- Whatever the order of the steps, a task is in the queue, with the worker or ended, that is run, aborted
-- or dropped, as many times in all as it was there before and has been enqueued since: no step loses a
-- task or makes another of it.
pub Steps-census :
    {s t : SchedulerInner} (id : ℕ) (steps : Steps s t)
    → census id t ≡ submitted id steps + census id s
Steps-census id (stay s) = omega arith
Steps-census id (go step steps) = omega (arith, Step-census id step, Steps-census id steps)
