-- ===== src/Background/Patience.antt =====
-- A task whose dependencies never get ready, and those behind it.
use corivo_desktop.Base.{
  suc, ◌≡◌, refl, ap, ◌∙◌, true, false, List, [], ◌∷◌, ◌++◌, arith, leb, length, ◌<◌, ◌+◌,
}
use corivo_desktop.Base.Text.{Text}
use corivo_desktop.Background.{
  exceeded, max_deps_retries, QueuedTask, SchedulerInner, dispatch, pop, aborted, deps_not_ready,
}

-- Passes of the worker's loop that each find the dependencies not ready, for the reasons given.
abbrev pub pop_all : List Text → SchedulerInner → SchedulerInner
pop_all [] s = s
pop_all (r ∷ rs) s = pop_all rs (pop (deps_not_ready r) s)

pop_waits :
    (reason : Text) (q : QueuedTask) (rest : List QueuedTask) (s : SchedulerInner)
    → s.queue ≡ q ∷ rest
    → q.deps_attempts < 4
    → pop (deps_not_ready reason) s
      ≡ record s { queue = record q { deps_attempts = suc q.deps_attempts } ∷ rest }
unfolding pop dispatch
pop_waits reason q rest s front few =
    let patient : leb max_deps_retries (suc q.deps_attempts) ≡ false = ground arith in
    rw (front, pop) (rw (patient, dispatch) refl)

pop_gives_up :
    (reason : Text) (q : QueuedTask) (rest : List QueuedTask) (s : SchedulerInner)
    → s.queue ≡ q ∷ rest
    → q.deps_attempts ≡ 4
    → pop (deps_not_ready reason) s
      ≡ record s { queue = rest; ended = s.ended ++ (aborted q.task (exceeded reason) ∷ []) }
unfolding pop dispatch
pop_gives_up reason q rest s front many =
    let done_waiting : leb max_deps_retries (suc q.deps_attempts) ≡ true = ground arith in
    rw (front, pop) (rw (done_waiting, dispatch) refl)

-- If the first task of the queue has bounced off its dependencies `a` times, then that many passes as are
-- left to five, the last for the reason `last`, end it as aborted for that reason, and the worker has
-- not taken up any other task meanwhile.
pub pop_all_aborts :
    (reasons : List Text) (last : Text) (q : QueuedTask) (rest : List QueuedTask)
    (s : SchedulerInner)
    → s.queue ≡ q ∷ rest
    → length reasons + q.deps_attempts ≡ 4
    → pop_all (reasons ++ (last ∷ [])) s
      ≡ record s { queue = rest; ended = s.ended ++ (aborted q.task (exceeded last) ∷ []) }
pop_all_aborts [] last q rest s front n = pop_gives_up last q rest s front (omega arith)
pop_all_aborts (r ∷ rs) last q rest s front n =
    ap (pop_all (rs ++ (last ∷ []))) (pop_waits r q rest s front (omega arith))
    ∙ (pop_all_aborts rs last (record q { deps_attempts = suc q.deps_attempts }) rest
        (record s { queue = record q { deps_attempts = suc q.deps_attempts } ∷ rest }) refl
        (omega arith))
