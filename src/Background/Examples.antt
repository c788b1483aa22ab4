-- ===== src/Background/Examples.antt =====
-- Concrete inputs to the properties of the background scheduler.
use corivo_desktop.Base.{◌≡◌, refl, false, [], ◌∷◌, none, some, ◌+◌}
use corivo_desktop.Base.Text.{codes}
use corivo_desktop.Background.{
  Task, SchedulerInner, idle, pop, dispatch, ready, run_ended, pops, ends, Steps, stay, go, aborted,
  exceeded,
}
use corivo_desktop.Background.Census.{census, submitted, Steps-census}
use corivo_desktop.Background.Patience.{pop_all, pop_all_aborts}

abbrev report : Task
report = record { id = 1; cancellation_key = some (codes "report") }

abbrev learner : Task
learner = record { id = 2; cancellation_key = none }

abbrev both_queued : SchedulerInner
both_queued = record {
  queue =
      record { task = report; deps_attempts = 0 }
      ∷ record { task = learner; deps_attempts = 0 }
      ∷ [];
  cancellable = [];
  worker = idle;
  ended = [];
}

abbrev run_of_report : Steps both_queued (run_ended none report (pop ready both_queued))
unfolding pop dispatch
run_of_report = go (pops ready both_queued refl) (
    go (ends none report false (pop ready both_queued) refl)
      (stay (run_ended none report (pop ready both_queued))))

Steps-census_example :
    census 1 (run_ended none report (pop ready both_queued))
    ≡ submitted 1 run_of_report + census 1 both_queued
Steps-census_example = Steps-census 1 run_of_report

pop_all_aborts_example :
    pop_all (codes "a" ∷ codes "b" ∷ codes "c" ∷ codes "d" ∷ codes "logged out" ∷ []) both_queued
    ≡ record both_queued {
      queue = record { task = learner; deps_attempts = 0 } ∷ [];
      ended = aborted report (exceeded (codes "logged out")) ∷ [];
    }
pop_all_aborts_example =
    pop_all_aborts (codes "a" ∷ codes "b" ∷ codes "c" ∷ codes "d" ∷ []) (codes "logged out")
      (record { task = report; deps_attempts = 0 })
      (record { task = learner; deps_attempts = 0 } ∷ []) both_queued refl refl
