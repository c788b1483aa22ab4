-- ===== src/Capture/Lifecycle/Resumed.antt =====
-- What a resumption gives back.
use corivo_desktop.Base.{ℕ, ◌≡◌, inl, inr, true, false, some, arith, if◌then◌else◌, Bool-cases}
use corivo_desktop.Base.Text.{Text}
use corivo_desktop.Capture.Tick.{Outcome, ok, err}
use corivo_desktop.Capture.Lifecycle.{
  CapturePipeline, running_error, start_session, start, request_snapshot, stop, pause_until,
  resume_internal,
}

-- If the pipeline is not paused and its sessions can be ended and created, then a pause and the resumption
-- after it leave it running, with the new session, exactly if it was running before, and not paused.
pub resume_internal-pause_until :
    (until : ℕ) (id : Text) (p : CapturePipeline)
    → p.is_paused ≡ false
    → ((resume_internal (ok id) (pause_until until (ok true) p).1).1.is_running ≡ p.is_running)
      × ((resume_internal (ok id) (pause_until until (ok true) p).1).1.is_paused ≡ false)
      × ((resume_internal (ok id) (pause_until until (ok true) p).1).1.session_id
          ≡ (if p.is_running then some id else p.session_id))
unfolding resume_internal pause_until start start_session stop
resume_internal-pause_until until id p free = elim (Bool-cases p.is_running) [
  | inl on ↦ (ground arith, ground arith, ground arith)
  | inr off ↦ (ground arith, ground arith, ground arith)
]

-- If the pipeline is running and is paused, and paused again before the pause is over, then the resumption
-- does not start it again.
pub resume_internal-pause_until_twice :
    (first second : ℕ) (id : Text) (p : CapturePipeline)
    → p.is_running ≡ true
    → let paused : CapturePipeline =
        (pause_until second (ok true) (pause_until first (ok true) p).1).1 in
      (paused.is_paused ≡ true) × ((resume_internal (ok id) paused).1.is_running ≡ false)
unfolding resume_internal pause_until start start_session stop
resume_internal-pause_until_twice first second id p on = (ground arith, ground arith)

-- If the pipeline is stopped and not paused and its session cannot be created, then it counts as running
-- from then on: every later start is refused, and with no bus so is every request for a snapshot.
pub start_failed :
    (why reason : Text) (created : Outcome Text) (p : CapturePipeline)
    → p.is_paused ≡ false
    → p.is_running ≡ false
    → p.has_bus ≡ false
    → let failed : CapturePipeline = (start (err why) p).1 in
      ((start created failed) ≡ (err running_error, failed))
      × ((request_snapshot reason failed).1 ≡ failed)
unfolding start start_session request_snapshot
start_failed why reason created p free off no_bus = (ground arith, ground arith)
