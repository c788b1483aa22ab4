-- ===== src/Capture/Lifecycle/Paused.antt =====
-- What holds of the pipeline between calls.
use corivo_desktop.Base.{
  ℕ, ◌≡◌, Bool, true, false, ◌&&◌, ◌||◌, not, Option, none, some, arith, if◌then◌else◌,
}
use corivo_desktop.Base.Text.{Text}
use corivo_desktop.Capture.Tick.{Outcome, ok, err}
use corivo_desktop.Capture.Lifecycle.{
  PauseState, CapturePipeline, start_session, start, stop, pause_until, resume_internal,
}

abbrev pub is_some : Option PauseState → Bool
is_some none = false
is_some (some p) = true

abbrev pub has_session : Option Text → Bool
has_session none = false
has_session (some id) = true

-- The flag and the state of the pause agree, a paused pipeline does not run, and what only a run has is there
-- only in a run.
abbrev pub is_consistent : CapturePipeline → Bool
is_consistent p =
    (if p.is_paused then is_some p.pause_state && not p.is_running else not (is_some p.pause_state))
    && (p.is_running
        || not (has_session p.session_id || p.has_bus || p.has_observer || p.is_subscribed))

start-is_consistent :
    (created : Outcome Text) (p : CapturePipeline)
    → is_consistent p ≡ true
    → is_consistent (start created p).1 ≡ true
unfolding start start_session
start-is_consistent (ok id) p h = ground arith
start-is_consistent (err e) p h = ground arith

pause_until-is_consistent :
    (until : ℕ) (answer : Outcome Bool) (p : CapturePipeline)
    → is_consistent p ≡ true
    → is_consistent (pause_until until answer p).1 ≡ true
unfolding pause_until stop
pause_until-is_consistent until (ok b) p h = ground arith
pause_until-is_consistent until (err e) p h = ground arith

resume_internal-is_consistent :
    (created : Outcome Text) (p : CapturePipeline)
    → is_consistent p ≡ true
    → is_consistent (resume_internal created p).1 ≡ true
unfolding resume_internal start start_session
resume_internal-is_consistent (ok id) p h = ground arith
resume_internal-is_consistent (err e) p h = ground arith

-- If the flag and the state of the pause agree, a paused pipeline does not run, and only a run has a session, a
-- bus, an observer or a subscription, then all that is so after a start, a stop, a pause and a resumption,
-- whatever the store of sessions answers.
pub lifecycle-is_consistent :
    (created : Outcome Text) (answer : Outcome Bool) (until : ℕ) (p : CapturePipeline)
    → is_consistent p ≡ true
    → (is_consistent (start created p).1 ≡ true)
      × (is_consistent (stop answer p).1 ≡ true)
      × (is_consistent (pause_until until answer p).1 ≡ true)
      × (is_consistent (resume_internal created p).1 ≡ true)
unfolding stop
lifecycle-is_consistent created answer until p h = (
  start-is_consistent created p h,
  ground arith,
  pause_until-is_consistent until answer p h,
  resume_internal-is_consistent created p h,
)
