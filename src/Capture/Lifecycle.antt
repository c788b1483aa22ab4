-- ===== src/Capture/Lifecycle.antt =====
-- services/capture_pipeline/mod.rs: starting, stopping, pausing and resuming the pipeline. A field behind a lock is a field
-- of the state, an object with its own thread is whether it is there, and the answers of `CaptureStore` are
-- arguments. The steps of one call are not interleaved with those of another.
pub mod Paused
pub mod Resumed
use corivo_desktop.Base.{
  ℕ, Bool, true, false, ◌&&◌, not, List, [], ◌∷◌, ◌++◌, Option, none, some, if◌then◌else◌,
}
use corivo_desktop.Base.Text.{Text, codes}
use corivo_desktop.Capture.Tick.{Outcome, ok, err}

pub record PauseState : Type 0 where
  pub paused_until : ℕ
  pub was_running : Bool

pub record CapturePipeline : Type 0 where
  pub is_running : Bool
  pub session_id : Option Text
  -- `event_tx`, `ax_observer`, the subscription to the foreground monitor, and `event_workers`.
  pub has_bus : Bool
  pub has_observer : Bool
  pub is_subscribed : Bool
  pub workers : ℕ
  pub is_paused : Bool
  pub pause_state : Option PauseState
  -- The instant that the timer of the pause waits for.
  pub pause_timer : Option ℕ
  -- What was pushed on the bus, newest last.
  pub requested : List Text

pub data CapturePhase : Type 0 where
  stopped : CapturePhase
  running : CapturePhase

pub record CaptureStatus : Type 0 where
  pub phase : CapturePhase
  pub current_session_id : Option Text
  pub paused_until : Option ℕ

abbrev until_of : Option PauseState → Option ℕ
until_of none = none
until_of (some p) = some p.paused_until

unfoldable pub paused_until : CapturePipeline → Option ℕ
paused_until p = until_of p.pause_state

unfoldable pub status : CapturePipeline → CaptureStatus
status p = record {
  phase = if p.is_running then running else stopped;
  current_session_id = p.session_id;
  paused_until = paused_until p;
}

abbrev pub paused_error : Text
paused_error = codes "CapturePipeline is paused; resume from the menubar first"

abbrev pub running_error : Text
running_error = codes "CapturePipeline is already running"

-- `start`, once `running` is set, with the session that the store creates.
unfoldable pub start_session : Outcome Text → CapturePipeline → Outcome Text × CapturePipeline
start_session (err e) p = (err e, record p { is_running = true })
start_session (ok id) p = (
  ok id,
  record p {
    is_running = true;
    session_id = some id;
    has_bus = true;
    has_observer = true;
    is_subscribed = true;
    workers = 2;
  },
)

unfoldable pub start : Outcome Text → CapturePipeline → Outcome Text × CapturePipeline
start created p =
    if p.is_paused
    then (err paused_error, p)
    else if p.is_running
    then (err running_error, p)
    else start_session created p

unfoldable pub request_snapshot : Text → CapturePipeline → Outcome Bool × CapturePipeline
request_snapshot reason p =
    if p.is_paused
    then (err (codes "CapturePipeline is paused; manual snapshot ignored"), p)
    else if p.has_bus
    then (ok true, record p { requested = p.requested ++ (reason ∷ []) })
    else (err (codes "manual snapshot requested but event driver is not running"), p)

-- What `end_session` answers, if there is a session to end.
abbrev ended : Option Text → Outcome Bool → Outcome Bool
ended none answer = ok true
ended (some id) (ok b) = ok true
ended (some id) (err e) = err e

unfoldable pub stop : Outcome Bool → CapturePipeline → Outcome Bool × CapturePipeline
stop answer p = (
  ended p.session_id answer,
  record p {
    is_running = false;
    session_id = none;
    has_bus = false;
    has_observer = false;
    is_subscribed = false;
    workers = 0;
  },
)

-- `pause_until`, once the pipeline is stopped.
abbrev set_pause : ℕ → Bool → CapturePipeline → CapturePipeline
set_pause until was_running p = record p {
  pause_state = some (record { paused_until = until; was_running = was_running });
  is_paused = true;
  pause_timer = some until;
}

abbrev if_stopped : ℕ → Outcome Bool × CapturePipeline → Outcome Bool × CapturePipeline
if_stopped until (err e, p) = (err e, p)
if_stopped until (ok b, p) = (ok true, set_pause until true p)

unfoldable pub pause_until : ℕ → Outcome Bool → CapturePipeline → Outcome Bool × CapturePipeline
pause_until until answer p =
    if p.is_running then if_stopped until (stop answer p) else (ok true, set_pause until false p)

abbrev should_restart : Option PauseState → Bool
should_restart none = false
should_restart (some prior) = prior.was_running

abbrev restarted : Outcome Text × CapturePipeline → Outcome Bool × CapturePipeline
restarted (err e, p) = (err e, p)
restarted (ok id, p) = (ok true, p)

-- `resume_internal`; by hand and by the timer it does the same to the state.
unfoldable pub resume_internal : Outcome Text → CapturePipeline → Outcome Bool × CapturePipeline
resume_internal created p =
    let resumed = record p { pause_state = none; is_paused = false; pause_timer = none } in
    if should_restart p.pause_state && not p.is_running
    then restarted (start created resumed)
    else (ok true, resumed)
