-- ===== src/Capture/Examples.antt =====
-- Concrete inputs to the properties of the capture pipeline.
use corivo_desktop.Base.{inl, ◌≡◌, refl, true, false, [], ◌∷◌, Option, none, some, All}
use corivo_desktop.Base.Text.{Text, codes, trim, is_whitespace, trim_start, trim_end, lower}
use corivo_desktop.Capture.Exclusion.{
  ExclusionEngine, check, is_executable_identifier, matches_self,
}
use corivo_desktop.Capture.Frame.{manual, NewFrame, ocr, envelope_to_new_frame}
use corivo_desktop.Capture.Tick.{
  CapturePipelineConfig, ForegroundProbe, Frame, Outside, ok, err, tick, ExtractionOutcome,
  build_skipped_envelope_with_trigger,
}
use corivo_desktop.Capture.Tick.Blocked.{IsContentFree, tick-IsContentFree}
use corivo_desktop.Capture.Tick.Repeat.{tick-tick, IsRepeat}
use corivo_desktop.Capture.Debounce.{Debouncer, run_inputs}
use corivo_desktop.Capture.Debounce.Pending.{
  IsOnePerKey, title_job, title_changes, run_inputs-IsOnePerKey,
}
use corivo_desktop.Capture.QuickAsk.{QuickAskFields, QuickAskPendingState, invoke_quick_ask}
use corivo_desktop.Capture.QuickAsk.Focus.{invoke_quick_ask-IsContentFree, IsWithheld}
use corivo_desktop.Capture.Lifecycle.{CapturePipeline, start, stop, pause_until, resume_internal}
use corivo_desktop.Capture.Lifecycle.Paused.{is_consistent, lifecycle-is_consistent}
use corivo_desktop.Capture.Lifecycle.Resumed.{resume_internal-pause_until_twice}

abbrev bank : Text
bank = codes "com.bank.app"

abbrev config : CapturePipelineConfig
config = record { interval_secs = 60; jpeg_quality = 75; idle_skip_secs = 60 }

abbrev probe_of : Text → ForegroundProbe
probe_of id = record {
  bundle_id = some id;
  name = some (codes "App");
  pid = some 7;
  window_title = some (codes "Title");
  url = none;
}

abbrev row_of : Text → NewFrame
row_of id = record {
  captured_at = 1;
  device_id = [];
  capture_session_id = codes "s";
  app_bundle_id = some id;
  app_name = none;
  window_title = some (codes "Title");
  url = none;
  screenshot_path = none;
  screenshot_hash = none;
  screenshot_size_bytes = none;
  ax_text = none;
  ocr_text = none;
  adapter_name = none;
  adapter_payload = none;
  extraction_strategy = codes "skipped";
  extraction_duration_ms = none;
  fallback_reason = none;
  trigger = codes "manual";
  content_hash = none;
  exclusion_match = some (codes "app:com.bank.app");
  search_tokens = none;
}

abbrev skipped_row : Frame
skipped_row = record { id = codes "f1"; row = row_of bank }

abbrev outside_with : Option Frame → Outside Text
outside_with last = record {
  idle_seconds = some 3;
  probe = probe_of bank;
  now = 9;
  last_in_session = ok last;
  touched = ok true;
  extracted = err (codes "no AX");
  inserted = ok true;
}

abbrev plain : Text → Text
plain s = s

abbrev bank_blocked : ExclusionEngine
bank_blocked = record { blocked_bundle_ids = bank ∷ []; blocked_executable_names = [] }

abbrev nothing_blocked : ExclusionEngine
nothing_blocked = record { blocked_bundle_ids = []; blocked_executable_names = [] }

tick-IsContentFree_example :
    All
      (IsContentFree (some (codes "app:com.bank.app")))
      (tick plain plain plain config (outside_with none) bank_blocked [] (codes "s") manual).0
unfolding check matches_self is_executable_identifier trim is_whitespace trim_start trim_end lower
tick-IsContentFree_example =
    tick-IsContentFree plain plain plain config (outside_with none) bank_blocked [] (codes "s")
      manual refl

-- The row that a tick writes when it skips the app.
abbrev written_row : Frame
written_row = record {
  id = codes "f2";
  row = envelope_to_new_frame plain plain plain (
      build_skipped_envelope_with_trigger plain plain plain (outside_with none) [] (codes "s")
        (codes "app:com.bank.app") (codes "exclusion") manual);
}

-- The app is not blocked any more.
tick-tick_example :
    All
      (IsRepeat (codes "f2") 9)
      (tick plain plain plain config
        (outside_with (some written_row))
        nothing_blocked
        []
        (codes "s")
        manual).0
unfolding tick check matches_self is_executable_identifier trim is_whitespace trim_start trim_end
    lower
tick-tick_example =
    tick-tick plain plain plain config config (outside_with none) (outside_with (some written_row))
      bank_blocked nothing_blocked [] (codes "s") manual manual written_row (inl refl) refl refl

abbrev at_rest : CapturePipeline
at_rest = record {
  is_running = false;
  session_id = none;
  has_bus = false;
  has_observer = false;
  is_subscribed = false;
  workers = 0;
  is_paused = false;
  pause_state = none;
  pause_timer = none;
  requested = [];
}

abbrev at_work : CapturePipeline
at_work = record {
  is_running = true;
  session_id = some (codes "s");
  has_bus = true;
  has_observer = true;
  is_subscribed = true;
  workers = 2;
  is_paused = false;
  pause_state = none;
  pause_timer = none;
  requested = [];
}

lifecycle-is_consistent_example :
    (is_consistent (start (ok (codes "t")) at_work).1 ≡ true)
    × (is_consistent (stop (ok true) at_work).1 ≡ true)
    × (is_consistent (pause_until 5 (ok true) at_work).1 ≡ true)
    × (is_consistent (resume_internal (ok (codes "t")) at_work).1 ≡ true)
lifecycle-is_consistent_example = lifecycle-is_consistent (ok (codes "t")) (ok true) 5 at_work refl

resume_internal-pause_until_twice_example :
    let paused : CapturePipeline =
      (pause_until 8 (ok true) (pause_until 5 (ok true) at_work).1).1 in
    (paused.is_paused ≡ true) × ((resume_internal (ok (codes "t")) paused).1.is_running ≡ false)
resume_internal-pause_until_twice_example =
    resume_internal-pause_until_twice 5 8 (codes "t") at_work refl

abbrev listening : Debouncer
listening = record {
  handles = record { key = codes "other"; job = title_job } ∷ [];
  jobs = [];
  is_closed = false;
}

run_inputs-IsOnePerKey_example : IsOnePerKey (run_inputs (title_changes 3) listening).handles
run_inputs-IsOnePerKey_example = run_inputs-IsOnePerKey (title_changes 3) listening (tt, tt)

abbrev between_sessions : QuickAskFields
between_sessions = record {
  is_paused = false;
  session_id = none;
  quick_ask_session = none;
  created = codes "q1";
}

invoke_quick_ask-IsContentFree_example :
    let (effects, result) =
      invoke_quick_ask plain plain plain config between_sessions bank_blocked []
        (outside_with (some skipped_row))
        (outside_with none) in
    All (IsContentFree (some (codes "app:com.bank.app"))) effects × IsWithheld result
unfolding check matches_self is_executable_identifier trim is_whitespace trim_start trim_end lower
invoke_quick_ask-IsContentFree_example =
    invoke_quick_ask-IsContentFree plain plain plain config between_sessions bank_blocked []
      (outside_with (some skipped_row)) (outside_with none) refl

abbrev blank_outcome : ExtractionOutcome Text
blank_outcome = record {
  strategy = ocr;
  ax_text = some (codes " ");
  ocr_text = some (codes "seen");
  adapter_name = none;
  adapter_payload = none;
  selection = none;
  screenshot = none;
  duration_ms = 4;
  fallback_reason = none;
}

abbrev bank_pending : QuickAskPendingState
bank_pending = record { probe = probe_of bank; session_id = codes "q1" }
