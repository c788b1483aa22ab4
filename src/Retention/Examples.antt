-- ===== src/Retention/Examples.antt =====
-- Witness and test.
use corivo_desktop.Base.{arith, ℕ, ◌≡◌, refl, true, [], ◌∷◌, none, some}
use corivo_desktop.Base.Text.{Text, codes}
use corivo_desktop.Capture.Tick.{Frame}
use corivo_desktop.Retention.{
  SessionInfo, DirEntry, Kept, Answers, active, completed, is_recent_frame, deletable_ids,
  delete_session, delete_sessions, delete_frames_older_than, is_swept, sweep_agent_sessions_dir,
  finish_round, run_round,
}
use corivo_desktop.Retention.Round.{IsRound, run_round-IsRound}

-- A hundred days.
abbrev now : ℕ
now = 8640000000

abbrev frame_at : ℕ → Frame
frame_at t = record {
  id = codes "f";
  row = record {
    captured_at = t;
    device_id = [];
    capture_session_id = codes "long";
    app_bundle_id = none;
    app_name = none;
    window_title = none;
    url = none;
    screenshot_path = some (codes "long/1.jpg");
    screenshot_hash = none;
    screenshot_size_bytes = none;
    ax_text = none;
    ocr_text = none;
    adapter_name = none;
    adapter_payload = none;
    extraction_strategy = codes "ocr";
    extraction_duration_ms = none;
    fallback_reason = none;
    trigger = codes "timer";
    content_hash = none;
    exclusion_match = none;
    search_tokens = none;
  };
}

abbrev session_of : Text → ℕ → SessionInfo
session_of id t = record { id = id; started_at = t; status = completed }

abbrev running_session : SessionInfo
running_session = record { id = codes "running"; started_at = 5; status = active }

abbrev file_at : Text → ℕ → DirEntry
file_at extension t = record {
  extension = some extension;
  is_file = some true;
  modified = some t;
  removable = true;
}

abbrev everything : Kept
everything = record {
  frames = frame_at 1 ∷ (frame_at 8000000000 ∷ []);
  sessions = session_of (codes "long") 1 ∷ (running_session ∷ []);
  agent_sessions = some (file_at (codes "jsonl") 1 ∷ (file_at (codes "txt") 1 ∷ []));
}

abbrev all_well : Answers
all_well = record { deletes_frames = true; removes_dir = λ id. true; saves_index = λ id. true }

-- The session began before the 90 days and goes, with its screenshots; its later frame stays.
run_round_test : run_round all_well now everything ≡ (
  true,
  record {
    frames = frame_at 8000000000 ∷ [];
    sessions = running_session ∷ [];
    agent_sessions = some (file_at (codes "txt") 1 ∷ []);
  },
)
unfolding run_round finish_round delete_frames_older_than is_recent_frame delete_sessions
    delete_session deletable_ids sweep_agent_sessions_dir is_swept
run_round_test = refl

run_round-IsRound_example : IsRound now everything (run_round all_well now everything)
run_round-IsRound_example =
    run_round-IsRound all_well now everything (ground arith) (((λ q. absurd (cc q)), tt), (tt, tt))
