-- ===== src/Capture/Tick.antt =====
-- services/capture_pipeline/{dedup,mod,coordinator}.rs: one capture, from the probe of the foreground app to the
-- row it writes. What the operating system, the repository of frames and the extractor answer is the
-- record `Outside`; what the tick asks them to do, in order, is the list of `Effect`s.
pub mod Blocked
pub mod Repeat
use corivo_desktop.Base.{
  ℕ, Bool, true, false, ◌&&◌, List, [], ◌∷◌, ◌++◌, Option, none, some, if◌then◌else◌, leb,
}
use corivo_desktop.Base.Text.{Text, codes, text_eq}
use corivo_desktop.Capture.Exclusion.{
  ExclusionVerdict, allow, block, block_self, ExclusionEngine, check,
}
use corivo_desktop.Capture.Frame.{
  Trigger, ExtractionStrategy, skipped, AppInfo, WindowInfo, ScreenshotRef, FrameSnapshot,
  ExtractionResult, RawDebug, SnapshotEnvelope, NewFrame, envelope_version, envelope_to_new_frame,
}

pub record CapturePipelineConfig : Type 0 where
  pub interval_secs : ℕ
  pub jpeg_quality : ℕ
  pub idle_skip_secs : ℕ

pub record ForegroundProbe : Type 0 where
  pub bundle_id : Option Text
  pub name : Option Text
  pub pid : Option ℕ
  pub window_title : Option Text
  pub url : Option Text

pub record CurrentMetadata : Type 0 where
  pub app_bundle_id : Option Text
  pub window_title : Option Text
  pub url : Option Text

-- A row of `frames`, with the id that `insert` gave it.
pub record Frame : Type 0 where
  pub id : Text
  pub row : NewFrame

pub data DedupDecision : Type 0 where
  write_fresh : DedupDecision
  bump_still_present : Text → DedupDecision

abbrev pub option_eq : Option Text → Option Text → Bool
option_eq none none = true
option_eq (some s) (some t) = text_eq s t
option_eq s t = false

unfoldable pub metadata_matches : Frame → CurrentMetadata → Bool
metadata_matches last current =
    option_eq last.row.app_bundle_id current.app_bundle_id
    && option_eq last.row.window_title current.window_title
    && option_eq last.row.url current.url

unfoldable pub classify_metadata : Option Frame → CurrentMetadata → DedupDecision
classify_metadata none current = write_fresh
classify_metadata (some last) current =
    if metadata_matches last current then bump_still_present last.id else write_fresh

pub data Outcome (A : Type 0) : Type 0 where
  ok : A → Outcome A
  err : Text → Outcome A

pub record ExtractInput : Type 0 where
  pub app_bundle_id : Option Text
  pub app_name : Option Text
  pub window_title : Option Text
  pub window_pid : Option ℕ
  pub captured_at : ℕ
  pub trigger : Trigger
  pub session_id : Text
  pub jpeg_quality : ℕ

pub record ExtractionOutcome (Json : Type 0) : Type 0 where
  pub strategy : ExtractionStrategy
  pub ax_text : Option Text
  pub ocr_text : Option Text
  pub adapter_name : Option Text
  pub adapter_payload : Option Json
  pub selection : Option Text
  pub screenshot : Option ScreenshotRef
  pub duration_ms : ℕ
  pub fallback_reason : Option Text

pub record Outside (Json : Type 0) : Type 0 where
  pub idle_seconds : Option ℕ
  pub probe : ForegroundProbe
  pub now : ℕ
  pub last_in_session : Outcome (Option Frame)
  pub touched : Outcome Bool
  pub extracted : Outcome (ExtractionOutcome Json)
  pub inserted : Outcome Bool

pub data Effect : Type 0 where
  insert_frame : NewFrame → Effect
  touch_still_present : Text → ℕ → Effect
  extract : ExtractInput → Effect

abbrev pub metadata_of : ForegroundProbe → CurrentMetadata
metadata_of p = record { app_bundle_id = p.bundle_id; window_title = p.window_title; url = p.url }

abbrev pub app_of : ForegroundProbe → AppInfo
app_of p = record { bundle_id = p.bundle_id; name = p.name; pid = p.pid }

abbrev pub is_idle : CapturePipelineConfig → Option ℕ → Bool
is_idle cfg none = false
is_idle cfg (some idle) = leb cfg.idle_skip_secs idle

abbrev done : Outcome Bool → Outcome Bool
done (ok b) = ok true
done (err e) = err e

module _ {Json : Type 0} (print : Json → Text) (sha256_hex : Text → Text)
    (tokenize : Text → Text) where
  unfoldable pub build_skipped_envelope_with_trigger :
      Outside Json → Text → Text → Text → Text → Trigger → SnapshotEnvelope Json
  build_skipped_envelope_with_trigger o device_id session_id exclusion_match fallback_reason
        trigger =
      record {
        v = envelope_version;
        captured_at = o.now;
        device_id = device_id;
        session_id = session_id;
        frame = record {
          app = app_of o.probe;
          window = record { title = o.probe.window_title; is_focused = true };
          url = o.probe.url;
          screenshot = none;
        };
        extraction = record {
          strategy = skipped;
          ax_text = none;
          ocr_text = none;
          adapter_name = none;
          adapter_payload = none;
          selection = none;
          duration_ms = 0;
          fallback_reason = some fallback_reason;
        };
        trigger = trigger;
        raw = record { ax_tree_json_path = none; exclusion_match = some exclusion_match };
      }

  unfoldable pub fresh_envelope :
      Outside Json → Text → Text → ExtractionOutcome Json → Trigger → SnapshotEnvelope Json
  fresh_envelope o device_id session_id outcome trigger = record {
    v = envelope_version;
    captured_at = o.now;
    device_id = device_id;
    session_id = session_id;
    frame = record {
      app = app_of o.probe;
      window = record { title = o.probe.window_title; is_focused = true };
      url = o.probe.url;
      screenshot = outcome.screenshot;
    };
    extraction = record {
      strategy = outcome.strategy;
      ax_text = outcome.ax_text;
      ocr_text = outcome.ocr_text;
      adapter_name = outcome.adapter_name;
      adapter_payload = outcome.adapter_payload;
      selection = outcome.selection;
      duration_ms = outcome.duration_ms;
      fallback_reason = outcome.fallback_reason;
    };
    trigger = trigger;
    raw = record { ax_tree_json_path = none; exclusion_match = none };
  }

  -- `LocalConsumer::ingest`, up to the overlay's event.
  abbrev pub ingest : Outside Json → SnapshotEnvelope Json → List Effect × Outcome Bool
  ingest o env =
      (insert_frame (envelope_to_new_frame print sha256_hex tokenize env) ∷ [], done o.inserted)

  abbrev after : Effect → List Effect × Outcome Bool → List Effect × Outcome Bool
  after e (es, r) = (e ∷ es, r)

  abbrev pub extract_input : CapturePipelineConfig → Outside Json → Text → Trigger → ExtractInput
  extract_input cfg o session_id trigger = record {
    app_bundle_id = o.probe.bundle_id;
    app_name = o.probe.name;
    window_title = o.probe.window_title;
    window_pid = o.probe.pid;
    captured_at = o.now;
    trigger = trigger;
    session_id = session_id;
    jpeg_quality = cfg.jpeg_quality;
  }

  -- Steps 5 and 6 of `tick`.
  unfoldable pub extract_and_ingest :
      CapturePipelineConfig → Outside Json → Text → Text → Trigger → List Effect × Outcome Bool
  extract_and_ingest cfg o device_id session_id trigger =
      after (extract (extract_input cfg o session_id trigger)) (elim o.extracted [
        | err e ↦ ([], err (codes "extractor failed: " ++ e))
        | ok outcome ↦ ingest o (fresh_envelope o device_id session_id outcome trigger)
      ])

  -- Step 4 of `tick`, and on.
  unfoldable pub dedup_or_write :
      CapturePipelineConfig → Outside Json → Text → Text → Trigger → List Effect × Outcome Bool
  dedup_or_write cfg o device_id session_id trigger = elim o.last_in_session [
    | err e ↦ ([], err e)
    | ok last ↦ elim (classify_metadata last (metadata_of o.probe)) [
      | bump_still_present id ↦ (touch_still_present id o.now ∷ [], done o.touched)
      | write_fresh ↦ extract_and_ingest cfg o device_id session_id trigger
    ]
  ]

  unfoldable pub tick :
      CapturePipelineConfig
      → Outside Json
      → ExclusionEngine
      → Text
      → Text
      → Trigger
      → List Effect × Outcome Bool
  tick cfg o exclusion device_id session_id trigger =
      if is_idle cfg o.idle_seconds
      then ([], ok true)
      else elim (check exclusion o.probe.bundle_id) [
        | block_self ↦ ([], ok true)
        | block reason ↦ ingest o (
            build_skipped_envelope_with_trigger o device_id session_id reason (codes "exclusion")
              trigger)
        | allow ↦ dedup_or_write cfg o device_id session_id trigger
      ]
