-- ===== src/Capture/QuickAsk.antt =====
-- services/capture_pipeline/mod.rs (invoke_quick_ask and its two phases), domain/focus_context.rs and the overlay's event of
-- services/snapshot_consumer/local.rs. As in the tick, the record `Outside` holds what the surroundings answer during a phase, and the
-- effects are listed in order.
pub mod Focus
use corivo_desktop.Base.{
  Bool, true, false, ◌||◌, List, [], ◌∷◌, ◌++◌, Option, none, some, if◌then◌else◌, ℕ,
}
use corivo_desktop.Base.Text.{Text, codes, trim, is_empty, text_eq}
use corivo_desktop.Capture.Exclusion.{
  ExclusionVerdict, allow, block, block_self, ExclusionEngine, check, matches_self,
}
use corivo_desktop.Capture.Frame.{SnapshotEnvelope, quick_ask}
use corivo_desktop.Capture.Tick.{
  ForegroundProbe, Frame, Outcome, ok, err, Outside, Effect, extract, ExtractionOutcome,
  CapturePipelineConfig, build_skipped_envelope_with_trigger, fresh_envelope, extract_input, ingest,
}

pub record FocusContext (Json : Type 0) : Type 0 where
  pub frame_id : Text
  pub captured_at : ℕ
  pub app_bundle_id : Option Text
  pub app_name : Option Text
  pub window_title : Option Text
  pub url : Option Text
  pub adapter_name : Option Text
  pub adapter_payload : Option Json
  pub primary_text : Text
  pub selection : Option Text
  pub excluded : Bool
  pub empty : Bool

pub record QuickAskSkeleton : Type 0 where
  pub captured_at : ℕ
  pub app_bundle_id : Option Text
  pub app_name : Option Text
  pub window_title : Option Text
  pub url : Option Text

pub record QuickAskPendingState : Type 0 where
  pub probe : ForegroundProbe
  pub session_id : Text

pub data QuickAskPhaseAOutcome (Json : Type 0) : Type 0 where
  excluded_app : FocusContext Json → QuickAskPhaseAOutcome Json
  pending_app : QuickAskSkeleton → QuickAskPendingState → QuickAskPhaseAOutcome Json

-- The fields of the pipeline that are used here, `created` being the id of a session that the store would make.
pub record QuickAskFields : Type 0 where
  pub is_paused : Bool
  pub session_id : Option Text
  pub quick_ask_session : Option Text
  pub created : Text

-- The session's id, and the slot's new value, which the pipeline keeps.
unfoldable pub quick_ask_session_id : QuickAskFields → Text × Option Text
quick_ask_session_id p = elim p.session_id [
  | some active ↦ (active, p.quick_ask_session)
  | none ↦ elim p.quick_ask_session [
    | some existing ↦ (existing, some existing)
    | none ↦ (p.created, some p.created)
  ]
]

-- The first `if let` of phase A: why the app is excluded.
abbrev pub excluded_reason : ExclusionVerdict → Option Text → Option Text
excluded_reason (block reason) bundle_id = some reason
excluded_reason block_self none = some (codes "app:ai.corivo.desktop")
excluded_reason block_self (some id) = some (codes "app:" ++ id)
excluded_reason allow bundle_id = none

abbrev pub is_some : {A : Type 0} → Option A → Bool
is_some none = false
is_some (some a) = true

-- `unwrap_or_default`.
abbrev pub text_or_empty : Option Text → Text
text_or_empty none = []
text_or_empty (some t) = t

abbrev pub or_else : Option Text → Option Text → Option Text
or_else none o = o
or_else (some t) o = some t

unfoldable pub is_blank : Text → Bool
unfolding trim
is_blank t = is_empty (trim t)

-- `filter(|s| !s.trim().is_empty())`.
abbrev pub unless_blank : Option Text → Option Text
unless_blank none = none
unless_blank (some t) = if is_blank t then none else some t

abbrev is_exact_self : Option Text → Option Text → Bool
is_exact_self none self_bundle_id = false
is_exact_self (some id) none = false
is_exact_self (some id) (some self_id) = text_eq id self_id

abbrev is_prefix_self : Option Text → Bool
is_prefix_self none = false
is_prefix_self (some id) = matches_self id

abbrev pub with_id :
    {A : Type 0} → (Text → A) → List Effect × Outcome Text → List Effect × Outcome A
with_id f (effects, err e) = (effects, err e)
with_id f (effects, ok id) = (effects, ok (f id))

abbrev pub then_do : {B : Type 0} → List Effect → List Effect × B → List Effect × B
then_do first (effects, r) = (first ++ effects, r)

module _ {Json : Type 0} where
  abbrev pub excluded_context : Text → Outside Json → FocusContext Json
  excluded_context frame_id o = record {
    frame_id = frame_id;
    captured_at = o.now;
    app_bundle_id = o.probe.bundle_id;
    app_name = o.probe.name;
    window_title = o.probe.window_title;
    url = o.probe.url;
    adapter_name = none;
    adapter_payload = none;
    primary_text = [];
    selection = none;
    excluded = true;
    empty = false;
  }

  unfoldable pub hotkey_context :
      Text → Outside Json → QuickAskPendingState → ExtractionOutcome Json → FocusContext Json
  hotkey_context frame_id o state outcome =
      let primary_text = text_or_empty (or_else outcome.ax_text outcome.ocr_text) in
      record {
        frame_id = frame_id;
        captured_at = o.now;
        app_bundle_id = state.probe.bundle_id;
        app_name = state.probe.name;
        window_title = state.probe.window_title;
        url = state.probe.url;
        adapter_name = outcome.adapter_name;
        adapter_payload = outcome.adapter_payload;
        primary_text = primary_text;
        selection = outcome.selection;
        excluded = false;
        empty = is_blank primary_text;
      }

  unfoldable pub envelope_to_focus_context : SnapshotEnvelope Json → Text → FocusContext Json
  envelope_to_focus_context env frame_id =
      let primary_text =
        text_or_empty (or_else (unless_blank env.extraction.ax_text) env.extraction.ocr_text) in
      record {
        frame_id = frame_id;
        captured_at = env.captured_at;
        app_bundle_id = env.frame.app.bundle_id;
        app_name = env.frame.app.name;
        window_title = env.frame.window.title;
        url = env.frame.url;
        adapter_name = env.extraction.adapter_name;
        adapter_payload = env.extraction.adapter_payload;
        primary_text = primary_text;
        selection = env.extraction.selection;
        excluded = is_some env.raw.exclusion_match;
        empty = is_blank primary_text;
      }

  -- What `LocalConsumer::ingest` emits to the overlay's window after an insert.
  unfoldable pub overlay_event :
      Option Text → SnapshotEnvelope Json → Text → Option (FocusContext Json)
  overlay_event self_bundle_id env frame_id =
      if is_exact_self env.frame.app.bundle_id self_bundle_id
        || is_prefix_self env.frame.app.bundle_id
      then none
      else some (envelope_to_focus_context env frame_id)

module _ {Json : Type 0} (print : Json → Text) (sha256_hex : Text → Text)
    (tokenize : Text → Text) where
  -- The id of the session's last row after the insert.
  unfoldable pub ingest_and_get_id :
      Outside Json → SnapshotEnvelope Json → List Effect × Outcome Text
  ingest_and_get_id o env =
      let (effects, ingested) = ingest print sha256_hex tokenize o env in
      elim ingested [
        | err e ↦ (effects, err e)
        | ok b ↦ elim o.last_in_session [
          | err e ↦ (effects, err e)
          | ok none ↦
              (effects, err (codes "quick_ask: ingest succeeded but last_in_session returned None"))
          | ok (some last) ↦ (effects, ok last.id)
        ]
      ]

  unfoldable pub invoke_quick_ask_phase_a :
      QuickAskFields
      → ExclusionEngine
      → Text
      → Outside Json
      → List Effect × Outcome (QuickAskPhaseAOutcome Json)
  invoke_quick_ask_phase_a p exclusion device_id o =
      if p.is_paused
      then ([], err (codes "CapturePipeline is paused; Quick Ask blocked until resume"))
      else elim (excluded_reason (check exclusion o.probe.bundle_id) o.probe.bundle_id) [
        | some reason ↦
            with_id (λ id. excluded_app (excluded_context id o))
              (ingest_and_get_id o (
                build_skipped_envelope_with_trigger print sha256_hex tokenize o device_id
                  (quick_ask_session_id p).0 reason (codes "exclusion") quick_ask))
        | none ↦ (
          [],
          ok (
              pending_app
                (record {
                  captured_at = o.now;
                  app_bundle_id = o.probe.bundle_id;
                  app_name = o.probe.name;
                  window_title = o.probe.window_title;
                  url = o.probe.url;
                })
                (record { probe = o.probe; session_id = (quick_ask_session_id p).0 })),
        )
      ]

  unfoldable pub invoke_quick_ask_phase_b :
      CapturePipelineConfig
      → Text
      → QuickAskPendingState
      → Outside Json
      → List Effect × Outcome (FocusContext Json)
  invoke_quick_ask_phase_b cfg device_id state o =
      let seen : Outside Json = record o { probe = state.probe } in
      let asked =
        extract (extract_input print sha256_hex tokenize cfg seen state.session_id quick_ask)
        ∷ [] in
      elim o.extracted [
        | err e ↦ (asked, err (codes "quick_ask extractor: " ++ e))
        | ok outcome ↦ then_do asked (
            with_id (λ id. hotkey_context id o state outcome)
              (ingest_and_get_id o (
                fresh_envelope print sha256_hex tokenize seen device_id state.session_id outcome
                  quick_ask)))
      ]

  -- What `invoke_quick_ask` does after phase A.
  unfoldable pub after_phase_a :
      CapturePipelineConfig
      → Text
      → Outside Json
      → List Effect × Outcome (QuickAskPhaseAOutcome Json)
      → List Effect × Outcome (FocusContext Json)
  after_phase_a cfg device_id o (effects, err e) = (effects, err e)
  after_phase_a cfg device_id o (effects, ok (excluded_app focus)) = (effects, ok focus)
  after_phase_a cfg device_id o (effects, ok (pending_app skeleton state)) =
      then_do effects (invoke_quick_ask_phase_b cfg device_id state o)

  -- The surroundings answer `o` during phase A and `o'` during phase B.
  unfoldable pub invoke_quick_ask :
      CapturePipelineConfig
      → QuickAskFields
      → ExclusionEngine
      → Text
      → Outside Json
      → Outside Json
      → List Effect × Outcome (FocusContext Json)
  invoke_quick_ask cfg p exclusion device_id o o' =
      after_phase_a cfg device_id o' (invoke_quick_ask_phase_a p exclusion device_id o)
