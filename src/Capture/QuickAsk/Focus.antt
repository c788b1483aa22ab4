-- ===== src/Capture/QuickAsk/Focus.antt =====
-- What Quick Ask stores of an excluded app, and the two ways in which its window learns what is in focus.
use corivo_desktop.Base.{
  ◌≡◌, refl, sym, ap, ◌∙◌, subst, ◌⊎◌, inl, inr, true, false, [], ◌∷◌, ◌++◌, Option, none, some,
  arith, Bool-cases, Option-cases, All,
}
use corivo_desktop.Base.Text.{Text, codes}
use corivo_desktop.Capture.Exclusion.{
  ExclusionVerdict, allow, block, block_self, ExclusionEngine, check, is_blocked,
}
use corivo_desktop.Capture.Frame.{
  SnapshotEnvelope, envelope_to_new_frame, compute_content_hash, quick_ask,
}
use corivo_desktop.Capture.Tick.{
  Outcome, ok, err, Outside, insert_frame, ExtractionOutcome, CapturePipelineConfig, fresh_envelope,
  build_skipped_envelope_with_trigger,
}
use corivo_desktop.Capture.Tick.Blocked.{IsContentFree, some≢none}
use corivo_desktop.Capture.QuickAsk.{
  FocusContext, QuickAskPendingState, QuickAskFields, quick_ask_session_id, excluded_reason,
  is_blank, unless_blank, with_id, excluded_context, hotkey_context, envelope_to_focus_context,
  overlay_event, ingest_and_get_id, invoke_quick_ask_phase_a, after_phase_a, invoke_quick_ask,
  excluded_app,
}

Outcome-cases : {A : Type 0} (r : Outcome A) → ((e : Text) × (r ≡ err e)) ⊎ ((a : A) × (r ≡ ok a))
Outcome-cases (err e) = inl (e, refl)
Outcome-cases (ok a) = inr (a, refl)

-- The rule that Quick Ask is to name: Corivo itself counts as the rule of its bundle id.
abbrev pub rule_named : ExclusionVerdict → Option Text → Option Text
rule_named allow bundle_id = none
rule_named (block reason) bundle_id = some reason
rule_named block_self none = some (codes "app:" ++ codes "ai.corivo.desktop")
rule_named block_self (some id) = some (codes "app:" ++ id)

module _ {Json : Type 0} where
  -- A focus that shows nothing of the app but its name, title and address.
  abbrev pub IsWithheld : Outcome (FocusContext Json) → Type 0
  IsWithheld (err e) = Unit {0}
  IsWithheld (ok f) =
      (f.excluded ≡ true)
      × (f.primary_text ≡ [])
      × (f.selection ≡ none)
      × (f.adapter_payload ≡ none)

  overlay_event-some :
      (self_bundle_id : Option Text) (env : SnapshotEnvelope Json) (frame_id : Text)
      (event : FocusContext Json)
      → overlay_event self_bundle_id env frame_id ≡ some event
      → event ≡ envelope_to_focus_context env frame_id
  unfolding overlay_event
  overlay_event-some self env frame_id event e = ground arith

module _ {Json : Type 0} (print : Json → Text) (sha256_hex : Text → Text)
    (tokenize : Text → Text) where
  ingest_and_get_id-effects :
      (o : Outside Json) (env : SnapshotEnvelope Json)
      → (r : Outcome Text) × (ingest_and_get_id print sha256_hex tokenize o env
          ≡ (insert_frame (envelope_to_new_frame print sha256_hex tokenize env) ∷ [], r))
  unfolding ingest_and_get_id
  ingest_and_get_id-effects o env = elim (Outcome-cases o.inserted) [
    | inl (e, i) ↦ rw (i, ingest_and_get_id) (err e, refl)
    | inr (b, i) ↦ elim (Outcome-cases o.last_in_session) [
      | inl (e, l) ↦ rw (i, ingest_and_get_id) (rw (l, ingest_and_get_id) (err e, refl))
      | inr (last, l) ↦ elim (Option-cases last) [
        | inl n ↦ rw (i, ingest_and_get_id) (rw (l ∙ ap ok n, ingest_and_get_id) (_, refl))
        | inr (f, n) ↦
            rw (i, ingest_and_get_id) (rw (l ∙ ap ok n, ingest_and_get_id) (ok f.id, refl))
      ]
    ]
  ]

  excluded-IsContentFree :
      (cfg : CapturePipelineConfig) (device_id session_id reason : Text) (o o' : Outside Json)
      → let (effects, result) = after_phase_a print sha256_hex tokenize cfg device_id o' (
          with_id
            (λ id. excluded_app (excluded_context id o))
            (ingest_and_get_id print sha256_hex tokenize o (
              build_skipped_envelope_with_trigger print sha256_hex tokenize o device_id session_id
                reason
                (codes "exclusion")
                quick_ask))) in
        All (IsContentFree (some reason)) effects × IsWithheld result
  unfolding after_phase_a envelope_to_new_frame build_skipped_envelope_with_trigger
      compute_content_hash
  excluded-IsContentFree cfg device_id session_id reason o o' =
      let env =
        build_skipped_envelope_with_trigger print sha256_hex tokenize o device_id session_id reason
          (codes "exclusion") quick_ask in
      let (r, e) = ingest_and_get_id-effects o env in
      subst
        (λ x.
          let (effects, result) =
            after_phase_a print sha256_hex tokenize cfg device_id o'
              (with_id (λ id. excluded_app (excluded_context id o)) x) in
          All (IsContentFree (some reason)) effects × IsWithheld result)
        (sym e) (go r)
    where
      go :
          (r : Outcome Text)
          → let (effects, result) = after_phase_a print sha256_hex tokenize cfg device_id o' (
              with_id
                (λ id. excluded_app (excluded_context id o))
                (
                  insert_frame (
                        envelope_to_new_frame print sha256_hex tokenize (
                          build_skipped_envelope_with_trigger print sha256_hex tokenize o device_id
                            session_id reason
                            (codes "exclusion")
                            quick_ask))
                      ∷ [],
                  r,
                )) in
            All (IsContentFree (some reason)) effects × IsWithheld result
      go (err e) = ((((refl, refl, refl, refl, refl, refl), some≢none reason, refl, refl), tt), tt)
      go (ok id) = (
        (((refl, refl, refl, refl, refl, refl), some≢none reason, refl, refl), tt),
        (refl, refl, refl, refl),
      )

  is_blocked-excluded_reason :
      (v : ExclusionVerdict) (bundle_id : Option Text)
      → is_blocked v ≡ true
      → (reason : Text) × (excluded_reason v bundle_id ≡ some reason)
        × (rule_named v bundle_id ≡ some reason)
  is_blocked-excluded_reason allow b h = absurd (cc h)
  is_blocked-excluded_reason (block reason) b h = (reason, refl, refl)
  is_blocked-excluded_reason block_self none h = (_, refl, refl)
  is_blocked-excluded_reason block_self (some id) h = (_, refl, refl)

  -- Whatever phase B would find, Quick Ask on a blocked app extracts nothing and touches no row; a row that it writes holds neither
  -- accessibility text nor OCR text nor payload nor screenshot nor hash, and has as its `exclusion_match` the rule that the check
  -- returned, or that of Corivo itself, and "exclusion" as its `fallback_reason`; and a focus that it returns is marked as excluded and holds no text, selection or payload.
  pub invoke_quick_ask-IsContentFree :
      (cfg : CapturePipelineConfig) (p : QuickAskFields) (engine : ExclusionEngine)
      (device_id : Text) (o o' : Outside Json)
      → is_blocked (check engine o.probe.bundle_id) ≡ true
      → let (effects, result) =
          invoke_quick_ask print sha256_hex tokenize cfg p engine device_id o o' in
        All (IsContentFree (rule_named (check engine o.probe.bundle_id) o.probe.bundle_id)) effects
        × IsWithheld result
  unfolding invoke_quick_ask invoke_quick_ask_phase_a after_phase_a
  invoke_quick_ask-IsContentFree cfg p engine device_id o o' h = elim (Bool-cases p.is_paused) [
    | inl paused ↦ rw (paused, invoke_quick_ask_phase_a) (tt, tt)
    | inr going ↦
        let (reason, e, named) =
          is_blocked-excluded_reason (check engine o.probe.bundle_id) o.probe.bundle_id h in
        subst
          (λ rule.
            let (effects, result) =
              invoke_quick_ask print sha256_hex tokenize cfg p engine device_id o o' in
            All (IsContentFree rule) effects × IsWithheld result)
          (sym named)
          (rw (going, invoke_quick_ask_phase_a)
            (rw (e, invoke_quick_ask_phase_a)
              (excluded-IsContentFree cfg device_id (quick_ask_session_id p).0 reason o o')))
  ]

  -- The focus that the hotkey's phase B returns and the one that the overlay's event carries for the same capture are the same, if the
  -- accessibility text is missing or not blank, the app is not Corivo itself and the same row's id is used.
  pub hotkey_context-overlay_event :
      (device_id frame_id : Text) (state : QuickAskPendingState) (self_bundle_id : Option Text)
      (outcome : ExtractionOutcome Json) (o : Outside Json) (event : FocusContext Json)
      → unless_blank outcome.ax_text ≡ outcome.ax_text
      → overlay_event self_bundle_id
          (fresh_envelope print sha256_hex tokenize
            (record o { probe = state.probe })
            device_id
            state.session_id
            outcome
            quick_ask)
          frame_id
        ≡ some event
      → event ≡ hotkey_context frame_id o state outcome
  unfolding fresh_envelope envelope_to_focus_context hotkey_context
  hotkey_context-overlay_event device_id frame_id state self outcome o event h e =
      overlay_event-some self _ frame_id event e
      ∙ ap (λ ax_text. hotkey_context frame_id o state (record outcome { ax_text = ax_text })) h

  -- If the accessibility text is there but blank and OCR found a text that is not blank, the two differ: phase B's focus counts as
  -- empty, and the overlay's event has the text of OCR.
  pub hotkey_context-blank :
      (device_id frame_id a t : Text) (state : QuickAskPendingState)
      (outcome : ExtractionOutcome Json) (o : Outside Json)
      → outcome.ax_text ≡ some a
      → is_blank a ≡ true
      → outcome.ocr_text ≡ some t
      → is_blank t ≡ false
      → let event =
          envelope_to_focus_context
            (fresh_envelope print sha256_hex tokenize
              (record o { probe = state.probe })
              device_id
              state.session_id
              outcome
              quick_ask)
            frame_id in
        ((hotkey_context frame_id o state outcome).empty ≡ true)
        × (event.empty ≡ false)
        × (event.primary_text ≡ t)
  unfolding fresh_envelope envelope_to_focus_context hotkey_context
  hotkey_context-blank device_id frame_id a t state outcome o h b k c =
      (ground arith, ground arith, ground arith)
