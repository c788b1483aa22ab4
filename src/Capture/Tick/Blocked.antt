-- ===== src/Capture/Tick/Blocked.antt =====
-- The tick on an app that is not to be captured, and what a row can then hold.
use corivo_desktop.Base.{
  ◌≡◌, ◌≢◌, refl, ◌⊎◌, inl, inr, true, Option, none, some, arith, Bool-cases, All,
}
use corivo_desktop.Base.Text.{Text, codes}
use corivo_desktop.Capture.Exclusion.{
  ExclusionVerdict, allow, block, block_self, ExclusionEngine, check, is_blocked,
}
use corivo_desktop.Capture.Frame.{Trigger, NewFrame, envelope_to_new_frame, compute_content_hash}
use corivo_desktop.Capture.Tick.{
  CapturePipelineConfig, Outside, Effect, is_idle, build_skipped_envelope_with_trigger, tick,
  insert_frame, touch_still_present, extract,
}

-- A row without text, payload, screenshot and hash.
abbrev pub HasNoContent : NewFrame → Type 0
HasNoContent row =
    (row.ax_text ≡ none)
    × (row.ocr_text ≡ none)
    × (row.adapter_payload ≡ none)
    × (row.screenshot_path ≡ none)
    × (row.screenshot_hash ≡ none)
    × (row.content_hash ≡ none)

-- Only such a row is written, it names the rule, and there is one.
abbrev pub IsContentFree : Option Text → Effect → Type 0
IsContentFree rule (insert_frame row) =
    HasNoContent row
    × (rule ≢ none)
    × (row.exclusion_match ≡ rule)
    × (row.fallback_reason ≡ some (codes "exclusion"))
IsContentFree rule (touch_still_present id at) = ⊥
IsContentFree rule (extract input) = ⊥

-- The rule that a verdict names.
abbrev pub rule_of : ExclusionVerdict → Option Text
rule_of allow = none
rule_of block_self = none
rule_of (block reason) = some reason

pub ExclusionVerdict-cases :
    (v : ExclusionVerdict)
    → (v ≡ allow) ⊎ ((v ≡ block_self) ⊎ ((reason : Text) × (v ≡ block reason)))
ExclusionVerdict-cases allow = inl refl
ExclusionVerdict-cases block_self = inr (inl refl)
ExclusionVerdict-cases (block reason) = inr (inr (reason, refl))

pub some≢none : {A : Type 0} (a : A) → some a ≢ none
some≢none a h = ground arith

module _ {Json : Type 0} (print : Json → Text) (sha256_hex : Text → Text)
    (tokenize : Text → Text) where
  -- A tick on a blocked app extracts nothing and touches no row, and a row that it writes holds
  -- neither accessibility text nor OCR text nor payload nor screenshot nor hash, has the rule that the check returned as its
  -- `exclusion_match` and "exclusion" as its `fallback_reason`. If the check returned no rule, since the app is Corivo itself, no row is
  -- written.
  pub tick-IsContentFree :
      (cfg : CapturePipelineConfig) (o : Outside Json) (engine : ExclusionEngine)
      (device_id session_id : Text) (trigger : Trigger)
      → is_blocked (check engine o.probe.bundle_id) ≡ true
      → All
          (IsContentFree (rule_of (check engine o.probe.bundle_id)))
          (tick print sha256_hex tokenize cfg o engine device_id session_id trigger).0
  unfolding tick envelope_to_new_frame build_skipped_envelope_with_trigger compute_content_hash
  tick-IsContentFree cfg o engine device_id session_id trigger h =
      elim (Bool-cases (is_idle cfg o.idle_seconds)) [
        | inl idle ↦ rw (idle, tick) tt
        | inr busy ↦ elim (ExclusionVerdict-cases (check engine o.probe.bundle_id)) [
          | inl e ↦ absurd (ground arith)
          | inr (inl e) ↦ rw (busy, tick) (rw (e, tick) tt)
          | inr (inr (reason, e)) ↦
              rw (busy, tick)
                (rw (e, tick)
                  (((refl, refl, refl, refl, refl, refl), some≢none reason, refl, refl), tt))
        ]
      ]
