-- ===== src/Capture/Tick/Repeat.antt =====
-- The tick on a window that has already been captured, or skipped.
use corivo_desktop.Base.{
  ℕ, List, Any, subst, sym, ◌≡◌, refl, ◌⊎◌, inl, inr, true, false, [], ◌∷◌, Option, none, some,
  arith, Bool-cases, All,
}
use corivo_desktop.Base.Text.{Text, text_eq_refl}
use corivo_desktop.Capture.Exclusion.{allow, ExclusionEngine, check}
use corivo_desktop.Capture.Frame.{Trigger, NewFrame, envelope_to_new_frame, compute_content_hash}
use corivo_desktop.Capture.Tick.{
  CapturePipelineConfig, ForegroundProbe, Frame, DedupDecision, option_eq, metadata_matches,
  classify_metadata, Outcome, Outside, Effect, metadata_of, is_idle,
  build_skipped_envelope_with_trigger, fresh_envelope, extract_and_ingest, dedup_or_write, tick,
  write_fresh, bump_still_present, ok, err, insert_frame, touch_still_present, extract,
}
use corivo_desktop.Capture.Tick.Blocked.{ExclusionVerdict-cases, HasNoContent}

-- A row that describes what is in front.
abbrev pub DescribesProbe : ForegroundProbe → NewFrame → Type 0
DescribesProbe p row =
    (row.app_bundle_id ≡ p.bundle_id) × (row.window_title ≡ p.window_title) × (row.url ≡ p.url)

abbrev pub WritesOnlyProbe : ForegroundProbe → Effect → Type 0
WritesOnlyProbe p (insert_frame row) = DescribesProbe p row
WritesOnlyProbe p (touch_still_present id at) = Unit
WritesOnlyProbe p (extract input) = input.app_bundle_id ≡ p.bundle_id

option_eq_refl : (o : Option Text) → option_eq o o ≡ true
option_eq_refl none = refl
option_eq_refl (some s) = text_eq_refl s

metadata_matches-DescribesProbe :
    (p : ForegroundProbe) (last : Frame)
    → DescribesProbe p last.row
    → metadata_matches last (metadata_of p) ≡ true
unfolding metadata_matches
metadata_matches-DescribesProbe p last (b, t, u) = rw b (
    rw t (
      rw u (
        ground (
          arith,
          option_eq_refl p.bundle_id,
          option_eq_refl p.window_title,
          option_eq_refl p.url,
        ))))

Outcome-cases : {A : Type 0} (r : Outcome A) → ((a : A) × (r ≡ ok a)) ⊎ ((e : Text) × (r ≡ err e))
Outcome-cases (ok a) = inl (a, refl)
Outcome-cases (err e) = inr (e, refl)

DedupDecision-cases :
    (d : DedupDecision) → (d ≡ write_fresh) ⊎ ((id : Text) × (d ≡ bump_still_present id))
DedupDecision-cases write_fresh = inl refl
DedupDecision-cases (bump_still_present id) = inr (id, refl)

-- What is done on a window that is known already: a row of no content, or the touch of the row `id`.
abbrev pub IsRepeat : Text → ℕ → Effect → Type 0
IsRepeat id now (insert_frame row) = HasNoContent row
IsRepeat id now (touch_still_present touched at) = (touched ≡ id) × (at ≡ now)
IsRepeat id now (extract input) = ⊥

Any-DescribesProbe :
    (p : ForegroundProbe) (row : NewFrame) (es : List Effect)
    → All (WritesOnlyProbe p) es
    → Any (λ e. e ≡ insert_frame row) es
    → DescribesProbe p row
Any-DescribesProbe p row [] h m = absurd m
Any-DescribesProbe p row (e ∷ es) h (inl q) = subst (WritesOnlyProbe p) q h.0
Any-DescribesProbe p row (e ∷ es) h (inr m) = Any-DescribesProbe p row es h.1 m

module _ {Json : Type 0} (print : Json → Text) (sha256_hex : Text → Text)
    (tokenize : Text → Text) where
  extract_and_ingest-WritesOnlyProbe :
      (cfg : CapturePipelineConfig) (o : Outside Json) (device_id session_id : Text)
      (trigger : Trigger)
      → All
          (WritesOnlyProbe o.probe)
          (extract_and_ingest print sha256_hex tokenize cfg o device_id session_id trigger).0
  unfolding extract_and_ingest envelope_to_new_frame fresh_envelope
  extract_and_ingest-WritesOnlyProbe cfg o device_id session_id trigger =
      elim (Outcome-cases o.extracted) [
        | inl (outcome, e) ↦ rw (e, extract_and_ingest) (refl, ((refl, refl, refl), tt))
        | inr (why, e) ↦ rw (e, extract_and_ingest) (refl, tt)
      ]

  dedup_or_write-WritesOnlyProbe :
      (cfg : CapturePipelineConfig) (o : Outside Json) (device_id session_id : Text)
      (trigger : Trigger)
      → All
          (WritesOnlyProbe o.probe)
          (dedup_or_write print sha256_hex tokenize cfg o device_id session_id trigger).0
  unfolding dedup_or_write
  dedup_or_write-WritesOnlyProbe cfg o device_id session_id trigger =
      elim (Outcome-cases o.last_in_session) [
        | inl (last, e) ↦
            elim (DedupDecision-cases (classify_metadata last (metadata_of o.probe))) [
              | inl fresh ↦
                  rw (e, dedup_or_write)
                    (rw (fresh, dedup_or_write)
                      (extract_and_ingest-WritesOnlyProbe cfg o device_id session_id trigger))
              | inr (id, bump) ↦ rw (e, dedup_or_write) (rw (bump, dedup_or_write) (tt, tt))
            ]
        | inr (why, e) ↦ rw (e, dedup_or_write) tt
      ]

  -- Every row that a tick writes has the bundle id, the window title and the address of what was in
  -- front, and what it extracts is the app in front.
  pub tick-WritesOnlyProbe :
      (cfg : CapturePipelineConfig) (o : Outside Json) (engine : ExclusionEngine)
      (device_id session_id : Text) (trigger : Trigger)
      → All
          (WritesOnlyProbe o.probe)
          (tick print sha256_hex tokenize cfg o engine device_id session_id trigger).0
  unfolding tick envelope_to_new_frame build_skipped_envelope_with_trigger
  tick-WritesOnlyProbe cfg o engine device_id session_id trigger =
      elim (Bool-cases (is_idle cfg o.idle_seconds)) [
        | inl idle ↦ rw (idle, tick) tt
        | inr busy ↦ elim (ExclusionVerdict-cases (check engine o.probe.bundle_id)) [
          | inl e ↦
              rw (busy, tick)
                (rw (e, tick) (dedup_or_write-WritesOnlyProbe cfg o device_id session_id trigger))
          | inr (inl e) ↦ rw (busy, tick) (rw (e, tick) tt)
          | inr (inr (reason, e)) ↦ rw (busy, tick) (rw (e, tick) ((refl, refl, refl), tt))
        ]
      ]

  -- If the user is not idle, the app in front is allowed, and the last row of the session describes what
  -- is in front, whichever rules were in force when it was written, then the tick does nothing but
  -- move that row's `still_present_until` to the present.
  pub tick_repeat :
      (cfg : CapturePipelineConfig) (o : Outside Json) (engine : ExclusionEngine)
      (device_id session_id : Text) (trigger : Trigger) (last : Frame)
      → is_idle cfg o.idle_seconds ≡ false
      → check engine o.probe.bundle_id ≡ allow
      → o.last_in_session ≡ ok (some last)
      → DescribesProbe o.probe last.row
      → (tick print sha256_hex tokenize cfg o engine device_id session_id trigger).0
        ≡ touch_still_present last.id o.now ∷ []
  unfolding tick dedup_or_write classify_metadata
  tick_repeat cfg o engine device_id session_id trigger last busy allowed found same =
      rw (busy, tick)
        (rw (allowed, tick)
          (rw (found, dedup_or_write)
            (rw (metadata_matches-DescribesProbe o.probe last same, classify_metadata) refl)))

  tick-IsRepeat :
      (cfg : CapturePipelineConfig) (o : Outside Json) (engine : ExclusionEngine)
      (device_id session_id : Text) (trigger : Trigger) (last : Frame)
      → o.last_in_session ≡ ok (some last)
      → DescribesProbe o.probe last.row
      → All
          (IsRepeat last.id o.now)
          (tick print sha256_hex tokenize cfg o engine device_id session_id trigger).0
  unfolding tick envelope_to_new_frame build_skipped_envelope_with_trigger compute_content_hash
  tick-IsRepeat cfg o engine device_id session_id trigger last found same =
      elim (Bool-cases (is_idle cfg o.idle_seconds)) [
        | inl idle ↦ rw (idle, tick) tt
        | inr busy ↦ elim (ExclusionVerdict-cases (check engine o.probe.bundle_id)) [
          | inl e ↦
              subst (All (IsRepeat last.id o.now))
                (sym (tick_repeat cfg o engine device_id session_id trigger last busy e found same))
                ((refl, refl), tt)
          | inr (inl e) ↦ rw (busy, tick) (rw (e, tick) tt)
          | inr (inr (reason, e)) ↦
              rw (busy, tick) (rw (e, tick) ((refl, refl, refl, refl, refl, refl), tt))
        ]
      ]

  -- If a tick wrote a row, captured or skipped, and a later tick finds it as the last one of the session with the same app, title and
  -- address in front, then the later tick extracts nothing, touches no row but that one, and writes no row but one with neither
  -- text nor payload nor screenshot nor hash, whatever the settings and the exclusions are at the two ticks.
  pub tick-tick :
      (cfg cfg' : CapturePipelineConfig) (o o' : Outside Json) (engine engine' : ExclusionEngine)
      (device_id session_id : Text) (trigger trigger' : Trigger) (last : Frame)
      → Any
          (λ e. e ≡ insert_frame last.row)
          (tick print sha256_hex tokenize cfg o engine device_id session_id trigger).0
      → o'.last_in_session ≡ ok (some last)
      → o'.probe ≡ o.probe
      → All
          (IsRepeat last.id o'.now)
          (tick print sha256_hex tokenize cfg' o' engine' device_id session_id trigger').0
  tick-tick cfg cfg' o o' engine engine' device_id session_id trigger trigger' last wrote found
        same =
      tick-IsRepeat cfg' o' engine' device_id session_id trigger' last found (
        subst (λ p. DescribesProbe p last.row) (sym same)
          (Any-DescribesProbe o.probe last.row _
            (tick-WritesOnlyProbe cfg o engine device_id session_id trigger) wrote))
