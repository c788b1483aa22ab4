-- ===== src/Hotkey/Taps.antt =====
-- What fires the hotkey.
use corivo_desktop.Base.{
  ℕ, suc, ◌≡◌, refl, ap, ◌∙◌, Bool, true, false, ◌&&◌, List, [], ◌∷◌, ◌++◌, Option, none, some,
  arith, ltb, if◌then◌else◌, All, ◌≤◌, ◌+◌, ◌-◌, ◌*◌,
}
use corivo_desktop.Hotkey.{
  double_tap_window, is_double, is_key_down, is_key_up, is_alt, KeyEvent, WindowsState,
  windows_default, handle_modifier_release, handle_windows_key_event, FlagsEvent, MacosState,
  handle_flags_changed, state_after, calls,
}

abbrev waiting : Option ℕ → ℕ
waiting none = 0
waiting (some t) = 1

-- The releases of Alt in a sequence of events.
abbrev pub alt_releases : List KeyEvent → ℕ
alt_releases [] = 0
alt_releases (e ∷ es) =
    if is_alt e.key && is_key_up e.message then suc (alt_releases es) else alt_releases es

abbrev pub flag_releases : List FlagsEvent → ℕ
flag_releases [] = 0
flag_releases (e ∷ es) = if e.option_now then flag_releases es else suc (flag_releases es)

windows_step :
    (e : KeyEvent) (s : WindowsState)
    → let (fired, s') = handle_windows_key_event e s in
      (if fired then 2 else 0) + waiting s'.last_release_at
      ≤ (if is_alt e.key && is_key_up e.message then 1 else 0) + waiting s.last_release_at
unfolding handle_windows_key_event handle_modifier_release is_double
windows_step e s = ground arith

windows_calls-waiting :
    (es : List KeyEvent) (s : WindowsState)
    → calls handle_windows_key_event es s * 2 ≤ alt_releases es + waiting s.last_release_at
windows_calls-waiting [] s = omega arith
windows_calls-waiting (e ∷ es) s =
    ground (arith, windows_step e s, windows_calls-waiting es (handle_windows_key_event e s).1)

-- On Windows each call of the callback takes two releases of Alt of its own: after a double tap, a third release
-- alone does not call it again.
pub windows_calls-alt_releases :
    (es : List KeyEvent) → calls handle_windows_key_event es windows_default * 2 ≤ alt_releases es
windows_calls-alt_releases es = omega (arith, windows_calls-waiting es windows_default)

macos_step :
    (e : FlagsEvent) (s : MacosState)
    → let (fired, s') = handle_flags_changed e s in
      (if fired then 2 else 0) + waiting s'.last_release_at
      ≤ (if e.option_now then 0 else 1) + waiting s.last_release_at
unfolding handle_flags_changed is_double
macos_step e s = ground arith

macos_calls-waiting :
    (es : List FlagsEvent) (s : MacosState)
    → calls handle_flags_changed es s * 2 ≤ flag_releases es + waiting s.last_release_at
macos_calls-waiting [] s = omega arith
macos_calls-waiting (e ∷ es) s =
    ground (arith, macos_step e s, macos_calls-waiting es (handle_flags_changed e s).1)

module _ {E S : Type 0} (handle : E → S → Bool × S) where
  calls-append :
      (xs ys : List E) (s : S)
      → calls handle (xs ++ ys) s ≡ calls handle xs s + calls handle ys (state_after handle xs s)
  calls-append [] ys s = omega arith
  calls-append (x ∷ xs) ys s = ground (arith, calls-append xs ys (handle x s).1)

  state_after-append :
      (xs ys : List E) (s : S)
      → state_after handle (xs ++ ys) s ≡ state_after handle ys (state_after handle xs s)
  state_after-append [] ys s = refl
  state_after-append (x ∷ xs) ys s = state_after-append xs ys (handle x s).1

  -- Events that leave a state as it is and call nothing.
  Quiet-calls :
      (P : E → Type 0) (s : S) (quiet : (e : E) → P e → handle e s ≡ (false, s)) (es : List E)
      → All P es
      → (calls handle es s ≡ 0) × (state_after handle es s ≡ s)
  Quiet-calls P s quiet [] h = (refl, refl)
  Quiet-calls P s quiet (e ∷ es) h = rw (quiet e h.0) (Quiet-calls P s quiet es h.1)

-- Alt goes down, is released with no other modifier held, and another key's event.
abbrev pub IsAltDown : KeyEvent → Type 0
IsAltDown e = (is_alt e.key ≡ true) × (is_key_down e.message ≡ true)

abbrev pub IsAltUp : KeyEvent → Type 0
IsAltUp e =
    (is_alt e.key ≡ true) × (is_key_up e.message ≡ true) × (e.other_modifier_is_down ≡ false)

abbrev pub IsOther : KeyEvent → Type 0
IsOther e = is_alt e.key ≡ false

abbrev resting : Option ℕ → Bool → WindowsState
resting last pressed = record {
  last_release_at = last;
  alt_was_pressed = pressed;
  chord_dirty = false;
}

alt_down_step :
    (last : Option ℕ) (pressed : Bool) (e : KeyEvent)
    → IsAltDown e
    → handle_windows_key_event e (resting last pressed) ≡ (false, resting last true)
unfolding handle_windows_key_event
alt_down_step last pressed e h = ground arith

other_step :
    (last : Option ℕ) (e : KeyEvent)
    → IsOther e
    → handle_windows_key_event e (resting last false) ≡ (false, resting last false)
unfolding handle_windows_key_event
other_step last e h = ground arith

alt_up_step :
    (last : Option ℕ) (e : KeyEvent)
    → IsAltUp e
    → handle_windows_key_event e (resting last true) ≡ (
        if is_double last e.now
        then (true, resting none false)
        else (false, resting (some e.now) false))
unfolding handle_windows_key_event handle_modifier_release
alt_up_step last e h = ground arith

-- A tap: Alt goes down, perhaps again by itself, and is released.
pub record Tap : Type 0 where
  pub down : KeyEvent
  pub repeats : List KeyEvent
  pub up : KeyEvent

abbrev pub tap_events : Tap → List KeyEvent
tap_events t = t.down ∷ (t.repeats ++ t.up ∷ [])

abbrev pub IsTap : Tap → Type 0
IsTap t = IsAltDown t.down × All IsAltDown t.repeats × IsAltUp t.up

tap_ends :
    (b : Bool) (now : ℕ)
    → let r : Bool × WindowsState =
        if b then (true, resting none false) else (false, resting (some now) false) in
      (0 + (if r.0 then 1 else 0) ≡ (if b then 1 else 0))
      × (r.1 ≡ resting (if b then none else some now) false)
tap_ends true now = (omega arith, refl)
tap_ends false now = (omega arith, refl)

tap-calls :
    (last : Option ℕ) (t : Tap)
    → IsTap t
    → (calls handle_windows_key_event (tap_events t) (resting last false)
        ≡ (if is_double last t.up.now then 1 else 0))
      × (state_after handle_windows_key_event (tap_events t) (resting last false)
          ≡ resting (if is_double last t.up.now then none else some t.up.now) false)
tap-calls last t h =
    let H = handle_windows_key_event in
    let quiet =
      Quiet-calls H IsAltDown (resting last true) (alt_down_step last true) t.repeats h.1 in
    let ends = tap_ends (is_double last t.up.now) t.up.now in
    (
      rw (alt_down_step last false t.down h.0) (
          rw (calls-append H t.repeats (t.up ∷ []) (resting last true))
            (rw (quiet.0, quiet.1) (rw (alt_up_step last t.up h.2) ends.0))),
      ap (λ r. state_after H (t.repeats ++ t.up ∷ []) r.1) (alt_down_step last false t.down h.0)
          ∙ state_after-append H t.repeats (t.up ∷ []) (resting last true)
          ∙ ap (state_after H (t.up ∷ [])) quiet.1
          ∙ ap (λ r. r.1) (alt_up_step last t.up h.2)
          ∙ ends.1,
    )

-- On Windows, two taps of Alt by itself from the first state call the callback if the second release is less than 400 ms after
-- the first one, and else do not, whatever other keys are typed between them.
pub windows_double_tap :
    (first second : Tap) (between : List KeyEvent)
    → IsTap first
    → IsTap second
    → All IsOther between
    → calls handle_windows_key_event
        (tap_events first ++ (between ++ tap_events second))
        windows_default
      ≡ (if ltb (second.up.now - first.up.now) double_tap_window then 1 else 0)
unfolding is_double
windows_double_tap first second between h k o =
    let H = handle_windows_key_event in
    let one = tap-calls none first h in
    let quiet =
      Quiet-calls H IsOther (resting (some first.up.now) false) (other_step (some first.up.now))
        between o in
    calls-append H (tap_events first) (between ++ tap_events second) windows_default
    ∙ rw (one.0, one.1)
        (rw
          (
            calls-append H between (tap_events second) (resting (some first.up.now) false),
            quiet.0,
            quiet.1,
          )
          (omega (arith, (tap-calls (some first.up.now) second k).0)))
