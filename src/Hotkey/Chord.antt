-- ===== src/Hotkey/Chord.antt =====
-- Alt as a part of a chord.
use corivo_desktop.Base.{
  ◌≡◌, Bool, true, false, ◌&&◌, ◌||◌, not, List, [], ◌∷◌, ◌++◌, none, arith, All, any,
}
use corivo_desktop.Hotkey.{
  is_key_down, is_key_up, is_alt, KeyEvent, WindowsState, handle_windows_key_event, state_after,
  calls,
}
use corivo_desktop.Hotkey.Taps.{IsAltDown}

-- An event while Alt is held that does not release it.
abbrev pub IsHeld : KeyEvent → Type 0
IsHeld e = (is_alt e.key && is_key_up e.message) ≡ false

held_step :
    (e : KeyEvent) (s : WindowsState)
    → s.alt_was_pressed ≡ true
    → IsHeld e
    → let (fired, s') = handle_windows_key_event e s in
      (fired ≡ false)
      × (s'.alt_was_pressed ≡ true)
      × (s'.chord_dirty ≡ (s.chord_dirty || (not (is_alt e.key) && is_key_down e.message)))
unfolding handle_windows_key_event
held_step e s h k = (ground arith, ground arith, ground arith)

abbrev types : KeyEvent → Bool
types e = not (is_alt e.key) && is_key_down e.message

held_dirty :
    (es : List KeyEvent) (s : WindowsState) (up : KeyEvent)
    → s.alt_was_pressed ≡ true
    → All IsHeld es
    → is_alt up.key ≡ true
    → is_key_up up.message ≡ true
    → (s.chord_dirty || any types es) ≡ true
    → (calls handle_windows_key_event (es ++ up ∷ []) s ≡ 0)
      × ((state_after handle_windows_key_event (es ++ up ∷ []) s).last_release_at ≡ none)
unfolding handle_windows_key_event
held_dirty [] s up h a b c d = (ground arith, ground arith)
held_dirty (e ∷ es) s up h a b c d =
    let step = held_step e s h a.0 in
    let rest =
      held_dirty es (handle_windows_key_event e s).1 up step.1 a.1 b c (ground (arith, step)) in
    (ground (arith, step, rest), rest.1)

down_step :
    (e : KeyEvent) (s : WindowsState)
    → IsAltDown e
    → let (fired, s') = handle_windows_key_event e s in
      (fired ≡ false) × (s'.alt_was_pressed ≡ true)
unfolding handle_windows_key_event
down_step e s h = (ground arith, ground arith)

-- On Windows, Alt that is released after another key went down while it was held calls nothing, whatever was
-- before, and the next release begins anew.
pub windows_chord :
    (down up : KeyEvent) (held : List KeyEvent) (s : WindowsState)
    → IsAltDown down
    → All IsHeld held
    → any types held ≡ true
    → is_alt up.key ≡ true
    → is_key_up up.message ≡ true
    → (calls handle_windows_key_event (down ∷ (held ++ up ∷ [])) s ≡ 0)
      × ((state_after handle_windows_key_event (down ∷ (held ++ up ∷ [])) s).last_release_at ≡ none)
windows_chord down up held s d h t a b =
    let step = down_step down s d in
    let rest = held_dirty held (handle_windows_key_event down s).1 up step.1 h a b (ground arith) in
    (ground (arith, step, rest), rest.1)
