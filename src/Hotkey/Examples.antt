-- ===== src/Hotkey/Examples.antt =====
-- Witnesses: each theorem at a concrete input.
use corivo_desktop.Base.{ℕ, ◌≡◌, refl, false, List, [], ◌∷◌, ◌++◌, none, ◌≤◌, ◌*◌}
use corivo_desktop.Hotkey.{
  KeyMessage, VirtualKey, KeyEvent, windows_default, handle_windows_key_event, state_after, calls,
  wm_keydown, wm_syskeydown, wm_keyup, vk_lmenu, vk_rmenu, vk_other,
}
use corivo_desktop.Hotkey.Taps.{
  Tap, tap_events, windows_double_tap, windows_calls-alt_releases, alt_releases,
}
use corivo_desktop.Hotkey.Chord.{windows_chord}

abbrev at : KeyMessage → VirtualKey → ℕ → KeyEvent
at m k t = record { message = m; key = k; other_modifier_is_down = false; now = t }

abbrev first_tap : Tap
first_tap = record {
  down = at wm_syskeydown vk_lmenu 1000;
  repeats = [];
  up = at wm_keyup vk_lmenu 1050;
}

abbrev second_tap : Tap
second_tap = record {
  down = at wm_syskeydown vk_rmenu 1200;
  repeats = at wm_syskeydown vk_rmenu 1230 ∷ [];
  up = at wm_keyup vk_rmenu 1300;
}

abbrev a_key : List KeyEvent
a_key = at wm_keydown vk_other 1100 ∷ (at wm_keyup vk_other 1120 ∷ [])

windows_double_tap_example :
    calls handle_windows_key_event
      (tap_events first_tap ++ (a_key ++ tap_events second_tap))
      windows_default
    ≡ 1
windows_double_tap_example =
    windows_double_tap first_tap second_tap a_key ((refl, refl), tt, (refl, refl, refl))
      ((refl, refl), ((refl, refl), tt), (refl, refl, refl)) (refl, (refl, tt))

windows_calls-alt_releases_example :
    calls handle_windows_key_event (tap_events first_tap ++ tap_events second_tap) windows_default
      * 2
    ≤ alt_releases (tap_events first_tap ++ tap_events second_tap)
windows_calls-alt_releases_example =
    windows_calls-alt_releases (tap_events first_tap ++ tap_events second_tap)

windows_chord_example :
    let es = at wm_syskeydown vk_lmenu 1000 ∷ (a_key ++ at wm_keyup vk_lmenu 1200 ∷ []) in
    (calls handle_windows_key_event es windows_default ≡ 0)
    × ((state_after handle_windows_key_event es windows_default).last_release_at ≡ none)
windows_chord_example =
    windows_chord (at wm_syskeydown vk_lmenu 1000) (at wm_keyup vk_lmenu 1200) a_key windows_default
      (refl, refl) (refl, (refl, tt)) refl refl refl
