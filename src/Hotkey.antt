-- ===== src/Hotkey.antt =====
-- services/double_tap_hotkey.rs: the two state machines that tell a double tap of Alt or Option. The windows, the hooks and
-- the monitors of the operating system give the events; a time is in milliseconds, and `duration_since` is zero for an
-- earlier instant.
pub mod Taps
pub mod Chord
mod Examples
use corivo_desktop.Base.{
  ℕ, suc, ◌-◌, Bool, true, false, ◌&&◌, ◌||◌, not, List, [], ◌∷◌, Option, none, some, if◌then◌else◌,
  ltb,
}

abbrev pub double_tap_window : ℕ
double_tap_window = 400

-- `matches!(last, Some(prev) if now.duration_since(prev) < DOUBLE_TAP_WINDOW)`.
unfoldable pub is_double : Option ℕ → ℕ → Bool
is_double none now = false
is_double (some prev) now = ltb (now - prev) double_tap_window

-- The messages that a keyboard hook sees.
pub data KeyMessage : Type 0 where
  wm_keydown wm_syskeydown wm_keyup wm_syskeyup wm_other : KeyMessage

pub data VirtualKey : Type 0 where
  vk_menu vk_lmenu vk_rmenu vk_other : VirtualKey

abbrev pub is_key_down : KeyMessage → Bool
is_key_down wm_keydown = true
is_key_down wm_syskeydown = true
is_key_down wm_keyup = false
is_key_down wm_syskeyup = false
is_key_down wm_other = false

abbrev pub is_key_up : KeyMessage → Bool
is_key_up wm_keydown = false
is_key_up wm_syskeydown = false
is_key_up wm_keyup = true
is_key_up wm_syskeyup = true
is_key_up wm_other = false

abbrev pub is_alt : VirtualKey → Bool
is_alt vk_menu = true
is_alt vk_lmenu = true
is_alt vk_rmenu = true
is_alt vk_other = false

-- An event, with what `GetAsyncKeyState` and the clock say then.
pub record KeyEvent : Type 0 where
  pub message : KeyMessage
  pub key : VirtualKey
  pub other_modifier_is_down : Bool
  pub now : ℕ

pub record WindowsState : Type 0 where
  pub last_release_at : Option ℕ
  pub alt_was_pressed : Bool
  pub chord_dirty : Bool

abbrev pub windows_default : WindowsState
windows_default = record { last_release_at = none; alt_was_pressed = false; chord_dirty = false }

-- Whether the callback is called, and the state after.
unfoldable pub handle_modifier_release : ℕ → WindowsState → Bool × WindowsState
handle_modifier_release now s =
    if is_double s.last_release_at now
    then (true, record s { chord_dirty = false; last_release_at = none })
    else (false, record s { chord_dirty = false; last_release_at = some now })

abbrev release_alt : KeyEvent → WindowsState → Bool × WindowsState
release_alt e s =
    if s.chord_dirty || e.other_modifier_is_down
    then (false, record s { alt_was_pressed = false; chord_dirty = false; last_release_at = none })
    else handle_modifier_release e.now (record s { alt_was_pressed = false })

unfoldable pub handle_windows_key_event : KeyEvent → WindowsState → Bool × WindowsState
unfolding handle_modifier_release
handle_windows_key_event e s =
    if not (is_key_down e.message) && not (is_key_up e.message)
    then (false, s)
    else if is_alt e.key
    then (if is_key_down e.message
        then (false, record s { alt_was_pressed = true })
        else if is_key_up e.message && s.alt_was_pressed
        then release_alt e s
        else (false, s))
    else if is_key_down e.message && s.alt_was_pressed
    then (false, record s { chord_dirty = true; last_release_at = none })
    else (false, s)

-- The flags of a `flagsChanged` event, and the time.
pub record FlagsEvent : Type 0 where
  pub option_now : Bool
  pub other_mods : Bool
  pub now : ℕ

pub record MacosState : Type 0 where
  pub last_release_at : Option ℕ
  pub option_was_pressed : Bool

abbrev pub macos_default : MacosState
macos_default = record { last_release_at = none; option_was_pressed = false }

unfoldable pub handle_flags_changed : FlagsEvent → MacosState → Bool × MacosState
handle_flags_changed e s =
    let seen : MacosState = record s { option_was_pressed = e.option_now } in
    if not (s.option_was_pressed && not e.option_now)
    then (false, seen)
    else if e.other_mods
    then (false, record seen { last_release_at = none })
    else if is_double s.last_release_at e.now
    then (true, record seen { last_release_at = none })
    else (false, record seen { last_release_at = some e.now })

-- The state after a sequence of events, and how often the callback was called.
module _ {E S : Type 0} (handle : E → S → Bool × S) where
  abbrev pub state_after : List E → S → S
  state_after [] s = s
  state_after (e ∷ es) s = state_after es (handle e s).1

  abbrev pub calls : List E → S → ℕ
  calls [] s = 0
  calls (e ∷ es) s = let rest = calls es (handle e s).1 in if (handle e s).0 then suc rest else rest
