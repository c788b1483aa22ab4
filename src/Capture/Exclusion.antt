-- ===== src/Capture/Exclusion.antt =====
-- services/exclusion/mod.rs: which foreground apps are not captured.
pub mod Extras
use corivo_desktop.Base.{
  ℕ, ◌≡◌, refl, Bool, true, false, ◌&&◌, ◌||◌, not, List, [], ◌∷◌, ◌++◌, map, Option, none, some,
  arith, ltb, ◌==◌, if◌then◌else◌, length, any, get_elem?,
}
use corivo_desktop.Base.Text.{
  Text, codes, text_eq, trim, is_empty, to_ascii_lowercase, starts_with, ends_with, contains,
  insert,
}

pub data ExclusionVerdict : Type 0 where
  allow : ExclusionVerdict
  block : Text → ExclusionVerdict
  block_self : ExclusionVerdict

abbrev pub is_blocked : ExclusionVerdict → Bool
is_blocked allow = false
is_blocked (block reason) = true
is_blocked block_self = true

abbrev pub default_blocked_bundles : List Text
default_blocked_bundles =
    codes "org.whispersystems.signal-desktop"
    ∷ codes "ph.telegra.Telegraph"
    ∷ codes "com.apple.keychainaccess"
    ∷ codes "com.1password.1password"
    ∷ codes "com.1password.1password7"
    ∷ codes "com.agilebits.onepassword7"
    ∷ codes "com.agilebits.onepassword4"
    ∷ codes "com.bitwarden.desktop"
    ∷ codes "com.dashlane.dashlane"
    ∷ codes "com.intuit.quicken.mac"
    ∷ []

abbrev pub default_blocked_executable_names : List Text
default_blocked_executable_names =
    codes "Signal.exe"
    ∷ codes "Telegram.exe"
    ∷ codes "1Password.exe"
    ∷ codes "Bitwarden.exe"
    ∷ codes "Dashlane.exe"
    ∷ codes "Enpass.exe"
    ∷ codes "KeePass.exe"
    ∷ codes "KeePassXC.exe"
    ∷ codes "Quicken.exe"
    ∷ []

abbrev pub self_bundle_prefixes : List Text
self_bundle_prefixes = codes "ai.corivo.desktop" ∷ []

abbrev pub self_executable_names : List Text
self_executable_names = codes "corivo-app.exe" ∷ []

abbrev pub eq_ignore_ascii_case : Text → Text → Bool
eq_ignore_ascii_case a b = text_eq (to_ascii_lowercase a) (to_ascii_lowercase b)

abbrev is_dot : Option ℕ → Bool
is_dot none = false
is_dot (some c) = c == b'.'

-- The closure of the last `any`: the id is the prefix, or goes on after it with a dot.
abbrev pub has_self_prefix : Text → Text → Bool
has_self_prefix id prefix =
    text_eq id prefix
    || (ltb (length prefix) (length id)
        && is_dot (get_elem? id (length prefix))
        && starts_with prefix id)

unfoldable pub matches_self : Text → Bool
matches_self raw =
    let id = trim raw in
    if is_empty id
    then false
    else if any (eq_ignore_ascii_case id) self_executable_names
    then true
    else any (has_self_prefix id) self_bundle_prefixes

unfoldable pub is_executable_identifier : Text → Bool
is_executable_identifier id = ends_with (codes ".exe") (to_ascii_lowercase (trim id))

unfoldable pub executable_key : Text → Text
executable_key id = to_ascii_lowercase (trim id)

pub record ExclusionEngine : Type 0 where
  pub blocked_bundle_ids : List Text
  pub blocked_executable_names : List Text

-- `iter().collect()` into a `HashSet`.
abbrev pub collect : List Text → List Text
collect [] = []
collect (s ∷ ss) = insert s (collect ss)

unfoldable pub from_defaults : ExclusionEngine
unfolding executable_key
from_defaults = record {
  blocked_bundle_ids = collect default_blocked_bundles;
  blocked_executable_names = collect (map executable_key default_blocked_executable_names);
}

-- One round of the loop over the user's entries.
unfoldable pub add_extra : Text → ExclusionEngine → ExclusionEngine
add_extra raw e =
    let extra = trim raw in
    if is_empty extra
    then e
    else if is_executable_identifier extra
    then record e {
      blocked_executable_names = insert (executable_key extra) e.blocked_executable_names;
    }
    else record e { blocked_bundle_ids = insert extra e.blocked_bundle_ids }

unfoldable pub add_extras : List Text → ExclusionEngine → ExclusionEngine
add_extras [] e = e
add_extras (x ∷ xs) e = add_extras xs (add_extra x e)

unfoldable pub with_extras : List Text → ExclusionEngine
with_extras extras = add_extras extras from_defaults

unfoldable pub check : ExclusionEngine → Option Text → ExclusionVerdict
check e none = allow
check e (some id) =
    if matches_self id
    then block_self
    else if is_executable_identifier id && contains e.blocked_executable_names (executable_key id)
    then block (codes "app:" ++ id)
    else if contains e.blocked_bundle_ids id
    then block (codes "app:" ++ id)
    else allow
