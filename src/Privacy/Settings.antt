-- ===== src/Privacy/Settings.antt =====
-- Laws of the category switches: services/privacy_filter/settings.rs and
-- `CategoryToggles::is_enabled` of domain/privacy.rs.
use corivo_desktop.Base.{◌≡◌, ◌||◌, true, List, arith}
use corivo_desktop.Privacy.Label.{
  PiiLabel, CategoryToggles, secret, has, label_eq, is_enabled, toggles_from_enabled_labels,
  enabled_labels_from_toggles,
}

-- Listing the enabled labels and reading the list back gives the same switches, except that `secret`
-- is on whatever it was.
pub toggles_from_enabled_labels-enabled_labels_from_toggles :
    (t : CategoryToggles)
    → toggles_from_enabled_labels (enabled_labels_from_toggles t) ≡ record t { secret = true }
unfolding toggles_from_enabled_labels enabled_labels_from_toggles
toggles_from_enabled_labels-enabled_labels_from_toggles t = ground arith

-- After the switches are built from a list of labels, a label is redacted exactly when it is in the
-- list or is `secret`.
pub is_enabled-toggles_from_enabled_labels :
    (enabled : List PiiLabel) (l : PiiLabel)
    → is_enabled (toggles_from_enabled_labels enabled) l ≡ (has enabled l || label_eq l secret)
unfolding toggles_from_enabled_labels is_enabled
is_enabled-toggles_from_enabled_labels enabled l = ground arith
