-- ===== src/Privacy/Label.antt =====
-- apps/desktop/src-tauri/src/domain/privacy.rs and services/privacy_filter/settings.rs: the eight
-- PII labels, spans, and the switches per category. The type `S` stands for `f32`, which is not computed
-- with here.
use corivo_desktop.Base.{ℕ, ◌≡◌, Bool, true, false, List, [], ◌∷◌, arith, ◌==◌, if◌then◌else◌, any}
use corivo_desktop.Base.Text.{Text, codes}

pub data PiiLabel : Type 0 where
  account_number private_address private_email private_person : PiiLabel
  private_phone private_url private_date secret : PiiLabel

-- The position of a label in the enum, by which the derived `==` compares.
abbrev pub label_index : PiiLabel → ℕ
label_index account_number = 0
label_index private_address = 1
label_index private_email = 2
label_index private_person = 3
label_index private_phone = 4
label_index private_url = 5
label_index private_date = 6
label_index secret = 7

abbrev pub label_eq : PiiLabel → PiiLabel → Bool
label_eq a b = label_index a == label_index b

pub label_eq_sound : (a b : PiiLabel) → label_eq a b ≡ true → a ≡ b
label_eq_sound a b h = ground arith

pub label_eq_refl : (a : PiiLabel) → label_eq a a ≡ true
label_eq_refl a = ground arith

abbrev pub redact_placeholder : PiiLabel → Text
redact_placeholder account_number = codes "[账号]"
redact_placeholder private_address = codes "[地址]"
redact_placeholder private_email = codes "[邮箱]"
redact_placeholder private_person = codes "[人名]"
redact_placeholder private_phone = codes "[电话]"
redact_placeholder private_url = codes "[URL]"
redact_placeholder private_date = codes "[日期]"
redact_placeholder secret = codes "[REDACTED:secret]"

-- `start` and `end` count characters, not bytes.
pub record PiiSpan (S : Type 0) : Type 0 where
  pub start : ℕ
  pub end : ℕ
  pub label : PiiLabel
  pub score : S
  pub redacted_in_storage : Bool

pub record CategoryToggles : Type 0 where
  pub account_number : Bool
  pub private_address : Bool
  pub private_email : Bool
  pub private_person : Bool
  pub private_phone : Bool
  pub private_url : Bool
  pub private_date : Bool
  pub secret : Bool

pub record PrivacySettings : Type 0 where
  pub enabled : Bool
  pub categories : CategoryToggles

abbrev pub default_toggles : CategoryToggles
default_toggles = record {
  account_number = true;
  private_address = true;
  private_email = true;
  private_person = true;
  private_phone = true;
  private_url = false;
  private_date = false;
  secret = true;
}

abbrev pub default_settings : PrivacySettings
default_settings = record { enabled = false; categories = default_toggles }

unfoldable pub is_enabled : CategoryToggles → PiiLabel → Bool
is_enabled t account_number = t.account_number
is_enabled t private_address = t.private_address
is_enabled t private_email = t.private_email
is_enabled t private_person = t.private_person
is_enabled t private_phone = t.private_phone
is_enabled t private_url = t.private_url
is_enabled t private_date = t.private_date
is_enabled t secret = true

-- `enabled.contains(&l)`.
abbrev pub has : List PiiLabel → PiiLabel → Bool
has enabled l = any (λ x. label_eq x l) enabled

unfoldable pub toggles_from_enabled_labels : List PiiLabel → CategoryToggles
toggles_from_enabled_labels enabled = record {
  account_number = has enabled account_number;
  private_address = has enabled private_address;
  private_email = has enabled private_email;
  private_person = has enabled private_person;
  private_phone = has enabled private_phone;
  private_url = has enabled private_url;
  private_date = has enabled private_date;
  secret = true;
}

-- `if on { out.push(l) }`.
abbrev push_if : Bool → PiiLabel → List PiiLabel → List PiiLabel
push_if on l rest = if on then l ∷ rest else rest

unfoldable pub enabled_labels_from_toggles : CategoryToggles → List PiiLabel
enabled_labels_from_toggles t = push_if t.private_person private_person (
    push_if t.private_email private_email (
      push_if t.private_phone private_phone (
        push_if t.private_address private_address (
          push_if t.account_number account_number (
            push_if t.private_url private_url
              (push_if t.private_date private_date (push_if t.secret secret [])))))))
