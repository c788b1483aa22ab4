-- ===== src/Config/Rules.antt =====
-- domain/config.rs: what makes the settings normal and valid.
use corivo_desktop.Base.{ℕ, Bool, true, false, Option, none, some, if◌then◌else◌, ◌==◌, take}
use corivo_desktop.Base.Result.{Result, ok, err}
use corivo_desktop.Base.Text.{Text, codes, trim, is_empty, to_ascii_lowercase, starts_with}
use corivo_desktop.Base.Float.{F32}
use corivo_desktop.Config.Domain.{
  ChatgptAuthConfig, SoulPreset, Language, RetrievalConfig, Config, gentle, accomplice, old_friend,
  coach, custom, zh, en,
}

abbrev pub has_text : Option Text → Bool
has_text none = false
has_text (some s) = if is_empty (trim s) then false else true

unfoldable pub is_signed_in : ChatgptAuthConfig → Bool
unfolding trim
is_signed_in c = if has_text c.access_token then has_text c.account_id else false

-- The tag that `sys_locale::get_locale` gives.
unfoldable pub detect_from_os : Option Text → Language
detect_from_os none = en
detect_from_os (some tag) = if starts_with (codes "zh") (to_ascii_lowercase tag) then zh else en

pub data ConfigError (C : Type 0) : Type 0 where
  non_positive : Text → ℕ → ConfigError C
  out_of_range : Text → ℕ → ℕ → ℕ → ConfigError C
  negative : Text → C → ConfigError C

module _ (F : F32) where
  open F use {Carrier, lt, le}

  unfoldable pub validate_config : Config Carrier → Result (Unit {0}) (ConfigError Carrier)
  validate_config c =
      let r : RetrievalConfig Carrier = c.user_model.retrieval in
      if lt r.w_confidence F.zero
      then err (negative (codes "user_model.retrieval.w_confidence") r.w_confidence)
      else if lt r.w_decay F.zero
      then err (negative (codes "user_model.retrieval.w_decay") r.w_decay)
      else if le r.k_decay_days F.zero
      then err (negative (codes "user_model.retrieval.k_decay_days") r.k_decay_days)
      else if c.user_model.batcher.min_batch_size == 0
      then err (non_positive (codes "user_model.batcher.min_batch_size") 0)
      else ok tt

unfoldable pub normalize_optional_prompt_override : Option Text → Option Text
normalize_optional_prompt_override none = none
normalize_optional_prompt_override (some text) = if is_empty (trim text) then none else some text

abbrev pub custom_text_chars : ℕ
custom_text_chars = 2000

-- The closure on `custom_text`.
unfoldable pub normalize_custom_text : Option Text → Option Text
normalize_custom_text none = none
normalize_custom_text (some text) =
    let trimmed = trim text in
    if is_empty trimmed then none else some (take custom_text_chars trimmed)

unfoldable pub normalize_preset : SoulPreset → Option Text → SoulPreset
normalize_preset custom none = gentle
normalize_preset custom (some text) = custom
normalize_preset gentle text = gentle
normalize_preset accomplice text = accomplice
normalize_preset old_friend text = old_friend
normalize_preset coach text = coach

unfoldable pub normalize : {C : Type 0} → Config C → Config C
normalize c =
    let text = normalize_custom_text c.soul.custom_text in
    record c {
      prompt_debug = record {
        summary_override = normalize_optional_prompt_override c.prompt_debug.summary_override;
        push_judgment_override =
            normalize_optional_prompt_override c.prompt_debug.push_judgment_override;
        suggest_override = normalize_optional_prompt_override c.prompt_debug.suggest_override;
        score_override = normalize_optional_prompt_override c.prompt_debug.score_override;
      };
      soul = record { preset = normalize_preset c.soul.preset text; custom_text = text };
    }
