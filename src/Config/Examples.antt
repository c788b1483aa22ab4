-- ===== src/Config/Examples.antt =====
-- Witnesses: each theorem at a concrete input.
use corivo_desktop.Base.{ℕ, ◌≡◌, refl, sym, false, none, some, arith}
use corivo_desktop.Base.Result.{ok}
use corivo_desktop.Base.Text.{codes, trim, trim_start, trim_end, is_whitespace}
use corivo_desktop.Base.Float.{counting}
use corivo_desktop.Config.Domain.{Config, RetrievalConfig, UserModelConfig, custom}
use corivo_desktop.Config.Defaults.{default_config}
use corivo_desktop.Config.Rules.{validate_config, normalize, negative}
use corivo_desktop.Config.Service.{has_legacy_keys, Serde, ConfigService}
use corivo_desktop.Config.Reload.{
  saved, restarted, with_backend-update, with_backend-update_invalid,
}

-- The settings themselves stand for their value in JSON.
abbrev same : Serde (Config ℕ) (Config ℕ)
same = record { to_value = λ c. some c; from_value = λ v. some v }

abbrev defaults : Config ℕ
defaults = default_config false counting 14

abbrev fresh_service : ConfigService (Config ℕ) ℕ
fresh_service = record { backend = none; cache = defaults }

abbrev with_soul : Config ℕ
with_soul = record defaults {
  soul = record { preset = custom; custom_text = some (codes " be brief ") };
}

with_backend-update_example :
    ((saved counting 14 false same none with_soul fresh_service).0 ≡ ok tt)
    × (restarted counting 14 false same none
          (saved counting 14 false same none with_soul fresh_service).1
        ≡ ok (saved counting 14 false same none with_soul fresh_service).1)
unfolding trim trim_start trim_end is_whitespace has_legacy_keys validate_config normalize
with_backend-update_example =
    with_backend-update counting 14 false same none with_soul fresh_service (normalize with_soul)
      refl (λ v h. sym h) (ground arith) refl refl

-- A decay of zero days.
abbrev no_decay : Config ℕ
no_decay =
    let u : UserModelConfig ℕ = defaults.user_model in
    let r : RetrievalConfig ℕ = u.retrieval in
    record with_soul { user_model = record u { retrieval = record r { k_decay_days = 0 } } }

with_backend-update_invalid_example :
    ((saved counting 14 false same none no_decay fresh_service).0 ≡ ok tt)
    × ((saved counting 14 false same none no_decay fresh_service).1.cache ≡ normalize no_decay)
    × (restarted counting 14 false same none
          (saved counting 14 false same none no_decay fresh_service).1
        ≡ ok (record { backend = some (normalize defaults); cache = normalize defaults }))
unfolding trim trim_start trim_end is_whitespace has_legacy_keys validate_config normalize
with_backend-update_invalid_example =
    with_backend-update_invalid counting 14 false same none no_decay fresh_service
      (normalize no_decay) (normalize defaults)
      (negative (codes "user_model.retrieval.k_decay_days") 0) refl refl (λ v h. sym h)
      (ground arith) refl refl
