-- ===== src/Config/Service.antt =====
-- services/config_service.rs: the settings between the store and memory. serde is the parameter `Serde`, and `readable` and
-- `writable` say whether the store's file answers. The store holds the one value under the key `config`.
use corivo_desktop.Base.{Bool, true, false, not, List, Option, none, some, if◌then◌else◌, any, ◌==◌}
use corivo_desktop.Base.Result.{Result, ok, err}
use corivo_desktop.Base.Text.{Text, codes}
use corivo_desktop.Base.Float.{F32}
use corivo_desktop.Config.Domain.{Config, ProviderAccount, AppConfig}
use corivo_desktop.Config.Defaults.{default_config, default_connectors}
use corivo_desktop.Config.Rules.{detect_from_os, normalize, validate_config}

-- `serde_json::to_value` and `from_value`.
pub record Serde (V A : Type 0) : Type 0 where
  pub to_value : A → Option V
  pub from_value : V → Option A

-- `k.contains(':')`.
abbrev pub has_colon : Text → Bool
has_colon k = any (λ c. c == 58) k

unfoldable pub has_legacy_keys : List (Text × ProviderAccount) → Bool
has_legacy_keys accounts = any (λ a. not (has_colon a.0)) accounts

unfoldable pub migrate_legacy_connectors : {C : Type 0} → Config C → Config C
migrate_legacy_connectors c =
    if has_legacy_keys c.connectors.accounts
    then record c { connectors = default_connectors }
    else c

-- The store's value, and the settings in memory.
pub record ConfigService (V C : Type 0) : Type 0 where
  pub backend : Option V
  pub cache : Config C

module _ {V : Type 0} (F : F32) (fourteen : F.Carrier) (corivo_cloud : Bool)
    (serde : Serde V (Config F.Carrier)) (locale : Option Text) where
  open F use {Carrier}

  -- `set_json` of the settings.
  unfoldable pub store : Bool → Config Carrier → Option V → Result (Config Carrier) Text × Option V
  store writable c backend = elim (serde.to_value c) [
    | none ↦ (err (codes "to_value"), backend)
    | some v ↦ if writable then (ok c, some v) else (err (codes "save"), some v)
  ]

  unfoldable pub validated : Config Carrier → Config Carrier
  validated normalized = elim (validate_config F normalized) [
    | err e ↦ normalize (default_config corivo_cloud F fourteen)
    | ok u ↦ normalized
  ]

  -- `unwrap_or_else` of the parse.
  unfoldable pub parsed : V → Config Carrier
  parsed v = elim (serde.from_value v) [
    | none ↦ default_config corivo_cloud F fourteen
    | some c ↦ c
  ]

  unfoldable pub first_launch : Config Carrier
  first_launch =
      let d : Config Carrier = default_config corivo_cloud F fourteen in
      let a : AppConfig = d.app in
      normalize (record d {
        app = record a {
          ui_language = detect_from_os locale;
          response_language = detect_from_os locale;
        };
      })

  unfoldable pub load_from_store : Bool → Bool → Option V → Result (Config Carrier) Text × Option V
  load_from_store false writable backend = (err (codes "get"), backend)
  load_from_store true writable none = store writable first_launch none
  load_from_store true writable (some v) =
      store writable (validated (normalize (migrate_legacy_connectors (parsed v)))) (some v)

  -- The service that `with_backend` makes, or its error.
  unfoldable pub with_backend : Bool → Bool → Option V → Result (ConfigService V Carrier) Text
  with_backend readable writable backend =
      let (loaded, backend') = load_from_store readable writable backend in
      elim loaded [ err e ↦ err e | ok c ↦ ok (record { backend = backend'; cache = c }) ]

  -- `get` is the field `cache`.
  unfoldable pub update :
      Bool
      → Config Carrier
      → ConfigService V Carrier
      → Result (Unit {0}) Text × ConfigService V Carrier
  update writable new_config s =
      let (stored, backend') = store writable (normalize new_config) s.backend in
      elim stored [
        | err e ↦ (err e, record s { backend = backend' })
        | ok c ↦ (ok tt, record { backend = backend'; cache = c })
      ]
