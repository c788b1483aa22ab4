-- ===== src/Config/Reload.antt =====
-- What a start finds of what was saved.
use corivo_desktop.Base.{◌≡◌, refl, ap, ◌∙◌, Bool, true, false, Option, some}
use corivo_desktop.Base.Result.{Result, ok, err}
use corivo_desktop.Base.Text.{Text}
use corivo_desktop.Base.Float.{F32}
use corivo_desktop.Config.Domain.{Config}
use corivo_desktop.Config.Defaults.{default_config}
use corivo_desktop.Config.Rules.{ConfigError, normalize, validate_config}
use corivo_desktop.Config.Service.{
  Serde, has_legacy_keys, migrate_legacy_connectors, ConfigService, store, validated, parsed,
  load_from_store, with_backend, update,
}
use corivo_desktop.Config.Normal.{IsWhole, normalize_idem}

module _ {V : Type 0} (F : F32) (fourteen : F.Carrier) (corivo_cloud : Bool)
    (serde : Serde V (Config F.Carrier)) (locale : Option Text) where
  open F use {Carrier}
  open serde use {to_value, from_value}

  -- JSON has no number for an infinity or a NaN, so this holds of settings without them.
  abbrev pub IsReadBack : Config Carrier → Type 0
  IsReadBack c = (v : V) → to_value c ≡ some v → from_value v ≡ some c

  abbrev pub saved :
      Config Carrier → ConfigService V Carrier → Result (Unit {0}) Text × ConfigService V Carrier
  saved c s = update F fourteen corivo_cloud serde locale true c s

  abbrev pub restarted : ConfigService V Carrier → Result (ConfigService V Carrier) Text
  restarted s = with_backend F fourteen corivo_cloud serde locale true true s.backend

  migrate_current :
      (c : Config Carrier)
      → has_legacy_keys c.connectors.accounts ≡ false
      → migrate_legacy_connectors (normalize c) ≡ normalize c
  unfolding migrate_legacy_connectors normalize
  migrate_current c h = rw (h, migrate_legacy_connectors) refl

  store_saves :
      (c : Config Carrier) (backend : Option V) (v : V)
      → to_value c ≡ some v
      → store F fourteen corivo_cloud serde locale true c backend ≡ (ok c, some v)
  unfolding store
  store_saves c backend v h = rw (h, store) refl

  update_lem :
      (c : Config Carrier) (s : ConfigService V Carrier) (v : V)
      → to_value (normalize c) ≡ some v
      → saved c s ≡ (ok tt, record { backend = some v; cache = normalize c })
  unfolding update
  update_lem c s v h =
      let e = store_saves (normalize c) s.backend v h in
      rw (e, update) (ap (λ x. (ok tt, record { backend = x.1; cache = normalize c })) e)

  parsed_value :
      (c : Config Carrier) (v : V)
      → from_value v ≡ some c
      → parsed F fourteen corivo_cloud serde locale v ≡ c
  unfolding parsed
  parsed_value c v h = rw (h, parsed) refl

  load_from_store_value :
      (c d : Config Carrier) (v w : V)
      → from_value v ≡ some c
      → validated F fourteen corivo_cloud serde locale (normalize (migrate_legacy_connectors c)) ≡ d
      → to_value d ≡ some w
      → load_from_store F fourteen corivo_cloud serde locale true true (some v) ≡ (ok d, some w)
  unfolding load_from_store
  load_from_store_value c d v w h k l =
      ap
        (λ x.
          store F fourteen corivo_cloud serde locale true
            (validated F fourteen corivo_cloud serde locale
              (normalize (migrate_legacy_connectors x)))
            (some v))
        (parsed_value c v h)
      ∙ ap (λ x. store F fourteen corivo_cloud serde locale true x (some v)) k
      ∙ store_saves d (some v) w l

  restarted_lem :
      (c d : Config Carrier) (v w : V)
      → from_value v ≡ some c
      → validated F fourteen corivo_cloud serde locale (normalize (migrate_legacy_connectors c)) ≡ d
      → to_value d ≡ some w
      → with_backend F fourteen corivo_cloud serde locale true true (some v)
        ≡ ok (record { backend = some w; cache = d })
  unfolding with_backend
  restarted_lem c d v w h k l =
      let e = load_from_store_value c d v w h k l in
      rw (e, with_backend) (ap (λ x. ok (record { backend = x.1; cache = d })) e)

  validated_ok :
      (c : Config Carrier)
      → validate_config F c ≡ ok tt
      → validated F fourteen corivo_cloud serde locale c ≡ c
  unfolding validated
  validated_ok c h = rw (h, validated) refl

  validated_err :
      (c : Config Carrier) (e : ConfigError Carrier)
      → validate_config F c ≡ err e
      → validated F fourteen corivo_cloud serde locale c
        ≡ normalize (default_config corivo_cloud F fourteen)
  unfolding validated
  validated_err c e h = rw (h, validated) refl

  normal_again :
      (c : Config Carrier)
      → IsWhole c.soul.custom_text
      → has_legacy_keys c.connectors.accounts ≡ false
      → normalize (migrate_legacy_connectors (normalize c)) ≡ normalize c
  normal_again c whole keys = ap normalize (migrate_current c keys) ∙ normalize_idem c whole

  -- Settings that serde reads back as it wrote them and that are valid once they are normal, with a custom text of at most 2000 characters and no old key among the accounts, are
  -- found by the next start as `update` left them.
  pub with_backend-update :
      (c : Config Carrier) (s : ConfigService V Carrier) (v : V)
      → to_value (normalize c) ≡ some v
      → IsReadBack (normalize c)
      → IsWhole c.soul.custom_text
      → has_legacy_keys c.connectors.accounts ≡ false
      → validate_config F (normalize c) ≡ ok tt
      → ((saved c s).0 ≡ ok tt) × (restarted (saved c s).1 ≡ ok (saved c s).1)
  with_backend-update c s v h back whole keys valid = rw (update_lem c s v h) (
    refl,
    restarted_lem (normalize c) (normalize c) v v (back v h)
        (ap (validated F fourteen corivo_cloud serde locale) (normal_again c whole keys)
          ∙ validated_ok (normalize c) valid)
        h,
  )

  -- Settings that are not valid, which serde reads back as it wrote them, with a custom text of at most 2000 characters and no old key
  -- among the accounts, are saved and used all the same, and the next start puts the defaults in their place, every one of them.
  pub with_backend-update_invalid :
      (c : Config Carrier) (s : ConfigService V Carrier) (v w : V) (e : ConfigError Carrier)
      → to_value (normalize c) ≡ some v
      → to_value (normalize (default_config corivo_cloud F fourteen)) ≡ some w
      → IsReadBack (normalize c)
      → IsWhole c.soul.custom_text
      → has_legacy_keys c.connectors.accounts ≡ false
      → validate_config F (normalize c) ≡ err e
      → ((saved c s).0 ≡ ok tt)
        × ((saved c s).1.cache ≡ normalize c)
        × (restarted (saved c s).1
            ≡ ok (record {
              backend = some w;
              cache = normalize (default_config corivo_cloud F fourteen);
            }))
  with_backend-update_invalid c s v w e h k back whole keys invalid = rw (update_lem c s v h) (
    refl,
    refl,
    restarted_lem (normalize c) (normalize (default_config corivo_cloud F fourteen)) v w (back v h)
        (ap (validated F fourteen corivo_cloud serde locale) (normal_again c whole keys)
          ∙ validated_err (normalize c) e invalid)
        k,
  )
