-- ===== src/Config/Normal.antt =====
-- Settings that are normal stay so.
use corivo_desktop.Base.{
  ℕ, zero, suc, take, ◌≡◌, refl, ap, inl, inr, [], ◌∷◌, Option, none, some, arith, Bool-cases,
  length, ◌≤◌,
}
use corivo_desktop.Base.Text.{Text, trim, trim_idem, is_empty}
use corivo_desktop.Config.Domain.{Config, SoulPreset}
use corivo_desktop.Config.Rules.{
  normalize, normalize_custom_text, normalize_preset, normalize_optional_prompt_override,
  custom_text_chars,
}

-- The custom text is not cut.
abbrev pub IsWhole : Option Text → Type 0
IsWhole none = Unit {0}
IsWhole (some text) = length (trim text) ≤ custom_text_chars

take_whole : (n : ℕ) (s : Text) → length s ≤ n → take n s ≡ s
take_whole zero [] h = refl
take_whole zero (c ∷ s) h = absurd (omega arith)
take_whole (suc n) [] h = refl
take_whole (suc n) (c ∷ s) h = ap (◌∷◌ c) (take_whole n s (omega arith))

normalize_custom_text_idem :
    (o : Option Text)
    → IsWhole o
    → normalize_custom_text (normalize_custom_text o) ≡ normalize_custom_text o
unfolding normalize_custom_text
normalize_custom_text_idem none h = refl
normalize_custom_text_idem (some text) h = elim (Bool-cases (is_empty (trim text))) [
  | inl e ↦ rw (e, normalize_custom_text) refl
  | inr e ↦
      rw (e, normalize_custom_text)
        (rw (take_whole custom_text_chars (trim text) h, normalize_custom_text)
          (rw (trim_idem text, normalize_custom_text)
            (rw (e, normalize_custom_text) (rw (take_whole custom_text_chars (trim text) h) refl))))
]

normalize_optional_prompt_override_idem :
    (o : Option Text)
    → normalize_optional_prompt_override (normalize_optional_prompt_override o)
      ≡ normalize_optional_prompt_override o
unfolding normalize_optional_prompt_override
normalize_optional_prompt_override_idem none = refl
normalize_optional_prompt_override_idem (some text) = elim (Bool-cases (is_empty (trim text))) [
  | inl e ↦ rw (e, normalize_optional_prompt_override) refl
  | inr e ↦
      rw (e, normalize_optional_prompt_override) (rw (e, normalize_optional_prompt_override) refl)
]

normalize_preset_idem :
    (p : SoulPreset) (t : Option Text)
    → normalize_preset (normalize_preset p t) t ≡ normalize_preset p t
unfolding normalize_preset
normalize_preset_idem p t = ground arith

module _ {C : Type 0} where
  -- Normal settings stay as they are when they are made normal again, if the custom text was not longer than 2000 characters.
  pub normalize_idem :
      (c : Config C) → IsWhole c.soul.custom_text → normalize (normalize c) ≡ normalize c
  unfolding normalize
  normalize_idem c h =
      let d = c.prompt_debug in
      rw
        (
          normalize_custom_text_idem c.soul.custom_text h,
          normalize_optional_prompt_override_idem d.summary_override,
          normalize_optional_prompt_override_idem d.push_judgment_override,
          normalize_optional_prompt_override_idem d.suggest_override,
          normalize_optional_prompt_override_idem d.score_override,
        )
        (rw (normalize_preset_idem c.soul.preset (normalize_custom_text c.soul.custom_text)) refl)
