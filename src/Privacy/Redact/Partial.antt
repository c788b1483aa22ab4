-- ===== src/Privacy/Redact/Partial.antt =====
-- Two enabled spans that share some characters: what `redact` leaves of the shorter one.
use corivo_desktop.Base.{
  ◌-◌, ◌≤◌, ◌<◌, ◌≡◌, ◌∙◌, [], ◌∷◌, ◌++◌, arith, length, length-drop, some, take, drop, true, keep,
}
use corivo_desktop.Base.Text.{Text}
use corivo_desktop.Privacy.Label.{PiiSpan, CategoryToggles, is_enabled, redact_placeholder}
use corivo_desktop.Privacy.Redact.{chosen, redact, accept, sort_by, insert_by}
use corivo_desktop.Privacy.Redact.Render.{in_bounds, take_all}
use corivo_desktop.Privacy.Redact.Redacted.{redact-render}

module _ {S : Type 0} (s k : PiiSpan S) (t : CategoryToggles) where
  chosen_longer :
      is_enabled t s.label ≡ true
      → is_enabled t k.label ≡ true
      → s.start < k.start
      → k.start < s.end
      → s.end < k.end
      → s.end - s.start < k.end - k.start
      → chosen (s ∷ k ∷ []) t ≡ k ∷ []
  unfolding chosen accept sort_by insert_by
  chosen_longer hs hk a b c d = ground arith

  -- Of two enabled spans that overlap, the second one longer, only the second is replaced: the
  -- characters of the first one before the second stay in the result.
  pub redact_partial :
      (text : Text)
      → is_enabled t s.label ≡ true
      → is_enabled t k.label ≡ true
      → s.start < k.start
      → k.start < s.end
      → s.end < k.end
      → s.end - s.start < k.end - k.start
      → k.end ≤ length text
      → redact text (s ∷ k ∷ []) t
        ≡ some (take k.start text ++ (redact_placeholder k.label ++ drop k.end text))
  redact_partial text hs hk a b c d fits =
      let rest : take (length text - k.end) (drop k.end text) ≡ drop k.end text =
        rw (← length-drop k.end text) (take_all (drop k.end text)) in
      let inside : keep (in_bounds (length text)) (k ∷ []) ≡ k ∷ [] = ground arith in
      redact-render text (s ∷ k ∷ []) t ∙ rw (chosen_longer hs hk a b c d, inside, rest)
