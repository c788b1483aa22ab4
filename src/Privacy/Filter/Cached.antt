-- ===== src/Privacy/Filter/Cached.antt =====
-- What a caller sees of the cache: nothing, as long as the classifier is a function of the text; and a
-- failed classification, from then on.
use corivo_desktop.Base.{
  ◌≡◌, ◌∙◌, inl, inr, true, List, [], none, some, if◌then◌else◌, arith, Option-cases, Bool-cases,
  sym, ap,
}
use corivo_desktop.Base.Text.{Text}
use corivo_desktop.Privacy.Label.{PiiSpan}
use corivo_desktop.Privacy.Redact.{redact}
use corivo_desktop.Privacy.Filter.{LruCache, PrivacyFilter, spans_for, classify_and_enforce}

module _ {Key S Session : Type 0} (L : LruCache Key (List (PiiSpan S))) (key_for : Text → Key)
    (classify : Session → Text → List (PiiSpan S) × Session) where
  open L use {Store, get, put}

  -- Every cached entry for a text is what the classifier says of the text.
  abbrev pub IsCoherent : (Text → List (PiiSpan S)) → Store → Type 0
  IsCoherent truth cache =
      (text : Text) (spans : List (PiiSpan S))
      → (get (key_for text) cache).0 ≡ some spans
      → spans ≡ truth text

  module _ (truth : Text → List (PiiSpan S))
      (stable : (session : Session) (text : Text) → (classify session text).0 ≡ truth text)
      (distinct : (s t : Text) → key_for s ≡ key_for t → s ≡ t) where
    put-IsCoherent :
        (cache : Store) (session : Session) (text : Text)
        → IsCoherent truth cache
        → IsCoherent truth
            (put (key_for text) (classify session text).0 (get (key_for text) cache).1)
    put-IsCoherent cache session text c t spans h =
        elim (L.put_old (key_for t) (key_for text) _ spans _ h) [
          | inl same ↦
              let e : t ≡ text = distinct t text same in
              let put_again : spans ≡ (classify session text).0 =
                cc (
                  L.get-put (key_for text) (classify session text).0
                    (get (key_for text) cache).1) in
              put_again ∙ stable session text ∙ ap truth (sym e)
          | inr old ↦ c t spans (sym (L.get-get (key_for t) (key_for text) cache) ∙ old)
        ]

    spans_for-IsCoherent :
        (f : PrivacyFilter Store Session) (text : Text)
        → IsCoherent truth f.cache
        → ((spans_for L key_for classify f text).0 ≡ truth text)
          × IsCoherent truth (spans_for L key_for classify f text).1.cache
    unfolding spans_for
    spans_for-IsCoherent f text c = elim (Option-cases (get (key_for text) f.cache).0) [
      | inl e ↦ rw (e, spans_for) (stable f.session text, put-IsCoherent f.cache f.session text c)
      | inr (spans, e) ↦
          rw (e, spans_for)
            (
              c text spans e,
              λ t s h. c t s (sym (L.get-get (key_for t) (key_for text) f.cache) ∙ h),
            )
    ]

    -- If the classifier's answer depends on the text alone, different texts have different keys, and the
    -- cache is coherent, then a call returns what redacting the classifier's spans by the current
    -- switches gives, or the text itself if the filter is off; and the cache stays coherent.
    pub classify_and_enforce-IsCoherent :
        (f : PrivacyFilter Store Session) (text : Text)
        → IsCoherent truth f.cache
        → ((classify_and_enforce L key_for classify f text).0 ≡ (
            if f.settings.enabled
            then redact text (truth text) f.settings.categories
            else some text))
          × IsCoherent truth (classify_and_enforce L key_for classify f text).1.cache
    unfolding classify_and_enforce
    classify_and_enforce-IsCoherent f text c = elim (Bool-cases f.settings.enabled) [
      | inl on ↦ let h = spans_for-IsCoherent f text c in (ground (arith, h.0), simp on (h.1))
      | inr off ↦ (ground arith, simp off c)
    ]

  -- If the filter is on, the text is not in the cache and its classification fails, so that it gives no
  -- spans, then the next call for the same text returns the text unchanged, whatever the session
  -- could find in it by then.
  pub classify_and_enforce_after_failure :
      (f : PrivacyFilter Store Session) (text : Text) (later : Session)
      → f.settings.enabled ≡ true
      → (get (key_for text) f.cache).0 ≡ none
      → (classify f.session text).0 ≡ []
      → (classify_and_enforce L key_for classify
          (let f' : PrivacyFilter Store Session =
              (classify_and_enforce L key_for classify f text).1 in
            record f' { session = later })
          text).0
        ≡ some text
  unfolding classify_and_enforce spans_for redact
  classify_and_enforce_after_failure f text later on miss failed =
      ground
        (arith, L.get-put (key_for text) (classify f.session text).0 (get (key_for text) f.cache).1)
