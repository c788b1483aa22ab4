-- ===== src/Privacy/Session/Spans.antt =====
-- The spans of a classification lie in the text, so that the redaction uses all that it chooses.
use corivo_desktop.Base.{
  ℕ, get_elem?, take, ◌≡◌, refl, ap, ◌∙◌, inl, inr, ◌||◌, List, [], ◌∷◌, Option, some, arith, ltb,
  leb, ◌==◌, Bool-cases, Option-cases, All, keep, length, All-append, All-keep, All-mono, ◌≤◌, ◌<◌,
  ◌-◌,
}
use corivo_desktop.Base.Result.{Result, ok, err, Result-cases}
use corivo_desktop.Base.Text.{Text}
use corivo_desktop.Base.Float.{F32}
use corivo_desktop.Privacy.Label.{PiiSpan, CategoryToggles}
use corivo_desktop.Privacy.Decode.{LabelMap, TokenSpan, decode_bioes}
use corivo_desktop.Privacy.Redact.{redact, chosen, is_active, longer_first, later_first, sort_by}
use corivo_desktop.Privacy.Redact.Sort.{All-sort_by}
use corivo_desktop.Privacy.Redact.Select.{accept-All}
use corivo_desktop.Privacy.Redact.Render.{in_bounds, render}
use corivo_desktop.Privacy.Redact.Redacted.{redact-render}
use corivo_desktop.Privacy.Session.{
  max_tokens, build_byte_to_char_map, Token, Logits, per_token, span_between, char_span, char_spans,
  classify_tokens, classify_inner, classify_loaded,
}
use corivo_desktop.Privacy.Session.Offsets.{build_byte_to_char_map-bound}

module _ {S : Type 0} where
  abbrev pub InText : Text → PiiSpan S → Type 0
  InText text s = (s.start < s.end) × (s.end ≤ length text)

  span_between-InText :
      (text : Text) (a b : ℕ) (ts : TokenSpan S)
      → All (InText text) (span_between (build_byte_to_char_map text) a b ts)
  unfolding span_between
  span_between-InText text a b ts =
      elim (Option-cases (get_elem? (build_byte_to_char_map text) a)) [
        | inl e ↦ rw (e, span_between) tt
        | inr (start, e) ↦ elim (Option-cases (get_elem? (build_byte_to_char_map text) b)) [
          | inl f ↦ rw (e, span_between) (rw (f, span_between) tt)
          | inr (end, f) ↦ elim (Bool-cases (leb end start)) [
            | inl g ↦ rw (e, span_between) (rw (f, span_between) (rw (g, span_between) tt))
            | inr g ↦
                rw (e, span_between)
                  (rw (f, span_between)
                    (rw (g, span_between)
                      ((ground arith, build_byte_to_char_map-bound text b end f), tt)))
          ]
        ]
      ]

  char_span-InText :
      (text : Text) (tokens : List Token) (n : ℕ) (ts : TokenSpan S)
      → All (InText text) (char_span tokens n (build_byte_to_char_map text) ts)
  unfolding char_span
  char_span-InText text tokens n ts =
      elim (Bool-cases ((ts.token_end == 0) || (leb n ts.token_start || ltb n ts.token_end))) [
        | inl bad ↦ rw (bad, char_span) tt
        | inr fine ↦ elim (Option-cases (get_elem? tokens ts.token_start)) [
          | inl e ↦ rw (fine, char_span) (rw (e, char_span) tt)
          | inr (first, e) ↦ elim (Option-cases (get_elem? tokens (ts.token_end - 1))) [
            | inl f ↦ rw (fine, char_span) (rw (e, char_span) (rw (f, char_span) tt))
            | inr (last, f) ↦
                rw (fine, char_span)
                  (rw (e, char_span)
                    (rw (f, char_span)
                      (span_between-InText text first.start_byte last.end_byte ts)))
          ]
        ]
      ]

  char_spans-InText :
      (text : Text) (tokens : List Token) (n : ℕ) (spans : List (TokenSpan S))
      → All (InText text) (char_spans tokens n (build_byte_to_char_map text) spans)
  unfolding char_spans
  char_spans-InText text tokens n [] = tt
  char_spans-InText text tokens n (ts ∷ rest) =
      All-append (InText text) _ _ (char_span-InText text tokens n ts)
        (char_spans-InText text tokens n rest)

  keep-in_bounds :
      (n : ℕ) (xs : List (PiiSpan S)) → All (λ s. s.end ≤ n) xs → keep (in_bounds n) xs ≡ xs
  keep-in_bounds n [] h = refl
  keep-in_bounds n (x ∷ xs) h = ground (arith, keep-in_bounds n xs h.1)

  chosen-All :
      (P : PiiSpan S → Type 0) (spans : List (PiiSpan S)) (t : CategoryToggles)
      → All P spans
      → All P (chosen spans t)
  unfolding chosen
  chosen-All P spans t h = All-sort_by P later_first _ (
      accept-All P [] (sort_by longer_first (keep (is_active t) spans)) tt
        (All-sort_by P longer_first _ (All-keep P (is_active t) spans h)))

module _ (F : F32) (label_map : LabelMap) (threshold : F.Carrier)
    (encode : Text → Option (List Token)) (run : List Token → Option (Logits F.Carrier)) where
  abbrev AllInText : Text → Result (List (PiiSpan F.Carrier)) Text → Type 0
  AllInText text (err e) = Unit {0}
  AllInText text (ok spans) = All (InText text) spans

  classify_tokens-InText :
      (text : Text) (tokens : List Token)
      → AllInText text (classify_tokens F label_map threshold encode run text tokens)
  unfolding classify_tokens
  classify_tokens-InText text [] = tt
  classify_tokens-InText text (t ∷ ts) = elim (Option-cases (run (take max_tokens (t ∷ ts)))) [
    | inl e ↦ rw (e, classify_tokens) tt
    | inr (logits, e) ↦ elim (Result-cases (per_token (length (take max_tokens (t ∷ ts))) logits)) [
      | inr (x, f) ↦ rw (e, classify_tokens) (rw (f, classify_tokens) tt)
      | inl (logit_rows, f) ↦
          rw (e, classify_tokens)
            (rw (f, classify_tokens)
              (char_spans-InText text (t ∷ ts) _ (decode_bioes F label_map threshold logit_rows)))
    ]
  ]

  classify_inner-InText :
      (text : Text) → AllInText text (classify_inner F label_map threshold encode run text)
  unfolding classify_inner
  classify_inner-InText text = elim (Option-cases (encode text)) [
    | inl e ↦ rw (e, classify_inner) tt
    | inr (tokens, e) ↦ rw (e, classify_inner) (classify_tokens-InText text tokens)
  ]

  classify_loaded-InText :
      (text : Text) → All (InText text) (classify_loaded F label_map threshold encode run text)
  unfolding classify_loaded
  classify_loaded-InText [] = tt
  classify_loaded-InText (c ∷ text) =
      go (classify_inner F label_map threshold encode run (c ∷ text))
        (classify_inner-InText (c ∷ text))
    where
      go :
          (r : Result (List (PiiSpan F.Carrier)) Text)
          → AllInText (c ∷ text) r
          → All
              (InText (c ∷ text))
              (elim r as (λ _. List (PiiSpan F.Carrier)) [ err e ↦ [] | ok spans ↦ spans ])
      go (err e) h = tt
      go (ok spans) h = h

  -- Whatever the tokenizer and the model give, the spans of a classification are not empty and lie within the text, so that the
  -- redaction of the text by them is the rendering of all the spans that it chooses, and no placeholder is left out.
  pub redact-classify_loaded :
      (text : Text) (t : CategoryToggles)
      → let spans = classify_loaded F label_map threshold encode run text in
        All (InText text) spans
        × (redact text spans t ≡ some (render text (length text) (chosen spans t)))
  redact-classify_loaded text t =
      let spans = classify_loaded F label_map threshold encode run text in
      let inside : All (InText text) spans = classify_loaded-InText text in
      (
        inside,
        redact-render text spans t
            ∙ ap (λ x. some (render text (length text) x))
                (keep-in_bounds (length text) (chosen spans t) (
                  chosen-All (λ s. s.end ≤ length text) spans t
                    (All-mono (λ s h. h.1) spans inside))),
      )
