-- ===== src/Privacy/Redact.antt =====
-- services/privacy_filter/redact.rs: placeholders in place of the spans of the enabled categories.
-- A text is its characters; `char_to_byte` and `replace_range` go through the byte offsets of UTF-8 as the
-- source does, and `none` is the panic of `replace_range` off a character boundary.
pub mod Bytes
pub mod Sort
pub mod Render
pub mod Select
pub mod Redacted
pub mod Partial
use corivo_desktop.Base.{
  ℕ, ◌+◌, ◌-◌, Bool, true, false, ◌&&◌, ◌||◌, not, List, [], ◌∷◌, ◌++◌, Option, none, some, ltb,
  leb, ◌==◌, if◌then◌else◌, length, any, keep,
}
use corivo_desktop.Base.Text.{Text}
use corivo_desktop.Privacy.Label.{PiiSpan, CategoryToggles, is_enabled, redact_placeholder}

pub utf8_len : ℕ → ℕ
utf8_len c = if ltb c 0x80 then 1 else if ltb c 0x800 then 2 else if ltb c 0x10000 then 3 else 4

-- The loop over `char_indices`, from the byte offset `byte` and the count `count`.
char_to_byte_from : Text → ℕ → ℕ → ℕ → Option ℕ
char_to_byte_from [] byte count idx = if count == idx then some byte else none
char_to_byte_from (c ∷ s) byte count idx =
    if count == idx then some byte else char_to_byte_from s (byte + utf8_len c) (count + 1) idx

pub char_to_byte : Text → ℕ → Option ℕ
char_to_byte text idx = if idx == 0 then some 0 else char_to_byte_from text 0 0 idx

-- The text before and from a byte offset, if it is a character boundary.
pub split_bytes : Text → ℕ → Option (Text × Text)
split_bytes [] b = if b == 0 then some ([], []) else none
split_bytes (c ∷ s) b =
    if b == 0
    then some ([], c ∷ s)
    else if ltb b (utf8_len c)
    then none
    else elim (split_bytes s (b - utf8_len c)) [ none ↦ none | some (x, y) ↦ some (c ∷ x, y) ]

pub replace_range : Text → ℕ → ℕ → Text → Option Text
replace_range text b0 b1 new = elim (split_bytes text b0) [
  | none ↦ none
  | some (before, _) ↦ elim (split_bytes text b1) [
    | none ↦ none
    | some (_, after) ↦ if leb b0 b1 then some (before ++ (new ++ after)) else none
  ]
]

module _ {ℓ} {A : Type ℓ} where
  -- `sort_by`, which is stable: `precedes a b` says that `a` does not compare greater than `b`.
  pub insert_by : (A → A → Bool) → A → List A → List A
  insert_by precedes a [] = a ∷ []
  insert_by precedes a (b ∷ bs) = if precedes a b then a ∷ (b ∷ bs) else b ∷ insert_by precedes a bs

  pub sort_by : (A → A → Bool) → List A → List A
  sort_by precedes [] = []
  sort_by precedes (a ∷ as') = insert_by precedes a (sort_by precedes as')

module _ {S : Type 0} where
  abbrev pub span_len : PiiSpan S → ℕ
  span_len s = s.end - s.start

  abbrev pub is_active : CategoryToggles → PiiSpan S → Bool
  is_active t s = is_enabled t s.label && ltb s.start s.end

  -- Longest first, and of the same length the one that starts first.
  abbrev pub longer_first : PiiSpan S → PiiSpan S → Bool
  longer_first a b =
      ltb (span_len b) (span_len a) || ((span_len a == span_len b) && leb a.start b.start)

  abbrev pub later_first : PiiSpan S → PiiSpan S → Bool
  later_first a b = leb b.start a.start

  abbrev pub overlaps : PiiSpan S → PiiSpan S → Bool
  overlaps span k = not (leb span.end k.start || leb k.end span.start)

  pub accept : List (PiiSpan S) → List (PiiSpan S) → List (PiiSpan S)
  accept accepted [] = accepted
  accept accepted (span ∷ rest) =
      accept (if any (overlaps span) accepted then accepted else accepted ++ span ∷ []) rest

  pub replace_span : Text → PiiSpan S → Option Text
  replace_span result span = elim (char_to_byte result span.start) [
    | none ↦ some result
    | some b0 ↦ elim (char_to_byte result span.end) [
      | none ↦ some result
      | some b1 ↦ replace_range result b0 b1 (redact_placeholder span.label)
    ]
  ]

  pub replace_all : ℕ → List (PiiSpan S) → Text → Option Text
  replace_all total_chars [] result = some result
  replace_all total_chars (span ∷ rest) result = elim (ltb total_chars span.end) [
    | true ↦ replace_all total_chars rest result
    | false ↦ elim (replace_span result span) [
      | none ↦ none
      | some result' ↦ replace_all total_chars rest result'
    ]
  ]

  -- The spans that the loop goes through, in its order.
  unfoldable pub chosen : List (PiiSpan S) → CategoryToggles → List (PiiSpan S)
  chosen spans toggles =
      sort_by later_first (accept [] (sort_by longer_first (keep (is_active toggles) spans)))

  unfoldable pub redact : Text → List (PiiSpan S) → CategoryToggles → Option Text
  redact text spans toggles = elim (keep (is_active toggles) spans) [
    | [] ↦ some text
    | _ ↦ replace_all (length text) (chosen spans toggles) text
  ]
