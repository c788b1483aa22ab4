-- ===== src/Privacy/Session.antt =====
-- services/privacy_filter/session.rs: from a text to spans of characters. The tokenizer and the ONNX session are the
-- parameters `encode` and `run`; what they give back is checked as the source checks it. A byte of a text is counted, not stored,
-- and a conversion to i64 is left out.
pub mod Offsets
pub mod Spans
use corivo_desktop.Base.{
  ℕ, zero, suc, ◌+◌, ◌-◌, ◌*◌, ◌||◌, not, Bool, true, false, List, [], ◌∷◌, ◌++◌, map, Option, none,
  some, ◌==◌, ltb, leb, if◌then◌else◌, length, get_elem?, take, drop, replicate,
}
use corivo_desktop.Base.Result.{Result, ok, err}
use corivo_desktop.Base.Text.{Text, codes}
use corivo_desktop.Base.Float.{F32}
use corivo_desktop.Privacy.Label.{PiiSpan}
use corivo_desktop.Privacy.Decode.{LabelMap, TokenSpan, decode_bioes}
use corivo_desktop.Privacy.Redact.{utf8_len}
use corivo_desktop.Privacy.Redact.Bytes.{bytes}

abbrev pub max_tokens : ℕ
max_tokens = 4096

-- `map[i] = v`.
pub set_at : ℕ → ℕ → List ℕ → List ℕ
set_at i v [] = []
set_at zero v (x ∷ xs) = v ∷ xs
set_at (suc i) v (x ∷ xs) = x ∷ set_at i v xs

-- `for j in lo..lo + n { map[j] = v }`.
pub fill : ℕ → ℕ → ℕ → List ℕ → List ℕ
fill lo zero v map = map
fill lo (suc n) v map = fill (suc lo) n v (set_at lo v map)

-- The variables of the loop.
pub record Mapping : Type 0 where
  pub map : List ℕ
  pub char_idx : ℕ
  pub prev_char_start : ℕ

-- `if char_idx > 0 { for j in (prev_char_start + 1)..end { map[j] = char_idx - 1 } }`.
pub fill_inside : ℕ → Mapping → List ℕ
fill_inside end m =
    if ltb 0 m.char_idx
    then fill (m.prev_char_start + 1) (end - (m.prev_char_start + 1)) (m.char_idx - 1) m.map
    else m.map

pub map_char : ℕ → Mapping → Mapping
map_char byte_idx m = record {
  map = set_at byte_idx m.char_idx (fill_inside byte_idx m);
  char_idx = m.char_idx + 1;
  prev_char_start = byte_idx;
}

-- The loop over `char_indices`, from a byte offset on.
pub map_chars : Text → ℕ → Mapping → Mapping
map_chars [] byte_idx m = m
map_chars (c ∷ s) byte_idx m = map_chars s (byte_idx + utf8_len c) (map_char byte_idx m)

unfoldable pub build_byte_to_char_map : Text → List ℕ
unfolding fill_inside
build_byte_to_char_map text =
    let start : Mapping = record {
      map = replicate (bytes text + 1) 0;
      char_idx = 0;
      prev_char_start = 0;
    } in
    let m = map_chars text 0 start in set_at (bytes text) m.char_idx (fill_inside (bytes text) m)

-- A token of the tokenizer's encoding: its id, its mask and its bytes.
pub record Token : Type 0 where
  pub id : ℕ
  pub mask : ℕ
  pub start_byte : ℕ
  pub end_byte : ℕ

-- The output `logits`: its shape and its data.
pub record Logits (S : Type 0) : Type 0 where
  pub shape : List ℕ
  pub data' : List S

-- `logits_data` cut into `n` rows.
pub rows {ℓ} : {A : Type ℓ} → ℕ → ℕ → List A → List (List A)
rows zero num_classes xs = []
rows (suc n) num_classes xs = take num_classes xs ∷ rows n num_classes (drop num_classes xs)

-- The shape's check: the second and the third number of three.
abbrev pub classes_of : List ℕ → Option (ℕ × ℕ)
classes_of [] = none
classes_of (a ∷ []) = none
classes_of (a ∷ (b ∷ [])) = none
classes_of (a ∷ (b ∷ (c ∷ []))) = some (b, c)
classes_of (a ∷ (b ∷ (c ∷ (d ∷ ds)))) = none

module _ {S : Type 0} where
  unfoldable pub per_token : ℕ → Logits S → Result (List (List S)) Text
  unfolding rows
  per_token n logits = elim (classes_of logits.shape) [
    | none ↦ err (codes "ort: unexpected logits shape")
    | some (seq_len, num_classes) ↦
        if not (seq_len == n)
        then err (codes "ort: logits seq_len")
        else if not (length logits.data' == n * num_classes)
        then err (codes "ort: logits data len")
        else ok (rows n num_classes logits.data')
  ]

  -- From the bytes on.
  unfoldable pub span_between : List ℕ → ℕ → ℕ → TokenSpan S → List (PiiSpan S)
  span_between byte_to_char start_byte end_byte ts = elim (get_elem? byte_to_char start_byte) [
    | none ↦ []
    | some start_char ↦ elim (get_elem? byte_to_char end_byte) [
      | none ↦ []
      | some end_char ↦
          if leb end_char start_char
          then []
          else record {
            start = start_char;
            end = end_char;
            label = ts.label;
            score = ts.score;
            redacted_in_storage = false;
          }
            ∷ []
    ]
  ]

  -- The loop's body: what is pushed for a span of tokens.
  unfoldable pub char_span : List Token → ℕ → List ℕ → TokenSpan S → List (PiiSpan S)
  char_span tokens n byte_to_char ts =
      if (ts.token_end == 0) || (leb n ts.token_start || ltb n ts.token_end)
      then []
      else elim (get_elem? tokens ts.token_start) [
        | none ↦ []
        | some first ↦ elim (get_elem? tokens (ts.token_end - 1)) [
          | none ↦ []
          | some last ↦ span_between byte_to_char first.start_byte last.end_byte ts
        ]
      ]

  unfoldable pub char_spans : List Token → ℕ → List ℕ → List (TokenSpan S) → List (PiiSpan S)
  char_spans tokens n byte_to_char [] = []
  char_spans tokens n byte_to_char (ts ∷ rest) =
      char_span tokens n byte_to_char ts ++ char_spans tokens n byte_to_char rest

module _ (F : F32) (label_map : LabelMap) (threshold : F.Carrier)
    (encode : Text → Option (List Token)) (run : List Token → Option (Logits F.Carrier)) where
  open F use {Carrier}

  -- From the encoding on.
  unfoldable pub classify_tokens : Text → List Token → Result (List (PiiSpan Carrier)) Text
  classify_tokens text [] = ok []
  classify_tokens text (t ∷ ts) =
      let tokens = take max_tokens (t ∷ ts) in
      let n = length tokens in
      elim (run tokens) [
        | none ↦ err (codes "ort run")
        | some logits ↦ elim (per_token n logits) [
          | err e ↦ err e
          | ok logit_rows ↦ ok (
              char_spans (t ∷ ts) n (build_byte_to_char_map text)
                (decode_bioes F label_map threshold logit_rows))
        ]
      ]

  unfoldable pub classify_inner : Text → Result (List (PiiSpan Carrier)) Text
  classify_inner text = elim (encode text) [
    | none ↦ err (codes "tokenize")
    | some tokens ↦ classify_tokens text tokens
  ]

  -- `classify` and `run_classify_sync` with a loaded model: an error is no spans.
  unfoldable pub classify_loaded : Text → List (PiiSpan Carrier)
  classify_loaded [] = []
  classify_loaded (c ∷ text) = elim (classify_inner (c ∷ text)) [ err e ↦ [] | ok spans ↦ spans ]

-- The session's state is the loaded model, if any; `load` is what `load_from_dir` gives at this call.
module _ {Loaded S : Type 0} (load : Option Loaded)
    (classify_with : Loaded → Text → List (PiiSpan S)) where
  unfoldable pub get_or_load : Option Loaded → Option Loaded
  get_or_load (some loaded) = some loaded
  get_or_load none = load

  -- `is_loaded` and `unload` are `some` and `none`.
  unfoldable pub classify : Option Loaded → Text → List (PiiSpan S) × Option Loaded
  classify inner [] = ([], inner)
  classify inner (c ∷ text) = elim (get_or_load inner) [
    | none ↦ ([], none)
    | some loaded ↦ (classify_with loaded (c ∷ text), some loaded)
  ]
