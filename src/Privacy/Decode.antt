-- ===== src/Privacy/Decode.antt =====
-- services/privacy_filter/decode.rs: the label map, and the loop that turns one row of logits per
-- token into spans of tokens. The arithmetic of `f32` is the parameter `F`, and `serde_json::from_str` at
-- `PiiLabel` the parameter `from_json`.

pub mod Order
pub mod RoundTrip
pub mod Labels
use corivo_desktop.Base.{
  ℕ, suc, ◌+◌, ◌||◌, not, List, [], ◌∷◌, ◌++◌, map, Option, none, some, ◌==◌, if◌then◌else◌, length,
  get_elem?,
}
use corivo_desktop.Base.Text.{Text, codes, text_eq}
use corivo_desktop.Base.Float.{F32}
use corivo_desktop.Privacy.Label.{PiiLabel, label_eq}

pub data BioesTag : Type 0 where
  outside begin inside end single : BioesTag

pub record LabelEntry : Type 0 where
  pub label : Option PiiLabel
  pub tag : BioesTag

pub record LabelMap : Type 0 where
  pub entries : List (Option LabelEntry)

-- `split_once('-')`.
abbrev pub split_at_dash : Text → Option (Text × Text)
split_at_dash [] = none
split_at_dash (c ∷ s) =
    if c == b'-'
    then some ([], s)
    else elim (split_at_dash s) [ none ↦ none | some (a, b) ↦ some (c ∷ a, b) ]

-- The `match prefix`.
abbrev pub tag_of_prefix : Text → Option BioesTag
tag_of_prefix prefix =
    if text_eq prefix (codes "B")
    then some begin
    else if text_eq prefix (codes "I")
    then some inside
    else if text_eq prefix (codes "E")
    then some end
    else if text_eq prefix (codes "S")
    then some single
    else none

abbrev pub quoted : Text → Text
quoted name = codes "\"" ++ (name ++ codes "\"")

unfoldable pub parse_id2label_entry : (Text → Option PiiLabel) → Text → Option LabelEntry
parse_id2label_entry from_json raw =
    if text_eq raw (codes "O")
    then some (record { label = none; tag = outside })
    else elim (split_at_dash raw) [
      | none ↦ none
      | some (prefix, name) ↦ elim (tag_of_prefix prefix) [
        | none ↦ none
        | some t ↦ elim (from_json (quoted name)) [
          | none ↦ none
          | some l ↦ some (record { label = some l; tag = t })
        ]
      ]
    ]

unfoldable pub from_id2label : (Text → Option PiiLabel) → List Text → LabelMap
from_id2label from_json ids = record { entries = map (parse_id2label_entry from_json) ids }

unfoldable pub lookup : LabelMap → ℕ → Option LabelEntry
lookup m class_id = elim (get_elem? m.entries class_id) [ none ↦ none | some e ↦ e ]

-- Tokens `token_start` up to, not including, `token_end`.
pub record TokenSpan (S : Type 0) : Type 0 where
  pub token_start : ℕ
  pub token_end : ℕ
  pub label : PiiLabel
  pub score : S

pub record OpenSpan (S : Type 0) : Type 0 where
  pub start : ℕ
  pub label : PiiLabel
  pub min_score : S

-- The two variables of the loop.
pub record Decoder (S : Type 0) : Type 0 where
  pub open_span : Option (OpenSpan S)
  pub out : List (TokenSpan S)

abbrev pub fresh : {S : Type 0} → Decoder S
fresh = record { open_span = none; out = [] }

-- What one row of logits says: nothing at all (`continue`), that no entity goes on here, or an
-- entity's tag.
pub data Reading (S : Type 0) : Type 0 where
  silent : Reading S
  quiet : Reading S
  tagged : BioesTag → PiiLabel → S → Reading S

-- `match (entry.tag, entry.label)`, whose first arm is `(Outside, _) | (_, None)`.
abbrev entry_reading : {S : Type 0} → BioesTag → Option PiiLabel → S → Reading S
entry_reading outside l s = quiet
entry_reading begin none s = quiet
entry_reading begin (some l) s = tagged begin l s
entry_reading inside none s = quiet
entry_reading inside (some l) s = tagged inside l s
entry_reading end none s = quiet
entry_reading end (some l) s = tagged end l s
entry_reading single none s = quiet
entry_reading single (some l) s = tagged single l s

module _ (F : F32) where
  open F use {Carrier, lt, le, is_finite, add, sub, div, exp}

  argmax_from : ℕ → ℕ → Carrier → List Carrier → ℕ × Carrier
  argmax_from i max_idx max_val [] = (max_idx, max_val)
  argmax_from i max_idx max_val (v ∷ vs) =
      argmax_from (suc i) (if lt max_val v then i else max_idx)
        (if lt max_val v then v else max_val) vs

  sum_exp : Carrier → Carrier → List Carrier → Carrier
  sum_exp max_val sum [] = sum
  sum_exp max_val sum (v ∷ vs) =
      sum_exp max_val (if is_finite v then add sum (exp (sub v max_val)) else sum) vs

  unfoldable pub argmax_with_softmax : List Carrier → Option (ℕ × Carrier)
  unfolding argmax_from sum_exp
  argmax_with_softmax [] = none
  argmax_with_softmax (v ∷ vs) =
      let (max_idx, max_val) = argmax_from 1 0 v vs in
      let sum = sum_exp max_val F.zero (v ∷ vs) in
      if not (is_finite max_val)
      then none
      else if le sum F.zero || not (is_finite sum)
      then none
      else some (max_idx, div F.one sum)

  unfoldable pub reading : LabelMap → Carrier → List Carrier → Reading Carrier
  reading m threshold row = elim (argmax_with_softmax row) [
    | none ↦ silent
    | some (class_id, score) ↦
        if lt score threshold
        then quiet
        else elim (lookup m class_id) [ none ↦ quiet | some e ↦ entry_reading e.tag e.label score ]
  ]

abbrev pub token_span : {S : Type 0} → ℕ → ℕ → PiiLabel → S → TokenSpan S
token_span a b l s = record { token_start = a; token_end = b; label = l; score = s }

abbrev push : {S : Type 0} → List (TokenSpan S) → TokenSpan S → List (TokenSpan S)
push out x = out ++ x ∷ []

close_into : {S : Type 0} → Option (OpenSpan S) → List (TokenSpan S) → Decoder S
close_into none out = record { open_span = none; out = out }
close_into (some o) out = record {
  open_span = none;
  out = push out (token_span o.start (o.start + 1) o.label o.min_score);
}

abbrev begin_at : {S : Type 0} → ℕ → PiiLabel → S → Decoder S → Decoder S
begin_at i l s d = record d { open_span = some (record { start = i; label = l; min_score = s }) }

module _ {S : Type 0} (min : S → S → S) where
  -- The arm for `Inside`.
  inside_at : ℕ → PiiLabel → S → Option (OpenSpan S) → List (TokenSpan S) → Decoder S
  inside_at i l s none out = begin_at i l s (close_into none out)
  inside_at i l s (some o) out =
      if label_eq o.label l
      then record { open_span = some (record o { min_score = min o.min_score s }); out = out }
      else begin_at i l s (close_into (some o) out)

  -- The arm for `End`.
  end_at : ℕ → PiiLabel → S → Option (OpenSpan S) → List (TokenSpan S) → Decoder S
  end_at i l s none out = record { open_span = none; out = push out (token_span i (i + 1) l s) }
  end_at i l s (some o) out = record {
    open_span = none;
    out =
        if label_eq o.label l
        then push out (token_span o.start (i + 1) l (min o.min_score s))
        else push (push out (token_span o.start i o.label o.min_score)) (token_span i (i + 1) l s);
  }

  -- The loop's body at token `i`.
  unfoldable pub react : ℕ → Reading S → Decoder S → Decoder S
  unfolding close_into inside_at end_at
  react i silent d = d
  react i quiet d = close_into d.open_span d.out
  react i (tagged outside l s) d = close_into d.open_span d.out
  react i (tagged single l s) d =
      let d' = close_into d.open_span d.out in
      record d' { out = push d'.out (token_span i (i + 1) l s) }
  react i (tagged begin l s) d = begin_at i l s (close_into d.open_span d.out)
  react i (tagged inside l s) d = inside_at i l s d.open_span d.out
  react i (tagged end l s) d = end_at i l s d.open_span d.out

-- After the loop: an open span reaches to the end.
finish : {S : Type 0} → ℕ → Decoder S → List (TokenSpan S)
finish n d = elim d.open_span [
  | none ↦ d.out
  | some o ↦ push d.out (token_span o.start n o.label o.min_score)
]

module _ (F : F32) (m : LabelMap) (threshold : F.Carrier) where
  open F use {Carrier}

  decode_from : ℕ → List (List Carrier) → Decoder Carrier → Decoder Carrier
  decode_from i [] d = d
  decode_from i (row ∷ rows) d =
      decode_from (suc i) rows (react F.min i (reading F m threshold row) d)

  unfoldable pub decode_bioes : List (List Carrier) → List (TokenSpan Carrier)
  unfolding finish decode_from
  decode_bioes logits = finish (length logits) (decode_from 0 logits fresh)
