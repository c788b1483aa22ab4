-- ===== src/Privacy/Decode/Labels.antt =====
-- Reading the model's label names, `LabelMap::from_id2label` and `parse_id2label_entry`.
use corivo_desktop.Base.{
  ℕ, zero, suc, ◌≡◌, refl, ◌∙◌, ◌≢◌, List, [], ◌∷◌, ◌++◌, Option, some, arith, get_elem?,
}
use corivo_desktop.Base.Text.{Text, codes}
use corivo_desktop.Privacy.Label.{PiiLabel}
use corivo_desktop.Privacy.Decode.{
  BioesTag, outside, begin, inside, end, single, lookup, from_id2label, parse_id2label_entry,
  quoted,
}

-- The letter that stands for a tag.
abbrev pub tag_letter : BioesTag → Text
tag_letter outside = codes "O"
tag_letter begin = codes "B"
tag_letter inside = codes "I"
tag_letter end = codes "E"
tag_letter single = codes "S"

parse_letter :
    (from_json : Text → Option PiiLabel) (t : BioesTag) (name : Text) (l : PiiLabel)
    → t ≢ outside
    → from_json (quoted name) ≡ some l
    → parse_id2label_entry from_json (tag_letter t ++ b'-' ∷ name)
      ≡ some (record { label = some l; tag = t })
unfolding parse_id2label_entry
parse_letter j outside name l h e = absurd (h refl)
parse_letter j begin name l h e = rw e
parse_letter j inside name l h e = rw e
parse_letter j end name l h e = rw e
parse_letter j single name l h e = rw e

lookup-from_id2label :
    (from_json : Text → Option PiiLabel) (ids : List Text) (i : ℕ) (raw : Text)
    → get_elem? ids i ≡ some raw
    → lookup (from_id2label from_json ids) i ≡ parse_id2label_entry from_json raw
unfolding lookup from_id2label
lookup-from_id2label j [] i raw e = cc
lookup-from_id2label j (x ∷ ids) zero raw e = ground (arith)
lookup-from_id2label j (x ∷ ids) (suc i) raw e = lookup-from_id2label j ids i raw e

-- If the class `i` is named by the letter of a tag other than `O`, a dash, and the name of a label, then
-- the label map looks the class up as this tag and this label.
pub lookup-tag_letter :
    (from_json : Text → Option PiiLabel) (ids : List Text) (i : ℕ) (t : BioesTag) (name : Text)
    (l : PiiLabel)
    → t ≢ outside
    → from_json (quoted name) ≡ some l
    → get_elem? ids i ≡ some (tag_letter t ++ b'-' ∷ name)
    → lookup (from_id2label from_json ids) i ≡ some (record { label = some l; tag = t })
lookup-tag_letter j ids i t name l h e g =
    lookup-from_id2label j ids i _ g ∙ parse_letter j t name l h e
