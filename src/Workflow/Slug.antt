-- ===== src/Workflow/Slug.antt =====
-- services/scheduled_workflows/store.rs: the slug that is made from a workflow's name.
pub mod Kebab
use corivo_desktop.Base.{
  ℕ, Bool, true, false, ◌&&◌, ◌||◌, not, List, [], ◌∷◌, ◌++◌, Option, none, some, if◌then◌else◌,
  ltb, leb, ◌==◌, take, length, ◌+◌,
}
use corivo_desktop.Base.Text.{Text, codes, is_empty}

abbrev pub is_ascii_lowercase : ℕ → Bool
is_ascii_lowercase c = leb b'a' c && leb c b'z'

abbrev pub is_ascii_uppercase : ℕ → Bool
is_ascii_uppercase c = leb b'A' c && leb c b'Z'

abbrev pub is_ascii_digit : ℕ → Bool
is_ascii_digit c = leb b'0' c && leb c b'9'

-- The `mapped` of the loop.
unfoldable pub mapped : ℕ → ℕ
mapped c =
    if is_ascii_uppercase c
    then c + 32
    else if is_ascii_lowercase c || is_ascii_digit c
    then c
    else b'-'

-- The loop over the name's characters, with `last_dash`.
abbrev pub kebab_from : Bool → Text → Text
kebab_from last_dash [] = []
kebab_from last_dash (c ∷ s) =
    let after_dash = kebab_from true s in
    let after_char = kebab_from false s in
    if mapped c == b'-'
    then (if last_dash then after_dash else b'-' ∷ after_dash)
    else mapped c ∷ after_char

unfoldable pub trim_start_dash : Text → Text
trim_start_dash [] = []
trim_start_dash (c ∷ s) = if c == b'-' then trim_start_dash s else c ∷ s

abbrev pub cons_unless_dash : ℕ → Text → Text
cons_unless_dash c [] = if c == b'-' then [] else c ∷ []
cons_unless_dash c (d ∷ s) = c ∷ (d ∷ s)

-- `trim_end_matches('-')`.
unfoldable pub trim_end_dash : Text → Text
trim_end_dash [] = []
trim_end_dash (c ∷ s) = cons_unless_dash c (trim_end_dash s)

-- The characters are ASCII by now, so that `len()` counts them.
unfoldable pub kebab_from_name : Text → Text
kebab_from_name name =
    let trimmed = trim_end_dash (trim_start_dash (kebab_from true name)) in
    if is_empty trimmed
    then codes "task"
    else if ltb 48 (length trimmed)
    then trim_end_dash (take 48 trimmed)
    else trimmed
