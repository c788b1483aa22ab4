-- ===== src/Workflow/Slug/Kebab.antt =====
-- The form of a slug.
use corivo_desktop.Base.{suc, zero, length-take, take}
use corivo_desktop.Base.{
  ℕ, ◌≡◌, refl, inl, inr, Bool, true, false, ◌&&◌, ◌||◌, not, [], ◌∷◌, arith, ltb, ◌==◌,
  if◌then◌else◌, Bool-cases, length, ◌≤◌,
}
use corivo_desktop.Base.Text.{Text, codes, is_empty}
use corivo_desktop.Workflow.Slug.{
  is_ascii_lowercase, is_ascii_digit, mapped, kebab_from, trim_start_dash, cons_unless_dash,
  trim_end_dash, kebab_from_name,
}

abbrev pub is_slug_char : ℕ → Bool
is_slug_char c = is_ascii_lowercase c || is_ascii_digit c

-- Words of small letters and digits with one dash between them: `after_dash` says that a word has to begin.
abbrev pub is_kebab : Bool → Text → Bool
is_kebab after_dash [] = not after_dash
is_kebab after_dash (c ∷ s) =
    let next_word = is_kebab true s in
    let same_word = is_kebab false s in
    if c == b'-' then not after_dash && next_word else is_slug_char c && same_word

-- The same, where a dash may come last.
abbrev is_open_kebab : Bool → Text → Bool
is_open_kebab after_dash [] = true
is_open_kebab after_dash (c ∷ s) =
    let next_word = is_open_kebab true s in
    let same_word = is_open_kebab false s in
    if c == b'-' then not after_dash && next_word else is_slug_char c && same_word

mapped_lem : (c : ℕ) → (mapped c == b'-') ≡ false → is_slug_char (mapped c) ≡ true
unfolding mapped
mapped_lem c h = ground arith

kebab_from-is_open_kebab :
    (last_dash : Bool) (s : Text) → is_open_kebab last_dash (kebab_from last_dash s) ≡ true
kebab_from-is_open_kebab last_dash [] = refl
kebab_from-is_open_kebab true (c ∷ s) =
    ground (arith, mapped_lem c, kebab_from-is_open_kebab true s, kebab_from-is_open_kebab false s)
kebab_from-is_open_kebab false (c ∷ s) =
    ground (arith, mapped_lem c, kebab_from-is_open_kebab true s, kebab_from-is_open_kebab false s)

trim_start_dash-is_open_kebab : (s : Text) → is_open_kebab true s ≡ true → trim_start_dash s ≡ s
unfolding trim_start_dash
trim_start_dash-is_open_kebab [] h = refl
trim_start_dash-is_open_kebab (c ∷ s) h = ground arith

trim_end_dash-is_kebab :
    (b : Bool) (s : Text)
    → is_open_kebab b s ≡ true
    → (is_empty (trim_end_dash s) || is_kebab b (trim_end_dash s)) ≡ true
unfolding trim_end_dash
trim_end_dash-is_kebab b [] h = refl
trim_end_dash-is_kebab b (c ∷ s) h =
    closed (trim_end_dash s) (trim_end_dash-is_kebab true s) (trim_end_dash-is_kebab false s)
  where
    closed :
        (t : Text)
        → (is_open_kebab true s ≡ true → (is_empty t || is_kebab true t) ≡ true)
        → (is_open_kebab false s ≡ true → (is_empty t || is_kebab false t) ≡ true)
        → (is_empty (cons_unless_dash c t) || is_kebab b (cons_unless_dash c t)) ≡ true
    closed [] on_true on_false = ground arith
    closed (d ∷ t) on_true on_false = ground arith

is_kebab-is_open_kebab : (b : Bool) (s : Text) → is_kebab b s ≡ true → is_open_kebab b s ≡ true
is_kebab-is_open_kebab b [] h = refl
is_kebab-is_open_kebab b (c ∷ s) h =
    ground (arith, is_kebab-is_open_kebab true s, is_kebab-is_open_kebab false s)

take-is_open_kebab :
    (b : Bool) (n : ℕ) (s : Text) → is_open_kebab b s ≡ true → is_open_kebab b (take n s) ≡ true
take-is_open_kebab b zero s h = refl
take-is_open_kebab b (suc n) [] h = refl
take-is_open_kebab b (suc n) (c ∷ s) h =
    ground (arith, take-is_open_kebab true n s, take-is_open_kebab false n s)

length-trim_end_dash : (s : Text) → length (trim_end_dash s) ≤ length s
unfolding trim_end_dash
length-trim_end_dash [] = omega arith
length-trim_end_dash (c ∷ s) = shorter (trim_end_dash s) (length-trim_end_dash s)
  where
    shorter : (t : Text) → length t ≤ length s → length (cons_unless_dash c t) ≤ suc (length s)
    shorter [] h = ground arith
    shorter (d ∷ t) h = ground arith

-- What begins a word is not trimmed away.
trim_end_dash-take :
    (n : ℕ) (s : Text) → is_kebab true s ≡ true → is_empty (trim_end_dash (take (suc n) s)) ≡ false
unfolding trim_end_dash
trim_end_dash-take n [] h = ground arith
trim_end_dash-take n (c ∷ s) h = kept (trim_end_dash (take n s))
  where
    kept : (t : Text) → is_empty (cons_unless_dash c t) ≡ false
    kept [] = ground arith
    kept (d ∷ t) = refl

-- What `kebab_from_name` does once the dashes are trimmed.
abbrev shortened : Text → Text
shortened t =
    if is_empty t then codes "task" else if ltb 48 (length t) then trim_end_dash (take 48 t) else t

shortened-is_kebab :
    (t : Text)
    → (is_empty t || is_kebab true t) ≡ true
    → (is_kebab true (shortened t) ≡ true) × (length (shortened t) ≤ 48)
shortened-is_kebab t h = elim (Bool-cases (is_empty t)) [
  | inl e ↦ rw e (refl, omega arith)
  | inr e ↦
      let k : is_kebab true t ≡ true = ground arith in
      elim (Bool-cases (ltb 48 (length t))) [
        | inl long ↦
            let word = trim_end_dash-take 47 t k in
            let closed =
              trim_end_dash-is_kebab true (take 48 t)
                (take-is_open_kebab true 48 t (is_kebab-is_open_kebab true t k)) in
            rw e (
              rw long
                (ground arith, omega (arith, length-trim_end_dash (take 48 t), length-take 48 t)))
        | inr short ↦ rw e (rw short (k, ground arith))
      ]
]

-- A slug that is made from a name, whatever the name is, has words of small ASCII letters and digits with one
-- dash between them, at least one of them, and at most 48 characters.
pub kebab_from_name-is_kebab :
    (name : Text)
    → (is_kebab true (kebab_from_name name) ≡ true) × (length (kebab_from_name name) ≤ 48)
unfolding kebab_from_name
kebab_from_name-is_kebab name =
    let made = kebab_from-is_open_kebab true name in
    shortened-is_kebab (trim_end_dash (trim_start_dash (kebab_from true name))) (
      rw (trim_start_dash-is_open_kebab (kebab_from true name) made)
        (trim_end_dash-is_kebab true (kebab_from true name) made))
