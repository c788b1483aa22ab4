-- ===== src/Base/Text.antt =====
-- Text as a list of code points, and the methods of `str` that the program calls on it.
use Prim.Native.Char.{code}
use Prim.Native.String.{String}
use corivo_desktop.Base.{
  ℕ, ◌+◌, ◌≡◌, refl, ap, ◌∙◌, inl, inr, Bool, true, false, ◌&&◌, ◌||◌, List, [], ◌∷◌, ◌++◌, map,
  arith, leb, ◌==◌, if◌then◌else◌, any, any-append, Bool-cases,
}

abbrev pub Text : Type 0
Text = List ℕ

abbrev pub codes : String → Text
codes String.[] = []
codes (String.◌∷◌ c s) = code c ∷ codes s

-- `==` on `str`.
abbrev pub text_eq : Text → Text → Bool
text_eq [] [] = true
text_eq [] (b ∷ t) = false
text_eq (a ∷ s) [] = false
text_eq (a ∷ s) (b ∷ t) = (a == b) && text_eq s t

pub text_eq_sound : (s t : Text) → text_eq s t ≡ true → s ≡ t
text_eq_sound [] [] h = refl
text_eq_sound [] (b ∷ t) h = cc
text_eq_sound (a ∷ s) [] h = cc
text_eq_sound (a ∷ s) (b ∷ t) h = ground (arith, text_eq_sound s t)

pub text_eq_refl : (s : Text) → text_eq s s ≡ true
text_eq_refl [] = refl
text_eq_refl (a ∷ s) = ground (arith, text_eq_refl s)

-- `char::is_whitespace`: the Unicode property White_Space.
unfoldable pub is_whitespace : ℕ → Bool
is_whitespace c =
    (leb 0x9 c && leb c 0xd)
    || (c == 0x20)
    || (c == 0x85)
    || (c == 0xa0)
    || (c == 0x1680)
    || (leb 0x2000 c && leb c 0x200a)
    || (c == 0x2028)
    || (c == 0x2029)
    || (c == 0x202f)
    || (c == 0x205f)
    || (c == 0x3000)

unfoldable pub trim_start : Text → Text
trim_start [] = []
trim_start (c ∷ s) = if is_whitespace c then trim_start s else c ∷ s

abbrev cons_unless_blank : ℕ → Text → Text
cons_unless_blank c [] = if is_whitespace c then [] else c ∷ []
cons_unless_blank c (d ∷ s) = c ∷ (d ∷ s)

unfoldable pub trim_end : Text → Text
trim_end [] = []
trim_end (c ∷ s) = cons_unless_blank c (trim_end s)

-- `str::trim`.
unfoldable pub trim : Text → Text
unfolding trim_start trim_end is_whitespace
trim s = trim_end (trim_start s)

abbrev pub is_empty : Text → Bool
is_empty [] = true
is_empty (c ∷ s) = false

-- `u8::to_ascii_lowercase` on a character.
unfoldable pub lower : ℕ → ℕ
lower c = if leb b'A' c && leb c b'Z' then c + 32 else c

abbrev pub to_ascii_lowercase : Text → Text
to_ascii_lowercase s = map lower s

abbrev pub starts_with : Text → Text → Bool
starts_with [] s = true
starts_with (p ∷ ps) [] = false
starts_with (p ∷ ps) (c ∷ s) = (p == c) && starts_with ps s

abbrev pub ends_with : Text → Text → Bool
ends_with suffix [] = text_eq suffix []
ends_with suffix (c ∷ s) = text_eq suffix (c ∷ s) || ends_with suffix s

-- A `HashSet<String>` as a list without repetition.
abbrev pub contains : List Text → Text → Bool
contains set s = any (text_eq s) set

abbrev pub insert : Text → List Text → List Text
insert s set = if contains set s then set else set ++ s ∷ []

abbrev StartsBlack : Text → Type 0
StartsBlack [] = Unit {0}
StartsBlack (c ∷ s) = is_whitespace c ≡ false

trim_start-StartsBlack : (s : Text) → StartsBlack (trim_start s)
unfolding trim_start
trim_start-StartsBlack [] = tt
trim_start-StartsBlack (c ∷ s) = elim (Bool-cases (is_whitespace c)) [
  | inl e ↦ rw e (trim_start-StartsBlack s)
  | inr e ↦ rw e e
]

trim_start_of_StartsBlack : (s : Text) → StartsBlack s → trim_start s ≡ s
unfolding trim_start
trim_start_of_StartsBlack [] h = refl
trim_start_of_StartsBlack (c ∷ s) h = rw h

trim_end-StartsBlack : (s : Text) → StartsBlack s → StartsBlack (trim_end s)
unfolding trim_end
trim_end-StartsBlack [] h = tt
trim_end-StartsBlack (c ∷ s) h = go (trim_end s)
  where
    go : (r : Text) → StartsBlack (cons_unless_blank c r)
    go [] = rw h h
    go (d ∷ r) = h

trim_end_idem : (s : Text) → trim_end (trim_end s) ≡ trim_end s
unfolding trim_end
trim_end_idem [] = refl
trim_end_idem (c ∷ s) = go (trim_end s) (trim_end_idem s)
  where
    go : (r : Text) → trim_end r ≡ r → trim_end (cons_unless_blank c r) ≡ cons_unless_blank c r
    go [] e = elim (Bool-cases (is_whitespace c)) [ inl w ↦ rw w | inr b ↦ rw (b, trim_end, b) ]
    go (d ∷ r) e = rw e

pub trim_idem : (s : Text) → trim (trim s) ≡ trim s
unfolding trim
trim_idem s =
    ap trim_end (
      trim_start_of_StartsBlack (trim_end (trim_start s))
        (trim_end-StartsBlack (trim_start s) (trim_start-StartsBlack s)))
    ∙ trim_end_idem (trim_start s)

pub lower_idem : (c : ℕ) → lower (lower c) ≡ lower c
unfolding lower
lower_idem c = ground arith

pub to_ascii_lowercase_idem :
    (s : Text) → to_ascii_lowercase (to_ascii_lowercase s) ≡ to_ascii_lowercase s
to_ascii_lowercase_idem [] = refl
to_ascii_lowercase_idem (c ∷ s) = cc (lower_idem c, to_ascii_lowercase_idem s)

pub contains-insert_self : (s : Text) (set : List Text) → contains (insert s set) s ≡ true
contains-insert_self s set = elim (Bool-cases (contains set s)) [
  | inl e ↦ rw e e
  | inr e ↦ rw e (any-append (text_eq s) set (s ∷ []) ∙ ground (arith, text_eq_refl s))
]

pub contains-insert_old :
    (s t : Text) (set : List Text) → contains set t ≡ true → contains (insert s set) t ≡ true
contains-insert_old s t set h = elim (Bool-cases (contains set s)) [
  | inl e ↦ rw e h
  | inr e ↦ rw e (any-append (text_eq t) set (s ∷ []) ∙ ground arith)
]
