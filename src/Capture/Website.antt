-- ===== src/Capture/Website.antt =====
-- services/website_exclusion/mod.rs: host patterns of websites that are not captured.
pub mod Matching
pub mod Parsing
use corivo_desktop.Base.{
  ℕ, zero, suc, ◌≡◌, refl, Bool, true, false, ◌&&◌, ◌||◌, not, List, [], ◌∷◌, ◌++◌, Option, none,
  some, arith, ltb, ◌==◌, if◌then◌else◌, length, any, drop,
}
use corivo_desktop.Base.Text.{
  Text, codes, text_eq, trim, is_empty, to_ascii_lowercase, starts_with, ends_with,
}

pub data WebsitePattern : Type 0 where
  bare wildcard_suffix : Text → WebsitePattern

-- `split_once("://").map(|(_, rest)| rest)`.
abbrev pub after_scheme? : Text → Option Text
after_scheme? [] = none
after_scheme? (c ∷ s) =
    if starts_with (codes "://") (c ∷ s) then some (drop 2 s) else after_scheme? s

-- What stands before the first character that passes the test, or everything.
abbrev pub take_until : (ℕ → Bool) → Text → Text
take_until stop [] = []
take_until stop (c ∷ s) = if stop c then [] else c ∷ take_until stop s

-- `rsplit_once(c).map(|(_, h)| h)`.
abbrev pub after_last? : ℕ → Text → Option Text
after_last? x [] = none
after_last? x (c ∷ s) = elim (after_last? x s) [
  | some r ↦ some r
  | none ↦ if c == x then some s else none
]

abbrev pub unwrap_or : Option Text → Text → Text
unwrap_or none d = d
unwrap_or (some s) d = s

abbrev pub ends_host : ℕ → Bool
ends_host c = (c == b'/') || (c == b'?') || (c == b'#')

-- The host in a URL: without scheme, path, query, fragment, user and port.
unfoldable pub host_only : Text → Text
host_only trimmed =
    let without_scheme = unwrap_or (after_scheme? trimmed) trimmed in
    let before_path = take_until ends_host without_scheme in
    let without_user = unwrap_or (after_last? b'@' before_path) before_path in
    take_until (λ c. c == b':') without_user

abbrev pub is_ascii : Text → Bool
is_ascii s = not (any (λ c. not (ltb c 0x80)) s)

abbrev pub has_dot : Text → Bool
has_dot s = any (λ c. c == b'.') s

-- The `if let Some(rest) = lower.strip_prefix("*.")`; both last branches give `Bare`.
abbrev pub classify : Text → Option WebsitePattern
classify lower =
    if starts_with (codes "*.") lower
    then (let rest = drop 2 lower in
        if is_empty rest || not (has_dot rest) then none else some (wildcard_suffix rest))
    else some (bare lower)

unfoldable pub parse : Text → Option WebsitePattern
parse input =
    let trimmed = trim input in
    if is_empty trimmed
    then none
    else let host = host_only trimmed in
      if not (is_ascii host) then none else classify (to_ascii_lowercase host)

abbrev pub display : WebsitePattern → Text
display (bare host) = host
display (wildcard_suffix suffix) = codes "*." ++ suffix

unfoldable pub matches : WebsitePattern → Text → Bool
matches (bare target) host = text_eq host target || ends_with (b'.' ∷ target) host
matches (wildcard_suffix suffix) host = ends_with (b'.' ∷ suffix) host

unfoldable pub normalize_host : Text → Option Text
normalize_host raw =
    let trimmed = trim raw in
    if is_empty trimmed
    then none
    else let host = host_only trimmed in
      if is_empty host then none else some (to_ascii_lowercase host)

pub record WebsiteExclusionEngine : Type 0 where
  pub patterns : List WebsitePattern

-- The derived `==`.
abbrev pub pattern_eq : WebsitePattern → WebsitePattern → Bool
pattern_eq (bare a) (bare b) = text_eq a b
pattern_eq (bare a) (wildcard_suffix b) = false
pattern_eq (wildcard_suffix a) (bare b) = false
pattern_eq (wildcard_suffix a) (wildcard_suffix b) = text_eq a b

-- The loop with `seen` and `keep`, which hold the same patterns.
unfoldable pub keep_new : List WebsitePattern → List WebsitePattern → List WebsitePattern
keep_new kept [] = kept
keep_new kept (p ∷ ps) = keep_new (if any (pattern_eq p) kept then kept else kept ++ p ∷ []) ps

unfoldable pub new : List WebsitePattern → WebsiteExclusionEngine
unfolding keep_new
new patterns = record { patterns = keep_new [] patterns }

-- `filter_map(parse)`.
abbrev pub parse_all : List Text → List WebsitePattern
parse_all [] = []
parse_all (s ∷ ss) = elim (parse s) [ none ↦ parse_all ss | some p ↦ p ∷ parse_all ss ]

unfoldable pub from_strings : List Text → WebsiteExclusionEngine
from_strings raw = new (parse_all raw)

unfoldable pub is_excluded : WebsiteExclusionEngine → Text → Bool
is_excluded e url_or_host = elim (normalize_host url_or_host) [
  | none ↦ false
  | some host ↦ any (λ p. matches p host) e.patterns
]
