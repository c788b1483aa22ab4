-- ===== src/Capture/Website/Parsing.antt =====
-- A parsed pattern, displayed and parsed again.
use corivo_desktop.Base.{
  ℕ, ◌≡◌, refl, ◌∙◌, ap, sym, Bool, true, false, not, [], ◌∷◌, ◌++◌, Option, none, some, arith, ltb,
  ◌==◌, if◌then◌else◌, Bool-cases, inl, inr, All, All-mono, All-and, drop,
}
use corivo_desktop.Base.Text.{
  Text, codes, trim, is_empty, lower, to_ascii_lowercase, to_ascii_lowercase_idem, starts_with,
}
use corivo_desktop.Capture.Website.{
  WebsitePattern, parse, display, classify, host_only, is_ascii, ends_host, take_until, after_last?,
  after_scheme?, unwrap_or,
}

-- A character that may stand in what `host_only` returns.
abbrev HostChar : ℕ → Type 0
HostChar c = (ends_host c ≡ false) × ((c == b'@') ≡ false) × ((c == b':') ≡ false)

take_until-All : (stop : ℕ → Bool) (s : Text) → All (λ c. stop c ≡ false) (take_until stop s)
take_until-All stop [] = tt
take_until-All stop (c ∷ s) = elim (Bool-cases (stop c)) [
  | inl e ↦ rw e tt
  | inr e ↦ rw e (e, take_until-All stop s)
]

take_until_keeps :
    (P : ℕ → Type 0) (stop : ℕ → Bool) (s : Text) → All P s → All P (take_until stop s)
take_until_keeps P stop [] h = tt
take_until_keeps P stop (c ∷ s) h = elim (Bool-cases (stop c)) [
  | inl e ↦ rw e tt
  | inr e ↦ rw e (h.0, take_until_keeps P stop s h.1)
]

take_until_whole :
    (stop : ℕ → Bool) (s : Text) → All (λ c. stop c ≡ false) s → take_until stop s ≡ s
take_until_whole stop [] h = refl
take_until_whole stop (c ∷ s) h = rw h.0 (ap (◌∷◌ c) (take_until_whole stop s h.1))

after_last?-All :
    (P : ℕ → Type 0) (x : ℕ) (s : Text)
    → All P s
    → All (λ c. P c × ((c == x) ≡ false)) (unwrap_or (after_last? x s) s)
after_last?-All P x [] h = tt
after_last?-All P x (c ∷ s) h = go (after_last? x s) refl (after_last?-All P x s h.1)
  where
    go :
        (o : Option Text)
        → after_last? x s ≡ o
        → All (λ d. P d × ((d == x) ≡ false)) (unwrap_or o s)
        → All (λ d. P d × ((d == x) ≡ false)) (unwrap_or (after_last? x (c ∷ s)) (c ∷ s))
    go (some r) e k = rw (e, after_last?) k
    go none e k = elim (Bool-cases (c == x)) [
      | inl f ↦ rw (e, after_last?) (rw f k)
      | inr f ↦ rw (e, after_last?) (rw f ((h.0, f), k))
    ]

after_last?-none : (x : ℕ) (s : Text) → All (λ c. (c == x) ≡ false) s → after_last? x s ≡ none
after_last?-none x [] h = refl
after_last?-none x (c ∷ s) h = rw (after_last?-none x s h.1, after_last?) (rw h.0)

after_scheme?-none : (s : Text) → All (λ c. (c == b':') ≡ false) s → after_scheme? s ≡ none
after_scheme?-none [] h = refl
after_scheme?-none (c ∷ s) h = ground (arith, h.0, after_scheme?-none s h.1)

host_only-All : (s : Text) → All HostChar (host_only s)
unfolding host_only
host_only-All s =
    let before_path = take_until ends_host (unwrap_or (after_scheme? s) s) in
    let without_user = unwrap_or (after_last? b'@' before_path) before_path in
    let plain =
      after_last?-All (λ c. ends_host c ≡ false) b'@' before_path
        (take_until-All ends_host (unwrap_or (after_scheme? s) s)) in
    let kept = take_until_keeps _ (λ c. c == b':') without_user plain in
    All-mono (λ c h. (h.0.0, h.0.1, h.1)) (take_until (λ c. c == b':') without_user)
      (All-and _ _ _ kept (take_until-All (λ c. c == b':') without_user))

host_only_of_HostChar : (s : Text) → All HostChar s → host_only s ≡ s
unfolding host_only
host_only_of_HostChar s h =
    let e1 = after_scheme?-none s (All-mono (λ c k. k.2) s h) in
    let e2 = take_until_whole ends_host s (All-mono (λ c k. k.0) s h) in
    let e3 = after_last?-none b'@' s (All-mono (λ c k. k.1) s h) in
    let e4 = take_until_whole (λ c. c == b':') s (All-mono (λ c k. k.2) s h) in rw (e1, e2, e3, e4)

lower-HostChar : (c : ℕ) → HostChar c → HostChar (lower c)
unfolding lower
lower-HostChar c h = ground arith

to_ascii_lowercase-HostChar : (s : Text) → All HostChar s → All HostChar (to_ascii_lowercase s)
to_ascii_lowercase-HostChar [] h = tt
to_ascii_lowercase-HostChar (c ∷ s) h = (lower-HostChar c h.0, to_ascii_lowercase-HostChar s h.1)

lower_ascii : (c : ℕ) → ltb c 0x80 ≡ true → ltb (lower c) 0x80 ≡ true
unfolding lower
lower_ascii c h = ground arith

is_ascii-to_ascii_lowercase :
    (s : Text) → is_ascii s ≡ true → is_ascii (to_ascii_lowercase s) ≡ true
is_ascii-to_ascii_lowercase [] h = refl
is_ascii-to_ascii_lowercase (c ∷ s) h = ground (arith, lower_ascii c, is_ascii-to_ascii_lowercase s)

starts_with_wildcard : (s : Text) → starts_with (codes "*.") s ≡ true → codes "*." ++ drop 2 s ≡ s
starts_with_wildcard [] h = cc
starts_with_wildcard (c ∷ []) h = ground arith
starts_with_wildcard (c ∷ d ∷ s) h = ground arith

display-classify : (l : Text) (p : WebsitePattern) → classify l ≡ some p → display p ≡ l
display-classify l p h = ground (arith, starts_with_wildcard l)

guarded :
    (empty ascii : Bool) (r : Option WebsitePattern) (p : WebsitePattern)
    → (if empty then none else if not ascii then none else r) ≡ some p
    → (ascii ≡ true) × (r ≡ some p)
guarded true ascii r p h = cc
guarded false true r p h = (refl, h)
guarded false false r p h = cc

parse_parts :
    (input : Text) (p : WebsitePattern)
    → parse input ≡ some p
    → (is_ascii (host_only (trim input)) ≡ true)
      × (classify (to_ascii_lowercase (host_only (trim input))) ≡ some p)
unfolding parse
parse_parts input p h =
    guarded (is_empty (trim input)) (is_ascii (host_only (trim input)))
      (classify (to_ascii_lowercase (host_only (trim input)))) p h

parse_clean :
    (l : Text)
    → trim l ≡ l
    → is_empty l ≡ false
    → host_only l ≡ l
    → is_ascii l ≡ true
    → to_ascii_lowercase l ≡ l
    → parse l ≡ classify l
unfolding parse
parse_clean l t f h a low = rw (t, f, h, a, low)

-- If a user's input parses to a pattern, and the displayed pattern is not empty and has no blanks around it,
-- then parsing the displayed pattern gives the same pattern.
pub parse-display :
    (input : Text) (p : WebsitePattern)
    → parse input ≡ some p
    → trim (display p) ≡ display p
    → is_empty (display p) ≡ false
    → parse (display p) ≡ some p
parse-display input p h trimmed full =
    let host = host_only (trim input) in
    let l = to_ascii_lowercase host in
    let parts = parse_parts input p h in
    let e : display p ≡ l = display-classify l p parts.1 in
    let same_host =
      host_only_of_HostChar l (to_ascii_lowercase-HostChar host (host_only-All (trim input))) in
    ap parse e
    ∙ parse_clean l (sym (ap trim e) ∙ trimmed ∙ e) (sym (ap is_empty e) ∙ full) same_host
        (is_ascii-to_ascii_lowercase host parts.0) (to_ascii_lowercase_idem host)
    ∙ parts.1
