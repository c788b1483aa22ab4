-- ===== src/Capture/Website/Matching.antt =====
-- Which hosts a pattern matches, and that dropping repeated patterns changes no answer.
use corivo_desktop.Base.{
  ◌<◌, ◌≡◌, refl, ap, sym, Bool, true, false, ◌||◌, List, [], ◌∷◌, ◌++◌, arith, length, any,
  any-append, Bool-cases, inl, inr, Option-cases, ◌⊎◌, ◌↔◌,
}
use corivo_desktop.Base.Text.{Text, text_eq, text_eq_refl, text_eq_sound, ends_with}
use corivo_desktop.Capture.Website.{
  WebsitePattern, bare, wildcard_suffix, pattern_eq, matches, keep_new, new, is_excluded,
  normalize_host,
}

text_eq-length : (s t : Text) → text_eq s t ≡ true → length s ≡ length t
text_eq-length s t h = ap length (text_eq_sound s t h)

ends_with-append : (sub suffix : Text) → ends_with suffix (sub ++ suffix) ≡ true
ends_with-append [] [] = refl
ends_with-append [] (c ∷ suffix) = ground (arith, text_eq_refl (c ∷ suffix))
ends_with-append (c ∷ sub) suffix = ground (arith, ends_with-append sub suffix)

ends_with_short : (suffix s : Text) → length s < length suffix → ends_with suffix s ≡ false
ends_with_short [] s h = absurd (omega arith)
ends_with_short (c ∷ suffix) [] h = refl
ends_with_short (c ∷ suffix) (d ∷ s) h =
    ground
      (arith, text_eq-length (c ∷ suffix) (d ∷ s), ends_with_short (c ∷ suffix) s (omega arith))

ends_with_split : (suffix s : Text) → ends_with suffix s ≡ true → (sub : Text) × (s ≡ sub ++ suffix)
ends_with_split suffix [] h = ([], sym (text_eq_sound suffix [] h))
ends_with_split suffix (c ∷ s) h = elim (Bool-cases (text_eq suffix (c ∷ s))) [
  | inl e ↦ ([], sym (text_eq_sound suffix (c ∷ s) e))
  | inr e ↦ let (sub, p) = ends_with_split suffix s (rw e at h) in (c ∷ sub, ap (◌∷◌ c) p)
]

-- A pattern without wildcard matches a host exactly when this is the pattern's host, or goes on before
-- it with a dot: only the host itself and its subdomains.
pub matches-bare :
    (target host : Text)
    → (matches (bare target) host ≡ true)
      ↔ ((host ≡ target) ⊎ ((sub : Text) × (host ≡ sub ++ b'.' ∷ target)))
unfolding matches
matches-bare target host = (to, from)
  where
    to :
        matches (bare target) host ≡ true
        → (host ≡ target) ⊎ ((sub : Text) × (host ≡ sub ++ b'.' ∷ target))
    to h = elim (Bool-cases (text_eq host target)) [
      | inl e ↦ inl (text_eq_sound host target e)
      | inr e ↦ inr (ends_with_split (b'.' ∷ target) host (rw e at h))
    ]

    from :
        (host ≡ target) ⊎ ((sub : Text) × (host ≡ sub ++ b'.' ∷ target))
        → matches (bare target) host ≡ true
    from (inl e) = rw (e, text_eq_refl target) refl
    from (inr (sub, e)) = rw e (ground (arith, ends_with-append sub (b'.' ∷ target)))

-- A wildcard pattern matches every host that goes on before its suffix with a dot, and never the
-- suffix itself.
pub matches-wildcard_suffix :
    (suffix sub : Text)
    → (matches (wildcard_suffix suffix) (sub ++ b'.' ∷ suffix) ≡ true)
      × (matches (wildcard_suffix suffix) suffix ≡ false)
unfolding matches
matches-wildcard_suffix suffix sub =
    (ends_with-append sub (b'.' ∷ suffix), ends_with_short (b'.' ∷ suffix) suffix (omega arith))

pattern_eq_sound : (p q : WebsitePattern) → pattern_eq p q ≡ true → p ≡ q
pattern_eq_sound (bare a) (bare b) h = ap bare (text_eq_sound a b h)
pattern_eq_sound (bare a) (wildcard_suffix b) h = cc
pattern_eq_sound (wildcard_suffix a) (bare b) h = cc
pattern_eq_sound (wildcard_suffix a) (wildcard_suffix b) h =
    ap wildcard_suffix (text_eq_sound a b h)

-- A test that some kept pattern equal to `p` passes is passed by some kept pattern if `p` passes it.
any_of_equal :
    (f : WebsitePattern → Bool) (p : WebsitePattern) (kept : List WebsitePattern)
    → any (pattern_eq p) kept ≡ true
    → (f p || any f kept) ≡ any f kept
any_of_equal f p [] h = cc
any_of_equal f p (q ∷ kept) h = elim (Bool-cases (pattern_eq p q)) [
  | inl e ↦ rw (pattern_eq_sound p q e) (ground arith)
  | inr e ↦ ground (arith, any_of_equal f p kept)
]

any-keep_new :
    (f : WebsitePattern → Bool) (kept ps : List WebsitePattern)
    → any f (keep_new kept ps) ≡ (any f kept || any f ps)
unfolding keep_new
any-keep_new f kept [] = ground arith
any-keep_new f kept (p ∷ ps) = elim (Bool-cases (any (pattern_eq p) kept)) [
  | inl e ↦ rw e (ground (arith, any-keep_new f kept ps, any_of_equal f p kept e))
  | inr e ↦ rw e (ground (arith, any-keep_new f (kept ++ p ∷ []) ps, any-append f kept (p ∷ [])))
]

-- An engine built from a list of patterns excludes a URL exactly when the list as it was given does:
-- dropping the repeated patterns changes no answer.
pub is_excluded-new :
    (ps : List WebsitePattern) (url : Text)
    → is_excluded (new ps) url ≡ is_excluded (record { patterns = ps }) url
unfolding is_excluded new
is_excluded-new ps url = elim (Option-cases (normalize_host url)) [
  | inl e ↦ rw (e, is_excluded)
  | inr (host, e) ↦ rw (e, is_excluded) (any-keep_new (λ p. matches p host) [] ps)
]
