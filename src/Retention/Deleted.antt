-- ===== src/Retention/Deleted.antt =====
-- Which sessions a round deletes.
use corivo_desktop.Base.{
  ℕ, ◌≡◌, ◌≢◌, refl, sym, ap, ◌∙◌, inl, inr, Bool, true, false, not, List, [], ◌∷◌, arith,
  if◌then◌else◌, All-mono, All-and, Bool-cases, keep, All, map,
}
use corivo_desktop.Base.Text.{Text, text_eq, text_eq_refl, text_eq_sound, contains}
use corivo_desktop.Retention.{SessionInfo, Answers, is_deletable, delete_session, delete_sessions}

-- The ids are those of a key.
abbrev pub HasUniqueIds : List SessionInfo → Type 0
HasUniqueIds [] = Unit {0}
HasUniqueIds (s ∷ ss) = All (λ r. s.id ≢ r.id) ss × HasUniqueIds ss

keep_everything : (xs : List SessionInfo) → keep (λ s. true) xs ≡ xs
keep_everything [] = refl
keep_everything (x ∷ xs) = ap (◌∷◌ x) (keep_everything xs)

abbrev pub is_spared : List Text → SessionInfo → Bool
is_spared ids s = not (contains ids s.id)

keep_fused :
    (id : Text) (ids : List Text) (xs : List SessionInfo)
    → keep (is_spared ids) (keep (λ s. not (text_eq s.id id)) xs) ≡ keep (is_spared (id ∷ ids)) xs
keep_fused id ids [] = refl
keep_fused id ids (x ∷ xs) = elim (Bool-cases (text_eq x.id id)) [
  | inl e ↦ rw e (keep_fused id ids xs)
  | inr e ↦ rw e (elim (Bool-cases (contains ids x.id)) [
    | inl f ↦ rw f (keep_fused id ids xs)
    | inr f ↦ rw f (ap (◌∷◌ x) (keep_fused id ids xs))
  ])
]

-- What the loop has deleted, all of it if it succeeds.
abbrev pub IsDeleted : List Text → List SessionInfo → Bool × List SessionInfo → Type 0
IsDeleted ids xs r =
    (gone : List Text) × (r.1 ≡ keep (is_spared gone) xs)
    × (r.0 ≡ true → gone ≡ ids)
    × ((t : Text) → contains gone t ≡ true → contains ids t ≡ true)

pub delete_sessions-IsDeleted :
    (o : Answers) (ids : List Text) (xs : List SessionInfo)
    → IsDeleted ids xs (delete_sessions o ids xs)
unfolding delete_sessions delete_session
delete_sessions-IsDeleted o [] xs = ([], sym (keep_everything xs), λ h. refl, λ t h. h)
delete_sessions-IsDeleted o (id ∷ ids) xs = elim (Bool-cases (o.removes_dir id)) [
  | inr e ↦ rw e ([], sym (keep_everything xs), λ h. absurd cc, λ t h. absurd cc)
  | inl e ↦ rw e (elim (Bool-cases (o.saves_index id)) [
    | inr f ↦ rw f (
      id ∷ [],
      sym (keep_everything (keep (λ s. not (text_eq s.id id)) xs)) ∙ keep_fused id [] xs,
      λ h. absurd cc,
      λ t h. ground arith,
    )
    | inl f ↦
        let (gone, left, all, some_of) =
          delete_sessions-IsDeleted o ids (keep (λ s. not (text_eq s.id id)) xs) in
        rw f (
          id ∷ gone,
          left ∙ keep_fused id gone xs,
          λ h. ap (◌∷◌ id) (all h),
          λ t h. ground (arith, some_of t),
        )
  ])
]

text_eq_distinct : (s t : Text) → s ≢ t → text_eq s t ≡ false
text_eq_distinct s t h = elim (Bool-cases (text_eq s t)) [
  | inl e ↦ absurd (h (text_eq_sound s t e))
  | inr e ↦ e
]

module _ (cutoff : ℕ) where
  abbrev pub ids_in : List SessionInfo → List Text
  ids_in xs = map (λ s. s.id) (keep (is_deletable cutoff) xs)

  ids_in_distinct :
      (id : Text) (xs : List SessionInfo)
      → All (λ r. id ≢ r.id) xs
      → contains (ids_in xs) id ≡ false
  ids_in_distinct id [] h = refl
  ids_in_distinct id (x ∷ xs) h = go (is_deletable cutoff x) (ids_in_distinct id xs h.1)
    where
      go :
          (b : Bool)
          → contains (ids_in xs) id ≡ false
          → contains
              (map
                (λ s. s.id)
                (if b then x ∷ keep (is_deletable cutoff) xs else keep (is_deletable cutoff) xs))
              id
            ≡ false
      go true rest = rw (text_eq_distinct id x.id h.0) rest
      go false rest = rest

  -- The ids tell what is deletable.
  abbrev pub IsTold : List Text → SessionInfo → Type 0
  IsTold ids s = contains ids s.id ≡ is_deletable cutoff s

  pub ids_in-IsTold : (xs : List SessionInfo) → HasUniqueIds xs → All (IsTold (ids_in xs)) xs
  ids_in-IsTold [] u = tt
  ids_in-IsTold (x ∷ xs) u = go (is_deletable cutoff x) refl (ids_in-IsTold xs u.1)
    where
      go :
          (b : Bool)
          → is_deletable cutoff x ≡ b
          → All (IsTold (ids_in xs)) xs
          → All
              (IsTold (
                map
                  (λ s. s.id)
                  (if b then x ∷ keep (is_deletable cutoff) xs else keep (is_deletable cutoff) xs)))
              (x ∷ xs)
      go true e rest = (
        ground (arith, text_eq_refl x.id),
        All-mono (λ s k. rw (text_eq_distinct s.id x.id (λ q. k.1 (sym q))) k.0) xs
            (All-and _ _ xs rest u.0),
      )
      go false e rest = (ids_in_distinct x.id xs u.0 ∙ sym e, rest)
