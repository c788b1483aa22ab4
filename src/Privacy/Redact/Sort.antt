-- ===== src/Privacy/Redact/Sort.antt =====
-- The stable `sort_by` keeps the elements of a list.
use mathlib.Core.List.{Perm}
use mathlib.Core.List.Perm
use corivo_desktop.Base.{◌≡◌, true, false, ◌⊎◌, inl, inr, Bool, List, [], ◌∷◌, All, Any, Bool-cases}
use corivo_desktop.Privacy.Redact.{insert_by, sort_by}

module _ {ℓ} {A : Type ℓ} (P : A → Type 0) (precedes : A → A → Bool) where
  pub All-insert_by : (x : A) (xs : List A) → P x → All P xs → All P (insert_by precedes x xs)
  unfolding insert_by
  All-insert_by x [] p h = (p, tt)
  All-insert_by x (y ∷ ys) p h = elim (Bool-cases (precedes x y)) [
    | inl e ↦ rw e (p, h)
    | inr e ↦ rw e (h.0, All-insert_by x ys p h.1)
  ]

  pub All-sort_by : (xs : List A) → All P xs → All P (sort_by precedes xs)
  unfolding sort_by
  All-sort_by [] h = tt
  All-sort_by (x ∷ xs) h = All-insert_by x (sort_by precedes xs) h.0 (All-sort_by xs h.1)

  All-of_insert_by : (x : A) (xs : List A) → All P (insert_by precedes x xs) → P x × All P xs
  unfolding insert_by
  All-of_insert_by x [] h = h
  All-of_insert_by x (y ∷ ys) h = elim (Bool-cases (precedes x y)) [
    | inl e ↦ rw e at h
    | inr e ↦
        let h' : P y × All P (insert_by precedes x ys) = (rw e at h) in
        let (p, rest) = All-of_insert_by x ys h'.1 in (p, (h'.0, rest))
  ]

  pub All-of_sort_by : (xs : List A) → All P (sort_by precedes xs) → All P xs
  unfolding sort_by
  All-of_sort_by [] h = tt
  All-of_sort_by (x ∷ xs) h =
      let (p, rest) = All-of_insert_by x (sort_by precedes xs) h in (p, All-of_sort_by xs rest)

  Any-insert_by : (x : A) (xs : List A) → P x ⊎ Any P xs → Any P (insert_by precedes x xs)
  unfolding insert_by
  Any-insert_by x [] h = h
  Any-insert_by x (y ∷ ys) (inl p) = elim (Bool-cases (precedes x y)) [
    | inl e ↦ rw e (inl p)
    | inr e ↦ rw e (inr (Any-insert_by x ys (inl p)))
  ]
  Any-insert_by x (y ∷ ys) (inr (inl p)) = elim (Bool-cases (precedes x y)) [
    | inl e ↦ rw e (inr (inl p))
    | inr e ↦ rw e (inl p)
  ]
  Any-insert_by x (y ∷ ys) (inr (inr p)) = elim (Bool-cases (precedes x y)) [
    | inl e ↦ rw e (inr (inr p))
    | inr e ↦ rw e (inr (Any-insert_by x ys (inr p)))
  ]

  pub Any-sort_by : (xs : List A) → Any P xs → Any P (sort_by precedes xs)
  unfolding sort_by
  Any-sort_by [] h = h
  Any-sort_by (x ∷ xs) (inl p) = Any-insert_by x (sort_by precedes xs) (inl p)
  Any-sort_by (x ∷ xs) (inr p) = Any-insert_by x (sort_by precedes xs) (inr (Any-sort_by xs p))

module _ {A : Type 0} (precedes : A → A → Bool) where
  insert_by-Perm : (x : A) (xs : List A) → Perm (x ∷ xs) (insert_by precedes x xs)
  unfolding insert_by
  insert_by-Perm x [] = Perm.refl (x ∷ [])
  insert_by-Perm x (y ∷ ys) = elim (Bool-cases (precedes x y)) [
    | inl e ↦ rw e (Perm.refl (x ∷ (y ∷ ys)))
    | inr e ↦ rw e (Perm.trans (Perm.swap y x ys) (Perm.cons y (insert_by-Perm x ys)))
  ]

  pub sort_by-Perm : (xs : List A) → Perm xs (sort_by precedes xs)
  unfolding sort_by
  sort_by-Perm [] = Perm.refl []
  sort_by-Perm (x ∷ xs) =
      Perm.trans (Perm.cons x (sort_by-Perm xs)) (insert_by-Perm x (sort_by precedes xs))

-- Each element is so related to the next one.
abbrev pub IsLinked : {A : Type 0} → (A → A → Type 0) → List A → Type 0
IsLinked Q [] = Unit {0}
IsLinked Q (x ∷ []) = Unit {0}
IsLinked Q (x ∷ (y ∷ ys)) = Q x y × IsLinked Q (y ∷ ys)

module _ {A : Type 0} (Q : A → A → Type 0) (precedes : A → A → Bool)
    (before : (a b : A) → precedes a b ≡ true → Q a b)
    (after : (a b : A) → precedes a b ≡ false → Q b a) where
  insert_by-IsLinked_after :
      (y x : A) (zs : List A)
      → Q y x
      → IsLinked Q (y ∷ zs)
      → IsLinked Q (insert_by precedes x zs)
      → IsLinked Q (y ∷ insert_by precedes x zs)
  unfolding insert_by
  insert_by-IsLinked_after y x [] q h = λ ih. (q, tt)
  insert_by-IsLinked_after y x (z ∷ zs) q h = elim (Bool-cases (precedes x z)) [
    | inl e ↦ rw e (λ ih. (q, ih))
    | inr e ↦ rw e (λ ih. (h.0, ih))
  ]

  IsLinked-tail : (y : A) (ys : List A) → IsLinked Q (y ∷ ys) → IsLinked Q ys
  IsLinked-tail y [] h = tt
  IsLinked-tail y (z ∷ zs) h = h.1

  insert_by-IsLinked : (x : A) (ys : List A) → IsLinked Q ys → IsLinked Q (insert_by precedes x ys)
  unfolding insert_by
  insert_by-IsLinked x [] h = tt
  insert_by-IsLinked x (y ∷ ys) h = elim (Bool-cases (precedes x y)) [
    | inl e ↦ rw e (before x y e, h)
    | inr e ↦ rw e (
        insert_by-IsLinked_after y x ys (after x y e) h
          (insert_by-IsLinked x ys (IsLinked-tail y ys h)))
  ]

  pub sort_by-IsLinked : (xs : List A) → IsLinked Q (sort_by precedes xs)
  unfolding sort_by
  sort_by-IsLinked [] = tt
  sort_by-IsLinked (x ∷ xs) = insert_by-IsLinked x (sort_by precedes xs) (sort_by-IsLinked xs)
