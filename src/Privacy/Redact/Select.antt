-- ===== src/Privacy/Redact/Select.antt =====
-- Which spans `redact` goes through: the greedy choice by length, and its order.
use corivo_desktop.Base.{
  ℕ, ◌+◌, ◌≤◌, ◌<◌, ◌⊎◌, inl, inr, List, [], ◌∷◌, ◌++◌, arith, leb, Bool, keep, Bool-cases, any,
  All, All-append, any_false→All,
}
use corivo_desktop.Privacy.Label.{PiiSpan, CategoryToggles}
use corivo_desktop.Privacy.Redact.{
  insert_by, sort_by, accept, chosen, overlaps, is_active, longer_first, later_first,
}
use corivo_desktop.Privacy.Redact.Sort.{All-sort_by}
use corivo_desktop.Privacy.Redact.Render.{Desc, in_bounds}

module _ {S : Type 0} where
  abbrev Apart : PiiSpan S → PiiSpan S → Type 0
  Apart s k = (s.end ≤ k.start) ⊎ (k.end ≤ s.start)

  abbrev Disjoint : List (PiiSpan S) → Type 0
  Disjoint [] = Unit {0}
  Disjoint (x ∷ xs) = All (Apart x) xs × Disjoint xs

  abbrev pub Proper : PiiSpan S → Type 0
  Proper s = s.start < s.end

  Disjoint-push :
      (xs : List (PiiSpan S)) (s : PiiSpan S)
      → Disjoint xs
      → All (Apart s) xs
      → Disjoint (xs ++ s ∷ [])
  Disjoint-push [] s d h = (tt, tt)
  Disjoint-push (x ∷ xs) s d h =
      (All-append (Apart x) xs (s ∷ []) d.0 (omega arith, tt), Disjoint-push xs s d.1 h.1)

  accept-Disjoint : (acc rest : List (PiiSpan S)) → Disjoint acc → Disjoint (accept acc rest)
  unfolding accept
  accept-Disjoint acc [] d = d
  accept-Disjoint acc (s ∷ rest) d = elim (Bool-cases (any (overlaps s) acc)) [
    | inl e ↦ rw e (accept-Disjoint acc rest d)
    | inr e ↦ rw e (
        accept-Disjoint (acc ++ s ∷ []) rest (
          Disjoint-push acc s d (any_false→All (Apart s) (overlaps s) (λ k f. ground arith) acc e)))
  ]

  pub accept-All :
      (P : PiiSpan S → Type 0) (acc rest : List (PiiSpan S))
      → All P acc
      → All P rest
      → All P (accept acc rest)
  unfolding accept
  accept-All P acc [] h k = h
  accept-All P acc (s ∷ rest) h k = elim (Bool-cases (any (overlaps s) acc)) [
    | inl e ↦ rw e (accept-All P acc rest h k.1)
    | inr e ↦ rw e (accept-All P (acc ++ s ∷ []) rest (All-append P acc (s ∷ []) h (k.0, tt)) k.1)
  ]

  -- Sorting disjoint spans by their start.
  insert_by-Desc :
      (hi : ℕ) (x : PiiSpan S) (xs : List (PiiSpan S))
      → Desc hi xs
      → Proper x
      → x.end ≤ hi
      → All (Apart x) xs
      → Desc hi (insert_by later_first x xs)
  unfolding insert_by
  insert_by-Desc hi x [] d p h a = (h, p, tt)
  insert_by-Desc hi x (y ∷ ys) d p h a = elim (Bool-cases (leb y.start x.start)) [
    | inl e ↦ rw e (h, p, (ground arith, d.1, d.2))
    | inr e ↦ rw e (d.0, d.1, insert_by-Desc y.start x ys d.2 p (ground arith) a.1)
  ]

  sort_by-Desc :
      (hi : ℕ) (xs : List (PiiSpan S))
      → Disjoint xs
      → All Proper xs
      → All (λ s. s.end ≤ hi) xs
      → Desc hi (sort_by later_first xs)
  unfolding sort_by
  sort_by-Desc hi [] d p h = tt
  sort_by-Desc hi (x ∷ xs) d p h =
      insert_by-Desc hi x (sort_by later_first xs) (sort_by-Desc hi xs d.1 p.1 h.1) p.0 h.0
        (All-sort_by (Apart x) later_first xs d.0)

  abbrev ends : List (PiiSpan S) → ℕ
  ends [] = 0
  ends (x ∷ xs) = x.end + ends xs

  All-ends : (k : ℕ) (xs : List (PiiSpan S)) → ends xs ≤ k → All (λ s. s.end ≤ k) xs
  All-ends k [] h = tt
  All-ends k (x ∷ xs) h = (omega arith, All-ends k xs (omega arith))

  Desc-mono : (lo hi : ℕ) (ds : List (PiiSpan S)) → lo ≤ hi → Desc lo ds → Desc hi ds
  Desc-mono lo hi [] h d = tt
  Desc-mono lo hi (s ∷ ds) h d = (omega arith, d.1, d.2)

  keep-Desc :
      (p : PiiSpan S → Bool) (hi : ℕ) (ds : List (PiiSpan S)) → Desc hi ds → Desc hi (keep p ds)
  keep-Desc p hi [] d = tt
  keep-Desc p hi (s ∷ ds) d = elim (Bool-cases (p s)) [
    | inl e ↦ rw e (d.0, d.1, keep-Desc p s.start ds d.2)
    | inr e ↦ rw e (Desc-mono s.start hi (keep p ds) (omega arith) (keep-Desc p s.start ds d.2))
  ]

  keep-in_bounds-Desc :
      (total hi : ℕ) (ds : List (PiiSpan S)) → Desc hi ds → Desc total (keep (in_bounds total) ds)
  keep-in_bounds-Desc total hi [] d = tt
  keep-in_bounds-Desc total hi (s ∷ ds) d = elim (Bool-cases (in_bounds total s)) [
    | inl e ↦ rw e (ground arith, d.1, keep-Desc (in_bounds total) s.start ds d.2)
    | inr e ↦ rw e (keep-in_bounds-Desc total s.start ds d.2)
  ]

  pub keep_active-Proper :
      (t : CategoryToggles) (xs : List (PiiSpan S)) → All Proper (keep (is_active t) xs)
  keep_active-Proper t [] = tt
  keep_active-Proper t (s ∷ xs) = elim (Bool-cases (is_active t s)) [
    | inl e ↦ rw e (ground arith, keep_active-Proper t xs)
    | inr e ↦ rw e (keep_active-Proper t xs)
  ]

  pub chosen-Desc :
      (spans : List (PiiSpan S)) (t : CategoryToggles) (total : ℕ)
      → Desc total (keep (in_bounds total) (chosen spans t))
  unfolding chosen
  chosen-Desc spans t total =
      let by_length = sort_by longer_first (keep (is_active t) spans) in
      let accepted = accept [] by_length in
      keep-in_bounds-Desc total (ends accepted) (sort_by later_first accepted) (
        sort_by-Desc (ends accepted) accepted (accept-Disjoint [] by_length tt)
          (accept-All Proper [] by_length tt
            (All-sort_by Proper longer_first _ (keep_active-Proper t spans)))
          (All-ends (ends accepted) accepted (omega arith)))
