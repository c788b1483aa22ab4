-- ===== src/Privacy/Redact/Redacted.antt =====
-- What `redact` returns, and which of the enabled spans it covers.
use mathlib.Core.List.{append-nil}
use corivo_desktop.Base.{
  ◌≤◌, ◌<◌, ◌≡◌, ◌∙◌, inl, inr, List, [], ◌∷◌, ◌++◌, arith, length, some, take, if◌then◌else◌, Bool,
  keep, Bool-cases, any, All, Any, All-append, ap, All-mono, Any-mono, Any-append_left,
  Any-append_right, any→Any, sym, subst, List-cases, Any-All,
}
use corivo_desktop.Base.Text.{Text}
use corivo_desktop.Privacy.Label.{PiiSpan, CategoryToggles}
use corivo_desktop.Privacy.Redact.{
  insert_by, sort_by, accept, chosen, overlaps, span_len, is_active, longer_first, later_first,
  redact, replace_all,
}
use corivo_desktop.Privacy.Redact.Sort.{All-insert_by, All-sort_by, All-of_sort_by, Any-sort_by}
use corivo_desktop.Privacy.Redact.Render.{
  in_bounds, render, replace_all-Desc, replace_all-keep, take_all,
}
use corivo_desktop.Privacy.Redact.Select.{chosen-Desc, keep_active-Proper}

module _ {S : Type 0} where
  chosen_of_inactive :
      (spans : List (PiiSpan S)) (t : CategoryToggles)
      → keep (is_active t) spans ≡ []
      → chosen spans t ≡ []
  unfolding chosen accept sort_by
  chosen_of_inactive spans t e = rw e

  replace_chosen :
      (text : Text) (spans : List (PiiSpan S)) (t : CategoryToggles)
      → replace_all (length text) (chosen spans t) text
        ≡ some (render text (length text) (keep (in_bounds (length text)) (chosen spans t)))
  replace_chosen text spans t =
      let n = length text in
      let ds = keep (in_bounds n) (chosen spans t) in
      replace_all-keep n (chosen spans t) text
      ∙ ap (replace_all n ds) (sym (append-nil (take n text) ∙ take_all text))
      ∙ replace_all-Desc n n ds text [] (omega arith) (omega arith) (chosen-Desc spans t n)
      ∙ ap some (append-nil (render text n ds))

  -- `redact` does not panic, and returns the original text with the placeholder of each chosen span
  -- that ends within the text in place of that span's characters, and with nothing else changed.
  pub redact-render :
      (text : Text) (spans : List (PiiSpan S)) (t : CategoryToggles)
      → redact text spans t
        ≡ some (render text (length text) (keep (in_bounds (length text)) (chosen spans t)))
  unfolding redact
  redact-render text spans t = elim (List-cases (keep (is_active t) spans)) [
    | inl e ↦ rw (e, redact, chosen_of_inactive spans t e) (ap some (sym (take_all text)))
    | inr (x, xs, e) ↦ rw (e, redact) (replace_chosen text spans t)
  ]

  -- The span `k` shares characters with `s` and is at least as long.
  abbrev pub Covers : PiiSpan S → PiiSpan S → Type 0
  Covers s k = (s.start < k.end) × (k.start < s.end) × (span_len s ≤ span_len k)

  abbrev LongestFirst : List (PiiSpan S) → Type 0
  LongestFirst [] = Unit {0}
  LongestFirst (x ∷ xs) = All (λ y. span_len y ≤ span_len x) xs × LongestFirst xs

  insert_by-LongestFirst :
      (x : PiiSpan S) (xs : List (PiiSpan S))
      → LongestFirst xs
      → LongestFirst (insert_by longer_first x xs)
  unfolding insert_by
  insert_by-LongestFirst x [] h = (tt, tt)
  insert_by-LongestFirst x (y ∷ ys) h = elim (Bool-cases (longer_first x y)) [
    | inl e ↦
        let le : span_len y ≤ span_len x = ground arith in
        rw e ((le, All-mono (λ z k. omega arith) ys h.0), h)
    | inr e ↦
        let le : span_len x ≤ span_len y = ground arith in
        rw e (
          All-insert_by (λ z. span_len z ≤ span_len y) longer_first x ys le h.0,
          insert_by-LongestFirst x ys h.1,
        )
  ]

  sort_by-LongestFirst : (xs : List (PiiSpan S)) → LongestFirst (sort_by longer_first xs)
  unfolding sort_by
  sort_by-LongestFirst [] = tt
  sort_by-LongestFirst (x ∷ xs) =
      insert_by-LongestFirst x (sort_by longer_first xs) (sort_by-LongestFirst xs)

  accept-Any :
      (P : PiiSpan S → Type 0) (acc rest : List (PiiSpan S)) → Any P acc → Any P (accept acc rest)
  unfolding accept
  accept-Any P acc [] h = h
  accept-Any P acc (s ∷ rest) h = elim (Bool-cases (any (overlaps s) acc)) [
    | inl e ↦ rw e (accept-Any P acc rest h)
    | inr e ↦ rw e (accept-Any P (acc ++ s ∷ []) rest (Any-append_left P acc (s ∷ []) h))
  ]

  -- Every span in `acc` is at least as long as every one in `rest`.
  abbrev Longer : List (PiiSpan S) → List (PiiSpan S) → Type 0
  Longer acc rest = All (λ k. All (λ s. span_len s ≤ span_len k) rest) acc

  accept_step :
      (acc : List (PiiSpan S)) (s : PiiSpan S) (rest : List (PiiSpan S)) {b : Bool}
      → any (overlaps s) acc ≡ b
      → accept acc (s ∷ rest) ≡ accept (if b then acc else acc ++ s ∷ []) rest
  unfolding accept
  accept_step acc s rest e = rw e

  covered :
      (acc rest : List (PiiSpan S))
      → LongestFirst rest
      → Longer acc rest
      → All (λ s. s.start < s.end) rest
      → All (λ s. Any (Covers s) (accept acc rest)) rest
  covered acc [] l b p = tt
  covered acc (s ∷ rest) l b p = elim (Bool-cases (any (overlaps s) acc)) [
    | inl e ↦
        let hit : Any (λ k. (s.start < k.end) × (k.start < s.end)) acc =
          any→Any _ (overlaps s) (λ k f. ground arith) acc e in
        let both : Any (Covers s) acc =
          Any-mono (λ k h. (h.1.0, h.1.1, h.0.0)) acc (Any-All _ _ acc b hit) in
        subst (λ r. All (λ z. Any (Covers z) r) (s ∷ rest)) (sym (accept_step acc s rest e))
          (
            accept-Any (Covers s) acc rest both,
            covered acc rest l.1 (All-mono (λ k h. h.1) acc b) p.1,
          )
    | inr e ↦
        let acc' = acc ++ s ∷ [] in
        let b' : Longer acc' rest =
          All-append _ acc (s ∷ []) (All-mono (λ k h. h.1) acc b) (l.0, tt) in
        let self : Any (Covers s) acc' =
          Any-append_right (Covers s) acc (s ∷ []) (inl (p.0, p.0, omega arith)) in
        subst (λ r. All (λ z. Any (Covers z) r) (s ∷ rest)) (sym (accept_step acc s rest e))
          (accept-Any (Covers s) acc' rest self, covered acc' rest l.1 b' p.1)
  ]

  -- Every non-empty span of an enabled category shares characters with a chosen span that is at least as
  -- long.
  pub chosen-Covers :
      (spans : List (PiiSpan S)) (t : CategoryToggles)
      → All (λ s. Any (Covers s) (chosen spans t)) (keep (is_active t) spans)
  unfolding chosen
  chosen-Covers spans t =
      let active = keep (is_active t) spans in
      let by_length = sort_by longer_first active in
      All-mono (λ s h. Any-sort_by (Covers s) later_first (accept [] by_length) h) active
        (All-of_sort_by _ longer_first active (
          covered [] by_length (sort_by-LongestFirst active) tt
            (All-sort_by _ longer_first active (keep_active-Proper t spans))))
