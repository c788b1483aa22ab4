-- ===== src/Workflow/Store/Twice.antt =====
-- `list_and_advance_due` takes nothing twice.
use corivo_desktop.Base.{
  ℕ, ◌≡◌, refl, ◌∙◌, ◌⊎◌, inl, inr, Bool, true, false, ◌&&◌, List, [], ◌∷◌, map, arith, Bool-cases,
  Option-cases, All, any, keep, All-keep, All-mono, ◌≤◌, ◌<◌,
}
use corivo_desktop.Base.Text.{text_eq, text_eq_refl}
use corivo_desktop.Workflow.Trigger.{WorkflowTrigger, Calendar, validate, next_after, valid}
use corivo_desktop.Workflow.Trigger.Later.{next_after-later}
use corivo_desktop.Workflow.Store.{
  WorkflowSchedule, WorkflowStore, is_past, is_due, order_by_next_run, advance, advance_all,
  list_and_advance_due,
}
use corivo_desktop.Workflow.Store.Due.{any-keep, any-order_by_next_run, All-order_by_next_run}

keep_none :
    (p : WorkflowSchedule → Bool) (rows : List WorkflowSchedule)
    → All (λ r. p r ≡ false) rows
    → keep p rows ≡ []
keep_none p [] h = refl
keep_none p (r ∷ rs) h = rw (h.0) (keep_none p rs h.1)

module _ (C : Calendar) (now later : ℕ) (before : later ≤ now) where
  -- The row is not due at `later`, or one of `dues` still moves it on.
  abbrev IsSettled : List WorkflowSchedule → WorkflowSchedule → Type 0
  IsSettled dues r = (is_due later r ≡ false) ⊎ (any (λ d. text_eq r.slug d.slug) dues ≡ true)

  abbrev IsValid : WorkflowSchedule → Type 0
  IsValid d = validate C d.trigger ≡ valid

  not_past :
      (trigger : WorkflowTrigger)
      → validate C trigger ≡ valid
      → is_past later (next_after C trigger now) ≡ false
  not_past trigger v = elim (Option-cases (next_after C trigger now)) [
    | inl e ↦ rw e refl
    | inr (u, e) ↦ let after : now < u = next_after-later C trigger now u v e in rw e (ground arith)
  ]

  advance-IsSettled :
      (d r : WorkflowSchedule) (ds : List WorkflowSchedule)
      → IsValid d
      → IsSettled (d ∷ ds) r
      → IsSettled ds (advance C now d r)
  advance-IsSettled d r ds v h = elim (Bool-cases (text_eq r.slug d.slug)) [
    | inl e ↦ inl (rw e (rw (not_past d.trigger v) (ground arith)))
    | inr e ↦ rw e (still e h)
  ]
    where
      still : text_eq r.slug d.slug ≡ false → IsSettled (d ∷ ds) r → IsSettled ds r
      still e (inl idle) = inl idle
      still e (inr moved) = inr (ground arith)

  map-advance-IsSettled :
      (d : WorkflowSchedule) (ds rows : List WorkflowSchedule)
      → IsValid d
      → All (IsSettled (d ∷ ds)) rows
      → All (IsSettled ds) (map (advance C now d) rows)
  map-advance-IsSettled d ds [] v h = tt
  map-advance-IsSettled d ds (r ∷ rs) v h =
      (advance-IsSettled d r ds v h.0, map-advance-IsSettled d ds rs v h.1)

  advance_all-IsSettled :
      (dues rows : List WorkflowSchedule)
      → All IsValid dues
      → All (IsSettled dues) rows
      → All (λ r. is_due later r ≡ false) (advance_all C now dues rows)
  advance_all-IsSettled [] rows v h = All-mono settled rows h
    where
      settled : (r : WorkflowSchedule) → IsSettled [] r → is_due later r ≡ false
      settled r (inl idle) = idle
      settled r (inr moved) = ground arith
  advance_all-IsSettled (d ∷ ds) rows v h =
      advance_all-IsSettled ds (map (advance C now d) rows) v.1
        (map-advance-IsSettled d ds rows v.0 h)

  later-is_due : (r : WorkflowSchedule) → is_due later r ≡ true → is_due now r ≡ true
  later-is_due r h = ground arith

  widen :
      (q : WorkflowSchedule) (qs : List WorkflowSchedule) (r : WorkflowSchedule)
      → (is_due later r ≡ false) ⊎ (any (λ d. is_due now d && text_eq r.slug d.slug) qs ≡ true)
      → (is_due later r ≡ false)
        ⊎ (any (λ d. is_due now d && text_eq r.slug d.slug) (q ∷ qs) ≡ true)
  widen q qs r (inl idle) = inl idle
  widen q qs r (inr found) = inr (ground arith)

  self_found :
      (rows : List WorkflowSchedule)
      → All
          (λ r.
            (is_due later r ≡ false)
            ⊎ (any (λ d. is_due now d && text_eq r.slug d.slug) rows ≡ true))
          rows
  self_found [] = tt
  self_found (q ∷ qs) = (first, All-mono (widen q qs) qs (self_found qs))
    where
      first :
          (is_due later q ≡ false)
          ⊎ (any (λ d. is_due now d && text_eq q.slug d.slug) (q ∷ qs) ≡ true)
      first = elim (Bool-cases (is_due later q)) [
        | inl due ↦ inr (rw (later-is_due q due) (rw (text_eq_refl q.slug) refl))
        | inr idle ↦ inl idle
      ]

  rows-IsSettled :
      (rows : List WorkflowSchedule)
      → All (IsSettled (order_by_next_run (keep (is_due now) rows))) rows
  rows-IsSettled rows = All-mono found rows (self_found rows)
    where
      found :
          (r : WorkflowSchedule)
          → (is_due later r ≡ false)
            ⊎ (any (λ d. is_due now d && text_eq r.slug d.slug) rows ≡ true)
          → IsSettled (order_by_next_run (keep (is_due now) rows)) r
      found r (inl idle) = inl idle
      found r (inr due) = inr (
          any-order_by_next_run (λ d. text_eq r.slug d.slug) (keep (is_due now) rows)
          ∙ any-keep (λ d. text_eq r.slug d.slug) (is_due now) rows
          ∙ due)

-- If every stored trigger was accepted by `validate`, then once the store has handed out what was due,
-- another call at the same instant or an earlier one finds nothing.
pub list_and_advance_due_twice :
    (C : Calendar) (now later : ℕ) (s : WorkflowStore)
    → later ≤ now
    → All (λ r. validate C r.trigger ≡ valid) s.schedules
    → (list_and_advance_due C later (list_and_advance_due C now s).1).0 ≡ []
unfolding list_and_advance_due
list_and_advance_due_twice C now later s before v =
    let due = order_by_next_run (keep (is_due now) s.schedules) in
    let settled =
      advance_all-IsSettled C now later before due s.schedules
        (All-order_by_next_run _ (keep (is_due now) s.schedules)
          (All-keep _ (is_due now) s.schedules v))
        (rows-IsSettled C now later before s.schedules) in
    rw (keep_none (is_due later) (advance_all C now due s.schedules) settled) refl
