-- ===== src/Workflow/Store/Due.antt =====
-- What `list_and_advance_due` takes and what it makes of the rows, and that it takes nothing twice.
use corivo_desktop.Base.{
  ℕ, ◌≡◌, ◌≢◌, refl, sym, ap, ◌∙◌, subst, inl, inr, Bool, true, false, ◌&&◌, ◌||◌, not, List, [],
  ◌∷◌, map, Option, none, some, arith, leb, if◌then◌else◌, Bool-cases, Option-cases, All, any, keep,
  All-keep, All-mono,
}
use corivo_desktop.Base.Text.{Text, text_eq, text_eq_sound, text_eq_refl}
use corivo_desktop.Capture.Frame.{map_option}
use corivo_desktop.Workflow.Trigger.{Calendar, next_after}
use corivo_desktop.Workflow.Store.{
  at_or_zero, WorkflowSchedule, WorkflowStore, find_schedule, get_schedule, is_due, insert_due,
  order_by_next_run, is_once, advance, advance_all, dispatched, list_and_advance_due,
}

-- `slug` is the primary key.
abbrev pub IsUnique : List WorkflowSchedule → Type 0
IsUnique [] = Unit
IsUnique (r ∷ rs) = All (λ q. q.slug ≢ r.slug) rs × IsUnique rs

any-insert_due :
    (p : WorkflowSchedule → Bool) (r : WorkflowSchedule) (rs : List WorkflowSchedule)
    → any p (insert_due r rs) ≡ any p (r ∷ rs)
any-insert_due p r [] = refl
any-insert_due p r (q ∷ qs) = ground (arith, any-insert_due p r qs)

pub any-order_by_next_run :
    (p : WorkflowSchedule → Bool) (rs : List WorkflowSchedule)
    → any p (order_by_next_run rs) ≡ any p rs
any-order_by_next_run p [] = refl
any-order_by_next_run p (r ∷ rs) =
    any-insert_due p r (order_by_next_run rs) ∙ ap (λ b. p r || b) (any-order_by_next_run p rs)

pub any-keep :
    (p q : WorkflowSchedule → Bool) (rs : List WorkflowSchedule)
    → any p (keep q rs) ≡ any (λ r. q r && p r) rs
any-keep p q [] = refl
any-keep p q (r ∷ rs) = ground (arith, any-keep p q rs)

All-insert_due :
    (P : WorkflowSchedule → Type 0) (r : WorkflowSchedule) (rs : List WorkflowSchedule)
    → P r
    → All P rs
    → All P (insert_due r rs)
All-insert_due P r [] h hs = (h, tt)
All-insert_due P r (q ∷ qs) h hs =
    placed (leb (at_or_zero r.next_run_at) (at_or_zero q.next_run_at))
      (All-insert_due P r qs h hs.1)
  where
    placed :
        (b : Bool)
        → All P (insert_due r qs)
        → All P (if b then r ∷ (q ∷ qs) else q ∷ insert_due r qs)
    placed true rest = (h, hs)
    placed false rest = (hs.0, rest)

pub All-order_by_next_run :
    (P : WorkflowSchedule → Type 0) (rs : List WorkflowSchedule)
    → All P rs
    → All P (order_by_next_run rs)
All-order_by_next_run P [] h = tt
All-order_by_next_run P (r ∷ rs) h =
    All-insert_due P r (order_by_next_run rs) h.0 (All-order_by_next_run P rs h.1)

pub text_eq_differs : (s t : Text) → text_eq s t ≡ false → s ≢ t
text_eq_differs s t h e =
    let same : text_eq s t ≡ true = subst (λ u. text_eq s u ≡ true) e (text_eq_refl s) in
    ground arith

-- The row of `r`'s slug among `rows` is `r`.
abbrev OnlyRow : WorkflowSchedule → List WorkflowSchedule → Type 0
OnlyRow r rows = All (λ d. d.slug ≡ r.slug → d ≡ r) rows

find_schedule-slug :
    (slug : Text) (rows : List WorkflowSchedule) (r : WorkflowSchedule)
    → find_schedule slug rows ≡ some r
    → r.slug ≡ slug
find_schedule-slug slug [] r h = ground arith
find_schedule-slug slug (q ∷ qs) r h = elim (Bool-cases (text_eq q.slug slug)) [
  | inl e ↦
      let same : q ≡ r = ground arith in
      subst {A = WorkflowSchedule} (λ x. x.slug ≡ slug) same (text_eq_sound q.slug slug e)
  | inr e ↦ find_schedule-slug slug qs r (ground arith)
]

find_schedule-OnlyRow :
    (slug : Text) (rows : List WorkflowSchedule) (r : WorkflowSchedule)
    → IsUnique rows
    → find_schedule slug rows ≡ some r
    → OnlyRow r rows
find_schedule-OnlyRow slug [] r u h = tt
find_schedule-OnlyRow slug (q ∷ qs) r u h =
    let named : r.slug ≡ slug = find_schedule-slug slug (q ∷ qs) r h in
    elim (Bool-cases (text_eq q.slug slug)) [
      | inl e ↦
          let same : q ≡ r = ground arith in
          (
            λ k. same,
            All-mono
                (λ d differs k.
                  absurd (differs (k ∙ sym (ap {A = WorkflowSchedule} (λ x. x.slug) same))))
                qs u.0,
          )
      | inr e ↦ (
        λ k. absurd (text_eq_differs q.slug slug e (k ∙ named)),
        find_schedule-OnlyRow slug qs r u.1 (ground arith),
      )
    ]

none-due :
    (now : ℕ) (rows : List WorkflowSchedule) (r : WorkflowSchedule)
    → All (λ q. q.slug ≢ r.slug) rows
    → any (λ d. is_due now d && text_eq r.slug d.slug) rows ≡ false
none-due now [] r h = refl
none-due now (q ∷ qs) r h = elim (Bool-cases (text_eq r.slug q.slug)) [
  | inl e ↦ absurd (h.0 (sym (text_eq_sound r.slug q.slug e)))
  | inr e ↦ ground (arith, none-due now qs r h.1)
]

-- Looking for what is due with `r`'s slug finds `r`, if it is due.
any-due :
    (slug : Text) (now : ℕ) (rows : List WorkflowSchedule) (r : WorkflowSchedule)
    → IsUnique rows
    → find_schedule slug rows ≡ some r
    → any (λ d. is_due now d && text_eq r.slug d.slug) rows ≡ is_due now r
any-due slug now [] r u h = ground arith
any-due slug now (q ∷ qs) r u h =
    let named : r.slug ≡ slug = find_schedule-slug slug (q ∷ qs) r h in
    elim (Bool-cases (text_eq q.slug slug)) [
      | inl e ↦
          let same : q ≡ r = ground arith in
          let rest =
            none-due now qs r
              (subst {A = WorkflowSchedule} (λ x. All (λ d. d.slug ≢ x.slug) qs) same u.0) in
          subst {A = WorkflowSchedule}
            (λ x. any (λ d. is_due now d && text_eq r.slug d.slug) (x ∷ qs) ≡ is_due now r)
            (sym same) (rw (text_eq_refl r.slug) (rw rest (ground arith)))
      | inr e ↦ elim (Bool-cases (text_eq r.slug q.slug)) [
        | inl k ↦
            absurd (text_eq_differs q.slug slug e (sym (text_eq_sound r.slug q.slug k) ∙ named))
        | inr k ↦ ground (arith, any-due slug now qs r u.1 (ground arith))
      ]
    ]

module _ (C : Calendar) where
  find_schedule-advance :
      (slug : Text) (now : ℕ) (due : WorkflowSchedule) (rows : List WorkflowSchedule)
      → find_schedule slug (map (advance C now due) rows)
        ≡ map_option (advance C now due) (find_schedule slug rows)
  find_schedule-advance slug now due [] = refl
  find_schedule-advance slug now due (r ∷ rs) =
      ground (arith, find_schedule-advance slug now due rs)

  abbrev advances : ℕ → List WorkflowSchedule → WorkflowSchedule → WorkflowSchedule
  advances now [] r = r
  advances now (due ∷ dues) r = advances now dues (advance C now due r)

  find_schedule-advance_all :
      (slug : Text) (now : ℕ) (dues rows : List WorkflowSchedule)
      → find_schedule slug (advance_all C now dues rows)
        ≡ map_option (advances now dues) (find_schedule slug rows)
  find_schedule-advance_all slug now [] rows = map_option_id (find_schedule slug rows)
    where
      map_option_id : (o : Option WorkflowSchedule) → o ≡ map_option (advances now []) o
      map_option_id none = refl
      map_option_id (some r) = refl
  find_schedule-advance_all slug now (due ∷ dues) rows =
      find_schedule-advance_all slug now dues (map (advance C now due) rows)
      ∙ (rw (find_schedule-advance slug now due rows) (ground arith))

  abbrev pub advanced : ℕ → WorkflowSchedule → WorkflowSchedule
  advanced now r = record r {
    next_run_at = next_after C r.trigger now;
    enabled = not (is_once r.trigger);
    updated_at = now;
  }

  advance_self : (now : ℕ) (r : WorkflowSchedule) → advance C now r r ≡ advanced now r
  advance_self now r = ground (arith, text_eq_refl r.slug)

  advance_again :
      (now : ℕ) (r : WorkflowSchedule) → advance C now r (advanced now r) ≡ advanced now r
  advance_again now r = ground (arith, text_eq_refl r.slug)

  advances-advanced :
      (now : ℕ) (dues : List WorkflowSchedule) (r : WorkflowSchedule)
      → OnlyRow r dues
      → advances now dues (advanced now r) ≡ advanced now r
  advances-advanced now [] r only = refl
  advances-advanced now (d ∷ ds) r only = elim (Bool-cases (text_eq r.slug d.slug)) [
    | inl e ↦
        let same : d ≡ r = only.0 (sym (text_eq_sound r.slug d.slug e)) in
        rw same (rw (advance_again now r) (advances-advanced now ds r only.1))
    | inr e ↦ rw e (advances-advanced now ds r only.1)
  ]

  advances_lem :
      (now : ℕ) (dues : List WorkflowSchedule) (r : WorkflowSchedule)
      → OnlyRow r dues
      → advances now dues r ≡ (if any (λ d. text_eq r.slug d.slug) dues then advanced now r else r)
  advances_lem now [] r only = refl
  advances_lem now (d ∷ ds) r only = elim (Bool-cases (text_eq r.slug d.slug)) [
    | inl e ↦
        let same : d ≡ r = only.0 (sym (text_eq_sound r.slug d.slug e)) in
        subst {A = WorkflowSchedule}
          (λ x.
            advances now (x ∷ ds) r
            ≡ (if any (λ d. text_eq r.slug d.slug) (x ∷ ds) then advanced now r else r))
          (sym same) (rw (text_eq_refl r.slug) (advances-advanced now ds r only.1))
    | inr e ↦ rw e (advances_lem now ds r only.1)
  ]

  advances-due :
      (slug : Text) (now : ℕ) (rows : List WorkflowSchedule) (r : WorkflowSchedule)
      → IsUnique rows
      → find_schedule slug rows ≡ some r
      → advances now (order_by_next_run (keep (is_due now) rows)) r
        ≡ (if is_due now r then advanced now r else r)
  advances-due slug now rows r u e =
      advances_lem now (order_by_next_run (keep (is_due now) rows)) r (
        All-order_by_next_run _ (keep (is_due now) rows)
          (All-keep _ (is_due now) rows (find_schedule-OnlyRow slug rows r u e)))
      ∙ ap (λ b. if b then advanced now r else r)
          (any-order_by_next_run (λ d. text_eq r.slug d.slug) (keep (is_due now) rows)
            ∙ any-keep (λ d. text_eq r.slug d.slug) (is_due now) rows
            ∙ any-due slug now rows r u e)

  -- If each slug has one row, then what the store says of a slug after `list_and_advance_due` is what it
  -- said before, but for a row that was enabled and had its time come: that one has the trigger's next
  -- time, and stays enabled unless the trigger is a one-shot.
  pub get_schedule-list_and_advance_due :
      (slug : Text) (now : ℕ) (s : WorkflowStore)
      → IsUnique s.schedules
      → get_schedule slug (list_and_advance_due C now s).1
        ≡ map_option (λ r. if is_due now r then advanced now r else r) (get_schedule slug s)
  unfolding get_schedule list_and_advance_due
  get_schedule-list_and_advance_due slug now s u =
      elim (Option-cases (find_schedule slug s.schedules)) [
        | inl e ↦
            find_schedule-advance_all slug now (order_by_next_run (keep (is_due now) s.schedules))
              s.schedules
            ∙ (rw e refl)
        | inr (r, e) ↦
            find_schedule-advance_all slug now (order_by_next_run (keep (is_due now) s.schedules))
              s.schedules
            ∙ (rw e (ap some (advances-due slug now s.schedules r u e)))
      ]

  any-dispatched :
      (slug : Text) (now : ℕ) (rows : List WorkflowSchedule)
      → any (λ d. text_eq d.slug slug) (map (dispatched C now) rows)
        ≡ any (λ r. text_eq r.slug slug) rows
  any-dispatched slug now [] = refl
  any-dispatched slug now (r ∷ rs) = ap (λ b. text_eq r.slug slug || b) (any-dispatched slug now rs)

  -- A slug is dispatched exactly if it has a row that is enabled and whose time has come.
  pub list_and_advance_due_lem :
      (slug : Text) (now : ℕ) (s : WorkflowStore)
      → any (λ d. text_eq d.slug slug) (list_and_advance_due C now s).0
        ≡ any (λ r. is_due now r && text_eq r.slug slug) s.schedules
  unfolding list_and_advance_due
  list_and_advance_due_lem slug now s =
      any-dispatched slug now (order_by_next_run (keep (is_due now) s.schedules))
      ∙ any-order_by_next_run (λ r. text_eq r.slug slug) (keep (is_due now) s.schedules)
      ∙ any-keep (λ r. text_eq r.slug slug) (is_due now) s.schedules
