-- ===== src/Workflow/Store/Upsert.antt =====
-- What an upsert keeps of the row that was there, and that each slug keeps one row.
use corivo_desktop.Base.{
  ℕ, ◌≡◌, ◌≢◌, refl, sym, ap, ◌∙◌, subst, inl, inr, Bool, false, List, [], ◌∷◌, map, Option, none,
  some, if◌then◌else◌, Bool-cases, All, keep, All-keep,
}
use corivo_desktop.Base.Text.{Text, text_eq, text_eq_sound, text_eq_refl}
use corivo_desktop.Capture.Frame.{map_option}
use corivo_desktop.Workflow.Trigger.{Calendar, next_after}
use corivo_desktop.Workflow.Store.{
  WorkflowSchedule, WorkflowRun, UpsertSchedule, WorkflowStore, find_schedule, get_schedule,
  delete_schedule, is_due, order_by_next_run, record_run, next_if_enabled, insert_or_update,
  upsert_schedule, set_enabled, advance, advance_all, list_and_advance_due,
}
use corivo_desktop.Workflow.Store.Due.{IsUnique, text_eq_differs}

-- What an upsert makes of the row that was there, if there was one.
abbrev pub upserted :
    (C : Calendar) → UpsertSchedule → ℕ → Option WorkflowSchedule → WorkflowSchedule
upserted C spec now none = record {
  slug = spec.slug;
  trigger = spec.trigger;
  enabled = spec.enabled;
  last_run_at = none;
  next_run_at = next_if_enabled C spec now;
  last_status = none;
  source = spec.source;
  created_by_thread_id = spec.created_by_thread_id;
  created_at = now;
  updated_at = now;
}
upserted C spec now (some r) = record r {
  trigger = spec.trigger;
  enabled = spec.enabled;
  next_run_at = next_if_enabled C spec now;
  updated_at = now;
}

find_schedule-insert_or_update :
    (C : Calendar) (spec : UpsertSchedule) (now : ℕ) (rows : List WorkflowSchedule)
    → find_schedule spec.slug (insert_or_update C spec now rows)
      ≡ some (upserted C spec now (find_schedule spec.slug rows))
find_schedule-insert_or_update C spec now [] = rw (text_eq_refl spec.slug) refl
find_schedule-insert_or_update C spec now (r ∷ rs) = elim (Bool-cases (text_eq r.slug spec.slug)) [
  | inl e ↦ rw e (rw e refl)
  | inr e ↦ rw e (rw e (find_schedule-insert_or_update C spec now rs))
]

find_schedule-insert_or_update_other :
    (C : Calendar) (spec : UpsertSchedule) (now : ℕ) (slug : Text) (rows : List WorkflowSchedule)
    → text_eq spec.slug slug ≡ false
    → find_schedule slug (insert_or_update C spec now rows) ≡ find_schedule slug rows
find_schedule-insert_or_update_other C spec now slug [] differs = rw differs refl
find_schedule-insert_or_update_other C spec now slug (r ∷ rs) differs =
    elim (Bool-cases (text_eq r.slug spec.slug)) [
      | inl e ↦
          let same : r.slug ≡ spec.slug = text_eq_sound r.slug spec.slug e in
          let other : text_eq r.slug slug ≡ false =
            subst (λ x. text_eq x slug ≡ false) (sym same) differs in
          rw e (rw other refl)
      | inr e ↦ rw e (
          ap (λ o. if text_eq r.slug slug then some r else o)
            (find_schedule-insert_or_update_other C spec now slug rs differs))
    ]

-- An upsert returns the row it stores, which is the row before with the new trigger, switch and next
-- time, or a new row if there was none; its source and thread are those of the row before. No other
-- slug changes.
pub upsert_schedule_lem :
    (C : Calendar) (spec : UpsertSchedule) (now : ℕ) (s : WorkflowStore) (other : Text)
    → text_eq spec.slug other ≡ false
    → ((upsert_schedule C spec now s).0 ≡ some (upserted C spec now (get_schedule spec.slug s)))
      × (get_schedule spec.slug (upsert_schedule C spec now s).1
          ≡ some (upserted C spec now (get_schedule spec.slug s)))
      × (get_schedule other (upsert_schedule C spec now s).1 ≡ get_schedule other s)
unfolding upsert_schedule get_schedule
upsert_schedule_lem C spec now s other differs = (
  find_schedule-insert_or_update C spec now s.schedules,
  find_schedule-insert_or_update C spec now s.schedules,
  find_schedule-insert_or_update_other C spec now other s.schedules differs,
)

-- If a schedule is there, it can be switched, and keeps its trigger, its source, its thread and its last
-- run; switched off it has no next time, and switched on it has the trigger's.
pub set_enabled_lem :
    (C : Calendar) (slug : Text) (enabled : Bool) (now : ℕ) (s : WorkflowStore)
    (r : WorkflowSchedule)
    → get_schedule slug s ≡ some r
    → map_option (get_schedule slug) (set_enabled C slug enabled now s)
      ≡ some (
          some (record r {
            enabled = enabled;
            next_run_at = if enabled then next_after C r.trigger now else none;
            updated_at = now;
          }))
unfolding set_enabled upsert_schedule get_schedule
set_enabled_lem C slug enabled now s r found =
    rw (found, set_enabled)
      (ap some (find_schedule-insert_or_update C _ now s.schedules ∙ (rw found refl)))

All-insert_or_update_differs :
    (C : Calendar) (spec : UpsertSchedule) (now : ℕ) (rows : List WorkflowSchedule) (slug : Text)
    → spec.slug ≢ slug
    → All (λ q. q.slug ≢ slug) rows
    → All (λ q. q.slug ≢ slug) (insert_or_update C spec now rows)
All-insert_or_update_differs C spec now [] slug differs h = (differs, tt)
All-insert_or_update_differs C spec now (r ∷ rs) slug differs h =
    elim (Bool-cases (text_eq r.slug spec.slug)) [
      | inl e ↦ rw e h
      | inr e ↦ rw e (h.0, All-insert_or_update_differs C spec now rs slug differs h.1)
    ]

insert_or_update-IsUnique :
    (C : Calendar) (spec : UpsertSchedule) (now : ℕ) (rows : List WorkflowSchedule)
    → IsUnique rows
    → IsUnique (insert_or_update C spec now rows)
insert_or_update-IsUnique C spec now [] u = (tt, tt)
insert_or_update-IsUnique C spec now (r ∷ rs) u = elim (Bool-cases (text_eq r.slug spec.slug)) [
  | inl e ↦ rw e u
  | inr e ↦ rw e (
    All-insert_or_update_differs C spec now rs r.slug
        (λ k. text_eq_differs r.slug spec.slug e (sym k)) u.0,
    insert_or_update-IsUnique C spec now rs u.1,
  )
]

keep-IsUnique :
    (p : WorkflowSchedule → Bool) (rows : List WorkflowSchedule)
    → IsUnique rows
    → IsUnique (keep p rows)
keep-IsUnique p [] u = tt
keep-IsUnique p (r ∷ rs) u = elim (Bool-cases (p r)) [
  | inl e ↦ rw e (All-keep _ p rs u.0, keep-IsUnique p rs u.1)
  | inr e ↦ rw e (keep-IsUnique p rs u.1)
]

All-map_differs :
    (f : WorkflowSchedule → WorkflowSchedule) (named : (r : WorkflowSchedule) → (f r).slug ≡ r.slug)
    (slug : Text) (rows : List WorkflowSchedule)
    → All (λ q. q.slug ≢ slug) rows
    → All (λ q. q.slug ≢ slug) (map f rows)
All-map_differs f named slug [] h = tt
All-map_differs f named slug (r ∷ rs) h =
    (λ k. h.0 (sym (named r) ∙ k), All-map_differs f named slug rs h.1)

map-IsUnique :
    (f : WorkflowSchedule → WorkflowSchedule) (named : (r : WorkflowSchedule) → (f r).slug ≡ r.slug)
    (rows : List WorkflowSchedule)
    → IsUnique rows
    → IsUnique (map f rows)
map-IsUnique f named [] u = tt
map-IsUnique f named (r ∷ rs) u = (
  subst (λ x. All (λ q. q.slug ≢ x) (map f rs)) (sym (named r))
      (All-map_differs f named r.slug rs u.0),
  map-IsUnique f named rs u.1,
)

advance-slug :
    (C : Calendar) (now : ℕ) (due r : WorkflowSchedule) → (advance C now due r).slug ≡ r.slug
advance-slug C now due r = elim (Bool-cases (text_eq r.slug due.slug)) [
  | inl e ↦ rw e refl
  | inr e ↦ rw e refl
]

advance_all-IsUnique :
    (C : Calendar) (now : ℕ) (dues rows : List WorkflowSchedule)
    → IsUnique rows
    → IsUnique (advance_all C now dues rows)
advance_all-IsUnique C now [] rows u = u
advance_all-IsUnique C now (due ∷ dues) rows u =
    advance_all-IsUnique C now dues (map (advance C now due) rows)
      (map-IsUnique (advance C now due) (advance-slug C now due) rows u)

-- If each slug has one row, it still has one after an upsert, a deletion, the recording of a run and
-- the dispatch of what is due.
pub store-IsUnique :
    (C : Calendar) (spec : UpsertSchedule) (run : WorkflowRun) (slug : Text) (now : ℕ)
    (s : WorkflowStore)
    → IsUnique s.schedules
    → IsUnique (upsert_schedule C spec now s).1.schedules
      × IsUnique (delete_schedule slug s).schedules
      × IsUnique (record_run run s).schedules
      × IsUnique (list_and_advance_due C now s).1.schedules
unfolding upsert_schedule delete_schedule record_run list_and_advance_due
store-IsUnique C spec run slug now s u = (
  insert_or_update-IsUnique C spec now s.schedules u,
  keep-IsUnique _ s.schedules u,
  map-IsUnique _ recorded s.schedules u,
  advance_all-IsUnique C now (order_by_next_run (keep (is_due now) s.schedules)) s.schedules u,
)
  where
    recorded :
        (r : WorkflowSchedule)
        → (if text_eq r.slug run.slug
            then record r {
              last_run_at = some run.finished_at;
              last_status = some run.status;
              updated_at = run.finished_at;
            }
            else r).slug
          ≡ r.slug
    recorded r = elim (Bool-cases (text_eq r.slug run.slug)) [
      | inl e ↦ rw e refl
      | inr e ↦ rw e refl
    ]
