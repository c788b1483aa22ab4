-- ===== src/Workflow/Ticker/Flight.antt =====
-- At most one run of a workflow is queued or in flight.
use corivo_desktop.Base.{any-append, All-append}
use corivo_desktop.Base.{
  ℕ, ◌≡◌, refl, sym, ap, ◌∙◌, subst, inl, inr, Bool, true, false, not, List, [], ◌∷◌, ◌++◌, some,
  arith, Bool-cases, Option-cases, All, keep, All-append, All-mono,
}
use corivo_desktop.Base.Text.{Text, text_eq, text_eq_sound, text_eq_refl, contains}
use corivo_desktop.Workflow.Trigger.{Calendar, once}
use corivo_desktop.Workflow.Store.{
  WorkflowSchedule, DispatchedSchedule, WorkflowStore, try_claim_slug, release_slug, get_schedule,
  is_due, upsert_schedule, set_enabled, list_and_advance_due,
}
use corivo_desktop.Workflow.Store.Due.{IsUnique, get_schedule-list_and_advance_due}
use corivo_desktop.Capture.Frame.{map_option}
use corivo_desktop.Workflow.Ticker.{
  auto_disable, enqueue_claimed, TickerState, tick_entry, tick_entries, tick_once, run_now,
}

abbrev pub IsDistinct : List Text → Type 0
IsDistinct [] = Unit
IsDistinct (s ∷ ss) = (contains ss s ≡ false) × IsDistinct ss

-- Every task that is queued holds its slug's claim, and no slug is queued twice.
abbrev pub IsClaimed : List Text → List Text → Type 0
IsClaimed pending queue = All (λ slug. contains pending slug ≡ true) queue × IsDistinct queue

abbrev pub IsSingleFlight : TickerState → Type 0
IsSingleFlight t = IsClaimed t.store.pending_slugs t.queue

text_eq_sym_false : (s t : Text) → text_eq s t ≡ false → text_eq t s ≡ false
text_eq_sym_false s t h = elim (Bool-cases (text_eq t s)) [
  | inl e ↦
      let back : text_eq s t ≡ true =
        subst (λ x. text_eq x t ≡ true) (text_eq_sound t s e) (text_eq_refl t) in
      ground arith
  | inr e ↦ e
]

-- A slug that is claimed by nobody is queued for nobody.
unclaimed_unqueued :
    (pending queue : List Text) (slug : Text)
    → All (λ q. contains pending q ≡ true) queue
    → contains pending slug ≡ false
    → contains queue slug ≡ false
unclaimed_unqueued pending [] slug h free = refl
unclaimed_unqueued pending (q ∷ qs) slug h free = elim (Bool-cases (text_eq slug q)) [
  | inl e ↦
      let claimed : contains pending slug ≡ true =
        subst (λ x. contains pending x ≡ true) (sym (text_eq_sound slug q e)) h.0 in
      ground arith
  | inr e ↦ rw e (unclaimed_unqueued pending qs slug h.1 free)
]

IsDistinct-append :
    (queue : List Text) (slug : Text)
    → IsDistinct queue
    → contains queue slug ≡ false
    → IsDistinct (queue ++ (slug ∷ []))
IsDistinct-append [] slug d free = (refl, tt)
IsDistinct-append (q ∷ qs) slug d free =
    let differs : text_eq q slug ≡ false = text_eq_sym_false slug q (ground arith) in
    (
      any-append (text_eq q) qs (slug ∷ []) ∙ ground arith,
      IsDistinct-append qs slug d.1 (ground arith),
    )

release-unclaimed :
    (pending : List Text) (slug : Text)
    → contains pending slug ≡ false
    → keep (λ p. not (text_eq p slug)) pending ≡ pending
release-unclaimed [] slug free = refl
release-unclaimed (p ∷ ps) slug free =
    let differs : text_eq p slug ≡ false = text_eq_sym_false slug p (ground arith) in
    rw differs (ap (λ x. p ∷ x) (release-unclaimed ps slug (ground arith)))

claim-All :
    (pending queue : List Text) (slug : Text)
    → All (λ q. contains pending q ≡ true) queue
    → All (λ q. contains (slug ∷ pending) q ≡ true) queue
claim-All pending queue slug h = All-mono (λ q e. ground arith) queue h

IsClaimed-claim :
    (pending queue : List Text) (slug : Text)
    → contains pending slug ≡ false
    → IsClaimed pending queue
    → IsClaimed (slug ∷ pending) (queue ++ (slug ∷ []))
IsClaimed-claim pending queue slug free h = (
  All-append _ queue (slug ∷ []) (claim-All pending queue slug h.0) (held, tt),
  IsDistinct-append queue slug h.1 (unclaimed_unqueued pending queue slug h.0 free),
)
  where
    held : contains (slug ∷ pending) slug ≡ true
    held = rw (text_eq_refl slug) refl

module _ (C : Calendar) (has_definition : Text → Bool) where
  auto_disable-pending_slugs :
      (slug : Text) (now : ℕ) (s : WorkflowStore)
      → (auto_disable C has_definition slug now s).pending_slugs ≡ s.pending_slugs
  unfolding auto_disable set_enabled upsert_schedule
  auto_disable-pending_slugs slug now s = elim (Option-cases (get_schedule slug s)) [
    | inl e ↦ rw (e, set_enabled) refl
    | inr (r, e) ↦ rw (e, set_enabled) refl
  ]

  release_claimed :
      (slug : Text) (s claimed : WorkflowStore)
      → contains s.pending_slugs slug ≡ false
      → claimed.pending_slugs ≡ slug ∷ s.pending_slugs
      → (release_slug slug claimed).pending_slugs ≡ s.pending_slugs
  unfolding release_slug
  release_claimed slug s claimed free e =
      ap (keep (λ p. not (text_eq p slug))) e
      ∙ rw (text_eq_refl slug) (release-unclaimed s.pending_slugs slug free)

  enqueue_claimed-IsSingleFlight :
      (slug : Text) (now : ℕ) (s claimed : WorkflowStore) (queue : List Text)
      → contains s.pending_slugs slug ≡ false
      → claimed.pending_slugs ≡ slug ∷ s.pending_slugs
      → IsClaimed s.pending_slugs queue
      → IsSingleFlight (enqueue_claimed C has_definition slug now claimed queue)
  unfolding enqueue_claimed
  enqueue_claimed-IsSingleFlight slug now s claimed queue free e h =
      elim (Bool-cases (has_definition slug)) [
        | inl there ↦
            rw (there, enqueue_claimed)
              (subst (λ p. IsClaimed p (queue ++ (slug ∷ []))) (sym e)
                (IsClaimed-claim s.pending_slugs queue slug free h))
        | inr missing ↦
            rw (missing, enqueue_claimed)
              (subst (λ p. IsClaimed p queue)
                (sym (
                  auto_disable-pending_slugs slug now (release_slug slug claimed)
                  ∙ release_claimed slug s claimed free e))
                h)
      ]

  tick_entry-IsSingleFlight :
      (now : ℕ) (entry : DispatchedSchedule) (t : TickerState)
      → IsSingleFlight t
      → IsSingleFlight (tick_entry C has_definition now entry t)
  unfolding tick_entry try_claim_slug
  tick_entry-IsSingleFlight now entry t h =
      elim (Bool-cases (contains t.store.pending_slugs entry.slug)) [
        | inl held ↦ rw (held, try_claim_slug) h
        | inr free ↦
            rw (free, try_claim_slug)
              (enqueue_claimed-IsSingleFlight entry.slug now t.store
                (record t.store { pending_slugs = entry.slug ∷ t.store.pending_slugs }) t.queue free
                refl h)
      ]

  tick_entries-IsSingleFlight :
      (now : ℕ) (entries : List DispatchedSchedule) (t : TickerState)
      → IsSingleFlight t
      → IsSingleFlight (tick_entries C has_definition now entries t)
  tick_entries-IsSingleFlight now [] t h = h
  tick_entries-IsSingleFlight now (e ∷ es) t h =
      tick_entries-IsSingleFlight now es (tick_entry C has_definition now e t)
        (tick_entry-IsSingleFlight now e t h)

  list_and_advance_due-pending_slugs :
      (now : ℕ) (s : WorkflowStore)
      → (list_and_advance_due C now s).1.pending_slugs ≡ s.pending_slugs
  unfolding list_and_advance_due
  list_and_advance_due-pending_slugs now s = refl

  -- If every queued task holds its slug's claim and no slug is queued twice, that is still so after a
  -- pass of the ticker and after the user asks for a run.
  pub tick_once-IsSingleFlight :
      (now : ℕ) (slug : Text) (t : TickerState)
      → IsSingleFlight t
      → IsSingleFlight (tick_once C has_definition now t)
        × IsSingleFlight (run_now C has_definition slug t).1
  unfolding tick_once list_and_advance_due run_now try_claim_slug
  tick_once-IsSingleFlight now slug t h = (
    tick_entries-IsSingleFlight now (list_and_advance_due C now t.store).0
        (record t { store = (list_and_advance_due C now t.store).1 }) h,
    asked,
  )
    where
      asked : IsSingleFlight (run_now C has_definition slug t).1
      asked = elim (Bool-cases (has_definition slug)) [
        | inl there ↦ elim (Bool-cases (contains t.store.pending_slugs slug)) [
          | inl held ↦ rw (there, run_now) (rw (held, try_claim_slug) h)
          | inr free ↦
              rw (there, run_now)
                (rw (free, try_claim_slug)
                  (IsClaimed-claim t.store.pending_slugs t.queue slug free h))
        ]
        | inr missing ↦ rw (missing, run_now) h
      ]

  tick_entries_in_flight :
      (now : ℕ) (entries : List DispatchedSchedule) (t : TickerState)
      → All (λ e. contains t.store.pending_slugs e.slug ≡ true) entries
      → tick_entries C has_definition now entries t ≡ t
  unfolding tick_entry try_claim_slug
  tick_entries_in_flight now [] t h = refl
  tick_entries_in_flight now (e ∷ es) t h =
      rw (h.0, try_claim_slug) (tick_entries_in_flight now es t h.1)

  -- If a run of every workflow that is due is in flight, then a pass of the ticker queues nothing; yet a
  -- one-shot that was due is switched off by it, if each slug has one row.
  pub tick_once_lost :
      (now at : ℕ) (slug : Text) (r : WorkflowSchedule) (t : TickerState)
      → IsUnique t.store.schedules
      → All
          (λ e. contains t.store.pending_slugs e.slug ≡ true)
          (list_and_advance_due C now t.store).0
      → get_schedule slug t.store ≡ some r
      → is_due now r ≡ true
      → r.trigger ≡ once at
      → ((tick_once C has_definition now t).queue ≡ t.queue)
        × (map_option (λ q. q.enabled) (get_schedule slug (tick_once C has_definition now t).store)
            ≡ some false)
  unfolding tick_once
  tick_once_lost now at slug r t unique held found due one_shot =
      let moved : TickerState = record t { store = (list_and_advance_due C now t.store).1 } in
      let same : tick_once C has_definition now t ≡ moved =
        tick_entries_in_flight now (list_and_advance_due C now t.store).0 moved (
          subst (λ p. All (λ e. contains p e.slug ≡ true) (list_and_advance_due C now t.store).0)
            (sym (list_and_advance_due-pending_slugs now t.store)) held) in
      (
        ap (λ u. u.queue) same,
        ap (λ u. map_option (λ q. q.enabled) (get_schedule slug u.store)) same
            ∙ ap (map_option (λ q. q.enabled))
                (get_schedule-list_and_advance_due C slug now t.store unique)
            ∙ rw found (rw due (rw one_shot refl)),
      )
