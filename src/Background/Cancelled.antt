-- ===== src/Background/Cancelled.antt =====
-- What `cancel` stops, and whose key is in the map.
use corivo_desktop.Base.{
  ◌≡◌, refl, sym, ap, ◌∙◌, inl, inr, Bool, true, false, not, List, [], ◌∷◌, ◌++◌, map, arith,
  Bool-cases, List-cases, any, keep,
}
use corivo_desktop.Base.Text.{Text, contains}
use corivo_desktop.Background.{
  QueuedTask, Ended, SchedulerInner, matches_key, cancelled_by_user, cancel_queued, cancel,
}

abbrev is_nil : List QueuedTask → Bool
is_nil [] = true
is_nil (q ∷ qs) = false

keep-not :
    (key : Text) (qs : List QueuedTask)
    → keep (matches_key key) (keep (λ x. not (matches_key key x)) qs) ≡ []
keep-not key [] = refl
keep-not key (q ∷ qs) = elim (Bool-cases (matches_key key q)) [
  | inl e ↦ rw e (keep-not key qs)
  | inr e ↦ rw e (rw e (keep-not key qs))
]

found_any : (p : QueuedTask → Bool) (qs : List QueuedTask) → any p qs ≡ not (is_nil (keep p qs))
found_any p [] = refl
found_any p (q ∷ qs) = ground (arith, found_any p qs)

append_nil : (es : List Ended) → es ≡ es ++ []
append_nil [] = refl
append_nil (e ∷ es) = ap (λ x. e ∷ x) (append_nil es)

cancel_queued_lem :
    (key : Text) (s : SchedulerInner)
    → (keep (matches_key key) (cancel_queued key s).1.queue ≡ [])
      × ((cancel_queued key s).1.ended
          ≡ s.ended ++ map cancelled_by_user (keep (matches_key key) s.queue))
      × ((cancel_queued key s).0 ≡ any (matches_key key) s.queue)
unfolding cancel_queued
cancel_queued_lem key s = elim (List-cases (keep (matches_key key) s.queue)) [
  | inl e ↦
      rw (e, cancel_queued)
        (
          e,
          append_nil s.ended,
          sym (found_any (matches_key key) s.queue ∙ ap (λ x. not (is_nil x)) e),
        )
  | inr (q, qs, e) ↦
      rw (e, cancel_queued)
        (
          keep-not key s.queue,
          refl,
          sym (found_any (matches_key key) s.queue ∙ ap (λ x. not (is_nil x)) e),
        )
]

-- If no running task has the key, a cancellation takes every queued task with that key out of the queue,
-- ends each of them as cancelled by the user, in order, and says whether there was one.
pub cancel_lem :
    (key : Text) (s : SchedulerInner)
    → contains s.cancellable key ≡ false
    → (keep (matches_key key) (cancel key s).1.queue ≡ [])
      × ((cancel key s).1.ended ≡ s.ended ++ map cancelled_by_user (keep (matches_key key) s.queue))
      × ((cancel key s).0 ≡ any (matches_key key) s.queue)
unfolding cancel
cancel_lem key s free = rw (free, cancel) (cancel_queued_lem key s)
