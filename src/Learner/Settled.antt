-- ===== src/Learner/Settled.antt =====
-- A thread whose run went well.
use corivo_desktop.Base.{
  ℕ, ◌≡◌, refl, sym, ap, ◌∙◌, inl, inr, Bool, true, false, not, List, [], ◌∷◌, Option, none, some,
  arith, Bool-cases, keep, All, All-append, subst,
}
use corivo_desktop.Base.Text.{Text, text_eq, text_eq_sound, text_eq_refl, contains}
use corivo_desktop.Capture.Tick.{option_eq}
use corivo_desktop.Learner.Task.{
  LearnerStore, SessionLearnerOutput, Writes, consume_output, advance, upsert_checkpoint,
  parse_output,
}
use corivo_desktop.Learner.Idle.{
  new_hook, Steps, ChatThread, SessionLearnerTask, Hook, is_learned_at, enqueue_unlearned,
  is_learned, clear_learned, tick, Learner, deps_of, after_tick, after_run,
}
use corivo_desktop.Learner.Rounds.{IsOther, IsApart, tick_threads_keeps}
use corivo_desktop.Learner.Single.{learned_in, started-IsSingle}

-- No task that has not ended is of the thread.
abbrev IsSettled : Text → Hook → Type 0
IsSettled id h = All (IsOther id) h.queue

contains-keep_out :
    (p : Text → Bool) (set : List Text) (s : Text) → p s ≡ false → contains (keep p set) s ≡ false
contains-keep_out p [] s h = refl
contains-keep_out p (x ∷ set) s h = elim (Bool-cases (p x)) [
  | inr q ↦ rw q (contains-keep_out p set s h)
  | inl q ↦ elim (Bool-cases (text_eq s x)) [
    | inl e ↦ let r : p x ≡ false = sym (ap p (text_eq_sound s x e)) ∙ h in absurd cc
    | inr e ↦ rw q (ground (arith, contains-keep_out p set s h))
  ]
]

enqueue_unlearned-IsSettled :
    (learned : Text → Bool) (id new : Text) (c : Option Text) (m : Option (Option Text)) (h : Hook)
    → learned id ≡ true
    → learned new ≡ is_learned_at c m
    → IsSettled id h
    → IsSettled id (enqueue_unlearned new c m h)
unfolding enqueue_unlearned
enqueue_unlearned-IsSettled learned id new c none h k e s = s
enqueue_unlearned-IsSettled learned id new c (some none) h k e s = s
enqueue_unlearned-IsSettled learned id new c (some (some latest)) h k e s =
    elim (Bool-cases (option_eq c (some latest))) [
      | inl q ↦ rw q s
      | inr q ↦ rw q (
          All-append (IsOther id) h.queue _ s (
            elim (Bool-cases (text_eq new id)) [
              | inl x ↦
                  let r : learned new ≡ true = ap learned (text_eq_sound new id x) ∙ k in absurd cc
              | inr x ↦ x
            ],
            tt,
          ))
    ]

module _ {C : Type 0} (threshold : ℕ) (from_str : Text → Option (SessionLearnerOutput C))
    (tokenize_for_index : Text → Text) where
  advance_self :
      (w : Writes C) (id m : Text) (c : Text → Option Text)
      → w.saves_checkpoint ≡ true
      → advance from_str tokenize_for_index w id (some m) c id ≡ some m
  unfolding advance upsert_checkpoint
  advance_self w id m c h = rw h (rw (text_eq_refl id) refl)

  consume_output_self :
      (w : Writes C) (output id m : Text) (latest : Option Text) (s : LearnerStore C)
      (p : SessionLearnerOutput C)
      → parse_output from_str tokenize_for_index output ≡ some p
      → w.saves_checkpoint ≡ true
      → latest ≡ some m
      → (consume_output from_str tokenize_for_index w output true id latest s).checkpoints id
        ≡ some m
  unfolding consume_output
  consume_output_self w output id m latest s p h k e =
      rw (h, consume_output)
        (ap (λ x. advance from_str tokenize_for_index w id x s.checkpoints id) e
          ∙ advance_self w id m s.checkpoints k)

  tick_settles :
      (id : Text) (ts : List ChatThread) (now : ℕ) (l : Learner C)
      → learned_in l id ≡ true
      → IsSettled id l.hook
      → (contains
            (after_tick threshold from_str tokenize_for_index (some ts) now l).hook.in_flight
            id
          ≡ false)
        × IsSettled id (after_tick threshold from_str tokenize_for_index (some ts) now l).hook
  unfolding tick clear_learned
  tick_settles id ts now l h s = (
    contains-keep_out (λ x. not (is_learned (deps_of l (some ts)) x)) _ id (ap not h),
    tick_threads_keeps threshold (deps_of l (some ts)) now (IsSettled id)
        (λ new h' g k.
          enqueue_unlearned-IsSettled (learned_in l) id new (l.store.checkpoints new)
            (some (l.latest new)) h' h refl k)
        ts l.hook s,
  )

  -- A run that went well, then a tick.
  abbrev pub after_both :
      Writes C
      → Text
      → SessionLearnerTask
      → List SessionLearnerTask
      → List ChatThread
      → ℕ
      → Learner C
      → Learner C
  after_both w output t rest ts now l =
      after_tick threshold from_str tokenize_for_index (some ts) now
        (after_run threshold from_str tokenize_for_index w output true t rest l)

  -- If, some steps after the start of the app with an empty hook, the agent ends a run of the oldest task well, its answer is read, the
  -- thread has messages and its checkpoint is saved, then after that and a tick that gets the list of threads: the checkpoint is at the latest message, the thread is not in flight, and no task of it is queued.
  -- The steps are ticks that can read the messages and the checkpoints, ends of runs, and new messages.
  pub learned_run_settles :
      (w : Writes C) (output m : Text) (p : SessionLearnerOutput C) (t : SessionLearnerTask)
      (rest : List SessionLearnerTask) (ts : List ChatThread) (now : ℕ) (first l : Learner C)
      → first.hook ≡ new_hook
      → Steps threshold from_str tokenize_for_index first l
      → parse_output from_str tokenize_for_index output ≡ some p
      → w.saves_checkpoint ≡ true
      → l.latest t.thread_id ≡ some m
      → l.hook.queue ≡ t ∷ rest
      → ((after_both w output t rest ts now l).store.checkpoints t.thread_id ≡ some m)
        × (contains (after_both w output t rest ts now l).hook.in_flight t.thread_id ≡ false)
        × All (IsOther t.thread_id) (after_both w output t rest ts now l).hook.queue
  learned_run_settles w output m p t rest ts now first l start before h k e f =
      let s = started-IsSingle threshold from_str tokenize_for_index first l start before in
      let others = (subst IsApart f s.0).0 in
      let c = consume_output_self w output t.thread_id m (l.latest t.thread_id) l.store p h k e in
      let (freed, unqueued) =
        tick_settles t.thread_id ts now
          (after_run threshold from_str tokenize_for_index w output true t rest l)
          (ap (λ x. is_learned_at x (some (l.latest t.thread_id))) c
            ∙ ap (λ x. is_learned_at (some m) (some x)) e
            ∙ text_eq_refl m)
          others in
      (c, freed, unqueued)
