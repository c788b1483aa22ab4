-- ===== src/Learner/Stuck.antt =====
-- A thread whose run failed.
use corivo_desktop.Base.{
  ℕ, ◌≡◌, ◌⊎◌, refl, sym, ap, ◌∙◌, inl, inr, Bool, true, false, not, List, ◌∷◌, Option, none, some,
  Bool-cases, All, All-append, subst,
}
use corivo_desktop.Base.Text.{
  Text, text_eq, text_eq_sound, text_eq_refl, contains, contains-insert_old,
}
use corivo_desktop.Capture.Tick.{option_eq}
use corivo_desktop.Learner.Task.{
  LearnerStore, SessionLearnerOutput, Writes, consume_output, parse_output,
}
use corivo_desktop.Learner.Idle.{
  ChatThread, SessionLearnerTask, new_hook, Deps, Hook, is_learned_at, enqueue_unlearned,
  tick_threads, is_learned, clear_learned, tick, Learner, deps_of, after_tick, after_run, Step,
  Steps, ticks, ends, adds, stay, go,
}
use corivo_desktop.Learner.Rounds.{
  IsOther, IsApart, IsAwaited, text_eq-contains, contains-keep, tick_threads_keeps,
}
use corivo_desktop.Learner.Single.{
  learned_in, IsSingle, started-IsSingle, learned_in-after_message, learned_in-after_run,
}

-- The thread is in flight and no task that has not ended is of it.
abbrev pub IsStuckHook : Text → Hook → Type 0
IsStuckHook id h = (contains h.in_flight id ≡ true) × All (IsOther id) h.queue

-- And its checkpoint is not at its latest message.
abbrev pub IsStuck : {C : Type 0} → Text → Learner C → Type 0
IsStuck id l = IsStuckHook id l.hook × (learned_in l id ≡ false)

text_eq_flip : (s t : Text) → text_eq s t ≡ false → text_eq t s ≡ false
text_eq_flip s t h = elim (Bool-cases (text_eq t s)) [
  | inl e ↦
      let q : text_eq s t ≡ true =
        subst (λ x. text_eq s x ≡ true) (sym (text_eq_sound t s e)) (text_eq_refl s) in
      absurd cc
  | inr e ↦ e
]

enqueue_unlearned-IsStuckHook :
    (id new : Text) (c : Option Text) (m : Option (Option Text)) (h : Hook)
    → contains h.in_flight new ≡ false
    → IsStuckHook id h
    → IsStuckHook id (enqueue_unlearned new c m h)
unfolding enqueue_unlearned
enqueue_unlearned-IsStuckHook id new c none h k s = s
enqueue_unlearned-IsStuckHook id new c (some none) h k s = s
enqueue_unlearned-IsStuckHook id new c (some (some latest)) h k s =
    elim (Bool-cases (option_eq c (some latest))) [
      | inl q ↦ rw q s
      | inr q ↦ rw q (
        contains-insert_old new id h.in_flight s.0,
        All-append (IsOther id) h.queue _ s.1 (text_eq-contains h.in_flight new id k s.0, tt),
      )
    ]

module _ (threshold : ℕ) (d : Deps) (now : ℕ) (id : Text) where
  tick_threads-IsStuckHook :
      (ts : List ChatThread) (h : Hook)
      → IsStuckHook id h
      → IsStuckHook id (tick_threads threshold d now ts h)
  tick_threads-IsStuckHook ts h s =
      tick_threads_keeps threshold d now (IsStuckHook id)
        (λ new h' g k.
          enqueue_unlearned-IsStuckHook id new (d.get_checkpoint new) (d.latest_message_id new) h' g
            k)
        ts h s

  clear_learned-IsStuckHook :
      (h : Hook) → is_learned d id ≡ false → IsStuckHook id h → IsStuckHook id (clear_learned d h)
  unfolding clear_learned
  clear_learned-IsStuckHook h k s =
      (contains-keep (λ x. not (is_learned d x)) h.in_flight id s.0 (ap not k), s.1)

module _ {C : Type 0} (threshold : ℕ) (from_str : Text → Option (SessionLearnerOutput C))
    (tokenize_for_index : Text → Text) where
  tick-IsStuck :
      (id : Text) (threads : Option (List ChatThread)) (now : ℕ) (l : Learner C)
      → IsStuck id l
      → IsStuck id (after_tick threshold from_str tokenize_for_index threads now l)
  unfolding tick
  tick-IsStuck id none now l s = s
  tick-IsStuck id (some ts) now l s = (
    clear_learned-IsStuckHook threshold (deps_of l (some ts)) now id _ s.1
        (tick_threads-IsStuckHook threshold (deps_of l (some ts)) now id ts l.hook s.0),
    s.1,
  )

  Step-IsStuck :
      (id : Text) (l m : Learner C)
      → Step threshold from_str tokenize_for_index l m
      → IsStuck id l
      → IsStuck id m
  Step-IsStuck id _ _ (ticks threads now l) s = tick-IsStuck id threads now l s
  Step-IsStuck id _ _ (ends w output success t rest l e) s =
      let others = subst (λ q. All (IsOther id) q) e s.0.1 in
      (
        (s.0.0, others.1),
        learned_in-after_run threshold from_str tokenize_for_index w output success t rest l id
              (text_eq_flip t.thread_id id others.0)
            ∙ s.1,
      )
  Step-IsStuck id _ _ (adds thread message l fresh) s = (
    s.0,
    learned_in-after_message threshold from_str tokenize_for_index thread message l id (fresh id)
        s.1,
  )

  Steps-IsStuck :
      (id : Text) (l m : Learner C)
      → Steps threshold from_str tokenize_for_index l m
      → IsStuck id l
      → IsStuck id m
  Steps-IsStuck id _ _ (stay l) s = s
  Steps-IsStuck id _ _ (go {l} {m} {n} step steps) s =
      Steps-IsStuck id m n steps (Step-IsStuck id l m step s)

  -- A run that the agent does not end well, or whose answer is not read.
  abbrev pub IsFailed : Text → Bool → Type 0
  IsFailed output success =
      (success ≡ false) ⊎ (parse_output from_str tokenize_for_index output ≡ none)

  consume_output_failed :
      (w : Writes C) (output : Text) (success : Bool) (thread_id : Text) (latest : Option Text)
      (s : LearnerStore C)
      → IsFailed output success
      → consume_output from_str tokenize_for_index w output success thread_id latest s ≡ s
  unfolding consume_output
  consume_output_failed w output false thread_id latest s h = refl
  consume_output_failed w output true thread_id latest s (inl h) = cc
  consume_output_failed w output true thread_id latest s (inr h) = rw (h, consume_output) refl

  after_failed-IsStuck :
      (w : Writes C) (output : Text) (success : Bool) (t : SessionLearnerTask)
      (rest : List SessionLearnerTask) (l : Learner C)
      → IsFailed output success
      → l.hook.queue ≡ t ∷ rest
      → IsSingle l
      → IsStuck t.thread_id
          (after_run threshold from_str tokenize_for_index w output success t rest l)
  after_failed-IsStuck w output success t rest l f e s =
      let (apart, awaited) =
        subst (λ q. IsApart q × All (IsAwaited (learned_in l) l.hook.in_flight) q) e s in
      (
        (awaited.0.0, apart.0),
        ap (λ x. is_learned_at (x.checkpoints t.thread_id) (some (l.latest t.thread_id)))
              (consume_output_failed w output success t.thread_id (l.latest t.thread_id) l.store f)
            ∙ awaited.0.1,
      )

  -- If, some steps after the start of the app with an empty hook, a run of the oldest task fails or its answer is not read, then
  -- whatever steps follow: the thread of the task is in flight, no task of it is queued, and its checkpoint is not at its latest message.
  -- The steps are ticks that can read the messages and the checkpoints, ends of runs, and new messages.
  pub failed_run-IsStuck :
      (w : Writes C) (output : Text) (success : Bool) (t : SessionLearnerTask)
      (rest : List SessionLearnerTask) (first l m : Learner C)
      → first.hook ≡ new_hook
      → Steps threshold from_str tokenize_for_index first l
      → IsFailed output success
      → l.hook.queue ≡ t ∷ rest
      → Steps threshold from_str tokenize_for_index
          (after_run threshold from_str tokenize_for_index w output success t rest l)
          m
      → IsStuck t.thread_id m
  failed_run-IsStuck w output success t rest first l m start before f e after =
      Steps-IsStuck t.thread_id _ m after (
        after_failed-IsStuck w output success t rest l f e
          (started-IsSingle threshold from_str tokenize_for_index first l start before))
