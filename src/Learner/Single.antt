-- ===== src/Learner/Single.antt =====
-- At most one run of a thread waits at a time.
use corivo_desktop.Base.{
  ℕ, ◌≡◌, refl, sym, ap, ◌∙◌, inl, inr, Bool, true, false, List, ◌∷◌, Option, none, some,
  Bool-cases, All, Option-cases, subst, All-and, All-mono,
}
use corivo_desktop.Base.Text.{Text, text_eq}
use corivo_desktop.Capture.Tick.{option_eq}
use corivo_desktop.Learner.Task.{
  LearnerStore, SessionLearnerOutput, Writes, consume_output, advance, upsert_checkpoint,
  parse_output,
}
use corivo_desktop.Learner.Idle.{
  ChatThread, SessionLearnerTask, new_hook, is_learned_at, tick, Learner, deps_of, after_tick,
  after_run, after_message, Step, Steps, ticks, ends, adds, stay, go,
}
use corivo_desktop.Learner.Rounds.{
  IsApart, IsAwaited, IsSingleHook, tick_threads-IsSingleHook, clear_learned-IsSingleHook,
}

abbrev pub learned_in : {C : Type 0} → Learner C → Text → Bool
learned_in l id = is_learned_at (l.store.checkpoints id) (some (l.latest id))

-- No two tasks that have not ended are of one thread, and the thread of each is in flight and not learned.
abbrev pub IsSingle : {C : Type 0} → Learner C → Type 0
IsSingle l = IsSingleHook (learned_in l) l.hook

module _ {C : Type 0} (threshold : ℕ) (from_str : Text → Option (SessionLearnerOutput C))
    (tokenize_for_index : Text → Text) where
  pub learned_in-after_message :
      (thread message : Text) (l : Learner C) (id : Text)
      → option_eq (l.store.checkpoints id) (some message) ≡ false
      → learned_in l id ≡ false
      → learned_in (after_message threshold from_str tokenize_for_index thread message l) id ≡ false
  learned_in-after_message thread message l id fresh h = elim (Bool-cases (text_eq id thread)) [
    | inl e ↦ rw e fresh
    | inr e ↦ rw e h
  ]

  advance_other :
      (w : Writes C) (thread_id : Text) (latest : Option Text) (c : Text → Option Text) (id : Text)
      → text_eq id thread_id ≡ false
      → advance from_str tokenize_for_index w thread_id latest c id ≡ c id
  unfolding advance upsert_checkpoint
  advance_other w thread_id none c id h = refl
  advance_other w thread_id (some m) c id h = elim (Bool-cases w.saves_checkpoint) [
    | inl e ↦ rw e (rw h refl)
    | inr e ↦ rw e refl
  ]

  pub consume_output_other :
      (w : Writes C) (output : Text) (success : Bool) (thread_id : Text) (latest : Option Text)
      (s : LearnerStore C) (id : Text)
      → text_eq id thread_id ≡ false
      → (consume_output from_str tokenize_for_index w output success thread_id latest s).checkpoints
          id
        ≡ s.checkpoints id
  unfolding consume_output
  consume_output_other w output false thread_id latest s id h = refl
  consume_output_other w output true thread_id latest s id h =
      elim (Option-cases (parse_output from_str tokenize_for_index output)) [
        | inl e ↦ rw (e, consume_output) refl
        | inr (p, e) ↦ rw (e, consume_output) (advance_other w thread_id latest s.checkpoints id h)
      ]

  pub learned_in-after_run :
      (w : Writes C) (output : Text) (success : Bool) (t : SessionLearnerTask)
      (rest : List SessionLearnerTask) (l : Learner C) (id : Text)
      → text_eq id t.thread_id ≡ false
      → learned_in (after_run threshold from_str tokenize_for_index w output success t rest l) id
        ≡ learned_in l id
  learned_in-after_run w output success t rest l id h =
      ap (λ c. is_learned_at c (some (l.latest id)))
        (consume_output_other w output success t.thread_id (l.latest t.thread_id) l.store id h)

  tick-IsSingle :
      (threads : Option (List ChatThread)) (now : ℕ) (l : Learner C)
      → IsSingle l
      → IsSingle (after_tick threshold from_str tokenize_for_index threads now l)
  unfolding tick
  tick-IsSingle none now l s = s
  tick-IsSingle (some ts) now l s =
      clear_learned-IsSingleHook threshold (deps_of l (some ts)) now _
        (tick_threads-IsSingleHook threshold (deps_of l (some ts)) now ts l.hook s)

  after_run-IsSingle :
      (w : Writes C) (output : Text) (success : Bool) (t : SessionLearnerTask)
      (rest : List SessionLearnerTask) (l : Learner C)
      → l.hook.queue ≡ t ∷ rest
      → IsSingle l
      → IsSingle (after_run threshold from_str tokenize_for_index w output success t rest l)
  after_run-IsSingle w output success t rest l e s =
      let (apart, awaited) =
        subst (λ q. IsApart q × All (IsAwaited (learned_in l) l.hook.in_flight) q) e s in
      (
        apart.1,
        All-mono
            (λ u a. (a.1.0, learned_in-after_run w output success t rest l u.thread_id a.0 ∙ a.1.1))
            rest (All-and _ _ rest apart.0 awaited.1),
      )

  Step-IsSingle :
      (l m : Learner C) → Step threshold from_str tokenize_for_index l m → IsSingle l → IsSingle m
  Step-IsSingle _ _ (ticks threads now l) s = tick-IsSingle threads now l s
  Step-IsSingle _ _ (ends w output success t rest l e) s =
      after_run-IsSingle w output success t rest l e s
  Step-IsSingle _ _ (adds thread message l fresh) s = (
    s.0,
    All-mono
        (λ u a.
          (a.0, learned_in-after_message thread message l u.thread_id (fresh u.thread_id) a.1))
        l.hook.queue s.1,
  )

  -- Whatever ticks that can read the messages and the checkpoints, ends of runs and new messages follow, no two tasks that
  -- have not ended are of one thread, and the thread of each is in flight and has messages that its checkpoint is not at, if it was so before.
  pub Steps-IsSingle :
      (l m : Learner C) → Steps threshold from_str tokenize_for_index l m → IsSingle l → IsSingle m
  Steps-IsSingle _ _ (stay l) s = s
  Steps-IsSingle _ _ (go {l} {m} {n} step steps) s =
      Steps-IsSingle m n steps (Step-IsSingle l m step s)

  -- What holds since the start of the app.
  pub started-IsSingle :
      (first l : Learner C)
      → first.hook ≡ new_hook
      → Steps threshold from_str tokenize_for_index first l
      → IsSingle l
  started-IsSingle first l e steps =
      Steps-IsSingle first l steps (subst (IsSingleHook (learned_in first)) (sym e) (tt, tt))
