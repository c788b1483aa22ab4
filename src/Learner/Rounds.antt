-- ===== src/Learner/Rounds.antt =====
-- A tick keeps the tasks of the queue apart.
use corivo_desktop.Base.{
  ℕ, ◌≡◌, refl, sym, ap, ◌∙◌, inl, inr, Bool, true, false, not, List, [], ◌∷◌, ◌++◌, Option, none,
  some, arith, Bool-cases, keep, All, All-append, All-mono,
}
use corivo_desktop.Base.Text.{
  Text, text_eq, text_eq_sound, contains, insert, contains-insert_self, contains-insert_old,
}
use corivo_desktop.Capture.Tick.{option_eq}
use corivo_desktop.Learner.Idle.{
  ChatThread, SessionLearnerTask, Deps, Hook, is_user, is_fresh, is_learned_at, enqueue_unlearned,
  tick_thread, tick_threads, is_learned, clear_learned,
}

abbrev pub IsOther : Text → SessionLearnerTask → Type 0
IsOther id t = text_eq t.thread_id id ≡ false

abbrev pub IsApart : List SessionLearnerTask → Type 0
IsApart [] = Unit {0}
IsApart (t ∷ ts) = All (λ u. IsOther t.thread_id u) ts × IsApart ts

-- A task that has not ended is of a thread in flight that is not learned.
abbrev pub IsAwaited : (Text → Bool) → List Text → SessionLearnerTask → Type 0
IsAwaited learned in_flight t =
    (contains in_flight t.thread_id ≡ true) × (learned t.thread_id ≡ false)

abbrev pub IsSingleHook : (Text → Bool) → Hook → Type 0
IsSingleHook learned h = IsApart h.queue × All (IsAwaited learned h.in_flight) h.queue

pub text_eq-contains :
    (set : List Text) (s t : Text)
    → contains set s ≡ false
    → contains set t ≡ true
    → text_eq s t ≡ false
text_eq-contains set s t h k = elim (Bool-cases (text_eq s t)) [
  | inl e ↦ absurd (cc (text_eq_sound s t e))
  | inr e ↦ e
]

pub contains-keep :
    (p : Text → Bool) (set : List Text) (s : Text)
    → contains set s ≡ true
    → p s ≡ true
    → contains (keep p set) s ≡ true
contains-keep p [] s h k = cc
contains-keep p (x ∷ set) s h k = elim (Bool-cases (text_eq s x)) [
  | inl e ↦ let q : p x ≡ true = sym (ap p (text_eq_sound s x e)) ∙ k in rw q (ground arith)
  | inr e ↦ elim (Bool-cases (p x)) [
    | inl q ↦ rw q (ground (arith, contains-keep p set s))
    | inr q ↦ rw q (contains-keep p set s (ground arith) k)
  ]
]

IsApart-append :
    (ts : List SessionLearnerTask) (t : SessionLearnerTask)
    → IsApart ts
    → All (λ u. IsOther u.thread_id t) ts
    → IsApart (ts ++ (t ∷ []))
IsApart-append [] t h k = (tt, tt)
IsApart-append (u ∷ ts) t h k =
    (All-append (IsOther u.thread_id) ts (t ∷ []) h.0 (k.0, tt), IsApart-append ts t h.1 k.1)

module _ (learned : Text → Bool) where
  enqueue_unlearned-IsSingleHook :
      (id : Text) (c : Option Text) (m : Option (Option Text)) (h : Hook)
      → learned id ≡ is_learned_at c m
      → contains h.in_flight id ≡ false
      → IsSingleHook learned h
      → IsSingleHook learned (enqueue_unlearned id c m h)
  unfolding enqueue_unlearned
  enqueue_unlearned-IsSingleHook id c none h e k s = s
  enqueue_unlearned-IsSingleHook id c (some none) h e k s = s
  enqueue_unlearned-IsSingleHook id c (some (some latest)) h e k s =
      elim (Bool-cases (option_eq c (some latest))) [
        | inl q ↦ rw q s
        | inr q ↦ rw q (
          IsApart-append h.queue (record { thread_id = id; after_message_id = c }) s.0
              (All-mono (λ u a. text_eq-contains h.in_flight id u.thread_id k a.0) h.queue s.1),
          All-append (IsAwaited learned (insert id h.in_flight)) h.queue _
              (All-mono (λ u a. (contains-insert_old id u.thread_id h.in_flight a.0, a.1)) h.queue
                s.1)
              ((contains-insert_self id h.in_flight, e ∙ q), tt),
        )
      ]

-- What queuing an idle thread keeps, a tick's loop keeps.
module _ (threshold : ℕ) (d : Deps) (now : ℕ) (P : Hook → Type 0)
    (enqueues : (id : Text) (h : Hook)
      → contains h.in_flight id ≡ false
      → P h
      → P (enqueue_unlearned id (d.get_checkpoint id) (d.latest_message_id id) h)) where
  tick_thread_keeps : (t : ChatThread) (h : Hook) → P h → P (tick_thread threshold d now t h)
  unfolding tick_thread
  tick_thread_keeps t h s = elim (Bool-cases (is_user t.kind)) [
    | inr e ↦ rw e s
    | inl e ↦ rw e (elim (Bool-cases (is_fresh threshold now t.updated_at)) [
      | inl f ↦ rw f s
      | inr f ↦ rw f (elim (Bool-cases (contains h.in_flight t.id)) [
        | inl g ↦ rw g s
        | inr g ↦ rw g (enqueues t.id h g s)
      ])
    ])
  ]

  pub tick_threads_keeps :
      (ts : List ChatThread) (h : Hook) → P h → P (tick_threads threshold d now ts h)
  tick_threads_keeps [] h s = s
  tick_threads_keeps (t ∷ ts) h s =
      tick_threads_keeps ts (tick_thread threshold d now t h) (tick_thread_keeps t h s)

module _ (threshold : ℕ) (d : Deps) (now : ℕ) where
  pub tick_threads-IsSingleHook :
      (ts : List ChatThread) (h : Hook)
      → IsSingleHook (is_learned d) h
      → IsSingleHook (is_learned d) (tick_threads threshold d now ts h)
  tick_threads-IsSingleHook ts h s =
      tick_threads_keeps threshold d now (IsSingleHook (is_learned d))
        (λ id h' g k.
          enqueue_unlearned-IsSingleHook (is_learned d) id (d.get_checkpoint id)
            (d.latest_message_id id) h' refl g k)
        ts h s

  pub clear_learned-IsSingleHook :
      (h : Hook) → IsSingleHook (is_learned d) h → IsSingleHook (is_learned d) (clear_learned d h)
  unfolding clear_learned
  clear_learned-IsSingleHook h s = (
    s.0,
    All-mono
        (λ u a. (
          contains-keep (λ id. not (is_learned d id)) h.in_flight u.thread_id a.0 (ap not a.1),
          a.1,
        ))
        h.queue s.1,
  )
