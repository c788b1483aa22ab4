-- ===== src/Learner/Idle.antt =====
-- services/session_learner/idle.rs: the poll that queues the idle threads, and the whole of which it is a part. The tables stand
-- still while a tick reads them.
use corivo_desktop.Base.{
  ℕ, ◌-◌, ◌/◌, ◌≡◌, Bool, true, false, ◌||◌, not, List, [], ◌∷◌, ◌++◌, Option, none, some,
  if◌then◌else◌, ltb, leb, keep,
}
use corivo_desktop.Base.Text.{Text, text_eq, contains, insert}
use corivo_desktop.Capture.Tick.{option_eq}
use corivo_desktop.Learner.Task.{LearnerStore, SessionLearnerOutput, Writes, consume_output}

pub data ChatThreadKind : Type 0 where
  user system : ChatThreadKind

-- The columns that the poll reads.
pub record ChatThread : Type 0 where
  pub id : Text
  pub kind : ChatThreadKind
  pub updated_at : ℕ

pub record SessionLearnerTask : Type 0 where
  pub thread_id : Text
  pub after_message_id : Option Text

-- What a tick reads: `chat_threads.list(100)`, the latest message of a thread and its checkpoint; `none` is an error.
pub record Deps : Type 0 where
  pub threads : Option (List ChatThread)
  pub latest_message_id : Text → Option (Option Text)
  pub get_checkpoint : Text → Option Text

-- The threads in flight, and the tasks queued that have not ended, the oldest first.
pub record Hook : Type 0 where
  pub in_flight : List Text
  pub queue : List SessionLearnerTask

-- The hook that `IdleHook::new` makes.
abbrev pub new_hook : Hook
new_hook = record { in_flight = []; queue = [] }

abbrev pub is_user : ChatThreadKind → Bool
is_user user = true
is_user system = false

-- `age.num_seconds() < idle_threshold`, where the age may be negative and is cut towards zero.
unfoldable pub is_fresh : ℕ → ℕ → ℕ → Bool
is_fresh threshold now updated_at =
    if leb updated_at now
    then ltb ((now - updated_at) / 1000) threshold
    else ltb 0 threshold || leb 1000 (updated_at - now)

-- The checkpoint is at the latest message.
abbrev pub is_learned_at : Option Text → Option (Option Text) → Bool
is_learned_at checkpoint none = false
is_learned_at checkpoint (some none) = false
is_learned_at checkpoint (some (some latest)) = option_eq checkpoint (some latest)

unfoldable pub enqueue_unlearned : Text → Option Text → Option (Option Text) → Hook → Hook
enqueue_unlearned id checkpoint none h = h
enqueue_unlearned id checkpoint (some none) h = h
enqueue_unlearned id checkpoint (some (some latest)) h =
    if option_eq checkpoint (some latest) then h else record {
      in_flight = insert id h.in_flight;
      queue = h.queue ++ (record { thread_id = id; after_message_id = checkpoint } ∷ []);
    }

abbrev pub is_learned : Deps → Text → Bool
is_learned d id = is_learned_at (d.get_checkpoint id) (d.latest_message_id id)

unfoldable pub clear_learned : Deps → Hook → Hook
clear_learned d h = record h { in_flight = keep (λ id. not (is_learned d id)) h.in_flight }

module _ (threshold : ℕ) where
  unfoldable pub tick_thread : Deps → ℕ → ChatThread → Hook → Hook
  tick_thread d now t h =
      if is_user t.kind
      then (if is_fresh threshold now t.updated_at
          then h
          else if contains h.in_flight t.id
          then h
          else enqueue_unlearned t.id (d.get_checkpoint t.id) (d.latest_message_id t.id) h)
      else h

  abbrev pub tick_threads : Deps → ℕ → List ChatThread → Hook → Hook
  tick_threads d now [] h = h
  tick_threads d now (t ∷ ts) h = tick_threads d now ts (tick_thread d now t h)

  -- `none` if the state or the dependencies are not there yet.
  unfoldable pub tick : Option Deps → ℕ → Hook → Hook
  tick none now h = h
  tick (some d) now h = elim d.threads [
    | none ↦ h
    | some threads ↦ clear_learned d (tick_threads d now threads h)
  ]

-- The poll, the tables, and the latest message of each thread.
pub record Learner (C : Type 0) : Type 0 where
  pub hook : Hook
  pub store : LearnerStore C
  pub latest : Text → Option Text

-- What a tick reads while every read of the tables but that of the list succeeds. A read of a checkpoint that fails counts as no
-- checkpoint in the source, and is not a step here.
abbrev pub deps_of : {C : Type 0} → Learner C → Option (List ChatThread) → Deps
deps_of l threads = record {
  threads = threads;
  latest_message_id = λ id. some (l.latest id);
  get_checkpoint = l.store.checkpoints;
}

module _ {C : Type 0} (threshold : ℕ) (from_str : Text → Option (SessionLearnerOutput C))
    (tokenize_for_index : Text → Text) where
  abbrev pub after_tick : Option (List ChatThread) → ℕ → Learner C → Learner C
  after_tick threads now l = record l {
    hook = tick threshold (some (deps_of l threads)) now l.hook;
  }

  -- The oldest task ends; the rest of the queue is given.
  abbrev pub after_run :
      Writes C → Text → Bool → SessionLearnerTask → List SessionLearnerTask → Learner C → Learner C
  after_run w output success t rest l = record {
    hook = record { in_flight = l.hook.in_flight; queue = rest };
    store =
        consume_output from_str tokenize_for_index w output success t.thread_id
          (l.latest t.thread_id) l.store;
    latest = l.latest;
  }

  abbrev pub after_message : Text → Text → Learner C → Learner C
  after_message thread message l = record l {
    latest = λ t. if text_eq t thread then some message else l.latest t;
  }

  pub data Step : Learner C → Learner C → Type 0 where
    ticks :
        (threads : Option (List ChatThread)) (now : ℕ) (l : Learner C)
        → Step l (after_tick threads now l)
    ends :
        (w : Writes C) (output : Text) (success : Bool) (t : SessionLearnerTask)
        (rest : List SessionLearnerTask) (l : Learner C)
        → l.hook.queue ≡ t ∷ rest
        → Step l (after_run w output success t rest l)
    -- An id that no checkpoint has.
    adds :
        (thread message : Text) (l : Learner C)
        → ((t : Text) → option_eq (l.store.checkpoints t) (some message) ≡ false)
        → Step l (after_message thread message l)

  pub data Steps : Learner C → Learner C → Type 0 where
    stay : (l : Learner C) → Steps l l
    go : {l m n : Learner C} → Step l m → Steps m n → Steps l n
