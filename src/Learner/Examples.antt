-- ===== src/Learner/Examples.antt =====
-- Witnesses and tests.
use corivo_desktop.Base.{List, ℕ, ◌≡◌, refl, inl, true, false, [], ◌∷◌, Option, none, some, All}
use corivo_desktop.Base.Text.{Text, codes, contains, trim, trim_start, trim_end, is_whitespace}
use corivo_desktop.Learner.Task.{
  SessionLearnerOutput, Writes, strip_code_fence, trim_end_fences, parse_output, consume_output,
}
use corivo_desktop.Learner.Idle.{
  new_hook, ChatThread, SessionLearnerTask, Learner, is_fresh, tick, user, after_run, after_message,
  Steps, ticks, ends, adds, stay, go, tick_thread, enqueue_unlearned, clear_learned,
}
use corivo_desktop.Learner.Rounds.{IsOther}
use corivo_desktop.Learner.Single.{IsSingle, Steps-IsSingle}
use corivo_desktop.Learner.Stuck.{IsStuck, failed_run-IsStuck}
use corivo_desktop.Learner.Settled.{after_both, learned_run_settles}

abbrev nothing : SessionLearnerOutput ℕ
nothing = record { notes = []; thread_summary = none }

abbrev reads : Text → Option (SessionLearnerOutput ℕ)
reads [] = none
reads (c ∷ s) = some nothing

abbrev same : Text → Text
same s = s

abbrev all_saved : Writes ℕ
all_saved = record { creates = λ n. true; updates_summary = true; saves_checkpoint = true }

abbrev chat_task : SessionLearnerTask
chat_task = record { thread_id = codes "chat"; after_message_id = none }

abbrev other_task : SessionLearnerTask
other_task = record { thread_id = codes "other"; after_message_id = none }

abbrev chat_thread : ChatThread
chat_thread = record { id = codes "chat"; kind = user; updated_at = 0 }

abbrev two_queued : Learner ℕ
two_queued = record {
  hook = record {
    in_flight = codes "chat" ∷ (codes "other" ∷ []);
    queue = chat_task ∷ (other_task ∷ []);
  };
  store = record { notes = []; summaries = []; checkpoints = λ t. none };
  latest = λ t. some (codes "m1");
}

-- The start, and the tick that finds both threads idle.
abbrev fresh_start : Learner ℕ
fresh_start = record two_queued { hook = new_hook }

abbrev both_threads : List ChatThread
both_threads = chat_thread ∷ (record { id = codes "other"; kind = user; updated_at = 0 } ∷ [])

starting : Steps 300 reads same fresh_start two_queued
unfolding tick tick_thread is_fresh enqueue_unlearned clear_learned
starting = go (ticks (some both_threads) 1000000 fresh_start) (stay two_queued)

two_queued-IsSingle : IsSingle two_queued
two_queued-IsSingle = (((refl, tt), (tt, tt)), ((refl, refl), ((refl, refl), tt)))

strip_code_fence_test : strip_code_fence (codes "```json {} ``` ") ≡ codes "{}"
unfolding strip_code_fence trim_end_fences trim trim_start trim_end is_whitespace
strip_code_fence_test = refl

abbrev after_failure : Learner ℕ
after_failure = after_run 300 reads same all_saved [] false chat_task (other_task ∷ []) two_queued

-- The run fails, and a message is added.
abbrev talks_on : Learner ℕ
talks_on = after_message 300 reads same (codes "chat") (codes "m2") after_failure

talking : Steps 300 reads same after_failure talks_on
unfolding consume_output
talking = go (adds (codes "chat") (codes "m2") after_failure (λ t. refl)) (stay talks_on)

failed_run-IsStuck_example : IsStuck (codes "chat") talks_on
failed_run-IsStuck_example =
    failed_run-IsStuck 300 reads same all_saved [] false chat_task (other_task ∷ []) fresh_start
      two_queued talks_on refl starting (inl refl) refl talking

Steps-IsSingle_example : IsSingle talks_on
Steps-IsSingle_example =
    Steps-IsSingle 300 reads same two_queued talks_on
      (go (ends all_saved [] false chat_task (other_task ∷ []) two_queued refl) talking)
      two_queued-IsSingle

learned_run_settles_example :
    ((after_both 300 reads same all_saved
          (codes "{}")
          chat_task
          (other_task ∷ [])
          (chat_thread ∷ [])
          1000
          two_queued).store.checkpoints
        (codes "chat")
      ≡ some (codes "m1"))
    × (contains
          (after_both 300 reads same all_saved
            (codes "{}")
            chat_task
            (other_task ∷ [])
            (chat_thread ∷ [])
            1000
            two_queued).hook.in_flight
          (codes "chat")
        ≡ false)
    × All
        (IsOther (codes "chat"))
        (after_both 300 reads same all_saved
          (codes "{}")
          chat_task
          (other_task ∷ [])
          (chat_thread ∷ [])
          1000
          two_queued).hook.queue
unfolding parse_output strip_code_fence trim trim_start trim_end is_whitespace
learned_run_settles_example =
    learned_run_settles 300 reads same all_saved (codes "{}") (codes "m1") nothing chat_task
      (other_task ∷ []) (chat_thread ∷ []) 1000 fresh_start two_queued refl starting refl refl refl
      refl
