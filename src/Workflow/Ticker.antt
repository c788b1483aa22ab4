-- ===== src/Workflow/Ticker.antt =====
-- services/scheduled_workflows/ticker.rs: one pass over what is due, the claim that keeps a workflow from being queued
-- while it runs, and "run now". The queue of the background scheduler is the list of slugs enqueued, and
-- whether a definition can be loaded from the disk is the parameter `has_definition`.
pub mod Flight
use corivo_desktop.Base.{
  ℕ, Bool, true, false, List, [], ◌∷◌, ◌++◌, Option, none, some, if◌then◌else◌,
}
use corivo_desktop.Base.Text.{Text, codes}
use corivo_desktop.Workflow.Trigger.{Calendar}
use corivo_desktop.Workflow.Store.{
  WorkflowStore, DispatchedSchedule, try_claim_slug, release_slug, set_enabled,
  list_and_advance_due,
}

-- The store, and the slugs enqueued so far, newest last.
pub record TickerState : Type 0 where
  pub store : WorkflowStore
  pub queue : List Text

pub data RunNow : Type 0 where
  no_such_workflow : RunNow
  already_inflight : RunNow
  started : RunNow

module _ (C : Calendar) (has_definition : Text → Bool) where
  -- `if let Err(error) = … { warn }`.
  abbrev pub or_keep : Option WorkflowStore → WorkflowStore → WorkflowStore
  or_keep none s = s
  or_keep (some s') s = s'

  unfoldable pub auto_disable : Text → ℕ → WorkflowStore → WorkflowStore
  auto_disable slug now s = or_keep (set_enabled C slug false now s) s

  -- The body of the loop, with the slug claimed.
  unfoldable pub enqueue_claimed : Text → ℕ → WorkflowStore → List Text → TickerState
  enqueue_claimed slug now claimed queue =
      if has_definition slug
      then record { store = claimed; queue = queue ++ (slug ∷ []) }
      else record { store = auto_disable slug now (release_slug slug claimed); queue = queue }

  unfoldable pub tick_entry : ℕ → DispatchedSchedule → TickerState → TickerState
  tick_entry now entry t =
      if (try_claim_slug entry.slug t.store).0
      then enqueue_claimed entry.slug now (try_claim_slug entry.slug t.store).1 t.queue
      else t

  abbrev pub tick_entries : ℕ → List DispatchedSchedule → TickerState → TickerState
  tick_entries now [] t = t
  tick_entries now (e ∷ es) t = tick_entries now es (tick_entry now e t)

  unfoldable pub tick_once : ℕ → TickerState → TickerState
  tick_once now t =
      tick_entries now (list_and_advance_due C now t.store).0
        (record t { store = (list_and_advance_due C now t.store).1 })

  unfoldable pub run_now : Text → TickerState → RunNow × TickerState
  run_now slug t =
      if has_definition slug
      then (if (try_claim_slug slug t.store).0
          then (
            started,
            record { store = (try_claim_slug slug t.store).1; queue = t.queue ++ (slug ∷ []) },
          )
          else (already_inflight, t))
      else (no_such_workflow, t)
