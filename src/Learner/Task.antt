-- ===== src/Learner/Task.antt =====
-- services/session_learner/task.rs: what becomes of the answer of a run. The agent's run itself, serde's reading of JSON and the
-- segmentation of text are parameters, and so is whether a write to the database succeeds. Of the database the task changes
-- the notes, the summaries and the checkpoints.
use corivo_desktop.Base.{
  ℕ, Bool, true, false, ◌&&◌, List, [], ◌∷◌, ◌++◌, Option, none, some, if◌then◌else◌, ◌==◌, drop,
}
use corivo_desktop.Base.Text.{Text, codes, text_eq, trim, is_empty, starts_with}
use corivo_desktop.Memory.{
  NoteScope, NoteSourceType, NoteStatus, global, project, session, user_explicit, agent_inferred,
}

pub record NewNote (C : Type 0) : Type 0 where
  pub content : Text
  pub scope : NoteScope
  pub scope_ref : Option Text
  pub source_type : NoteSourceType
  pub source_message_id : Option Text
  pub source_thread_id : Option Text
  pub confidence : Option C
  pub status : Option NoteStatus
  pub expires_at : Option ℕ

pub record ThreadSummaryUpdate : Type 0 where
  pub thread_id : Text
  pub summary : Text
  pub summary_topics : Text

pub record RawNote (C : Type 0) : Type 0 where
  pub content : Text
  pub scope : Text
  pub source : Text
  pub confidence : Option C
  pub source_message_id : Option Text

pub record RawSummary : Type 0 where
  pub content : Text
  pub topics : List Text

pub record SessionLearnerOutput (C : Type 0) : Type 0 where
  pub notes : List (RawNote C)
  pub thread_summary : Option RawSummary

-- Newest last. A checkpoint is the column `last_processed_id` of a thread.
pub record LearnerStore (C : Type 0) : Type 0 where
  pub notes : List (NewNote C)
  pub summaries : List ThreadSummaryUpdate
  pub checkpoints : Text → Option Text

unfoldable pub parse_scope : Text → Option NoteScope
parse_scope raw =
    if text_eq raw (codes "global")
    then some global
    else if text_eq raw (codes "project")
    then some project
    else if text_eq raw (codes "session")
    then some session
    else none

unfoldable pub parse_source : Text → Option NoteSourceType
parse_source raw =
    if text_eq raw (codes "user_explicit")
    then some user_explicit
    else if text_eq raw (codes "agent_inferred")
    then some agent_inferred
    else none

abbrev pub unwrap_or : {A : Type 0} → A → Option A → A
unwrap_or d none = d
unwrap_or d (some a) = a

abbrev reverse_onto : Text → Text → Text
reverse_onto [] done = done
reverse_onto (c ∷ s) done = reverse_onto s (c ∷ done)

abbrev is_fence : ℕ → ℕ → ℕ → Bool
is_fence a b c = (a == 0x60) && (b == 0x60) && (c == 0x60)

-- The fences at the end, on the reversed text.
abbrev drop_fences : Text → Text
drop_fences [] = []
drop_fences (a ∷ []) = a ∷ []
drop_fences (a ∷ (b ∷ [])) = a ∷ (b ∷ [])
drop_fences (a ∷ (b ∷ (c ∷ s))) = if is_fence a b c then drop_fences s else a ∷ (b ∷ (c ∷ s))

-- `trim_end_matches("```")`.
unfoldable pub trim_end_fences : Text → Text
trim_end_fences s = reverse_onto (drop_fences (reverse_onto s [])) []

unfoldable pub strip_code_fence : Text → Text
strip_code_fence raw =
    let stripped = trim raw in
    if starts_with (codes "```json") stripped
    then trim (trim_end_fences (trim (drop 7 stripped)))
    else if starts_with (codes "```") stripped
    then trim (trim_end_fences (trim (drop 3 stripped)))
    else stripped

abbrev join_topics : List Text → Text
join_topics [] = []
join_topics (t ∷ []) = t
join_topics (t ∷ (u ∷ ts)) = t ++ (0x20 ∷ join_topics (u ∷ ts))

unfoldable pub merged_topics : Text → Text → Text
merged_topics summary_tokens topics_tokenized =
    if is_empty summary_tokens
    then topics_tokenized
    else if is_empty topics_tokenized
    then summary_tokens
    else summary_tokens ++ (0x20 ∷ topics_tokenized)

unfoldable pub new_note : {C : Type 0} → Text → RawNote C → NewNote C
new_note thread_id note = record {
  content = trim note.content;
  scope = unwrap_or global (parse_scope note.scope);
  scope_ref = none;
  source_type = unwrap_or agent_inferred (parse_source note.source);
  source_message_id = note.source_message_id;
  source_thread_id = some thread_id;
  confidence = note.confidence;
  status = none;
  expires_at = none;
}

unfoldable pub upsert_checkpoint : Text → Text → (Text → Option Text) → Text → Option Text
upsert_checkpoint thread_id last_id checkpoints t =
    if text_eq t thread_id then some last_id else checkpoints t

-- What the database answers to the writes.
pub record Writes (C : Type 0) : Type 0 where
  pub creates : NewNote C → Bool
  pub updates_summary : Bool
  pub saves_checkpoint : Bool

module _ {C : Type 0} (from_str : Text → Option (SessionLearnerOutput C))
    (tokenize_for_index : Text → Text) where
  unfoldable pub parse_output : Text → Option (SessionLearnerOutput C)
  parse_output text =
      let trimmed = trim text in
      if is_empty trimmed then none else from_str (strip_code_fence trimmed)

  unfoldable pub save_notes :
      Writes C → Text → List (RawNote C) → List (NewNote C) → List (NewNote C)
  save_notes w thread_id [] saved = saved
  save_notes w thread_id (n ∷ ns) saved =
      let note = new_note thread_id n in
      save_notes w thread_id ns (if w.creates note then saved ++ (note ∷ []) else saved)

  unfoldable pub summary_update : Text → RawSummary → ThreadSummaryUpdate
  summary_update thread_id summary = record {
    thread_id = thread_id;
    summary = trim summary.content;
    summary_topics =
        merged_topics (tokenize_for_index summary.content)
          (tokenize_for_index (join_topics summary.topics));
  }

  unfoldable pub save_summary :
      Writes C → Text → Option RawSummary → List ThreadSummaryUpdate → List ThreadSummaryUpdate
  save_summary w thread_id none saved = saved
  save_summary w thread_id (some summary) saved =
      if is_empty (trim summary.content)
      then saved
      else if w.updates_summary
      then saved ++ (summary_update thread_id summary ∷ [])
      else saved

  -- The latest message is asked for at the end of the run.
  unfoldable pub advance : Writes C → Text → Option Text → (Text → Option Text) → Text → Option Text
  advance w thread_id none checkpoints = checkpoints
  advance w thread_id (some latest) checkpoints =
      if w.saves_checkpoint then upsert_checkpoint thread_id latest checkpoints else checkpoints

  unfoldable pub consume_output :
      Writes C → Text → Bool → Text → Option Text → LearnerStore C → LearnerStore C
  consume_output w output false thread_id latest s = s
  consume_output w output true thread_id latest s = elim (parse_output output) [
    | none ↦ s
    | some parsed ↦ record {
      notes = save_notes w thread_id parsed.notes s.notes;
      summaries = save_summary w thread_id parsed.thread_summary s.summaries;
      checkpoints = advance w thread_id latest s.checkpoints;
    }
  ]
