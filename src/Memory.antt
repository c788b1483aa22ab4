-- ===== src/Memory.antt =====
-- services/memory and services/tokenize.rs: what of the frames, the notes and the messages found for a question goes into the
-- prompt. The searches are SQLite's, so their hits are arguments; jieba's words and the Unicode class of a character are parameters, and
-- the arithmetic of `f32` is the parameter `R`. A time is in seconds.
pub mod Query
pub mod Packing
pub mod Recalled
mod Examples
use corivo_desktop.Base.{
  ℕ, ◌+◌, ◌-◌, Bool, true, false, ◌&&◌, not, List, [], ◌∷◌, ◌++◌, map, Option, none, some,
  if◌then◌else◌, ltb, leb, length, take, keep, any,
}
use corivo_desktop.Base.Result.{Result, ok, err}
use corivo_desktop.Base.Text.{Text, codes, text_eq, trim, is_empty}
use corivo_desktop.Capture.Tick.{Frame, option_eq}
use corivo_desktop.Privacy.Redact.{sort_by}

-- `literal n d` is the constant n/d.
pub record Scores (C : Type 0) : Type 0 where
  pub lt : C → C → Bool
  pub max : C → C → C
  pub mul : C → C → C
  pub div : C → C → C
  pub neg : C → C
  pub exp : C → C
  pub ln_2 : C
  pub of_nat : ℕ → C
  pub literal : ℕ → ℕ → C

pub data NoteScope : Type 0 where
  global project session : NoteScope

pub data NoteSourceType : Type 0 where
  user_explicit agent_inferred : NoteSourceType

pub data NoteStatus : Type 0 where
  active suggested superseded contradicted archived : NoteStatus

-- The columns of a note and of a message that the recall reads.
pub record NoteHit (C : Type 0) : Type 0 where
  pub id : Text
  pub content : Text
  pub scope : NoteScope
  pub scope_ref : Option Text
  pub source_type : NoteSourceType
  pub status : NoteStatus
  pub updated_at : ℕ
  pub score : C

pub record MessageHit (C : Type 0) : Type 0 where
  pub id : Text
  pub thread_id : Text
  pub content_text : Text
  pub created_at : ℕ
  pub score : C

pub data MemoryItem (C : Type 0) : Type 0 where
  frame : Text → Text → C → ℕ → Option Text → Option Text → MemoryItem C
  note : Text → Text → C → NoteScope → NoteSourceType → NoteStatus → MemoryItem C
  message : Text → Text → Text → C → ℕ → MemoryItem C

pub record RecallBudget : Type 0 where
  pub notes_chars : ℕ
  pub frames_chars : ℕ
  pub messages_chars : ℕ

abbrev pub default_budget : RecallBudget
default_budget = record { notes_chars = 1800; frames_chars = 3000; messages_chars = 1500 }

pub record RecallRequest : Type 0 where
  pub user_message : Text
  pub thread_id : Option Text
  pub project_id : Option Text
  pub budget : RecallBudget
  pub per_layer_top_n : ℕ

abbrev pub new_request : Text → RecallRequest
new_request user_message = record {
  user_message = user_message;
  thread_id = none;
  project_id = none;
  budget = default_budget;
  per_layer_top_n = 8;
}

-- The excerpt of a frame and of a message.
abbrev pub excerpt_chars : ℕ
excerpt_chars = 200

abbrev pub message_chars : ℕ
message_chars = 220

-- `ax_text` unless it is missing or blank, then `ocr_text`, then nothing.
unfoldable pub primary_text : Option Text → Option Text → Text
unfolding trim
primary_text none none = []
primary_text none (some o) = o
primary_text (some a) none = if is_empty (trim a) then [] else a
primary_text (some a) (some o) = if is_empty (trim a) then o else a

-- What an item costs in its own layer.
abbrev pub frame_cost : {C : Type 0} → MemoryItem C → ℕ
frame_cost (frame id excerpt score ts app title) = length excerpt + 80
frame_cost (note id content score scope source status) = 0
frame_cost (message id thread content score ts) = 0

abbrev pub note_cost : {C : Type 0} → MemoryItem C → ℕ
note_cost (frame id excerpt score ts app title) = 0
note_cost (note id content score scope source status) = length content + 30
note_cost (message id thread content score ts) = 0

abbrev pub message_cost : {C : Type 0} → MemoryItem C → ℕ
message_cost (frame id excerpt score ts app title) = 0
message_cost (note id content score scope source status) = 0
message_cost (message id thread content score ts) = length content + 60

module _ {C : Type 0} where
  -- The loop, with whether something is in `out` and what is left of the budget.
  unfoldable pub pack_from :
      (MemoryItem C → ℕ) → Bool → ℕ → List (C × MemoryItem C) → List (MemoryItem C)
  pack_from cost_of started budget [] = []
  pack_from cost_of started budget (x ∷ scored) =
      let rest = pack_from cost_of true (budget - cost_of x.1) scored in
      if ltb budget (cost_of x.1) && started then [] else x.1 ∷ rest

  unfoldable pub pack_within_budget :
      List (C × MemoryItem C) → ℕ → (MemoryItem C → ℕ) → List (MemoryItem C)
  pack_within_budget scored budget_chars cost_of = pack_from cost_of false budget_chars scored

module _ {C : Type 0} (R : Scores C) where
  open R use {lt, max, mul, div, neg, exp, ln_2, of_nat, literal}

  unfoldable pub recency_decay : ℕ → ℕ → C → C
  recency_decay now ts half_life_days =
      if leb now ts
      then literal 1 1
      else exp (mul (div (neg (div (of_nat (now - ts)) (literal 86400 1))) half_life_days) ln_2)

  -- `sort_by` with the scores' `partial_cmp`, the highest first.
  abbrev pub by_score : List (C × MemoryItem C) → List (C × MemoryItem C)
  by_score scored = sort_by (λ a b. not (lt a.0 b.0)) scored

  unfoldable pub frame_item : ℕ → Frame → C × MemoryItem C
  frame_item now f =
      let score = mul (recency_decay now f.row.captured_at (literal 7 1)) (literal 1 1) in
      (
        score,
        frame f.id (take excerpt_chars (primary_text f.row.ax_text f.row.ocr_text)) score
            f.row.captured_at f.row.app_name f.row.window_title,
      )

  unfoldable pub score_and_pack_frames : List Frame → ℕ → ℕ → List (MemoryItem C)
  score_and_pack_frames hits now budget_chars =
      pack_within_budget (by_score (map (frame_item now) hits)) budget_chars frame_cost

  abbrev source_boost : NoteSourceType → C
  source_boost user_explicit = literal 1 1
  source_boost agent_inferred = literal 6 10

  abbrev scope_boost : NoteScope → Option Text → Option Text → C
  scope_boost global scope_ref project_id = literal 3 10
  scope_boost project none project_id = literal 1 1
  scope_boost project (some pid) project_id =
      if option_eq (some pid) project_id then literal 15 10 else literal 1 1
  scope_boost session scope_ref project_id = literal 1 1

  unfoldable pub note_item : ℕ → Option Text → NoteHit C → C × MemoryItem C
  note_item now project_id hit =
      let recency = recency_decay now hit.updated_at (literal 365 1) in
      let score =
        mul
          (mul (mul (mul (max hit.score (literal 1 1000)) (literal 3 1)) recency)
            (source_boost hit.source_type))
          (scope_boost hit.scope hit.scope_ref project_id) in
      (score, note hit.id hit.content score hit.scope hit.source_type hit.status)

  unfoldable pub score_and_pack_notes : List (NoteHit C) → ℕ → ℕ → Option Text → List (MemoryItem C)
  score_and_pack_notes hits now budget_chars project_id =
      pack_within_budget (by_score (map (note_item now project_id) hits)) budget_chars note_cost

  abbrev pub is_elsewhere : Option Text → MessageHit C → Bool
  is_elsewhere none hit = true
  is_elsewhere (some tid) hit = not (text_eq hit.thread_id tid)

  unfoldable pub message_item : ℕ → MessageHit C → C × MemoryItem C
  message_item now hit =
      let score =
        mul (mul (max hit.score (literal 1 1000)) (literal 5 10))
          (recency_decay now hit.created_at (literal 30 1)) in
      (
        score,
        message hit.id hit.thread_id (take message_chars hit.content_text) score hit.created_at,
      )

  unfoldable pub score_and_pack_messages :
      List (MessageHit C) → ℕ → ℕ → Option Text → List (MemoryItem C)
  score_and_pack_messages hits now budget_chars current_thread_id =
      pack_within_budget
        (by_score (map (message_item now) (keep (is_elsewhere current_thread_id) hits)))
        budget_chars message_cost

  -- `unwrap_or_default`.
  abbrev pub hits_of : {A : Type 0} → Result (List A) Text → List A
  hits_of (ok hits) = hits
  hits_of (err e) = []

  -- The items of a recall; `fts_query` is what `tokenize_for_query` gives.
  unfoldable pub recall :
      Option Text
      → RecallRequest
      → Result (List Frame) Text
      → Result (List (NoteHit C)) Text
      → Result (List (MessageHit C)) Text
      → ℕ
      → List (MemoryItem C)
  recall none req frames notes messages now = []
  recall (some fts_query) req frames notes messages now =
      score_and_pack_frames (hits_of frames) now req.budget.frames_chars
      ++ (score_and_pack_notes (hits_of notes) now req.budget.notes_chars req.project_id
          ++ score_and_pack_messages (hits_of messages) now req.budget.messages_chars req.thread_id)
