-- ===== src/Retention.antt =====
-- services/retention/mod.rs, with the parts of services/capture_store.rs and db/repos/frames.rs that it calls: what is older than 90
-- days is deleted. An instant is in milliseconds. What the file system answers is a parameter.
pub mod Deleted
pub mod Round
mod Examples
use corivo_desktop.Base.{
  ℕ, ◌+◌, ◌-◌, ◌*◌, Bool, true, false, ◌&&◌, not, List, [], ◌∷◌, map, Option, none, some,
  if◌then◌else◌, ltb, length, keep,
}
use corivo_desktop.Base.Text.{Text, codes, text_eq}
use corivo_desktop.Capture.Tick.{Frame, option_eq}

pub data SessionStatus : Type 0 where
  active completed aborted : SessionStatus

-- The fields that the sweep reads.
pub record SessionInfo : Type 0 where
  pub id : Text
  pub started_at : ℕ
  pub status : SessionStatus

-- An entry of the directory: `none` where the system gives no metadata or no time.
pub record DirEntry : Type 0 where
  pub extension : Option Text
  pub is_file : Option Bool
  pub modified : Option ℕ
  pub removable : Bool

-- `none` for a directory that is not there or is not read.
pub record Kept : Type 0 where
  pub frames : List Frame
  pub sessions : List SessionInfo
  pub agent_sessions : Option (List DirEntry)

-- Whether the table answers, whether the directory of a session is gone or can be removed, and whether the index is saved after it.
pub record Answers : Type 0 where
  pub deletes_frames : Bool
  pub removes_dir : Text → Bool
  pub saves_index : Text → Bool

abbrev pub retention_days : ℕ
retention_days = 90

abbrev pub days_ms : ℕ → ℕ
days_ms days = days * 86400000

unfoldable pub is_recent_frame : ℕ → Frame → Bool
is_recent_frame cutoff f = not (ltb f.row.captured_at cutoff)

-- `FrameRepo::delete_older_than`, with the number of rows.
unfoldable pub delete_frames_older_than : ℕ → List Frame → ℕ × List Frame
delete_frames_older_than cutoff frames =
    (length (keep (λ f. ltb f.row.captured_at cutoff) frames), keep (is_recent_frame cutoff) frames)

abbrev pub is_active : SessionStatus → Bool
is_active active = true
is_active completed = false
is_active aborted = false

abbrev pub is_deletable : ℕ → SessionInfo → Bool
is_deletable cutoff s = ltb s.started_at cutoff && not (is_active s.status)

-- Whether it succeeds, and the index in memory.
unfoldable pub delete_session : Answers → Text → List SessionInfo → Bool × List SessionInfo
delete_session o id sessions =
    if o.removes_dir id
    then (o.saves_index id, keep (λ s. not (text_eq s.id id)) sessions)
    else (false, sessions)

-- The loop stops at the first error.
unfoldable pub delete_sessions : Answers → List Text → List SessionInfo → Bool × List SessionInfo
delete_sessions o [] sessions = (true, sessions)
delete_sessions o (id ∷ ids) sessions =
    let (ok, left) = delete_session o id sessions in
    let rest = delete_sessions o ids left in if ok then rest else (false, left)

unfoldable pub deletable_ids : ℕ → List SessionInfo → List Text
deletable_ids cutoff sessions = map (λ s. s.id) (keep (is_deletable cutoff) sessions)

unfoldable pub is_swept : ℕ → DirEntry → Bool
is_swept cutoff e =
    option_eq e.extension (some (codes "jsonl"))
    && elim e.is_file [ none ↦ false | some b ↦ b ]
    && elim e.modified [ none ↦ false | some t ↦ not (ltb cutoff t) ]
    && e.removable

unfoldable pub sweep_agent_sessions_dir : ℕ → Option (List DirEntry) → ℕ × Option (List DirEntry)
sweep_agent_sessions_dir cutoff none = (0, none)
sweep_agent_sessions_dir cutoff (some entries) =
    (length (keep (is_swept cutoff) entries), some (keep (λ e. not (is_swept cutoff e)) entries))

-- From the sessions on, given the frames that are left.
unfoldable pub finish_round : ℕ → Kept → List Frame → Bool × List SessionInfo → Bool × Kept
finish_round cutoff k frames (true, sessions) = (
  true,
  record {
    frames = frames;
    sessions = sessions;
    agent_sessions = (sweep_agent_sessions_dir cutoff k.agent_sessions).1;
  },
)
finish_round cutoff k frames (false, sessions) =
    (false, record { frames = frames; sessions = sessions; agent_sessions = k.agent_sessions })

-- Whether it succeeds, and what is left. The clock is read once.
unfoldable pub run_round : Answers → ℕ → Kept → Bool × Kept
run_round o now k =
    let cutoff = now - days_ms retention_days in
    if o.deletes_frames
    then finish_round cutoff k (delete_frames_older_than cutoff k.frames).1
        (delete_sessions o (deletable_ids cutoff k.sessions) k.sessions)
    else (false, k)
