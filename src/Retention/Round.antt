-- ===== src/Retention/Round.antt =====
-- What a round of the retention leaves.
use corivo_desktop.Base.{
  ℕ, ◌+◌, ◌-◌, ◌≤◌, ◌<◌, ◌≡◌, ◌≢◌, refl, sym, ap, ◌∙◌, inl, inr, Bool, true, false, not, List,
  arith, Option, none, some, ltb, ◌&&◌, Option-cases, if◌then◌else◌, ◌⊎◌, subst, All-mono, keep,
}
use corivo_desktop.Base.Text.{Text, codes, text_eq_refl, text_eq_sound}
use corivo_desktop.Capture.Tick.{Frame, option_eq}
use corivo_desktop.Retention.{
  SessionStatus, SessionInfo, DirEntry, Kept, Answers, is_recent_frame, delete_frames_older_than,
  is_deletable, delete_sessions, deletable_ids, sweep_agent_sessions_dir, finish_round, run_round,
  days_ms, retention_days, is_active, active, completed, aborted, is_swept,
}
use corivo_desktop.Base.Sift.{Sifted, Separates, keep-Sifted, Sifted_whole, All-each}
use corivo_desktop.Retention.Deleted.{
  HasUniqueIds, is_spared, IsDeleted, delete_sessions-IsDeleted, ids_in, ids_in-IsTold,
}

-- In milliseconds.
abbrev pub ninety_days : ℕ
ninety_days = 7776000000

abbrev pub IsRecentFrame : ℕ → Frame → Type 0
IsRecentFrame now f = now ≤ f.row.captured_at + ninety_days

abbrev pub IsOldFrame : ℕ → Frame → Type 0
IsOldFrame now f = f.row.captured_at + ninety_days < now

abbrev pub IsKeptSession : ℕ → SessionInfo → Type 0
IsKeptSession now s = (s.status ≡ active) ⊎ (now ≤ s.started_at + ninety_days)

abbrev pub IsOldSession : ℕ → SessionInfo → Type 0
IsOldSession now s = (s.status ≢ active) × (s.started_at + ninety_days < now)

-- A file of an agent's session that is 90 days old and that the system removes.
abbrev pub IsOldFile : ℕ → DirEntry → Type 0
IsOldFile now e =
    (e.extension ≡ some (codes "jsonl"))
    × (e.is_file ≡ some true)
    × ((t : ℕ) × (e.modified ≡ some t) × (t + ninety_days ≤ now))
    × (e.removable ≡ true)

abbrev pub IsOtherFile : ℕ → DirEntry → Type 0
IsOtherFile now e = ¬ IsOldFile now e

abbrev pub IsSiftedDir : ℕ → Option (List DirEntry) → Option (List DirEntry) → Type 0
IsSiftedDir now none none = Unit {0}
IsSiftedDir now none (some after) = ⊥
IsSiftedDir now (some before) none = ⊥
IsSiftedDir now (some before) (some after) = Sifted (IsOtherFile now) (IsOldFile now) before after

abbrev pub IsAny : {A : Type 0} → A → Type 0
IsAny a = Unit {0}

-- A round that succeeds takes out all that is old and nothing else, and one that fails nothing that is not old, and no file.
abbrev pub IsRound : ℕ → Kept → Bool × Kept → Type 0
IsRound now before (true, after) =
    Sifted (IsRecentFrame now) (IsOldFrame now) before.frames after.frames
    × Sifted (IsKeptSession now) (IsOldSession now) before.sessions after.sessions
    × IsSiftedDir now before.agent_sessions after.agent_sessions
IsRound now before (false, after) =
    Sifted IsAny (IsOldFrame now) before.frames after.frames
    × Sifted IsAny (IsOldSession now) before.sessions after.sessions
    × (after.agent_sessions ≡ before.agent_sessions)

option_eq-some : (o : Option Text) (s : Text) → option_eq o (some s) ≡ true → o ≡ some s
option_eq-some none s h = absurd cc
option_eq-some (some t) s h = ap some (text_eq_sound t s h)

module _ (now : ℕ) (late : ninety_days ≤ now) where
  abbrev cutoff : ℕ
  cutoff = now - days_ms retention_days

  is_deletable-IsOldSession : (s : SessionInfo) → is_deletable cutoff s ≡ true → IsOldSession now s
  is_deletable-IsOldSession s = go s.status
    where
      go :
          (status : SessionStatus)
          → (ltb s.started_at cutoff && not (is_active status)) ≡ true
          → (status ≢ active) × (s.started_at + ninety_days < now)
      go active h = absurd (ground arith)
      go completed h = (λ q. absurd (cc q), ground arith)
      go aborted h = (λ q. absurd (cc q), ground arith)

  is_deletable-IsKeptSession :
      (s : SessionInfo) → is_deletable cutoff s ≡ false → IsKeptSession now s
  is_deletable-IsKeptSession s = go s.status
    where
      go :
          (status : SessionStatus)
          → (ltb s.started_at cutoff && not (is_active status)) ≡ false
          → (status ≡ active) ⊎ (now ≤ s.started_at + ninety_days)
      go active h = inl refl
      go completed h = inr (ground arith)
      go aborted h = inr (ground arith)

  is_recent_frame-IsRecentFrame :
      (f : Frame) → Separates (IsRecentFrame now) (IsOldFrame now) (is_recent_frame cutoff) f
  unfolding is_recent_frame
  is_recent_frame-IsRecentFrame f = (λ h. ground arith, λ h. ground arith)

  is_swept-IsOldFile : (e : DirEntry) → is_swept cutoff e ≡ true → IsOldFile now e
  unfolding is_swept
  is_swept-IsOldFile e h = elim (Option-cases e.modified) [
    | inl n ↦ absurd (ground arith)
    | inr (t, m) ↦ (
      option_eq-some e.extension (codes "jsonl") (ground arith),
      go e.is_file (ground arith),
      (t, m, ground arith),
      ground arith,
    )
  ]
    where
      go : (o : Option Bool) → (elim o [ none ↦ false | some b ↦ b ]) ≡ true → o ≡ some true
      go none q = absurd cc
      go (some b) q = ap some q

  is_swept-IsOtherFile : (e : DirEntry) → is_swept cutoff e ≡ false → IsOtherFile now e
  unfolding is_swept
  is_swept-IsOtherFile e h (x, f, (t, m, le), r) = ground (arith, text_eq_refl (codes "jsonl"))

  sweep-IsSiftedDir :
      (o : Option (List DirEntry)) → IsSiftedDir now o (sweep_agent_sessions_dir cutoff o).1
  unfolding sweep_agent_sessions_dir
  sweep-IsSiftedDir none = tt
  sweep-IsSiftedDir (some entries) =
      keep-Sifted (IsOtherFile now) (IsOldFile now) (λ e. not (is_swept cutoff e)) entries
        (All-each _ entries (λ e.
          (λ h. is_swept-IsOtherFile e (ground arith), λ h. is_swept-IsOldFile e (ground arith))))

  finish_round-IsRound :
      (k : Kept)
      → HasUniqueIds k.sessions
      → (r : Bool × List SessionInfo) → IsDeleted (ids_in cutoff k.sessions) k.sessions r
      → IsRound now k (finish_round cutoff k (delete_frames_older_than cutoff k.frames).1 r)
  unfolding finish_round delete_frames_older_than
  finish_round-IsRound k u (true, sessions) (gone, left, all, some_of) = (
    keep-Sifted (IsRecentFrame now) (IsOldFrame now) (is_recent_frame cutoff) k.frames
        (All-each _ k.frames is_recent_frame-IsRecentFrame),
    subst (Sifted (IsKeptSession now) (IsOldSession now) k.sessions)
        (sym (left ∙ ap (λ g. keep (is_spared g) k.sessions) (all refl)))
        (keep-Sifted (IsKeptSession now) (IsOldSession now) (is_spared (ids_in cutoff k.sessions))
          k.sessions
          (All-mono
            (λ s t. (
              λ h. is_deletable-IsKeptSession s (sym t ∙ ground arith),
              λ h. is_deletable-IsOldSession s (sym t ∙ ground arith),
            ))
            k.sessions (ids_in-IsTold cutoff k.sessions u))),
    sweep-IsSiftedDir k.agent_sessions,
  )
  finish_round-IsRound k u (false, sessions) (gone, left, all, some_of) = (
    keep-Sifted IsAny (IsOldFrame now) (is_recent_frame cutoff) k.frames
        (All-each _ k.frames (λ f. (λ h. tt, (is_recent_frame-IsRecentFrame f).1))),
    subst (Sifted IsAny (IsOldSession now) k.sessions) (sym left) (
        keep-Sifted IsAny (IsOldSession now) (is_spared gone) k.sessions (
          All-mono
            (λ s t.
              (λ h. tt, λ h. is_deletable-IsOldSession s (sym t ∙ some_of s.id (ground arith))))
            k.sessions (ids_in-IsTold cutoff k.sessions u))),
    refl,
  )

-- If no two sessions have the same id and the clock is at least 90 days after 1970, then a round that succeeds takes out the frames that
-- are more than 90 days old, the sessions that began more than 90 days ago and are not active, and the jsonl files that are at least
-- 90 days old and can be removed, and leaves all the rest in its order. A round that fails takes out no other frame or session, and no
-- file.
pub run_round-IsRound :
    (o : Answers) (now : ℕ) (k : Kept)
    → ninety_days ≤ now
    → HasUniqueIds k.sessions
    → IsRound now k (run_round o now k)
unfolding run_round deletable_ids
run_round-IsRound o now k late u = go o.deletes_frames
  where
    go :
        (b : Bool)
        → IsRound now k (
            if b
            then finish_round
                (now - days_ms retention_days)
                k
                (delete_frames_older_than (now - days_ms retention_days) k.frames).1
                (delete_sessions o
                  (deletable_ids (now - days_ms retention_days) k.sessions)
                  k.sessions)
            else (false, k))
    go false = (Sifted_whole _ _ k.frames (λ f. tt), Sifted_whole _ _ k.sessions (λ s. tt), refl)
    go true =
        finish_round-IsRound now late k u
          (delete_sessions o (deletable_ids (now - days_ms retention_days) k.sessions) k.sessions)
          (delete_sessions-IsDeleted o (deletable_ids (now - days_ms retention_days) k.sessions)
            k.sessions)
