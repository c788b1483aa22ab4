-- ===== src/Workflow/Trigger/Later.antt =====
-- A trigger fires later than the instant it is asked for.
use corivo_desktop.Base.{
  ℕ, ◌≡◌, refl, ap, ◌⊎◌, inl, inr, true, false, List, Option, none, some, arith, ◌==◌,
  if◌then◌else◌, ==_iff, suc, zero, Bool-cases, Option-cases, any, ◌<◌,
}
use corivo_desktop.Base.Text.{Text, is_whitespace}
use corivo_desktop.Workflow.Trigger.{
  Weekday, WorkflowTrigger, Calendar, count_words, pad_to_six_field, validate, local_hm_to_utc,
  or_later, daily_from, weekly_from, chrono_days, next_daily, next_weekly, next_cron, next_after,
  interval, daily, weekly, once, cron, valid,
}

-- A cron expression of five fields is padded to six, and any other is left alone.
pub count_words-pad_to_six_field :
    (expr : Text)
    → count_words false (pad_to_six_field expr)
      ≡ (if count_words false expr == 5 then 6 else count_words false expr)
unfolding pad_to_six_field is_whitespace
count_words-pad_to_six_field expr = elim (Bool-cases (count_words false expr == 5)) [
  | inl five ↦ rw (five, pad_to_six_field) (ap suc ((==_iff (count_words false expr) 5).0 five))
  | inr other ↦ rw (other, pad_to_six_field) refl
]

module _ (C : Calendar) where
  or_later_lem :
      (t : ℕ) (found rest : Option ℕ) (u : ℕ)
      → or_later C t found rest ≡ some u
      → (t < u) ⊎ (rest ≡ some u)
  or_later_lem t none rest u h = inr h
  or_later_lem t (some utc) rest u h = ground arith

  daily_from-later :
      (t : ℕ) (zone : C.Tz) (hour minute day left u : ℕ)
      → daily_from C t zone hour minute day left ≡ some u
      → t < u
  daily_from-later t zone hour minute day zero u h = ground arith
  daily_from-later t zone hour minute day (suc left) u h =
      elim (or_later_lem t (local_hm_to_utc C zone day hour minute) _ u h) [
        | inl later ↦ later
        | inr rest ↦ daily_from-later t zone hour minute (suc day) left u rest
      ]

  weekly_from-later :
      (t : ℕ) (zone : C.Tz) (allowed : List ℕ) (hour minute day left u : ℕ)
      → weekly_from C t zone allowed hour minute day left ≡ some u
      → t < u
  weekly_from-later t zone allowed hour minute day zero u h = ground arith
  weekly_from-later t zone allowed hour minute day (suc left) u h =
      elim (Bool-cases (any (λ w. w == C.weekday day) allowed)) [
        | inl on ↦
            elim (or_later_lem t (local_hm_to_utc C zone day hour minute) _ u (rewritten_on on)) [
              | inl later ↦ later
              | inr rest ↦ weekly_from-later t zone allowed hour minute (suc day) left u rest
            ]
        | inr off ↦ weekly_from-later t zone allowed hour minute (suc day) left u (ground arith)
      ]
    where
      rewritten_on :
          any (λ w. w == C.weekday day) allowed ≡ true
          → or_later C t
              (local_hm_to_utc C zone day hour minute)
              (weekly_from C t zone allowed hour minute (suc day) left)
            ≡ some u
      rewritten_on on = ground arith

  next_daily-later :
      (t hour minute : ℕ) (tz : Text) (u : ℕ) → next_daily C t hour minute tz ≡ some u → t < u
  unfolding next_daily
  next_daily-later t hour minute tz u h = elim (Option-cases (C.tz_from_str tz)) [
    | inl e ↦ absurd (ground arith)
    | inr (zone, e) ↦ daily_from-later t zone hour minute (C.date_naive zone t) 3 u (ground arith)
  ]

  next_weekly-later :
      (t : ℕ) (ws : List Weekday) (hour minute : ℕ) (tz : Text) (u : ℕ)
      → next_weekly C t ws hour minute tz ≡ some u
      → t < u
  unfolding next_weekly
  next_weekly-later t ws hour minute tz u h = elim (Option-cases (C.tz_from_str tz)) [
    | inl e ↦ absurd (ground arith)
    | inr (zone, e) ↦
        weekly_from-later t zone (chrono_days C ws) hour minute (C.date_naive zone t) 8 u
          (ground arith)
  ]

  next_cron-later : (t : ℕ) (expr tz : Text) (u : ℕ) → next_cron C t expr tz ≡ some u → t < u
  unfolding next_cron
  next_cron-later t expr tz u h = elim (Option-cases (C.tz_from_str tz)) [
    | inl e ↦ absurd (ground arith)
    | inr (zone, e) ↦ elim (Option-cases (C.schedule_from_str (pad_to_six_field expr))) [
      | inl none_found ↦ absurd (ground arith)
      | inr (schedule, found) ↦ C.schedule_after_lem schedule zone t u (ground arith)
    ]
  ]

  -- If a trigger is accepted and it fires again, it does so strictly later than the instant it was asked for.
  pub next_after-later :
      (trigger : WorkflowTrigger) (t u : ℕ)
      → validate C trigger ≡ valid
      → next_after C trigger t ≡ some u
      → t < u
  unfolding next_after validate
  next_after-later (interval minutes) t u ok h = ground arith
  next_after-later (daily hour minute tz) t u ok h = next_daily-later t hour minute tz u h
  next_after-later (weekly ws hour minute tz) t u ok h = next_weekly-later t ws hour minute tz u h
  next_after-later (once at) t u ok h = ground arith
  next_after-later (cron expr tz) t u ok h = next_cron-later t expr tz u h
