-- ===== src/Workflow/Trigger/First.antt =====
-- Which day a daily or weekly trigger picks, and when it finds none.
use corivo_desktop.Base.{
  ℕ, ◌≡◌, refl, sym, ◌∙◌, subst, ◌⊎◌, inl, inr, true, false, List, [], ◌∷◌, Option, none, some,
  arith, ltb, ◌==◌, suc, zero, ltb→lt, Bool-cases, any, ◌≤◌, ◌<◌, ◌+◌,
}
use corivo_desktop.Base.Text.{Text}
use corivo_desktop.Workflow.Trigger.{
  Weekday, to_chrono, Calendar, local_hm_to_utc, or_later, daily_from, weekly_from, chrono_days,
  next_daily, next_weekly, next_after, daily, weekly,
}

-- There is no such instant, or it is not after `t`.
abbrev pub IsPast : ℕ → Option ℕ → Type 0
IsPast t none = Unit
IsPast t (some u) = u ≤ t

module _ (C : Calendar) where
  or_later-IsPast :
      (t : ℕ) (found rest : Option ℕ) → IsPast t found → or_later C t found rest ≡ rest
  or_later-IsPast t none rest h = refl
  or_later-IsPast t (some u) rest h = ground arith

  or_later_now :
      (t u : ℕ) (found rest : Option ℕ) → found ≡ some u → t < u → or_later C t found rest ≡ some u
  or_later_now t u found rest e h = rw e (ground arith)

  daily_from_first :
      (t : ℕ) (zone : C.Tz) (hour minute day left k u : ℕ)
      → k < left
      → local_hm_to_utc C zone (day + k) hour minute ≡ some u
      → t < u
      → ((j : ℕ) → j < k → IsPast t (local_hm_to_utc C zone (day + j) hour minute))
      → daily_from C t zone hour minute day left ≡ some u
  daily_from_first t zone hour minute day zero k u inside at later past = absurd (omega arith)
  daily_from_first t zone hour minute day (suc left) zero u inside at later past =
      or_later_now t u (local_hm_to_utc C zone day hour minute) _
        (subst (λ d. local_hm_to_utc C zone d hour minute ≡ some u) (omega arith) at) later
  daily_from_first t zone hour minute day (suc left) (suc k) u inside at later past =
      or_later-IsPast t (local_hm_to_utc C zone day hour minute) _ (
        subst (λ d. IsPast t (local_hm_to_utc C zone d hour minute)) (omega arith)
          (past 0 (omega arith)))
      ∙ daily_from_first t zone hour minute (suc day) left k u (omega arith)
          (subst (λ d. local_hm_to_utc C zone d hour minute ≡ some u) (omega arith) at) later
          (λ j h.
            subst (λ d. IsPast t (local_hm_to_utc C zone d hour minute)) (omega arith)
              (past (suc j) (omega arith)))

  -- If the time zone is known, and day `k` of today, tomorrow and the day after is the first of them on
  -- which the clock shows the time at an instant after `t`, then a daily trigger fires at that instant.
  pub next_daily_first :
      (t : ℕ) (zone : C.Tz) (hour minute : ℕ) (tz : Text) (k u : ℕ)
      → C.tz_from_str tz ≡ some zone
      → k < 3
      → local_hm_to_utc C zone (C.date_naive zone t + k) hour minute ≡ some u
      → t < u
      → ((j : ℕ) → j < k → IsPast t (local_hm_to_utc C zone (C.date_naive zone t + j) hour minute))
      → next_after C (daily hour minute tz) t ≡ some u
  unfolding next_after next_daily
  next_daily_first t zone hour minute tz k u known inside at later past =
      rw (known, next_daily)
        (daily_from_first t zone hour minute (C.date_naive zone t) 3 k u inside at later past)

  -- The loop passes over the day.
  abbrev pub IsSkipped : ℕ → C.Tz → List ℕ → ℕ → ℕ → ℕ → Type 0
  IsSkipped t zone allowed hour minute day =
      (any (λ w. w == C.weekday day) allowed ≡ false)
      ⊎ IsPast t (local_hm_to_utc C zone day hour minute)

  weekly_from-skipped :
      (t : ℕ) (zone : C.Tz) (allowed : List ℕ) (hour minute day left : ℕ)
      → IsSkipped t zone allowed hour minute day
      → weekly_from C t zone allowed hour minute day (suc left)
        ≡ weekly_from C t zone allowed hour minute (suc day) left
  weekly_from-skipped t zone allowed hour minute day left (inl off) = rw off refl
  weekly_from-skipped t zone allowed hour minute day left (inr past) =
      elim (Bool-cases (any (λ w. w == C.weekday day) allowed)) [
        | inl on ↦ rw on (or_later-IsPast t (local_hm_to_utc C zone day hour minute) _ past)
        | inr off ↦ rw off refl
      ]

  weekly_from_first :
      (t : ℕ) (zone : C.Tz) (allowed : List ℕ) (hour minute day left k u : ℕ)
      → k < left
      → any (λ w. w == C.weekday (day + k)) allowed ≡ true
      → local_hm_to_utc C zone (day + k) hour minute ≡ some u
      → t < u
      → ((j : ℕ) → j < k → IsSkipped t zone allowed hour minute (day + j))
      → weekly_from C t zone allowed hour minute day left ≡ some u
  weekly_from_first t zone allowed hour minute day zero k u inside on at later past =
      absurd (omega arith)
  weekly_from_first t zone allowed hour minute day (suc left) zero u inside on at later past =
      let here : day + 0 ≡ day = omega arith in
      rw (subst (λ d. any (λ w. w == C.weekday d) allowed ≡ true) here on) (
        or_later_now t u (local_hm_to_utc C zone day hour minute) _
          (subst (λ d. local_hm_to_utc C zone d hour minute ≡ some u) here at) later)
  weekly_from_first t zone allowed hour minute day (suc left) (suc k) u inside on at later past =
      let next : day + suc k ≡ suc day + k = omega arith in
      weekly_from-skipped t zone allowed hour minute day left
        (subst (λ d. IsSkipped t zone allowed hour minute d) (omega arith) (past 0 (omega arith)))
      ∙ weekly_from_first t zone allowed hour minute (suc day) left k u (omega arith)
          (subst (λ d. any (λ w. w == C.weekday d) allowed ≡ true) next on)
          (subst (λ d. local_hm_to_utc C zone d hour minute ≡ some u) next at) later
          (λ j h.
            subst (λ d. IsSkipped t zone allowed hour minute d) (omega arith)
              (past (suc j) (omega arith)))

  weekly_from-none :
      (t : ℕ) (zone : C.Tz) (allowed : List ℕ) (hour minute day left : ℕ)
      → ((j : ℕ) → j < left → IsSkipped t zone allowed hour minute (day + j))
      → weekly_from C t zone allowed hour minute day left ≡ none
  weekly_from-none t zone allowed hour minute day zero past = refl
  weekly_from-none t zone allowed hour minute day (suc left) past =
      weekly_from-skipped t zone allowed hour minute day left
        (subst (λ d. IsSkipped t zone allowed hour minute d) (omega arith) (past 0 (omega arith)))
      ∙ weekly_from-none t zone allowed hour minute (suc day) left (λ j h.
        subst (λ d. IsSkipped t zone allowed hour minute d) (omega arith)
          (past (suc j) (omega arith)))

  -- If the time zone is known, and day `k` of the eight from today on is the first of them that is a
  -- chosen weekday and on which the clock shows the time at an instant after `t`, then a weekly trigger
  -- fires at that instant.
  pub next_weekly_first :
      (t : ℕ) (zone : C.Tz) (weekdays : List Weekday) (hour minute : ℕ) (tz : Text) (k u : ℕ)
      → C.tz_from_str tz ≡ some zone
      → k < 8
      → any (λ w. w == C.weekday (C.date_naive zone t + k)) (chrono_days C weekdays) ≡ true
      → local_hm_to_utc C zone (C.date_naive zone t + k) hour minute ≡ some u
      → t < u
      → ((j : ℕ)
          → j < k
          → IsSkipped t zone (chrono_days C weekdays) hour minute (C.date_naive zone t + j))
      → next_after C (weekly weekdays hour minute tz) t ≡ some u
  unfolding next_after next_weekly
  next_weekly_first t zone weekdays hour minute tz k u known inside on at later past =
      rw (known, next_weekly)
        (weekly_from_first t zone (chrono_days C weekdays) hour minute (C.date_naive zone t) 8 k u
          inside on at later past)

  -- If a weekly trigger has one weekday, today is that weekday and its time is past, the next six days
  -- are other weekdays, and the clock of the zone leaves the time out on the same day of the next week,
  -- then the trigger finds no time to fire, and the weeks after that one are not looked at.
  pub next_weekly-gap :
      (t : ℕ) (zone : C.Tz) (w : Weekday) (hour minute : ℕ) (tz : Text)
      → C.tz_from_str tz ≡ some zone
      → IsPast t (local_hm_to_utc C zone (C.date_naive zone t + 0) hour minute)
      → ((j : ℕ) → 0 < j → j < 7 → (to_chrono w == C.weekday (C.date_naive zone t + j)) ≡ false)
      → local_hm_to_utc C zone (C.date_naive zone t + 7) hour minute ≡ none
      → next_after C (weekly (w ∷ []) hour minute tz) t ≡ none
  unfolding next_after next_weekly
  next_weekly-gap t zone w hour minute tz known past others gap =
      rw (known, next_weekly)
        (weekly_from-none t zone (to_chrono w ∷ []) hour minute (C.date_naive zone t) 8 skipped)
    where
      skipped :
          (j : ℕ)
          → j < 8
          → IsSkipped t zone (to_chrono w ∷ []) hour minute (C.date_naive zone t + j)
      skipped zero h = inr past
      skipped (suc j) h = elim (Bool-cases (ltb (suc j) 7)) [
        | inl before ↦
            inl (let off = others (suc j) (omega arith) (ltb→lt (suc j) 7 before) in ground arith)
        | inr last ↦ inr (
            subst (λ d. IsPast t (local_hm_to_utc C zone (C.date_naive zone t + d) hour minute))
              (ground arith) (subst (λ o. IsPast t o) (sym gap) tt))
      ]
