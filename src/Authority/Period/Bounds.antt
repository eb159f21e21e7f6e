-- ===== src/Authority/Period/Bounds.antt =====
-- Where a budget period begins, packages/authority/src/index.ts.
use agentplace.Prelude.{ℕ, suc, ◌+◌, ◌-◌, ◌*◌, ◌/◌, ◌%◌, ◌≤◌, ◌<◌, ◌≡◌, refl, arith}
use agentplace.Authority.Types.{BudgetPeriod, day, week, month}
use agentplace.Authority.Period.{day_length, get_utc_day, get_utc_date, week_offset, period_start}

-- The most days of a period.
abbrev pub most_days : BudgetPeriod → ℕ
most_days day = 1
most_days week = 7
most_days month = 31

-- A month of the year that begins in March has at most 31 days.
month_day-le :
    (of_year m : ℕ) → m ≡ (5 * of_year + 2) / 153 → (of_year - (153 * m + 2) / 5) + 1 ≤ 31
month_day-le of_year m e = omega arith

get_utc_date-le : (days : ℕ) → get_utc_date days ≤ 31
unfolding get_utc_date
get_utc_date-le days = month_day-le _ _ refl

week_offset-le : (d : ℕ) → d < 7 → week_offset d ≤ 6
unfolding week_offset
week_offset-le d h = ground arith

get_utc_day-lt : (days : ℕ) → get_utc_day days < 7
unfolding get_utc_day
get_utc_day-lt days = omega arith

-- The midnight that lies a number of days, at most `k`, before that of `now`.
midnight-bounds :
    (now back k : ℕ)
    → back ≤ k
    → ((now / day_length - back) * day_length ≤ now)
      × (now < (now / day_length - back) * day_length + suc k * day_length)
midnight-bounds now back k h = (omega arith, omega arith)

-- A Monday lies the offset before a day.
monday : (days : ℕ) → 4 ≤ days → get_utc_day (days - week_offset (get_utc_day days)) ≡ 1
unfolding get_utc_day week_offset
monday days h = ground arith

on_midnight : (k : ℕ) → (k * day_length) % day_length ≡ 0
on_midnight k = omega arith

start_day : (k : ℕ) → k * day_length / day_length ≡ k
start_day k = omega arith

-- From the 5th of January 1970 on, a budget period begins at a midnight that is not after `now`,
-- and `now` lies less than a day, 7 days or 31 days behind it, for a period of a day, a week or a
-- month; a week begins on a Monday.
pub period_start-bounds :
    (p : BudgetPeriod) (now : ℕ)
    → 4 * day_length ≤ now
    → (period_start p now % day_length ≡ 0)
      × (period_start p now ≤ now)
      × (now < period_start p now + most_days p * day_length)
      × (p ≡ week → get_utc_day (period_start p now / day_length) ≡ 1)
unfolding period_start
period_start-bounds day now h = (omega arith, omega arith, omega arith, λ e. absurd (never e))
  where
    never : day ≡ week → ⊥
    never e = cc
period_start-bounds week now h =
    let days = now / day_length in
    let back = week_offset (get_utc_day days) in
    let (low, high) = midnight-bounds now back 6 (week_offset-le _ (get_utc_day-lt days)) in
    (
      on_midnight (days - back),
      low,
      high,
      λ _. rw (start_day (days - back)) (monday days (omega arith)),
    )
period_start-bounds month now h =
    let days = now / day_length in
    let back = get_utc_date days - 1 in
    let few : back ≤ 30 = omega (arith, get_utc_date-le days) in
    let (low, high) = midnight-bounds now back 30 few in
    (on_midnight (days - back), low, high, λ e. absurd (never e))
  where
    never : month ≡ week → ⊥
    never e = cc
