-- ===== src/Authority/Period.antt =====
-- `periodStart` of packages/authority/src/index.ts: the instant, in milliseconds, at which the
-- budget period of `now` begins, in UTC. Weeks begin on Monday. Instants are those from Monday, the
-- 5th of January 1970 on, so that no start lies before the epoch.
pub mod Bounds
use agentplace.Prelude.{ℕ, ◌+◌, ◌-◌, ◌*◌, ◌/◌, ◌%◌, Bool, ◌==◌, if◌then◌else◌}
use agentplace.Authority.Types.{BudgetPeriod, day, week, month}

-- The milliseconds of a day.
abbrev pub day_length : ℕ
day_length = 86400000

-- `getUTCDay`: 0 is Sunday; the first day of the epoch was a Thursday.
unfoldable pub get_utc_day : ℕ → ℕ
get_utc_day days = (days + 4) % 7

-- `getUTCDate`: the day of the month of a day of the Gregorian calendar. Years are counted from
-- March, in eras of 400 years, which have 146097 days.
unfoldable pub get_utc_date : ℕ → ℕ
get_utc_date days =
    let of_era = (days + 719468) % 146097 in
    let year = (of_era - of_era / 1460 + of_era / 36524 - of_era / 146096) / 365 in
    let of_year = of_era - (365 * year + year / 4 - year / 100) in
    let month = (5 * of_year + 2) / 153 in (of_year - (153 * month + 2) / 5) + 1

-- `day === 0 ? 6 : day - 1`
unfoldable pub week_offset : ℕ → ℕ
week_offset d = if d == 0 then 6 else d - 1

-- `periodStart`
unfoldable pub period_start : BudgetPeriod → ℕ → ℕ
period_start day now = now / day_length * day_length
period_start week now =
    let days = now / day_length in (days - week_offset (get_utc_day days)) * day_length
period_start month now =
    let days = now / day_length in (days - (get_utc_date days - 1)) * day_length
