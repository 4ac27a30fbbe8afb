-- ===== src/Shared/Dates.antt =====
-- What the billing code asks of JavaScript's dates: an instant is a number of milliseconds since
-- 1970-01-01T00:00Z, and the calendar is UTC's. `setMonth(getMonth() + n)` keeps the day of the month and
-- lets one that the new month lacks run over into the next, so it adds the lengths of the n months.
use estoque_saas.Base.{
  ℕ, zero, suc, ◌+◌, ◌-◌, ◌*◌, ◌/◌, ◌%◌, ◌≤◌, ◌<◌, Bool, not, ◌&&◌, ◌||◌, ◌==◌, ltb, if◌then◌else◌,
  arith, Bool-cases, inl, inr,
}

abbrev pub day_ms : ℕ
day_ms = 86400000

abbrev is_leap_year : ℕ → Bool
is_leap_year y = ((y % 4 == 0) && not (y % 100 == 0)) || (y % 400 == 0)

-- The days of the month `k` months after January 1970.
unfoldable pub month_length : ℕ → ℕ
month_length k =
    let m = k % 12 in
    if m == 1
    then if is_leap_year (1970 + k / 12) then 29 else 28
    else if (m == 3) || ((m == 5) || ((m == 8) || (m == 10)))
    then 30
    else 31

-- The month of the day `d` days after the start of month `k`, and what is left of `d` in it.
unfoldable pub locate : ℕ → ℕ → ℕ → ℕ × ℕ
locate zero k d = (k, d)
locate (suc fuel) k d =
    let later = locate fuel (suc k) (d - month_length k) in
    if ltb d (month_length k) then (k, d) else later

unfoldable pub month_of_day : ℕ → ℕ
month_of_day day = (locate day 0 day).0

-- The days of `n` months from month `k`.
unfoldable pub months_length : ℕ → ℕ → ℕ
months_length zero k = 0
months_length (suc n) k = month_length k + months_length n (suc k)

unfoldable pub add_months : ℕ → ℕ → ℕ
add_months n instant = instant + day_ms * months_length n (month_of_day (instant / day_ms))

pub month_length-bounds : (k : ℕ) → (28 ≤ month_length k) × (month_length k ≤ 31)
unfolding month_length
month_length-bounds k = ground arith

locate-fuel : (fuel k d : ℕ) → d ≤ fuel → (locate fuel k d).1 < month_length (locate fuel k d).0
unfolding locate
locate-fuel zero k d h = let b = month_length-bounds k in omega arith
locate-fuel (suc fuel) k d h =
    let b = month_length-bounds k in
    let rest = locate-fuel fuel (suc k) (d - month_length k) in
    elim (Bool-cases (ltb d (month_length k))) [
      | inl e ↦ rw e (ground arith)
      | inr e ↦ rw e (rest (ground arith))
    ]

-- The day lies inside the month that was found for it: the search has fuel enough.
pub month_of_day-inside : (day : ℕ) → (locate day 0 day).1 < month_length (month_of_day day)
unfolding month_of_day
month_of_day-inside day = locate-fuel day 0 day (omega arith)

-- A date moved forward by at least a month is later.
pub add_months-later : (n instant : ℕ) → instant < add_months (suc n) instant
unfolding add_months months_length
add_months-later n instant =
    let b = month_length-bounds (month_of_day (instant / day_ms)) in omega arith
