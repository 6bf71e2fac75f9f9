-- ===== src/Value/Time.antt =====
-- Instants in UTC, and `strftime("%Y-%m-%dT%H:%M:%SZ")` as the standard library computes it.
use kiro_usage_pipeline.Base.{
  ℕ, ◌+◌, ◌-◌, ◌*◌, ◌/◌, ◌%◌, Bool, ◌&&◌, ◌||◌, not, [], ◌∷◌, ◌++◌, Text, lit, show_nat, join,
  concat, ltb, ◌==◌, nat_eq, if◌then◌else◌, ◌≡◌, refl,
}

-- Microseconds of a second, and the first instant after the year 9999.
abbrev pub second : ℕ
second = 1000000

abbrev pub end_of_time : ℕ
end_of_time = 3652059 * 24 * (3600 * 1000000)

pub record Date : Type 0 where
  pub year : ℕ
  pub month : ℕ
  pub day : ℕ

is_leap : ℕ → Bool
is_leap y = y % 4 == 0 && (not (y % 100 == 0) || y % 400 == 0)

-- The first day of a month in its year, from 0, for `leap` days in February beyond 28.
days_before : ℕ → ℕ → ℕ
days_before leap m =
    if ltb m 2
    then 0
    else if m == 2
    then 31
    else if m == 3
    then 59 + leap
    else if m == 4
    then 90 + leap
    else if m == 5
    then 120 + leap
    else if m == 6
    then 151 + leap
    else if m == 7
    then 181 + leap
    else if m == 8
    then 212 + leap
    else if m == 9
    then 243 + leap
    else if m == 10
    then 273 + leap
    else if m == 11
    then 304 + leap
    else 334 + leap

-- The month and day of day `n` of a year: `(n + 50) >> 5` is the month or the one after it.
month_day : ℕ → ℕ → ℕ → Date
unfolding days_before
month_day y leap n =
    let guess = (n + 50) / 32 in
    let month = if ltb n (days_before leap guess) then guess - 1 else guess in
    record { year = y; month = month; day = n - days_before leap month + 1 }

-- The date of a day, counted from 0001-01-01.
unfoldable pub date_of : ℕ → Date
unfolding month_day is_leap nat_eq
date_of n =
    let n₄₀₀ = n % 146097 in
    let n₁₀₀ = n₄₀₀ % 36524 in
    let n₄ = n₁₀₀ % 1461 in
    let y = n / 146097 * 400 + n₄₀₀ / 36524 * 100 + n₁₀₀ / 1461 * 4 + n₄ / 365 + 1 in
    if n₄₀₀ / 36524 == 4 || n₄ / 365 == 4
    then record { year = y - 1; month = 12; day = 31 }
    else month_day y (if is_leap y then 1 else 0) (n₄ % 365)

two_digits : ℕ → Text
two_digits n = if ltb n 10 then b'0' ∷ show_nat n else show_nat n

abbrev drop_first : Text → Text
drop_first [] = []
drop_first (_ ∷ s) = s

show_date : Date → Text
show_date d = join (lit "-") (show_nat d.year ∷ two_digits d.month ∷ two_digits d.day ∷ [])

show_clock : ℕ → Text
show_clock s =
    join (lit ":") (two_digits (s / 3600) ∷ two_digits (s / 60 % 60) ∷ two_digits (s % 60) ∷ [])

-- `value.strftime("%Y-%m-%dT%H:%M:%SZ")` of an instant in microseconds.
unfoldable pub strftime : ℕ → Text
unfolding date_of show_date show_clock two_digits
strftime t =
    let s = t / 1000000 in
    concat (show_date (date_of (s / 86400)) ∷ lit "T" ∷ show_clock (s % 86400) ∷ lit "Z" ∷ [])

-- A year of four digits, as `isoformat` writes it.
iso_date : Date → Text
iso_date d =
    join (lit "-")
      (drop_first (show_nat (10000 + d.year)) ∷ two_digits d.month ∷ two_digits d.day ∷ [])

-- `value.isoformat(sep)` of an aware datetime in UTC, without its offset.
iso_time : Text → ℕ → Text
unfolding date_of iso_date show_clock two_digits
iso_time sep t =
    let s = t / 1000000 in
    let micro = t % 1000000 in
    concat (
      iso_date (date_of (s / 86400))
      ∷ sep
      ∷ show_clock (s % 86400)
      ∷ (if micro == 0 then [] else b'.' ∷ drop_first (show_nat (1000000 + micro)))
      ∷ [])

-- `str(value)` of an aware datetime in UTC.
unfoldable pub str_time : ℕ → Text
unfolding iso_time
str_time t = iso_time (lit " ") t ++ lit "+00:00"

-- `value.isoformat().replace("+00:00", "Z")`
unfoldable pub isoformat_z : ℕ → Text
unfolding iso_time
isoformat_z t = iso_time (lit "T") t ++ lit "Z"

epoch : strftime (719162 * 86400000000) ≡ lit "1970-01-01T00:00:00Z"
unfolding strftime show_nat join concat lit
epoch = refl

leap_day : strftime ((719162 + 11016) * 86400000000 + 3661000000) ≡ lit "2000-02-29T01:01:01Z"
unfolding strftime show_nat join concat lit
leap_day = refl

early : isoformat_z (86400 * 1000000 + 5) ≡ lit "0001-01-02T00:00:00.000005Z"
unfolding isoformat_z show_nat join concat lit
early = refl
