-- ===== src/Prelude/Times.antt =====
-- new Date(t).toISOString() for a time from 1970 on, in milliseconds.
use Prim.Native.Nat.{ℕ, ◌+◌, ◌-◌, ◌*◌, ◌/◌, ◌%◌}
use Prim.Native.String.{String, slice, ◌++◌}
use package.imgent.Prelude.Tests.{ltb, leb, if◌then◌else◌}

pub record Day : Type 0 where
  pub year : ℕ
  pub month : ℕ
  pub day : ℕ

-- The day of an era of 400 years from the first of March, with the year of the era.
abbrev era_year : ℕ → ℕ
era_year doe = (doe + doe / 36524 - doe / 1460 - doe / 146096) / 365

abbrev year_day : ℕ → ℕ
year_day doe = let y = era_year doe in doe + y / 100 - (365 * y + y / 4)

abbrev march_month : ℕ → ℕ
march_month doy = (5 * doy + 2) / 153

-- The civil date of a number of days since 1970-01-01.
unfoldable pub civil : ℕ → Day
civil days =
    let z = days + 719468 in
    let doe = z % 146097 in
    let mp = march_month (year_day doe) in
    let month = if ltb mp 10 then mp + 3 else mp - 9 in
    record {
      year = era_year doe + z / 146097 * 400 + (if leb month 2 then 1 else 0);
      month = month;
      day = year_day doe - (153 * mp + 2) / 5 + 1;
    }

abbrev digit : ℕ → String
digit n = slice "0123456789" (n % 10) (n % 10 + 1)

abbrev two_digits : ℕ → String
two_digits n = digit (n / 10) ++ digit n

abbrev three_digits : ℕ → String
three_digits n = digit (n / 100) ++ two_digits n

abbrev four_digits : ℕ → String
four_digits n = digit (n / 1000) ++ three_digits n

unfoldable pub iso_text : ℕ → String
unfolding civil
iso_text t =
    let d = civil (t / 86400000) in
    four_digits d.year
    ++ "-"
    ++ two_digits d.month
    ++ "-"
    ++ two_digits d.day
    ++ "T"
    ++ two_digits (t / 3600000 % 24)
    ++ ":"
    ++ two_digits (t / 60000 % 60)
    ++ ":"
    ++ two_digits (t / 1000 % 60)
    ++ "."
    ++ three_digits (t % 1000)
    ++ "Z"
