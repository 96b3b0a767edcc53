-- ===== src/Base/Dates.antt =====
-- Numbers and times as text: `String(n)` of a number, and `toISOString` for times since 1970.
use Prim.Native.Nat.{ℕ, zero, suc, ◌+◌, ◌-◌, ◌*◌, ◌/◌, ◌%◌}
use mathlib.Core.List.{List, [], ◌∷◌, ◌++◌}
use openseat.Base.Tests.{ltb, if◌then◌else◌}

-- Decimal digits, with one round for each
unfoldable pub digits : ℕ → ℕ → List ℕ
digits zero n = []
digits (suc fuel) n =
    let high = digits fuel (n / 10) in (if ltb n 10 then [] else high) ++ ((b'0' + n % 10) ∷ [])

unfoldable pub decimal : ℕ → List ℕ
unfolding digits
decimal n = digits (suc n) n

-- The last `width` digits
unfoldable pub padded : ℕ → ℕ → List ℕ
padded zero n = []
padded (suc width) n = padded width (n / 10) ++ ((b'0' + n % 10) ∷ [])

-- The day of the 400 years of a calendar cycle that begins on 1 March, from the days since 1970.
abbrev day_of_era : ℕ → ℕ
day_of_era days = (days + 719468) % 146097

abbrev year_of_era : ℕ → ℕ
year_of_era doe = (doe - doe / 1460 + doe / 36524 - doe / 146096) / 365

abbrev day_of_year : ℕ → ℕ
day_of_year doe = doe - (365 * year_of_era doe + year_of_era doe / 4 - year_of_era doe / 100)

-- Months count from March.
abbrev month_index : ℕ → ℕ
month_index doe = (5 * day_of_year doe + 2) / 153

unfoldable pub day_of_month : ℕ → ℕ
day_of_month days =
    let doe = day_of_era days in day_of_year doe - (153 * month_index doe + 2) / 5 + 1

unfoldable pub month_of : ℕ → ℕ
month_of days = let m = month_index (day_of_era days) in if ltb m 10 then m + 3 else m - 9

unfoldable pub year_of : ℕ → ℕ
unfolding month_of
year_of days =
    (days + 719468) / 146097 * 400
    + year_of_era (day_of_era days)
    + (if ltb (month_of days) 3 then 1 else 0)

unfoldable pub iso_date : ℕ → List ℕ
unfolding padded day_of_month month_of year_of
iso_date days =
    padded 4 (year_of days)
    ++ (b'-' ∷ (padded 2 (month_of days) ++ (b'-' ∷ padded 2 (day_of_month days))))

unfoldable pub iso_string : ℕ → List ℕ
unfolding iso_date padded
iso_string time =
    iso_date (time / 86400000)
    ++ (b'T'
        ∷ (padded 2 (time / 3600000 % 24)
            ++ (b':'
                ∷ (padded 2 (time / 60000 % 60)
                    ++ (b':'
                        ∷ (padded 2 (time / 1000 % 60)
                            ++ (b'.' ∷ (padded 3 (time % 1000) ++ (b'Z' ∷ [])))))))))
