-- ===== src/Remediation/Calendar.antt =====
-- UTC datetimes to the second, and their RFC3339 form with `Z`.
pub mod RoundTrip
use optimizr_actions.Prelude.{
  ℕ, zero, suc, ◌+◌, ◌-◌, ◌*◌, ◌/◌, ◌%◌, ◌≤◌, ◌<◌, Bool, true, false, ◌&&◌, ◌||◌, not, Option, none,
  some, List, [], ◌∷◌, Text, ltb, leb, ◌==◌, if◌then◌else◌,
}

pub record Moment : Type 0 where
  pub year : ℕ
  pub month : ℕ
  pub day : ℕ
  pub hour : ℕ
  pub minute : ℕ
  pub second : ℕ

unfoldable pub is_leap : ℕ → Bool
is_leap year = (year % 4 == 0) && (not (year % 100 == 0) || year % 400 == 0)

unfoldable pub days_in_month : ℕ → ℕ → ℕ
unfolding is_leap
days_in_month year month =
    if month == 2
    then (if is_leap year then 29 else 28)
    else if (month == 4) || (month == 6) || (month == 9) || (month == 11)
    then 30
    else 31

-- The range checks of the `datetime` constructor.
unfoldable pub is_valid : Moment → Bool
unfolding days_in_month
is_valid m =
    leb 1 m.year
    && leb m.year 9999
    && leb 1 m.month
    && leb m.month 12
    && leb 1 m.day
    && leb m.day (days_in_month m.year m.month)
    && ltb m.hour 24
    && ltb m.minute 60
    && ltb m.second 60

-- The days of the months before this one.
unfoldable pub days_before_month : ℕ → ℕ → ℕ
unfolding days_in_month
days_before_month year zero = 0
days_before_month year (suc zero) = 0
days_before_month year (suc (suc n)) = days_before_month year (suc n) + days_in_month year (suc n)

-- `datetime.toordinal`
unfoldable pub ordinal : Moment → ℕ
unfolding days_before_month
ordinal m =
    let y = m.year - 1 in
    y * 365 + y / 4 - y / 100 + y / 400 + days_before_month m.year m.month + m.day

-- Seconds since the start of year 1: what aware datetimes are compared and subtracted by.
unfoldable pub instant : Moment → ℕ
unfolding ordinal
instant m = ((ordinal m * 24 + m.hour) * 60 + m.minute) * 60 + m.second

abbrev pub digit : ℕ → Option ℕ
digit c = if leb b'0' c && leb c b'9' then some (c - b'0') else none

abbrev pub append_digit : Option ℕ → ℕ → Option ℕ
append_digit none c = none
append_digit (some n) c = elim (digit c) [ none ↦ none | some d ↦ some (10 * n + d) ]

unfoldable pub two_digits : ℕ → ℕ → Option ℕ
two_digits a b = append_digit (digit a) b

unfoldable pub four_digits : ℕ → ℕ → ℕ → ℕ → Option ℕ
four_digits a b c d = append_digit (append_digit (append_digit (digit a) b) c) d

abbrev pub moment_of :
    Option ℕ → Option ℕ → Option ℕ → Option ℕ → Option ℕ → Option ℕ → Option Moment
moment_of (some y) (some mo) (some d) (some h) (some mi) (some s) =
    some (record { year = y; month = mo; day = d; hour = h; minute = mi; second = s })
moment_of _ _ _ _ _ _ = none

-- The numbers of twenty characters of the form dddd-dd-ddTdd:dd:ddZ.
unfoldable pub read_utc : Text → Option Moment
unfolding two_digits four_digits
read_utc
      (y₁ ∷ y₂ ∷ y₃ ∷ y₄ ∷ a ∷ o₁ ∷ o₂ ∷ b ∷ d₁ ∷ d₂ ∷ t ∷ h₁ ∷ h₂ ∷ c ∷ m₁ ∷ m₂ ∷ e ∷ s₁ ∷ s₂ ∷ z
        ∷ []) =
    if (a == b'-') && (b == b'-') && (t == b'T') && (c == b':') && (e == b':') && (z == b'Z')
    then moment_of (four_digits y₁ y₂ y₃ y₄) (two_digits o₁ o₂) (two_digits d₁ d₂)
        (two_digits h₁ h₂) (two_digits m₁ m₂) (two_digits s₁ s₂)
    else none
read_utc _ = none

abbrev pub validated : Option Moment → Option Moment
validated none = none
validated (some m) = if is_valid m then some m else none

-- `_parse_utc`: such a text, where the numbers name a datetime.
unfoldable pub parse_utc : Text → Option Moment
unfolding read_utc is_valid
parse_utc s = validated (read_utc s)

abbrev pub digit_char : ℕ → ℕ
digit_char n = b'0' + n % 10

-- `_format_utc`, with the year in four digits.
unfoldable pub format_utc : Moment → Text
format_utc m =
    digit_char (m.year / 1000)
    ∷ digit_char (m.year / 100)
    ∷ digit_char (m.year / 10)
    ∷ digit_char m.year
    ∷ b'-'
    ∷ digit_char (m.month / 10)
    ∷ digit_char m.month
    ∷ b'-'
    ∷ digit_char (m.day / 10)
    ∷ digit_char m.day
    ∷ b'T'
    ∷ digit_char (m.hour / 10)
    ∷ digit_char m.hour
    ∷ b':'
    ∷ digit_char (m.minute / 10)
    ∷ digit_char m.minute
    ∷ b':'
    ∷ digit_char (m.second / 10)
    ∷ digit_char m.second
    ∷ b'Z'
    ∷ []
