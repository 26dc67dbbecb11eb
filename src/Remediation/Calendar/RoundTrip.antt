-- ===== src/Remediation/Calendar/RoundTrip.antt =====
-- `parse_utc` reads what `format_utc` writes.
use optimizr_actions.Prelude.{
  ℕ, ◌+◌, ◌*◌, ◌/◌, ◌%◌, ◌<◌, ◌≡◌, true, Option, none, some, Text, arith, inl, inr, Bool-cases,
}
use optimizr_actions.Remediation.Calendar.{
  Moment, days_in_month, is_valid, digit, append_digit, two_digits, four_digits, read_utc,
  validated, parse_utc, digit_char, format_utc,
}

digit-char : (n : ℕ) → digit (digit_char n) ≡ some (n % 10)
digit-char n = ground arith

append_digit-char : (m n : ℕ) → append_digit (some m) (digit_char n) ≡ some (10 * m + n % 10)
append_digit-char m n = ground (arith, digit-char n)

two_digits-char : (n : ℕ) → n < 100 → two_digits (digit_char (n / 10)) (digit_char n) ≡ some n
unfolding two_digits
two_digits-char n h =
    let e : 10 * (n / 10 % 10) + n % 10 ≡ n = omega arith in
    rw (digit-char (n / 10), append_digit-char (n / 10 % 10) n, e)

four_digits-char :
    (n : ℕ)
    → n < 10000
    → four_digits
        (digit_char (n / 1000))
        (digit_char (n / 100))
        (digit_char (n / 10))
        (digit_char n)
      ≡ some n
unfolding four_digits
four_digits-char n h =
    let e : 10 * (10 * (10 * (n / 1000 % 10) + n / 100 % 10) + n / 10 % 10) + n % 10 ≡ n =
      omega arith in
    rw (
      digit-char (n / 1000),
      append_digit-char (n / 1000 % 10) (n / 100),
      append_digit-char _ (n / 10),
      append_digit-char _ n,
      e,
    )

record InRange (m : Moment) : Type 0 where
  year : m.year < 10000
  month : m.month < 100
  day : m.day < 100
  hour : m.hour < 100
  minute : m.minute < 100
  second : m.second < 100

is_valid-InRange : (m : Moment) → is_valid m ≡ true → InRange m
unfolding is_valid days_in_month
is_valid-InRange m h = ground arith

-- Every datetime that Python can hold survives being written and read back.
pub parse_utc-format_utc : (m : Moment) → is_valid m ≡ true → parse_utc (format_utc m) ≡ some m
unfolding parse_utc format_utc
parse_utc-format_utc m h =
    let r = is_valid-InRange m h in
    rw (
      four_digits-char m.year r.year,
      two_digits-char m.month r.month,
      two_digits-char m.day r.day,
      two_digits-char m.hour r.hour,
      two_digits-char m.minute r.minute,
      two_digits-char m.second r.second,
      h,
    )

pub parse_utc-is_valid : (s : Text) {m : Moment} → parse_utc s ≡ some m → is_valid m ≡ true
unfolding parse_utc
parse_utc-is_valid s {m} h = go (read_utc s) h
  where
    go : (o : Option Moment) → validated o ≡ some m → is_valid m ≡ true
    go none e = cc
    go (some n) e = elim (Bool-cases (is_valid n)) [
      | inl valid ↦ let same : n ≡ m = ground arith in rw same at valid
      | inr invalid ↦ absurd (ground arith)
    ]
