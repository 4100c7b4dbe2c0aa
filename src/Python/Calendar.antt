-- ===== src/Python/Calendar.antt =====
-- `date` and `datetime`, and the ISO text of a date.
use realtime_fraud_feature_s.Prelude.{
  ℕ, ◌+◌, ◌/◌, ◌%◌, ◌<◌, ◌≡◌, refl, ◌∙◌, Bool, ◌&&◌, ◌||◌, Option, none, some, [], ◌∷◌, ◌++◌, arith,
  ltb, ◌==◌, if◌then◌else◌, Text, text_lt, ℤ, pos, ◌-ℤ◌,
}

pub record Date : Type 0 where
  pub year : ℕ
  pub month : ℕ
  pub day : ℕ

-- The ranges that `datetime.date` accepts (a day of at most 31 is enough here).
pub record IsDate (d : Date) : Type 0 where
  pub year_lt : d.year < 10000
  pub month_lt : d.month < 13
  pub day_lt : d.day < 32

abbrev pub digit : ℕ → ℕ
digit n = 48 + n

unfoldable pub two_digits : ℕ → Text
two_digits n = digit (n / 10) ∷ digit (n % 10) ∷ []

month_day : Date → Text
month_day d = two_digits d.month ++ (45 ∷ two_digits d.day)

-- str(d) of a date: YYYY-MM-DD
unfoldable pub iso_date : Date → Text
unfolding two_digits month_day
iso_date d = two_digits (d.year / 100) ++ (two_digits (d.year % 100) ++ (45 ∷ month_day d))

abbrev pub date_lt : Date → Date → Bool
date_lt a b =
    ltb a.year b.year
    || a.year == b.year && (ltb a.month b.month || a.month == b.month && ltb a.day b.day)

text_lt-cons : (c : ℕ) (s t : Text) → text_lt (c ∷ s) (c ∷ t) ≡ text_lt s t
unfolding text_lt
text_lt-cons c s t = ground arith

two_digits-lt :
    (m n : ℕ) (s t : Text)
    → m < 100
    → n < 100
    → text_lt (two_digits m ++ s) (two_digits n ++ t) ≡ (if m == n then text_lt s t else ltb m n)
unfolding two_digits text_lt
two_digits-lt m n s t hm hn = ground arith

two_digits-lt_last : (m n : ℕ) → m < 100 → n < 100 → text_lt (two_digits m) (two_digits n) ≡ ltb m n
unfolding two_digits text_lt
two_digits-lt_last m n hm hn = ground arith

month_day-lt :
    (a b : Date)
    → IsDate a
    → IsDate b
    → text_lt (month_day a) (month_day b)
      ≡ (ltb a.month b.month || a.month == b.month && ltb a.day b.day)
unfolding month_day
month_day-lt a b ha hb = ground (
  arith,
  two_digits-lt a.month b.month (45 ∷ two_digits a.day) (45 ∷ two_digits b.day),
  text_lt-cons 45 (two_digits a.day) (two_digits b.day),
  two_digits-lt_last a.day b.day,
)

-- The year, whose four digits are two pairs.
year_lt :
    (y z : ℕ) (d : Bool)
    → (if y / 100 == z / 100
        then if y % 100 == z % 100 then d else ltb (y % 100) (z % 100)
        else ltb (y / 100) (z / 100))
      ≡ (ltb y z || y == z && d)
year_lt y z d = ground arith

iso_parts :
    (a b : Date)
    → text_lt (iso_date a) (iso_date b)
      ≡ text_lt
          (two_digits (a.year / 100) ++ (two_digits (a.year % 100) ++ (45 ∷ month_day a)))
          (two_digits (b.year / 100) ++ (two_digits (b.year % 100) ++ (45 ∷ month_day b)))
unfolding iso_date
iso_parts a b = refl

-- The texts of two dates in the ranges of `datetime.date` stand in the order of the dates.
pub text_lt-iso_date :
    (a b : Date) → IsDate a → IsDate b → text_lt (iso_date a) (iso_date b) ≡ date_lt a b
text_lt-iso_date a b ha hb =
    let s = two_digits (a.year % 100) ++ (45 ∷ month_day a) in
    let t = two_digits (b.year % 100) ++ (45 ∷ month_day b) in
    iso_parts a b
    ∙ two_digits-lt (a.year / 100) (b.year / 100) s t (omega arith) (omega arith)
    ∙ cc (
      two_digits-lt (a.year % 100) (b.year % 100) (45 ∷ month_day a) (45 ∷ month_day b)
          (omega arith) (omega arith),
      text_lt-cons 45 (month_day a) (month_day b),
      month_day-lt a b ha hb,
      year_lt a.year b.year (ltb a.month b.month || a.month == b.month && ltb a.day b.day),
    )

-- A wall clock reading in microseconds, and the zone's distance from UTC in microseconds, `none`
-- for a naive time.
pub record DateTime : Type 0 where
  pub wall : ℕ
  pub tzinfo : Option ℤ

-- The moment that an aware time stands for.
abbrev pub instant : ℕ → ℤ → ℤ
instant wall ahead = pos wall -ℤ ahead

abbrev pub difference : ℕ → Option ℤ → ℕ → Option ℤ → Option ℤ
difference v none w none = some (pos v -ℤ pos w)
difference v (some y) w (some z) = some (instant v y -ℤ instant w z)
difference v none w (some z) = none
difference v (some y) w none = none

-- a - b in microseconds; `none` is the TypeError of a naive and an aware operand
unfoldable pub subtract : DateTime → DateTime → Option ℤ
unfolding ◌-ℤ◌
subtract a b = difference a.wall a.tzinfo b.wall b.tzinfo
