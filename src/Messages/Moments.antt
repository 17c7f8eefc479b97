-- ===== src/Messages/Moments.antt =====
-- src/common/data/timestamp.py: reading a timestamp by character position, against the text that
-- `str` gives for a `datetime` without microseconds.
use distribuidos_tp_money_la.Prelude.{
  ℕ, ◌+◌, ◌-◌, ◌*◌, ◌/◌, ◌%◌, ◌<◌, ◌≡◌, ◌∙◌, refl, ap, Bool, true, ◌&&◌, ◌||◌, not, Option, none,
  some, [], ◌∷◌, ◌++◌, length, ltb, leb, if◌then◌else◌, if_true, ◌==◌, nat_eq, arith,
}
use distribuidos_tp_money_la.Messages.{slice}
use distribuidos_tp_money_la.Messages.Values.{Text}

pub record Moment : Type 0 where
  pub year : ℕ
  pub month : ℕ
  pub day : ℕ
  pub hour : ℕ
  pub minute : ℕ
  pub second : ℕ

abbrev pub is_leap : ℕ → Bool
is_leap y = y % 4 == 0 && (not (y % 100 == 0) || y % 400 == 0)

abbrev pub days_in_month : ℕ → ℕ → ℕ
days_in_month y m =
    if m == 2
    then if is_leap y then 29 else 28
    else if m == 4 || (m == 6 || (m == 9 || m == 11))
    then 30
    else 31

-- what `datetime(...)` accepts; it raises otherwise
unfoldable pub is_datetime : Moment → Bool
is_datetime t =
    (leb 1 t.year && ltb t.year 10000)
    && ((leb 1 t.month && leb t.month 12)
        && ((leb 1 t.day && leb t.day (days_in_month t.year t.month))
            && (ltb t.hour 24 && (ltb t.minute 60 && ltb t.second 60))))

-- int(s) of digits; other characters raise. (`int` also takes blanks, a sign and underscores,
-- which no timestamp of the data has.)
unfoldable pub int_from : ℕ → Text → Option ℕ
int_from acc [] = some acc
int_from acc (c ∷ s) =
    let rest = int_from (acc * 10 + (c - 48)) s in if leb 48 c && leb c 57 then rest else none

-- int("") raises
unfoldable pub int_of : Text → Option ℕ
unfolding int_from
int_of [] = none
int_of (c ∷ s) = int_from 0 (c ∷ s)

-- the six numbers, where all of them could be read
abbrev pub moment_of :
    Option ℕ → Option ℕ → Option ℕ → Option ℕ → Option ℕ → Option ℕ → Option Moment
moment_of (some y) (some mo) (some d) (some h) (some mi) (some s) =
    some (record { year = y; month = mo; day = d; hour = h; minute = mi; second = s })
moment_of _ _ _ _ _ _ = none

-- `datetime(...)`
abbrev pub checked : Option Moment → Option Moment
checked none = none
checked (some t) = if is_datetime t then some t else none

unfoldable pub fast_datetime : Text → Option Moment
unfolding int_of is_datetime
fast_datetime s = checked (
    moment_of (int_of (slice 0 4 s)) (int_of (slice 5 7 s)) (int_of (slice 8 10 s))
      (int_of (slice 11 13 s)) (int_of (slice 14 16 s))
      (if leb 19 (length s) then int_of (slice 17 19 s) else some 0))

-- two digits, and four
abbrev pub two_digits : ℕ → Text
two_digits n = (48 + n / 10 % 10) ∷ (48 + n % 10) ∷ []

abbrev pub four_digits : ℕ → Text
four_digits n = (48 + n / 1000 % 10) ∷ (48 + n / 100 % 10) ∷ (48 + n / 10 % 10) ∷ (48 + n % 10) ∷ []

-- str(datetime): "YYYY-MM-DD HH:MM:SS"
unfoldable pub str_datetime : Moment → Text
str_datetime t =
    four_digits t.year
    ++ (45 ∷ two_digits t.month
        ++ (45 ∷ two_digits t.day
            ++ (32 ∷ two_digits t.hour
                ++ (58 ∷ two_digits t.minute ++ (58 ∷ two_digits t.second)))))

int_of-two_digits : (n : ℕ) → n < 100 → int_of (two_digits n) ≡ some n
unfolding int_of int_from
int_of-two_digits n lt = ground (arith, lt)

four_value :
    (n : ℕ)
    → n < 10000
    → (((0 * 10 + n / 1000 % 10) * 10 + n / 100 % 10) * 10 + n / 10 % 10) * 10 + n % 10 ≡ n
four_value n lt = omega (arith, lt)

-- one more digit
int_from-digit :
    (acc d : ℕ) (s : Text) → d < 10 → int_from acc ((48 + d) ∷ s) ≡ int_from (acc * 10 + d) s
unfolding int_from
int_from-digit acc d s lt = ground (arith, lt)

four_read :
    (a b c d : ℕ)
    → a < 10
    → b < 10
    → c < 10
    → d < 10
    → int_from 0 ((48 + a) ∷ (48 + b) ∷ (48 + c) ∷ (48 + d) ∷ [])
      ≡ some ((((0 * 10 + a) * 10 + b) * 10 + c) * 10 + d)
four_read a b c d la lb lc ld =
    int_from-digit 0 a ((48 + b) ∷ (48 + c) ∷ (48 + d) ∷ []) la
    ∙ (int_from-digit (0 * 10 + a) b ((48 + c) ∷ (48 + d) ∷ []) lb
        ∙ (int_from-digit ((0 * 10 + a) * 10 + b) c ((48 + d) ∷ []) lc
            ∙ (int_from-digit (((0 * 10 + a) * 10 + b) * 10 + c) d [] ld
                ∙ unfold int_from in refl)))

int_of-four_digits : (n : ℕ) → n < 10000 → int_of (four_digits n) ≡ some n
unfolding int_of
int_of-four_digits n lt =
    four_read (n / 1000 % 10) (n / 100 % 10) (n / 10 % 10) (n % 10) (omega arith) (omega arith)
      (omega arith) (omega arith)
    ∙ ap some (four_value n lt)

-- A timestamp that Python accepts is read back from its text.
pub fast_datetime-str_datetime :
    (t : Moment) → is_datetime t ≡ true → fast_datetime (str_datetime t) ≡ some t
unfolding fast_datetime str_datetime
fast_datetime-str_datetime t ok =
    rw (year, month, day, hour, minute, second) (if_true (is_datetime t) (some t) none ok)
  where
    year : int_of (four_digits t.year) ≡ some t.year
    year = int_of-four_digits t.year (unfold is_datetime in ground (arith, ok))

    month : int_of (two_digits t.month) ≡ some t.month
    month = int_of-two_digits t.month (unfold is_datetime in ground (arith, ok))

    day : int_of (two_digits t.day) ≡ some t.day
    day = int_of-two_digits t.day (unfold is_datetime in ground (arith, ok))

    hour : int_of (two_digits t.hour) ≡ some t.hour
    hour = int_of-two_digits t.hour (unfold is_datetime in ground (arith, ok))

    minute : int_of (two_digits t.minute) ≡ some t.minute
    minute = int_of-two_digits t.minute (unfold is_datetime in ground (arith, ok))

    second : int_of (two_digits t.second) ≡ some t.second
    second = int_of-two_digits t.second (unfold is_datetime in ground (arith, ok))
