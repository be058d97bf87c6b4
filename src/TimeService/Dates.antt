-- ===== src/TimeService/Dates.antt =====
-- `TimeServiceClass::getTimeFromString` of src/utility/time/TimeService.cpp. `sscanf` with its format
-- is a function that gives the six parameters if it finds them all, and `mktime` is a function too.
use Prim.Native.String.{String, len}
use text.Mathlib.Text.{find?}
use arduino_io_tcloud.Common.{
  ℕ, ◌-◌, ◌/◌, ◌≤◌, ◌≡◌, refl, ap, ◌&&◌, Option, none, some, leb, ◌==◌, if◌then◌else◌, ℤ, ◌>>=◌,
  arith,
}

-- The parameters: an `int` each, and the text of the month.
pub record Scanned : Type 0 where
  pub year : ℤ
  pub s_month : String
  pub day : ℤ
  pub hour : ℤ
  pub min : ℤ
  pub sec : ℤ

-- The members of `struct tm` that are not 0; `tm_isdst` is -1.
pub record Tm : Type 0 where
  pub tm_sec : ℕ
  pub tm_min : ℕ
  pub tm_hour : ℕ
  pub tm_mday : ℕ
  pub tm_mon : ℕ
  pub tm_year : ℕ

abbrev pub month_names : String
month_names = "JanFebMarAprMayJunJulAugSepOctNovDec"

-- `month`, if `strstr` finds the text and it has three characters.
unfoldable pub month_of : String → Option ℕ
month_of s_month = elim (find? month_names s_month) [
  | some position ↦ if len s_month == 3 then some (position / 3) else none
  | none ↦ none
]

-- Whether an `int` lies between two bounds, and its value if it does.
abbrev pub between : ℕ → ℕ → ℤ → Option ℕ
between lo hi (ℤ.pos n) = if leb lo n && leb n hi then some n else none
between lo hi (ℤ.negsuc n) = none

-- At least 1900; an `int` has 31 bits.
abbrev pub max_int : ℕ
max_int = 2147483647

-- The checks of the values.
unfoldable pub date_of : Scanned → Option Tm
date_of x = do
  month ← month_of x.s_month
  day ← between 1 31 x.day
  year ← between 1900 max_int x.year
  hour ← between 0 24 x.hour
  min ← between 0 60 x.min
  sec ← between 0 60 x.sec
  some (record {
    tm_sec = sec;
    tm_min = min;
    tm_hour = hour;
    tm_mday = day;
    tm_mon = month;
    tm_year = year - 1900;
  })

module _ (sscanf : String → Option Scanned) (mktime : Tm → ℕ) where
  abbrev pub time_or_zero : Option Tm → ℕ
  time_or_zero none = 0
  time_or_zero (some t) = mktime t

  unfoldable pub get_time_from_string : String → ℕ
  get_time_from_string input =
      if len input == 20 then time_or_zero (do x ← sscanf input; date_of x) else 0

-- The twelve months.
pub data Month : Type 0 where
  january february march april may june : Month
  july august september october november december : Month

abbrev pub month_text : Month → String
month_text january = "Jan"
month_text february = "Feb"
month_text march = "Mar"
month_text april = "Apr"
month_text may = "May"
month_text june = "Jun"
month_text july = "Jul"
month_text august = "Aug"
month_text september = "Sep"
month_text october = "Oct"
month_text november = "Nov"
month_text december = "Dec"

abbrev pub month_number : Month → ℕ
month_number january = 0
month_number february = 1
month_number march = 2
month_number april = 3
month_number may = 4
month_number june = 5
month_number july = 6
month_number august = 7
month_number september = 8
month_number october = 9
month_number november = 10
month_number december = 11

month_of-month_text : (m : Month) → month_of (month_text m) ≡ some (month_number m)
unfolding month_of
month_of-month_text january = refl
month_of-month_text february = refl
month_of-month_text march = refl
month_of-month_text april = refl
month_of-month_text may = refl
month_of-month_text june = refl
month_of-month_text july = refl
month_of-month_text august = refl
month_of-month_text september = refl
month_of-month_text october = refl
month_of-month_text november = refl
month_of-month_text december = refl

between-in : (lo hi n : ℕ) → lo ≤ n → n ≤ hi → between lo hi (ℤ.pos n) ≡ some n
between-in lo hi n h k = ground arith

-- A date and time of day, as the text has it.
pub record Civil : Type 0 where
  pub year : ℕ
  pub month : Month
  pub day : ℕ
  pub hour : ℕ
  pub min : ℕ
  pub sec : ℕ

pub record InRange (c : Civil) : Type 0 where
  pub year_low : 1900 ≤ c.year
  pub year_high : c.year ≤ max_int
  pub day_low : 1 ≤ c.day
  pub day_high : c.day ≤ 31
  pub hour_high : c.hour ≤ 24
  pub min_high : c.min ≤ 60
  pub sec_high : c.sec ≤ 60

abbrev pub scanned : Civil → Scanned
scanned c = record {
  year = ℤ.pos c.year;
  s_month = month_text c.month;
  day = ℤ.pos c.day;
  hour = ℤ.pos c.hour;
  min = ℤ.pos c.min;
  sec = ℤ.pos c.sec;
}

abbrev pub tm_of : Civil → Tm
tm_of c = record {
  tm_sec = c.sec;
  tm_min = c.min;
  tm_hour = c.hour;
  tm_mday = c.day;
  tm_mon = month_number c.month;
  tm_year = c.year - 1900;
}

date_of-scanned : (c : Civil) → InRange c → date_of (scanned c) ≡ some (tm_of c)
unfolding date_of
date_of-scanned c h = rw (
  month_of-month_text c.month,
  between-in 1 31 c.day h.day_low h.day_high,
  between-in 1900 max_int c.year h.year_low h.year_high,
  between-in 0 24 c.hour (omega arith) h.hour_high,
  between-in 0 60 c.min (omega arith) h.min_high,
  between-in 0 60 c.sec (omega arith) h.sec_high,
)

-- A text of 20 characters in which `sscanf` finds a date with one of the twelve names and values in
-- their ranges is the time that `mktime` gives for that date, its month counted from 0 and its year
-- from 1900.
pub get_time_from_string-civil :
    (sscanf : String → Option Scanned) (mktime : Tm → ℕ) (input : String) (c : Civil)
    → len input ≡ 20
    → sscanf input ≡ some (scanned c)
    → InRange c
    → get_time_from_string sscanf mktime input ≡ mktime (tm_of c)
unfolding get_time_from_string
get_time_from_string-civil sscanf mktime input c h k r =
    rw (h, k) (ap (time_or_zero sscanf mktime) (date_of-scanned c r))
