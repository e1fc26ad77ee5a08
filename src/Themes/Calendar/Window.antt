-- ===== src/Themes/Calendar/Window.antt =====
-- A window as a stretch of days that goes on over the new year.
use frame_tv_art_manager.Prelude.{
  ◌==◌, Text, Option, some, none, [], ◌∷◌, subst, ap, Bool-cases, ltb→lt, ◌&&◌, ◌||◌, ℕ, zero, suc,
  ◌+◌, ◌-◌, ◌%◌, ◌≤◌, ◌<◌, ltb, true, false, not, ◌≡◌, ◌↔◌, refl, arith, if◌then◌else◌, inl, inr,
}
use frame_tv_art_manager.Themes.Types.{Mode}
use frame_tv_art_manager.Themes.Calendar.{
  checked_date, two_digits, digit, parse_month_day, active_at, MonthDay, before, days_in, is_date,
  in_window,
}

-- The days of a leap year before a month.
unfoldable pub days_before : ℕ → ℕ
unfolding days_in
days_before zero = 0
days_before (suc zero) = 0
days_before (suc (suc m)) = days_before (suc m) + days_in (suc m)

-- The number of a date in a leap year, from 1 to 366.
unfoldable pub day_of_year : MonthDay → ℕ
unfolding days_before
day_of_year d = days_before d.month + d.day

next_month : (m : ℕ) → 1 ≤ m → days_before (suc m) ≡ days_before m + days_in m
unfolding days_before
next_month zero h = absurd (omega arith)
next_month (suc m) h = refl

later_month : (m k : ℕ) → 1 ≤ m → days_before m + days_in m ≤ days_before (suc (m + k))
later_month m zero h = omega (arith, next_month m h, ap days_before (index m))
  where
    index : (m : ℕ) → suc (m + 0) ≡ suc m
    index m = omega arith
later_month m (suc k) h =
    omega
      (arith, later_month m k h, next_month (suc (m + k)) (omega arith), ap days_before (index m k))
  where
    index : (m k : ℕ) → suc (m + suc k) ≡ suc (suc (m + k))
    index m k = omega arith

date_bounds :
    (d : MonthDay)
    → is_date d ≡ true
    → (1 ≤ d.month) × (d.month ≤ 12) × (1 ≤ d.day) × (d.day ≤ days_in d.month)
unfolding is_date
date_bounds d h = (ground arith, ground arith, ground arith, ground arith)

year_ends : days_before 13 ≡ 366
unfolding days_before days_in
year_ends = refl

-- A month that comes later begins after an earlier one has ended.
days_before_mono : (m n : ℕ) → 1 ≤ m → m < n → days_before m + days_in m ≤ days_before n
days_before_mono m n h l =
    subst (λ k. days_before m + days_in m ≤ days_before k) (omega arith)
      (later_month m (n - suc m) h)

day_of_year-bounds : (d : MonthDay) → is_date d ≡ true → (1 ≤ day_of_year d) × (day_of_year d ≤ 366)
unfolding day_of_year
day_of_year-bounds d h = (
  omega (arith, (date_bounds d h).2),
  omega (
    arith,
    (date_bounds d h).3,
    year_ends,
    days_before_mono d.month 13 (date_bounds d h).0 (omega (arith, (date_bounds d h).1)),
  ),
)

earlier :
    (a b : MonthDay)
    → is_date a ≡ true
    → is_date b ≡ true
    → before a b ≡ true
    → day_of_year a < day_of_year b
unfolding before day_of_year
earlier a b ha hb h = elim (Bool-cases (ltb a.month b.month)) [
  | inl l ↦ omega (
    arith,
    (date_bounds a ha).3,
    (date_bounds b hb).2,
    days_before_mono a.month b.month (date_bounds a ha).0 (ltb→lt a.month b.month l),
  )
  | inr l ↦ same_month (ground arith) (ground arith)
]
  where
    same_month :
        a.month ≡ b.month
        → a.day < b.day
        → days_before a.month + a.day < days_before b.month + b.day
    same_month e l = omega (arith, ap days_before e)

unordered :
    (a b : MonthDay) → before a b ≡ false → before b a ≡ false → day_of_year a ≡ day_of_year b
unfolding before day_of_year
unordered a b h i = omega (arith, ap days_before (same_month), same_day)
  where
    same_month : a.month ≡ b.month
    same_month = ground arith

    same_day : a.day ≡ b.day
    same_day = ground arith

-- Comparing dates is comparing their numbers in the year.
pub before-day_of_year :
    (a b : MonthDay)
    → is_date a ≡ true
    → is_date b ≡ true
    → before a b ≡ ltb (day_of_year a) (day_of_year b)
before-day_of_year a b ha hb = elim (Bool-cases (before a b)) [
  | inl h ↦ ground (arith, h, earlier a b ha hb h)
  | inr h ↦ elim (Bool-cases (before b a)) [
    | inl i ↦ ground (arith, h, earlier b a hb ha i)
    | inr i ↦ ground (arith, h, unordered a b h i)
  ]
]

-- The days from a date to the next time that another comes.
unfoldable pub days_from : MonthDay → MonthDay → ℕ
days_from a b = (366 + day_of_year b - day_of_year a) % 366

window_arith :
    (s e t : ℕ)
    → (1 ≤ s) × (s ≤ 366)
    → (1 ≤ e) × (e ≤ 366)
    → (1 ≤ t) × (t ≤ 366)
    → ((if not (ltb e s) then not (ltb t s) && not (ltb e t) else not (ltb t s) || not (ltb e t))
        ≡ true)
      ↔ ((366 + t - s) % 366 ≤ (366 + e - s) % 366)
window_arith s e t hs he ht = ground arith

in_window_iff :
    (start end today : MonthDay)
    → is_date start ≡ true
    → is_date end ≡ true
    → is_date today ≡ true
    → (in_window start end today ≡ true) ↔ (days_from start today ≤ days_from start end)
unfolding in_window days_from
in_window_iff start end today hs he ht =
    rw
      (
        before-day_of_year end start he hs,
        before-day_of_year today start ht hs,
        before-day_of_year end today he ht,
      )
      (window_arith (day_of_year start) (day_of_year end) (day_of_year today)
        (day_of_year-bounds start hs) (day_of_year-bounds end he) (day_of_year-bounds today ht))

checked-is_date : (m d : Option ℕ) (r : MonthDay) → checked_date m d ≡ some r → is_date r ≡ true
unfolding checked_date
checked-is_date (some m) (some d) r e = ground arith
checked-is_date none d r e = absurd (ground arith)
checked-is_date (some m) none r e = absurd (ground arith)

-- What parses is a date of a leap year.
parsed-is_date : (t : Text) (r : MonthDay) → parse_month_day t ≡ some r → is_date r ≡ true
unfolding parse_month_day
parsed-is_date (a ∷ b ∷ s ∷ c ∷ d ∷ []) r e = elim (Bool-cases (s == b'-')) [
  | inl h ↦
      checked-is_date (two_digits (digit a) (digit b)) (two_digits (digit c) (digit d)) r
        (ground (arith, h, e))
  | inr h ↦ absurd (ground (arith, h, e))
]
parsed-is_date [] r e = absurd (ground arith)
parsed-is_date (a ∷ []) r e = absurd (ground arith)
parsed-is_date (a ∷ b ∷ []) r e = absurd (ground arith)
parsed-is_date (a ∷ b ∷ s ∷ []) r e = absurd (ground arith)
parsed-is_date (a ∷ b ∷ s ∷ c ∷ []) r e = absurd (ground arith)
parsed-is_date (a ∷ b ∷ s ∷ c ∷ d ∷ x ∷ t) r e = absurd (ground arith)

-- A collection whose rule is a window of two dates that parse is active on a day of the calendar
-- exactly when, counting on from the start and over the new year where needed, in a leap year, the
-- day comes no later than the end.
pub active_at_window :
    (start_text end_text : Text) (start end today : MonthDay)
    → parse_month_day start_text ≡ some start
    → parse_month_day end_text ≡ some end
    → is_date today ≡ true
    → (active_at (record { mode = Mode.window; start = start_text; end = end_text }) today ≡ true)
      ↔ (days_from start today ≤ days_from start end)
unfolding active_at
active_at_window start_text end_text start end today ps pe ht =
    rw (ps, pe)
      (in_window_iff start end today (parsed-is_date start_text start ps)
        (parsed-is_date end_text end pe) ht)
