-- ===== src/Themes/Calendar.antt =====
-- internal/themes/activation.go: the yearly window of a themed collection.
pub mod Window
use frame_tv_art_manager.Prelude.{
  ℕ, zero, suc, ◌+◌, ◌-◌, ◌*◌, ltb, leb, ◌==◌, Text, is_empty, Bool, true, false, not, ◌&&◌, ◌||◌,
  if◌then◌else◌, List, [], ◌∷◌, Option, none, some,
}
use frame_tv_art_manager.Themes.Types.{Mode, Activation}

pub record MonthDay : Type 0 where
  pub month : ℕ
  pub day : ℕ

-- `monthDay.before`.
unfoldable pub before : MonthDay → MonthDay → Bool
before value other =
    ltb value.month other.month || value.month == other.month && ltb value.day other.day

-- The days of a month in a leap year.
unfoldable pub days_in : ℕ → ℕ
days_in month =
    if month == 2
    then 29
    else if month == 4 || month == 6 || month == 9 || month == 11
    then 30
    else 31

abbrev pub digit : ℕ → Option ℕ
digit c = if leb b'0' c && leb c b'9' then some (c - b'0') else none

unfoldable pub two_digits : Option ℕ → Option ℕ → Option ℕ
two_digits (some a) (some b) = some (a * 10 + b)
two_digits a b = none

-- A date that the calendar of a leap year has.
unfoldable pub is_date : MonthDay → Bool
unfolding days_in
is_date d = leb 1 d.month && leb d.month 12 && leb 1 d.day && leb d.day (days_in d.month)

unfoldable pub checked_date : Option ℕ → Option ℕ → Option MonthDay
unfolding is_date
checked_date (some month) (some day) =
    let d : MonthDay = record { month = month; day = day } in if is_date d then some d else none
checked_date month day = none

-- `parseMonthDay`: MM-DD, for each day that a leap year has. `time.Parse` counts in the year 0, which
-- is one.
unfoldable pub parse_month_day : Text → Option MonthDay
unfolding checked_date two_digits
parse_month_day (a ∷ b ∷ s ∷ c ∷ d ∷ []) =
    if s == b'-'
    then checked_date (two_digits (digit a) (digit b)) (two_digits (digit c) (digit d))
    else none
parse_month_day _ = none

abbrev is_given {ℓ} : {A : Type ℓ} → Option A → Bool
is_given none = false
is_given (some a) = true

activation_valid_as : Mode → Activation → Bool
activation_valid_as Mode.always a = is_empty a.start && is_empty a.end
activation_valid_as Mode.off a = is_empty a.start && is_empty a.end
activation_valid_as Mode.window a =
    not (is_empty a.start || is_empty a.end)
    && (is_given (parse_month_day a.start) && is_given (parse_month_day a.end))
activation_valid_as (Mode.other_mode t) a = false

-- `Activation.Validate`.
unfoldable pub activation_valid : Activation → Bool
unfolding activation_valid_as
activation_valid a = activation_valid_as a.mode a

-- The window of two dates, both included. One that starts after its end goes over the new year.
unfoldable pub in_window : MonthDay → MonthDay → MonthDay → Bool
unfolding before
in_window start end today =
    if not (before end start)
    then not (before today start) && not (before end today)
    else not (before today start) || not (before end today)

unfoldable pub window_active : Option MonthDay → Option MonthDay → MonthDay → Bool
unfolding in_window
window_active (some start) (some end) today = in_window start end today
window_active start end today = false

unfoldable pub active_as : Mode → Activation → MonthDay → Bool
unfolding window_active
active_as Mode.always a today = true
active_as Mode.window a today =
    window_active (parse_month_day a.start) (parse_month_day a.end) today
active_as mode a today = false

-- `Activation.ActiveAt`, for the month and the day of `now`.
unfoldable pub active_at : Activation → MonthDay → Bool
unfolding active_as
active_at a today = active_as a.mode a today
