-- ===== src/Schedule.antt =====
-- policies/time-based-model-routing: the schedules of config.go and their selection in
-- timebasedmodelrouting.go. Weekdays are Go's, 0 for Sunday to 6 for Saturday. A set of weekdays
-- is the list of its members. Minutes are numbers: the source computes them as `int`, always
-- between 0 and two weeks.
pub mod Ranges
pub mod Overlap
pub mod Select
use Prim.Native.String.{◌++◌ as append}
use text.Mathlib.Text.{◌==◌ as str_eq}
use gateway_controllers.Prelude.{
  ℕ, suc, ◌+◌, ◌*◌, ◌-◌, String, Bool, true, false, not, ◌&&◌, ◌||◌, Option, none, some, List, [],
  ◌∷◌, ◌++◌, ltb, leb, ◌==◌, if◌then◌else◌,
}
use gateway_controllers.Prelude.Text.{format_int}
use gateway_controllers.Limiter.{Outcome, ok, err}

pub record Target : Type 0 where
  pub model : String
  pub provider : String

pub record Schedule : Type 0 where
  pub name : String
  pub from_minute : ℕ
  pub to_minute : ℕ
  pub days : List ℕ
  pub target : Target

-- The parts of the parsed configuration that the selection reads.
pub record Config : Type 0 where
  pub schedules : List Schedule
  pub default_target : Option Target

-- A range of minutes of the week, the end not in it.
pub record Range : Type 0 where
  pub first : ℕ
  pub limit : ℕ

abbrev pub minutes_per_day : ℕ
minutes_per_day = 1440

abbrev pub minutes_per_week : ℕ
minutes_per_week = 10080

abbrev pub has_day : List ℕ → ℕ → Bool
has_day [] day = false
has_day (x ∷ xs) day = x == day || has_day xs day

-- scheduleStartAppliesOn: no days at all stand for every day.
unfoldable pub schedule_start_applies_on : Schedule → ℕ → Bool
schedule_start_applies_on item day = elim item.days [ [] ↦ true | x ∷ xs ↦ has_day (x ∷ xs) day ]

-- The ranges that the loop of expandWeekRanges appends for one day: two where the week ends in between.
unfoldable pub day_ranges : Schedule → ℕ → List Range
day_ranges item day =
    let start = day * minutes_per_day + item.from_minute in
    let same_day = day * minutes_per_day + item.to_minute in
    let finish =
      if ltb item.to_minute item.from_minute then same_day + minutes_per_day else same_day in
    if not (schedule_start_applies_on item day)
    then []
    else if leb finish minutes_per_week
    then record { first = start; limit = finish } ∷ []
    else record { first = start; limit = minutes_per_week }
      ∷ record { first = 0; limit = finish - minutes_per_week }
      ∷ []

abbrev pub weekdays : List ℕ
weekdays = 0 ∷ 1 ∷ 2 ∷ 3 ∷ 4 ∷ 5 ∷ 6 ∷ []

abbrev pub ranges_of : Schedule → List ℕ → List Range
ranges_of item [] = []
ranges_of item (day ∷ later) = day_ranges item day ++ ranges_of item later

unfoldable pub expand_week_ranges : Schedule → List Range
expand_week_ranges item = ranges_of item weekdays

abbrev pub meet : Range → Range → Bool
meet left right = ltb left.first right.limit && ltb right.first left.limit

abbrev pub meets_any : Range → List Range → Bool
meets_any left [] = false
meets_any left (right ∷ rest) = meet left right || meets_any left rest

abbrev pub any_meet : List Range → List Range → Bool
any_meet [] rights = false
any_meet (left ∷ rest) rights = meets_any left rights || any_meet rest rights

unfoldable pub schedules_overlap : Schedule → Schedule → Bool
schedules_overlap left right = any_meet (expand_week_ranges left) (expand_week_ranges right)

abbrev overlap_error : ℕ → ℕ → String
overlap_error i j =
    append "'schedules["
      (append (format_int i) (append "]' overlaps 'schedules[" (append (format_int j) "]'")))

-- The inner loop of validateNonOverlappingSchedules: the error, if any.
unfoldable pub overlaps_later : ℕ → Schedule → ℕ → List Schedule → Option String
overlaps_later i item j [] = none
overlaps_later i item j (x ∷ xs) =
    let rest = overlaps_later i item (suc j) xs in
    if schedules_overlap item x then some (overlap_error i j) else rest

unfoldable pub validate_from : ℕ → List Schedule → Option String
validate_from i [] = none
validate_from i (x ∷ xs) =
    let rest = validate_from (suc i) xs in
    elim (overlaps_later i x (suc i) xs) [ none ↦ rest | some e ↦ some e ]

unfoldable pub validate_non_overlapping_schedules : List Schedule → Option String
validate_non_overlapping_schedules schedules = validate_from 0 schedules

abbrev pub covers : Range → ℕ → Bool
covers active week_minute = leb active.first week_minute && ltb week_minute active.limit

abbrev pub any_covers : List Range → ℕ → Bool
any_covers [] week_minute = false
any_covers (r ∷ rs) week_minute = covers r week_minute || any_covers rs week_minute

unfoldable pub matches : Schedule → ℕ → ℕ → Bool
matches s day minute = any_covers (expand_week_ranges s) (day * 24 * 60 + minute)

abbrev pub route_name : ℕ → Schedule → String
route_name i item =
    if str_eq item.name "" then append "schedule-" (format_int (suc i)) else item.name

-- The loop of selectTarget.
unfoldable pub select_from : ℕ → ℕ → ℕ → List Schedule → Option (Target × String)
select_from day minute i [] = none
select_from day minute i (item ∷ rest) =
    let further = select_from day minute (suc i) rest in
    if matches item day minute then some (item.target, route_name i item) else further

-- selectTarget, from the weekday and the minute of the local time.
unfoldable pub select_target : Config → ℕ → ℕ → Option (Target × String)
select_target config day minute = elim (select_from day minute 0 config.schedules) [
  | some found ↦ some found
  | none ↦ elim config.default_target [ none ↦ none | some t ↦ some (t, "default") ]
]
