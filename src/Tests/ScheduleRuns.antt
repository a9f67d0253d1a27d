-- ===== src/Tests/ScheduleRuns.antt =====
-- Time-based routing at concrete inputs.
use gateway_controllers.Prelude.{◌≡◌, ◌↔◌, refl, true, arith, none, some, [], ◌∷◌}
use gateway_controllers.Schedule.{
  Target, Schedule, matches, schedules_overlap, validate_non_overlapping_schedules, select_target,
  route_name, expand_week_ranges, day_ranges, schedule_start_applies_on, overlaps_later,
  validate_from,
}
use gateway_controllers.Schedule.Ranges.{IsProper, is_active, matches-is_active}
use gateway_controllers.Schedule.Overlap.{Shares, schedules_overlap_iff}
use gateway_controllers.Schedule.Select.{select_target_unique}

abbrev small : Target
small = record { model = "small"; provider = "" }

-- Weekend nights, from Saturday on into Monday.
abbrev nights : Schedule
nights = record {
  name = "nights";
  from_minute = 1320;
  to_minute = 360;
  days = 6 ∷ 0 ∷ [];
  target = small;
}

-- Every day, from six to noon.
abbrev mornings : Schedule
mornings = record { name = ""; from_minute = 360; to_minute = 720; days = []; target = small }

nights-IsProper : IsProper nights
nights-IsProper = record {
  from_below = omega arith;
  to_below = omega arith;
  apart = λ e. omega arith;
}

mornings-IsProper : IsProper mornings
mornings-IsProper = record {
  from_below = omega arith;
  to_below = omega arith;
  apart = λ e. omega arith;
}

monday_early : matches nights 1 90 ≡ true
unfolding matches expand_week_ranges day_ranges schedule_start_applies_on
monday_early = refl

matches-is_active_run : matches nights 1 90 ≡ is_active nights 1 90
matches-is_active_run = matches-is_active nights 1 90 nights-IsProper (omega arith) (omega arith)

schedules_overlap_iff_example : (schedules_overlap nights mornings ≡ true) ↔ Shares nights mornings
schedules_overlap_iff_example =
    schedules_overlap_iff nights mornings nights-IsProper mornings-IsProper

both_valid : validate_non_overlapping_schedules (mornings ∷ nights ∷ []) ≡ none
unfolding validate_non_overlapping_schedules validate_from overlaps_later schedules_overlap
    expand_week_ranges day_ranges schedule_start_applies_on
both_valid = refl

select_target_unique_example :
    select_target (record { schedules = mornings ∷ nights ∷ []; default_target = none }) 1 90
    ≡ some (small, route_name 1 nights)
select_target_unique_example =
    select_target_unique (mornings ∷ []) nights [] none 1 90 both_valid (omega arith) (omega arith)
      monday_early
