-- ===== src/Schedule/Ranges.antt =====
-- When a schedule is active: `matches` of timebasedmodelrouting.go against an independent reading
-- of a schedule.
use gateway_controllers.Prelude.{
  ◌≡◌, ◌≢◌, refl, ◌∙◌, Bool, false, ◌&&◌, ◌||◌, ℕ, zero, suc, ◌+◌, ◌*◌, ◌%◌, ◌<◌, arith, List, [],
  ◌∷◌, ◌++◌, ltb, leb, ◌==◌,
}
use gateway_controllers.Schedule.{
  Schedule, Range, schedule_start_applies_on, day_ranges, expand_week_ranges, matches, any_covers,
}

-- Both minutes are minutes of a day, and they differ.
pub record IsProper (s : Schedule) : Type 0 where
  pub from_below : s.from_minute < 1440
  pub to_below : s.to_minute < 1440
  pub apart : s.from_minute ≢ s.to_minute

-- Over night, a schedule ends on the day after the one it starts on.
abbrev pub overnight : Schedule → Bool
overnight s = ltb s.to_minute s.from_minute

abbrev pub yesterday : ℕ → ℕ
yesterday day = (day + 6) % 7

-- The independent reading: the schedule started today and is not over, or it started yesterday,
-- runs over night, and is not over.
abbrev pub is_active : Schedule → ℕ → ℕ → Bool
is_active s day minute =
    (schedule_start_applies_on s day
      && (leb s.from_minute minute && (overnight s || ltb minute s.to_minute)))
    || (schedule_start_applies_on s (yesterday day) && (overnight s && ltb minute s.to_minute))

any_covers-append :
    (xs ys : List Range) (w : ℕ) → any_covers (xs ++ ys) w ≡ (any_covers xs w || any_covers ys w)
any_covers-append [] ys w = refl
any_covers-append (x ∷ xs) ys w = rw (any_covers-append xs ys w) (ground arith)

-- What the ranges of a start day cover.
abbrev day_covers : Schedule → ℕ → ℕ → ℕ → Bool
day_covers s start day minute =
    schedule_start_applies_on s start
    && ((start == day && (leb s.from_minute minute && (overnight s || ltb minute s.to_minute)))
        || (start == yesterday day && (overnight s && ltb minute s.to_minute)))

day_ranges_lem :
    (s : Schedule) (start day minute : ℕ)
    → IsProper s
    → start < 7
    → day < 7
    → minute < 1440
    → any_covers (day_ranges s start) (day * 24 * 60 + minute) ≡ day_covers s start day minute
unfolding day_ranges
day_ranges_lem s start day minute v hs hd hm = ground (arith, v.from_below, v.to_below, v.apart)

week_covers : (s : Schedule) (day minute : ℕ) → Bool
week_covers s day minute =
    day_covers s 0 day minute
    || (day_covers s 1 day minute
        || (day_covers s 2 day minute
            || (day_covers s 3 day minute
                || (day_covers s 4 day minute
                    || (day_covers s 5 day minute || (day_covers s 6 day minute || false))))))

expand_week_ranges_lem :
    (s : Schedule) (day minute : ℕ)
    → IsProper s
    → day < 7
    → minute < 1440
    → any_covers (expand_week_ranges s) (day * 24 * 60 + minute) ≡ week_covers s day minute
unfolding expand_week_ranges week_covers
expand_week_ranges_lem s day minute v hd hm =
    let w = day * 24 * 60 + minute in
    let piece : (k : ℕ) → k < 7 → any_covers (day_ranges s k) w ≡ day_covers s k day minute =
      λ k h. day_ranges_lem s k day minute v h hd hm in
    rw (
      any_covers-append (day_ranges s 0) _ w,
      any_covers-append (day_ranges s 1) _ w,
      any_covers-append (day_ranges s 2) _ w,
      any_covers-append (day_ranges s 3) _ w,
      any_covers-append (day_ranges s 4) _ w,
      any_covers-append (day_ranges s 5) _ w,
      any_covers-append (day_ranges s 6) _ w,
      piece 0 (omega arith),
      piece 1 (omega arith),
      piece 2 (omega arith),
      piece 3 (omega arith),
      piece 4 (omega arith),
      piece 5 (omega arith),
      piece 6 (omega arith),
    )

one_day :
    (s : Schedule) (minute day : ℕ)
    → IsProper s
    → day < 7
    → week_covers s day minute ≡ is_active s day minute
unfolding week_covers
one_day s minute zero v h = ground arith
one_day s minute (suc zero) v h = ground arith
one_day s minute (suc (suc zero)) v h = ground arith
one_day s minute (suc (suc (suc zero))) v h = ground arith
one_day s minute (suc (suc (suc (suc zero)))) v h = ground arith
one_day s minute (suc (suc (suc (suc (suc zero))))) v h = ground arith
one_day s minute (suc (suc (suc (suc (suc (suc zero)))))) v h = ground arith
one_day s minute (suc (suc (suc (suc (suc (suc (suc n))))))) v h = absurd (omega arith)

-- A proper schedule matches a minute of a day exactly when it is active then.
pub matches-is_active :
    (s : Schedule) (day minute : ℕ)
    → IsProper s
    → day < 7
    → minute < 1440
    → matches s day minute ≡ is_active s day minute
unfolding matches
matches-is_active s day minute v hd hm =
    expand_week_ranges_lem s day minute v hd hm ∙ one_day s minute day v hd
