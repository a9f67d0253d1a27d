-- ===== src/Schedule/Overlap.antt =====
-- schedulesOverlap of config.go against the minutes that both schedules match.
use gateway_controllers.Prelude.{
  ◌≡◌, ◌↔◌, ap, ◌∙◌, true, ℕ, ◌+◌, ◌*◌, ◌/◌, ◌%◌, ◌≤◌, ◌<◌, arith, if◌then◌else◌, inl, inr,
  Bool-cases, List, [], ◌∷◌, ◌++◌, ltb,
}
use gateway_controllers.Schedule.{
  Schedule, Range, day_ranges, ranges_of, expand_week_ranges, weekdays, matches, any_covers, covers,
  meet, meets_any, any_meet, schedules_overlap,
}
use gateway_controllers.Schedule.Ranges.{IsProper}

-- Every range has a minute, and ends with the week at the latest.
abbrev pub AllProper : List Range → Type 0
AllProper [] = Unit {0}
AllProper (r ∷ rs) = (r.first < r.limit × r.limit ≤ 10080) × AllProper rs

AllProper-append : (xs ys : List Range) → AllProper xs → AllProper ys → AllProper (xs ++ ys)
AllProper-append [] ys p q = q
AllProper-append (x ∷ xs) ys p q = (p.0, AllProper-append xs ys p.1 q)

day_ranges-AllProper :
    (s : Schedule) (day : ℕ) → IsProper s → day < 7 → AllProper (day_ranges s day)
unfolding day_ranges
day_ranges-AllProper s day v h = ground (arith, v.from_below, v.to_below, v.apart)

abbrev AllDays : List ℕ → Type 0
AllDays [] = Unit {0}
AllDays (x ∷ xs) = (x < 7) × AllDays xs

ranges_of-AllProper :
    (s : Schedule) (days : List ℕ) → IsProper s → AllDays days → AllProper (ranges_of s days)
ranges_of-AllProper s [] v h = tt
ranges_of-AllProper s (x ∷ xs) v h =
    AllProper-append (day_ranges s x) (ranges_of s xs) (day_ranges-AllProper s x v h.0)
      (ranges_of-AllProper s xs v h.1)

expand_week_ranges-AllProper : (s : Schedule) → IsProper s → AllProper (expand_week_ranges s)
unfolding expand_week_ranges
expand_week_ranges-AllProper s v = ranges_of-AllProper s weekdays v (
  omega arith,
  (omega arith, (omega arith, (omega arith, (omega arith, (omega arith, (omega arith, tt)))))),
)

any_covers-lt_week : (rs : List Range) (w : ℕ) → AllProper rs → any_covers rs w ≡ true → w < 10080
any_covers-lt_week [] w p h = cc
any_covers-lt_week (r ∷ rs) w p h = elim (Bool-cases (covers r w)) [
  | inl c ↦ ground (arith, p.0)
  | inr c ↦ any_covers-lt_week rs w p.1 (ground arith)
]

meets_any_shared :
    (l : Range) (rs : List Range)
    → l.first < l.limit
    → AllProper rs
    → meets_any l rs ≡ true
    → (w : ℕ) × (covers l w ≡ true) × (any_covers rs w ≡ true)
meets_any_shared l [] n p h = cc
meets_any_shared l (r ∷ rs) n p h = elim (Bool-cases (meet l r)) [
  | inl m ↦
      (if ltb l.first r.first then r.first else l.first, ground (arith, p.0), ground (arith, p.0))
  | inr m ↦ let (w, c, a) = meets_any_shared l rs n p.1 (ground arith) in (w, c, ground arith)
]

any_meet_shared :
    (ls rs : List Range)
    → AllProper ls
    → AllProper rs
    → any_meet ls rs ≡ true
    → (w : ℕ) × (any_covers ls w ≡ true) × (any_covers rs w ≡ true)
any_meet_shared [] rs p q h = cc
any_meet_shared (l ∷ ls) rs p q h = elim (Bool-cases (meets_any l rs)) [
  | inl m ↦ let (w, c, a) = meets_any_shared l rs p.0.0 q m in (w, ground arith, a)
  | inr m ↦ let (w, c, a) = any_meet_shared ls rs p.1 q (ground arith) in (w, ground arith, a)
]

shared-meets_any :
    (l : Range) (rs : List Range) (w : ℕ)
    → covers l w ≡ true
    → any_covers rs w ≡ true
    → meets_any l rs ≡ true
shared-meets_any l [] w c h = cc
shared-meets_any l (r ∷ rs) w c h = elim (Bool-cases (covers r w)) [
  | inl d ↦ ground arith
  | inr d ↦ ground (arith, shared-meets_any l rs w c (ground arith))
]

shared-any_meet :
    (ls rs : List Range) (w : ℕ)
    → any_covers ls w ≡ true
    → any_covers rs w ≡ true
    → any_meet ls rs ≡ true
shared-any_meet [] rs w h k = cc
shared-any_meet (l ∷ ls) rs w h k = elim (Bool-cases (covers l w)) [
  | inl c ↦ ground (arith, shared-meets_any l rs w c k)
  | inr c ↦ ground (arith, shared-any_meet ls rs w (ground arith) k)
]

-- A minute of a day of the week that both schedules match.
abbrev pub Shares : Schedule → Schedule → Type 0
Shares left right =
    (day : ℕ) × (minute : ℕ) × (day < 7)
    × (minute < 1440)
    × (matches left day minute ≡ true)
    × (matches right day minute ≡ true)

pub overlap-Shares :
    (left right : Schedule)
    → IsProper left
    → IsProper right
    → schedules_overlap left right ≡ true
    → Shares left right
unfolding schedules_overlap matches
overlap-Shares left right u v h =
    let p = expand_week_ranges-AllProper left u in
    let (w, a, b) =
      any_meet_shared (expand_week_ranges left) (expand_week_ranges right) p
        (expand_week_ranges-AllProper right v) h in
    let below : w < 10080 = any_covers-lt_week (expand_week_ranges left) w p a in
    let split : (w / 1440) * 24 * 60 + w % 1440 ≡ w = omega arith in
    (
      w / 1440,
      w % 1440,
      omega arith,
      omega arith,
      ap (any_covers (expand_week_ranges left)) split ∙ a,
      ap (any_covers (expand_week_ranges right)) split ∙ b,
    )

pub Shares-overlap :
    (left right : Schedule) → Shares left right → schedules_overlap left right ≡ true
unfolding schedules_overlap matches
Shares-overlap left right (day, minute, _, _, a, b) =
    shared-any_meet (expand_week_ranges left) (expand_week_ranges right) (day * 24 * 60 + minute) a
      b

-- Two proper schedules are found to overlap exactly when some minute of some weekday is matched by
-- both of them.
pub schedules_overlap_iff :
    (left right : Schedule)
    → IsProper left
    → IsProper right
    → (schedules_overlap left right ≡ true) ↔ Shares left right
schedules_overlap_iff left right u v = (overlap-Shares left right u v, Shares-overlap left right)
