-- ===== src/Schedule/Select.antt =====
-- validateNonOverlappingSchedules of config.go and selectTarget of timebasedmodelrouting.go.
use gateway_controllers.Prelude.{
  ◌≡◌, ◌↔◌, refl, ap, ◌∙◌, true, false, ℕ, suc, ◌+◌, ◌<◌, arith, inl, inr, Bool-cases, Option-cases,
  Option, none, some, List, [], ◌∷◌, ◌++◌, length,
}
use gateway_controllers.Schedule.{
  Target, Schedule, matches, schedules_overlap, overlaps_later, validate_from,
  validate_non_overlapping_schedules, route_name, select_from, select_target,
}
use gateway_controllers.Schedule.Overlap.{Shares-overlap}

-- No schedule of the list overlaps `item`.
abbrev pub AllApart : Schedule → List Schedule → Type 0
AllApart item [] = Unit {0}
AllApart item (x ∷ xs) = (schedules_overlap item x ≡ false) × AllApart item xs

-- No two schedules of the list overlap.
abbrev pub PairsApart : List Schedule → Type 0
PairsApart [] = Unit {0}
PairsApart (x ∷ xs) = AllApart x xs × PairsApart xs

overlaps_later-AllApart :
    (i j : ℕ) (item : Schedule) (xs : List Schedule)
    → overlaps_later i item j xs ≡ none
    → AllApart item xs
unfolding overlaps_later
overlaps_later-AllApart i j item [] h = tt
overlaps_later-AllApart i j item (x ∷ xs) h = elim (Bool-cases (schedules_overlap item x)) [
  | inl m ↦ absurd (ground arith)
  | inr m ↦ (m, overlaps_later-AllApart i (suc j) item xs (ground arith))
]

AllApart-overlaps_later :
    (i j : ℕ) (item : Schedule) (xs : List Schedule)
    → AllApart item xs
    → overlaps_later i item j xs ≡ none
unfolding overlaps_later
AllApart-overlaps_later i j item [] h = refl
AllApart-overlaps_later i j item (x ∷ xs) h =
    ground (arith, h.0, AllApart-overlaps_later i (suc j) item xs h.1)

validate_from-PairsApart : (i : ℕ) (xs : List Schedule) → validate_from i xs ≡ none → PairsApart xs
unfolding validate_from
validate_from-PairsApart i [] h = tt
validate_from-PairsApart i (x ∷ xs) h = elim (Option-cases (overlaps_later i x (suc i) xs)) [
  | inl n ↦
      (overlaps_later-AllApart i (suc i) x xs n, validate_from-PairsApart (suc i) xs (ground arith))
  | inr (e, n) ↦ absurd (ground arith)
]

PairsApart-validate_from : (i : ℕ) (xs : List Schedule) → PairsApart xs → validate_from i xs ≡ none
unfolding validate_from
PairsApart-validate_from i [] h = refl
PairsApart-validate_from i (x ∷ xs) h =
    rw (validate_from, AllApart-overlaps_later i (suc i) x xs h.0)
      (PairsApart-validate_from (suc i) xs h.1)

-- The validation passes exactly when no two schedules of the list overlap.
pub validate_iff :
    (xs : List Schedule) → (validate_non_overlapping_schedules xs ≡ none) ↔ PairsApart xs
unfolding validate_non_overlapping_schedules
validate_iff xs = (validate_from-PairsApart 0 xs, PairsApart-validate_from 0 xs)

-- No schedule of the list matches.
abbrev pub NoneMatch : ℕ → ℕ → List Schedule → Type 0
NoneMatch day minute [] = Unit {0}
NoneMatch day minute (x ∷ xs) = (matches x day minute ≡ false) × NoneMatch day minute xs

select_from-front :
    (day minute i : ℕ) (front : List Schedule) (item : Schedule) (back : List Schedule)
    → NoneMatch day minute front
    → matches item day minute ≡ true
    → select_from day minute i (front ++ item ∷ back)
      ≡ some (item.target, route_name (i + length front) item)
unfolding select_from
select_from-front day minute i [] item back h m =
    rw m (ap (λ k. some (item.target, route_name k item)) (omega arith))
select_from-front day minute i (x ∷ xs) item back h m = rw h.0 (
    select_from-front day minute (suc i) xs item back h.1 m
    ∙ ap (λ k. some (item.target, route_name k item)) (omega arith))

AllApart-front :
    (x : Schedule) (front : List Schedule) (item : Schedule) (back : List Schedule)
    → AllApart x (front ++ item ∷ back)
    → schedules_overlap x item ≡ false
AllApart-front x [] item back h = h.0
AllApart-front x (y ∷ ys) item back h = AllApart-front x ys item back h.1

front-NoneMatch :
    (day minute : ℕ) (front : List Schedule) (item : Schedule) (back : List Schedule)
    → day < 7
    → minute < 1440
    → PairsApart (front ++ item ∷ back)
    → matches item day minute ≡ true
    → NoneMatch day minute front
front-NoneMatch day minute [] item back hd hm p m = tt
front-NoneMatch day minute (x ∷ xs) item back hd hm p m = (
  elim (Bool-cases (matches x day minute)) [
    | inl both ↦ absurd (
        ground (
          arith,
          AllApart-front x xs item back p.0,
          Shares-overlap x item (day, minute, hd, hm, both, m),
        ))
    | inr no_match ↦ no_match
  ],
  front-NoneMatch day minute xs item back hd hm p.1 m,
)

-- In a list of schedules that passes the validation, a schedule that matches a minute of a day is
-- the one that is selected then, wherever it stands in the list.
pub select_target_unique :
    (front : List Schedule) (item : Schedule) (back : List Schedule) (d : Option Target)
    (day minute : ℕ)
    → validate_non_overlapping_schedules (front ++ item ∷ back) ≡ none
    → day < 7
    → minute < 1440
    → matches item day minute ≡ true
    → select_target (record { schedules = front ++ item ∷ back; default_target = d }) day minute
      ≡ some (item.target, route_name (length front) item)
unfolding select_target
select_target_unique front item back d day minute valid hd hm m =
    let apart = (validate_iff (front ++ item ∷ back)).0 valid in
    rw
      (
        select_target,
        select_from-front day minute 0 front item back
            (front-NoneMatch day minute front item back hd hm apart m) m,
      )
      (ap (λ k. some (item.target, route_name k item)) (omega arith))
