-- ===== src/Gcra/Available.antt =====
-- GetAvailable of the GCRA limiter.
use gateway_controllers.Prelude.{
  ◌≡◌, refl, ap, String, ℕ, ◌/◌, ◌-◌, ◌<◌, ◌^◌, arith, Option, none, some,
}
use gateway_controllers.Prelude.Int.{pos, pos_part, ◌-ℤ◌, ◌≤ℤ◌, -ℤ_parts, parts_apart}
use gateway_controllers.Prelude.Division.{ceil_div}
use gateway_controllers.Limiter.{Instant, Floats, ok, Map}
use gateway_controllers.Gcra.{MemoryLimiter, TatEntry, load_tat, entry_tat}
use gateway_controllers.Gcra.{available_of, get_available}
use gateway_controllers.Gcra.Remaining.{
  policy_of, IsSane, emission_interval_lem, burst_allowance_lem, past_ahead, ceil_div-zero,
  calculate_remaining_lem,
}
use gateway_controllers.Gcra.Allow.{limiter_of, backlog, spare}

-- No entry may be dropped before its arrival time.
pub record IsLasting (m : MemoryLimiter) : Type 0 where
  pub lasting : (k : String) (e : TatEntry) → m.data_of k ≡ some e → e.tat ≤ℤ e.expiration

-- The backlog is that of the stored arrival time, whether or not the entry is still alive.
pub entry_tat-ahead :
    (now : Instant) (e : TatEntry)
    → e.tat ≤ℤ e.expiration
    → pos_part (entry_tat now (some e) -ℤ now) ≡ pos_part (e.tat -ℤ now)
entry_tat-ahead now e h = ground (
  arith,
  -ℤ_parts now now,
  -ℤ_parts e.tat now,
  parts_apart (now -ℤ now),
  parts_apart (e.tat -ℤ now),
)

available_lem :
    (fl : Floats) (l d b : ℕ) (sane : IsSane l d b) (now : Instant) (o : Option TatEntry)
    → ((e : TatEntry) → o ≡ some e → e.tat ≤ℤ e.expiration)
    → pos_part (entry_tat now o -ℤ now) < 2 ^ 62
    → available_of fl (policy_of l d b) (pos (d / l)) now o
      ≡ pos (b - ceil_div (pos_part (entry_tat now o -ℤ now)) (d / l))
available_lem fl l d b sane now none h near =
    rw (past_ahead now now (omega arith), ceil_div-zero l d b sane) (ap pos (omega arith))
available_lem fl l d b sane now (some e) h near =
    rw (entry_tat-ahead now e (h e refl), burst_allowance_lem l d b sane)
      (ground (
        arith,
        h e refl,
        past_ahead e.tat now,
        ceil_div-zero l d b sane,
        entry_tat-ahead now e (h e refl),
        calculate_remaining_lem fl l d b sane now e.tat,
      ))

-- Under a sane policy, where no entry may be dropped early and the backlog of the key is below
-- 2 ^ 62 ns, `GetAvailable` reports the burst less the tokens of the backlog, rounded up.
pub get_available_lem :
    (fl : Floats) (l d b : ℕ) (sane : IsSane l d b) (now : Instant) (key : String)
    (entries : Map TatEntry)
    → let m = limiter_of l d b entries in
      IsLasting m
      → backlog now key m < 2 ^ 62
      → get_available fl now key m ≡ ok (pos (spare fl l d b sane now key m))
unfolding get_available backlog load_tat
get_available_lem fl l d b sane now key entries v near =
    rw (emission_interval_lem l d b sane.some_rate sane.bounded)
      (ap ok (available_lem fl l d b sane now (entries key) (v.lasting key) near))
