-- ===== src/TokenCache.antt =====
-- policies/oauth2-generator/token_cache.go: the two-tier token cache. Token and Purge run without a
-- lock but for short sections, so a call is a sequence of steps, one for each access of what the
-- calls share, and calls are interleaved step by step.
pub mod Purged
use Prim.Native.String.{◌++◌ as append}
use text.Mathlib.Text.{◌==◌ as str_eq}
use gateway_controllers.Prelude.{
  ℕ, suc, ◌+◌, ◌%◌, ◌^◌, ◌==◌, String, Bool, true, false, not, Option, none, some, ◌⊎◌, inl, inr,
  if◌then◌else◌,
}
use gateway_controllers.Prelude.Int.{ℤ, pos, le_ℤ, lt_ℤ, eq_ℤ, sub64}
use gateway_controllers.Limiter.{Instant, Duration, time_add, time_sub}

pub record Token : Type 0 where
  pub access_token : String
  pub token_type : String
  pub refresh_token : String
  pub expiry : Instant

-- What a source is made of; `inner` is built of the parameters again at each purge.
pub record Settings : Type 0 where
  pub has_redis : Bool
  pub fail_open : Bool
  pub default_ttl : Duration
  pub expiry_buffer : Duration

-- What the calls share: the one entry of the local cache, the entry under the Redis key, the
-- number of purges as a uint64, and which of the sources built so far is the inner one.
pub record Shared : Type 0 where
  pub local : Option Token
  pub redis : Option Token
  pub purge_gen : ℕ
  pub inner : ℕ

-- tokenFreshEnough: a zero expiry never expires.
unfoldable pub token_fresh_enough : Instant → Token → Duration → Bool
token_fresh_enough now tok buffer =
    if str_eq tok.access_token ""
    then false
    else if eq_ℤ tok.expiry (pos 0)
    then true
    else lt_ℤ now (time_add tok.expiry (sub64 (pos 0) buffer))

-- localToken.
unfoldable pub local_token : Settings → Instant → Shared → Option Token
local_token cfg now s = elim s.local [
  | none ↦ none
  | some tok ↦ if token_fresh_enough now tok cfg.expiry_buffer then some tok else none
]

-- What a step is told from outside: the answer of Redis to a GET (an error, or whether the entry
-- is still there), the answer of the token endpoint, and whether a write to Redis succeeds.
pub record Outside : Type 0 where
  pub now : Instant
  pub redis_error : Option String
  pub redis_alive : Bool
  pub fetched : String ⊎ Token
  pub redis_writes : Bool
  pub rebuilds : Bool

-- How far a call of Token is.
pub data Call : Type 0 where
  start : Call
  reading_redis : Call
  found_in_redis : Token → Call
  taking_snapshot : Call
  fetching : ℕ → ℕ → Call
  checking : ℕ → Token → Call
  storing_local : Token → Call
  storing_redis : Token → Call
  returned : Token → Call
  failed : String → Call

-- getFromRedis, of the entry that is there.
unfoldable pub get_from_redis : Settings → Outside → Shared → String ⊎ Option Token
get_from_redis cfg out s = elim out.redis_error [
  | some e ↦ inl e
  | none ↦ elim s.redis [
    | none ↦ inr none
    | some tok ↦
        if not out.redis_alive
        then inr none
        else if token_fresh_enough out.now tok cfg.expiry_buffer
        then inr (some tok)
        else inr none
  ]
]

-- The expiry of a fetched token: the default where the endpoint gave none.
unfoldable pub bounded : Settings → Instant → Token → Token
bounded cfg now tok =
    if eq_ℤ tok.expiry (pos 0) then record tok { expiry = time_add now cfg.default_ttl } else tok

-- saveToRedis.
unfoldable pub save_to_redis : Outside → Token → Shared → Shared
save_to_redis out tok s =
    if le_ℤ (time_sub tok.expiry out.now) (pos 0)
    then s
    else if out.redis_writes
    then record s { redis = some tok }
    else s

abbrev unavailable : String → String
unavailable e = append "redis token cache unavailable: " e

-- One step of a call of Token.
unfoldable pub token_step : Settings → Outside → Call → Shared → Call × Shared
token_step cfg out start s = elim (local_token cfg out.now s) [
  | some tok ↦ (returned tok, s)
  | none ↦ (if cfg.has_redis then reading_redis else taking_snapshot, s)
]
token_step cfg out reading_redis s = elim (get_from_redis cfg out s) [
  | inl e ↦ (if cfg.fail_open then taking_snapshot else failed (unavailable e), s)
  | inr none ↦ (taking_snapshot, s)
  | inr (some tok) ↦ (found_in_redis tok, s)
]
token_step cfg out (found_in_redis tok) s = (returned tok, record s { local = some tok })
token_step cfg out taking_snapshot s = (fetching s.inner s.purge_gen, s)
token_step cfg out (fetching inner gen) s = elim out.fetched [
  | inr tok ↦ (checking gen (bounded cfg out.now tok), s)
  | inl e ↦ (failed e, s)
]
token_step cfg out (checking gen tok) s =
    if s.purge_gen == gen then (storing_local tok, s) else (returned tok, s)
token_step cfg out (storing_local tok) s =
    (if cfg.has_redis then storing_redis tok else returned tok, record s { local = some tok })
token_step cfg out (storing_redis tok) s = (returned tok, save_to_redis out tok s)
token_step cfg out (returned tok) s = (returned tok, s)
token_step cfg out (failed e) s = (failed e, s)

-- How far a call of Purge is.
pub data Purge : Type 0 where
  deleting_local : Purge
  rebuilding : Purge
  deleting_redis : Purge
  done : Purge

-- One step of a call of Purge. The number is counted up also where the rebuild fails.
unfoldable pub purge_step : Settings → Outside → Purge → Shared → Purge × Shared
purge_step cfg out deleting_local s = (rebuilding, record s { local = none })
purge_step cfg out rebuilding s =
    let counted = record s { purge_gen = suc s.purge_gen % 2 ^ 64 } in
    (
      if cfg.has_redis then deleting_redis else done,
      if out.rebuilds then record counted { inner = suc s.inner } else counted,
    )
purge_step cfg out deleting_redis s =
    (done, if out.redis_writes then record s { redis = none } else s)
purge_step cfg out done s = (done, s)

-- Three steps are all that a purge has.
unfoldable pub purge_all : Settings → Outside → Shared → Shared
purge_all cfg out s =
    let (p, s1) = purge_step cfg out deleting_local s in
    let (q, s2) = purge_step cfg out p s1 in (purge_step cfg out q s2).1
