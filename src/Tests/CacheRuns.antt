-- ===== src/Tests/CacheRuns.antt =====
-- The token cache at concrete inputs.
use gateway_controllers.Prelude.{◌≡◌, refl, true, suc, ◌%◌, ◌^◌, none, some, inr, if◌then◌else◌}
use gateway_controllers.Prelude.Int.{pos, sub64, wrap64, ◌-ℤ◌, ◌+ℤ◌}
use gateway_controllers.TokenCache.{
  Token, Settings, Shared, Outside, start, checking, fetching, returned, token_fresh_enough,
  token_step, purge_all,
}
use gateway_controllers.TokenCache.Purged.{purge_undone, purge_refetches}

abbrev both_tiers : Settings
both_tiers = record {
  has_redis = true;
  fail_open = true;
  default_ttl = pos 100;
  expiry_buffer = pos 5;
}

abbrev old_token : Token
old_token = record {
  access_token = "abc";
  token_type = "Bearer";
  refresh_token = "";
  expiry = pos 90;
}

abbrev outside : Outside
outside = record {
  now = pos 10;
  redis_error = none;
  redis_alive = true;
  fetched = inr old_token;
  redis_writes = true;
  rebuilds = true;
}

abbrev shared : Shared
shared = record { local = none; redis = some old_token; purge_gen = 3; inner = 0 }

still_fresh : token_fresh_enough (pos 10) old_token (pos 5) ≡ true
unfolding token_fresh_enough sub64 wrap64 ◌-ℤ◌ ◌+ℤ◌
still_fresh = refl

purge_undone_example :
    let checked = token_step both_tiers outside (checking 3 old_token) shared in
    let purged = purge_all both_tiers outside checked.1 in
    let stored = (token_step both_tiers outside checked.0 purged).1 in
    token_step both_tiers outside start stored ≡ (returned old_token, stored)
purge_undone_example =
    purge_undone both_tiers outside outside outside outside shared old_token still_fresh

purge_refetches_run :
    let p = purge_all both_tiers outside shared in
    let (c1, s1) = token_step both_tiers outside start p in
    let (c2, s2) = token_step both_tiers outside c1 s1 in
    let (c3, s3) = if both_tiers.has_redis then token_step both_tiers outside c2 s2 else (c2, s2) in
    (c3 ≡ fetching (suc shared.inner) (suc shared.purge_gen % 2 ^ 64)) × (s3 ≡ p)
purge_refetches_run = purge_refetches both_tiers outside shared refl refl refl
