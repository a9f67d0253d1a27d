-- ===== src/TokenCache/Purged.antt =====
-- A fetch and a purge at the same time.
use gateway_controllers.Prelude.{
  ◌≡◌, ◌≢◌, true, ℕ, suc, ◌%◌, ◌^◌, arith, if◌then◌else◌, inl, inr, Bool-cases, none, some,
}
use gateway_controllers.TokenCache.{
  get_from_redis, Token, Settings, Shared, Outside, Call, Purge, start, fetching, checking,
  storing_local, returned, token_fresh_enough, local_token, token_step, rebuilding, purge_step,
  purge_all,
}

-- Steps of other calls of Token and Purge, in any interleaving, with the number of purges that are
-- counted among them.
pub data Others (cfg : Settings) : ℕ → Shared → Shared → Type 0 where
  stop : {s : Shared} → Others cfg 0 s s
  token :
      {n : ℕ} {s t : Shared} (out : Outside) (c : Call)
      → Others cfg n (token_step cfg out c s).1 t
      → Others cfg n s t
  purge :
      {n : ℕ} {s t : Shared} (out : Outside)
      → Others cfg n (purge_step cfg out rebuilding s).1 t
      → Others cfg (suc n) s t
  delete :
      {n : ℕ} {s t : Shared} (out : Outside) (p : Purge)
      → p ≢ rebuilding
      → Others cfg n (purge_step cfg out p s).1 t
      → Others cfg n s t

check_passes :
    (cfg : Settings) (out : Outside) (s : Shared) (tok : Token)
    → token_step cfg out (checking s.purge_gen tok) s ≡ (storing_local tok, s)
unfolding token_step
check_passes cfg out s tok = ground arith

start_local :
    (cfg : Settings) (out : Outside) (tok : Token) (t : Shared)
    → t.local ≡ some tok
    → token_fresh_enough out.now tok cfg.expiry_buffer ≡ true
    → token_step cfg out start t ≡ (returned tok, t)
unfolding token_step local_token
start_local cfg out tok t l fresh = ground arith

-- A purge that runs as a whole between the check of a fetch and its store is undone: the fetched
-- token is in the local cache afterwards, and the next call returns it, as long as it is fresh.
pub purge_undone :
    (cfg : Settings) (a b c d : Outside) (s : Shared) (tok : Token)
    → token_fresh_enough d.now tok cfg.expiry_buffer ≡ true
    → let checked = token_step cfg a (checking s.purge_gen tok) s in
      let purged = purge_all cfg b checked.1 in
      let stored = (token_step cfg c checked.0 purged).1 in
      token_step cfg d start stored ≡ (returned tok, stored)
unfolding token_step
purge_undone cfg a b c d s tok fresh =
    start_local cfg d tok
      (token_step cfg c (token_step cfg a (checking s.purge_gen tok) s).0
        (purge_all cfg b (token_step cfg a (checking s.purge_gen tok) s).1)).1
      (rw (check_passes cfg a s tok)) fresh

-- After a purge whose rebuild and whose delete succeed, with no other call at the same time, a call
-- finds no token in either tier and goes to the rebuilt source.
pub purge_refetches :
    (cfg : Settings) (out : Outside) (s : Shared)
    → out.rebuilds ≡ true
    → out.redis_writes ≡ true
    → out.redis_error ≡ none
    → let p = purge_all cfg out s in
      let (c1, s1) = token_step cfg out start p in
      let (c2, s2) = token_step cfg out c1 s1 in
      let (c3, s3) = if cfg.has_redis then token_step cfg out c2 s2 else (c2, s2) in
      (c3 ≡ fetching (suc s.inner) (suc s.purge_gen % 2 ^ 64)) × (s3 ≡ p)
unfolding token_step purge_all purge_step local_token get_from_redis
purge_refetches cfg out s r w e = elim (Bool-cases cfg.has_redis) [
  | inl h ↦ ground arith
  | inr h ↦ ground arith
]
