-- ===== src/Cache/Failover.antt =====
-- src/core/cache.py: what a Redis that fails does to `get`, `set` and `delete`.
use async_pulse.Prelude.{
  ℕ, suc, String, ◌≡◌, ◌≢◌, refl, Bool, true, false, not, ◌&&◌, ◌||◌, ◌∙◌, Option, arith,
  if◌then◌else◌,
}
use async_pulse.Python.Result.{Result, ok, err, redis_error}
use async_pulse.Python.Action.{◌>>=◌, ◌>>◌, continue}
use async_pulse.Cache.Client.{
  Redis, CacheClient, Client, is_loop, same_number, is_connection_error, uses_fallback,
  activate_fallback, fallback_get, fallback_set, fallback_delete, reset, pinged, connect,
  init_redis, attempted, dispatch, with_fallback, get, set, delete, expiry,
}

-- The client has been initialised for the running loop.
abbrev pub is_ready : {R : Type 0} → CacheClient R → Bool
is_ready c = c.initialized && is_loop c.loop c.running_loop

same_number-same : (n : ℕ) → same_number n n ≡ true
same_number-same n = ground arith

abbrev LeavesReady : {R A : Type 0} → Result A × CacheClient R → Type 0
LeavesReady (ok a, c) = is_ready c ≡ true
LeavesReady (err e, c) = Unit

module _ {R : Type 0} (redis : Redis R) where
  pinged-ready :
      (r : Result (Unit {0})) (c : CacheClient R)
      → is_loop c.loop c.running_loop ≡ true
      → LeavesReady (pinged redis r c)
  pinged-ready (ok _) c h = h
  pinged-ready (err e) c h = refused (is_connection_error e) h
    where
      refused :
          (b : Bool)
          → is_loop c.loop c.running_loop ≡ true
          → LeavesReady (
              if b
              then (
                ok tt,
                record c { fallback_active = true; connected = false; initialized = true },
              )
              else (err e, record c { initialized = true }))
      refused true h = h
      refused false h = tt

  connect-ready :
      (c : CacheClient R) → is_loop c.loop c.running_loop ≡ true → LeavesReady (connect redis c)
  unfolding connect
  connect-ready c h = pinged-ready (redis.ping c.server).0 _ h

  reset-ready : (c : CacheClient R) → LeavesReady ((reset redis >> connect redis) c)
  unfolding ◌>>=◌ reset
  reset-ready c = connect-ready _ (same_number-same _)

  init_redis-ready : (c : CacheClient R) → LeavesReady (init_redis redis c)
  unfolding init_redis
  init_redis-ready c = start (is_ready c) refl
    where
      start :
          (b : Bool)
          → is_ready c ≡ b
          → LeavesReady (if b then (ok tt, c) else (reset redis >> connect redis) c)
      start true h = h
      start false h = reset-ready c

  -- A client that is ready and on its fallback stays on it: the server is not asked.
  pub on_fallback :
      {A : Type 0} (n : ℕ) (f : Client R A) (command : R → Result A × R) (c : CacheClient R)
      → is_ready c ≡ true
      → uses_fallback c ≡ true
      → with_fallback redis (suc n) f command c ≡ f c
  unfolding with_fallback init_redis ◌>>=◌
  on_fallback n f command c h k = rw (h, k) refl

  module _ {A : Type 0} (f : Client R A) (command : R → Result A × R) where
    attempted-fuel :
        (n : ℕ) (r : Result A) (c : CacheClient R)
        → is_ready c ≡ true
        → attempted redis (with_fallback redis (suc n) f command) r c ≡ attempted redis f r c
    attempted-fuel n (ok a) c h = refl
    attempted-fuel n (err e) c h =
        ground (arith, on_fallback n f command (activate_fallback c) h refl)

    dispatch-fuel :
        (n : ℕ) (c : CacheClient R)
        → is_ready c ≡ true
        → dispatch redis (with_fallback redis (suc n) f command) f command c
          ≡ dispatch redis f f command c
    dispatch-fuel n c h = ground (
      arith,
      attempted-fuel n (command c.server).0 (record c { server = (command c.server).1 }) h,
    )

    -- One call of a method, without recursion: the fallback stands in for the second attempt.
    continue-fuel :
        (n : ℕ) (r : Result (Unit {0})) (c : CacheClient R)
        → LeavesReady (r, c)
        → continue r c (λ _. dispatch redis (with_fallback redis (suc n) f command) f command)
          ≡ continue r c (λ _. dispatch redis f f command)
    continue-fuel n (ok _) c h = dispatch-fuel n c h
    continue-fuel n (err e) c h = refl

    pub with_fallback-once :
        (n : ℕ) (c : CacheClient R)
        → with_fallback redis (suc (suc n)) f command c
          ≡ (init_redis redis >> dispatch redis f f command) c
    unfolding ◌>>=◌ with_fallback
    with_fallback-once n c = continue-fuel n (init_redis redis c).0 _ (init_redis-ready c)

    -- One call without recursion, on a client that has been initialised: the fallback where it is in
    -- use, and else the command, after whose `RedisError` the fallback takes over.
    abbrev pub ends : Result A → R → CacheClient R → Result A × CacheClient R
    ends (ok a) s c = (ok a, record c { server = s })
    ends (err redis_error) s c = f (record c { server = s; fallback_active = true })
    ends (err e) s c = (err e, record c { server = s })

    abbrev pub once : Client R A
    once c = elim (c.fallback_active || not c.connected) [
      | true ↦ f c
      | false ↦ ends (command c.server).0 (command c.server).1 c
    ]

    ends-attempted :
        (r : Result A) (s : R) (c : CacheClient R)
        → attempted redis f r (record c { server = s }) ≡ ends r s c
    ends-attempted r s c = ground arith

    dispatch-once : (c : CacheClient R) → dispatch redis f f command c ≡ once c
    dispatch-once c = ground (arith, ends-attempted (command c.server).0 (command c.server).1 c)

    -- The recursion of `get`, `set` and `delete` is never deeper than two: with fuel for two calls or
    -- more, a method initialises the client and then runs once, without recursion, and never runs out
    -- of fuel, whatever Redis and the fallback branch do.
    pub with_fallback-fuel :
        (n : ℕ) (c : CacheClient R)
        → with_fallback redis (suc (suc n)) f command c ≡ (init_redis redis >> once) c
    unfolding ◌>>=◌
    with_fallback-fuel n c =
        with_fallback-once n c ∙ finish (init_redis redis c).0 (init_redis redis c).1
      where
        finish :
            (r : Result (Unit {0})) (c' : CacheClient R)
            → continue r c' (λ _. dispatch redis f f command) ≡ continue r c' (λ _. once)
        finish (ok _) c' = dispatch-once c'
        finish (err e) c' = refl

module _ {R : Type 0} (redis : Redis R) where
  pinged-absorbs :
      (r : Result (Unit {0})) (c : CacheClient R) → (pinged redis r c).0 ≢ err redis_error
  pinged-absorbs r c = ground arith

  init_redis-absorbs : (c : CacheClient R) → (init_redis redis c).0 ≢ err redis_error
  unfolding init_redis ◌>>=◌ reset connect
  init_redis-absorbs c =
      elim (is_ready c)
        as (λ b. (if b then (ok tt, c) else (reset redis >> connect redis) c).0 ≢ err redis_error) [
          | true ↦ λ e. cc
          | false ↦ pinged-absorbs _ _
        ]

  module _ {A : Type 0} (f : Client R A) (command : R → Result A × R)
      (total : (c : CacheClient R) → (f c).0 ≢ err redis_error) where
    attempted-absorbs :
        (r : Result A) (c : CacheClient R) → (attempted redis f r c).0 ≢ err redis_error
    attempted-absorbs r c = ground (arith, total (activate_fallback c))

    dispatch-absorbs : (c : CacheClient R) → (dispatch redis f f command c).0 ≢ err redis_error
    dispatch-absorbs c = ground (
      arith,
      total c,
      attempted-absorbs (command c.server).0 (record c { server = (command c.server).1 }),
    )

    continue-absorbs :
        (r : Result (Unit {0})) (c : CacheClient R)
        → r ≢ err redis_error
        → (continue r c (λ _. dispatch redis f f command)).0 ≢ err redis_error
    continue-absorbs (ok _) c h = dispatch-absorbs c
    continue-absorbs (err e) c h = ground (arith, h)

    with_fallback-absorbs :
        (c : CacheClient R) → (with_fallback redis 2 f command c).0 ≢ err redis_error
    unfolding ◌>>=◌
    with_fallback-absorbs c =
        rw (with_fallback-once redis f command 0 c)
          (continue-absorbs (init_redis redis c).0 _ (init_redis-absorbs c))

  -- A `RedisError` never leaves `get`, `set` or `delete`, whatever Redis does, in any state of the
  -- client.
  pub redis_error_is_absorbed :
      (key value : String) (ttl : Option ℕ) (now : ℕ) (c : CacheClient R)
      → ((get redis key now c).0 ≢ err redis_error)
        × ((set redis key value ttl now c).0 ≢ err redis_error)
        × ((delete redis key c).0 ≢ err redis_error)
  unfolding get set delete fallback_get fallback_set fallback_delete
  redis_error_is_absorbed key value ttl now c = (
    with_fallback-absorbs (fallback_get key now) (redis.get key) (λ c. ground arith) c,
    with_fallback-absorbs (fallback_set key value (expiry now ttl)) (redis.set key value ttl)
        (λ c. ground arith) c,
    with_fallback-absorbs (fallback_delete key) (redis.delete key) (λ c. ground arith) c,
  )
