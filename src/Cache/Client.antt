-- ===== src/Cache/Client.antt =====
-- src/core/cache.py: the methods of `CacheClient`. The Redis client and its server are an interface;
-- a method that reads the clock takes the reading as an argument.
use async_pulse.Prelude.{
  ℕ, zero, suc, ◌+◌, ◌*◌, String, Bool, true, false, not, ◌&&◌, ◌||◌, Option, none, some,
  if◌then◌else◌,
}
use Prim.Native.Nat.{compare, Ordering}
use async_pulse.Python.Result.{
  Error, Result, ok, err, redis_error, os_error, value_error, recursion_error,
}
use async_pulse.Python.DateTime.{DateTime, aware, later, second}
use async_pulse.Python.Obj.{Obj, is_truthy}
use async_pulse.Python.Codec.{Codec}
use async_pulse.Python.Action.{Action, raise, lift, suppress, ◌>>=◌, ◌>>◌}
use async_pulse.Env.{Cache}
use async_pulse.Cache.Store.{Store, lookup, put, remove}

-- The commands of `redis.asyncio` that the client uses, on the state of the connection and server.
pub record Redis (R : Type 0) : Type 0 where
  pub ping : R → Result (Unit {0}) × R
  pub get : String → R → Result (Option String) × R
  pub set : String → String → Option ℕ → R → Result (Unit {0}) × R
  pub delete : String → R → Result (Unit {0}) × R
  pub aclose : R → Result (Unit {0}) × R

-- `connected` says that `_redis` is not `None`; `running_loop` is what `get_running_loop()` returns.
pub record CacheClient (R : Type 0) : Type 0 where
  pub server : R
  pub connected : Bool
  pub fallback_store : Store
  pub fallback_active : Bool
  pub initialized : Bool
  pub loop : Option ℕ
  pub running_loop : ℕ

abbrev pub Client : Type 0 → Type 0 → Type 0
Client R A = Action (CacheClient R) A

abbrev pub same_number : ℕ → ℕ → Bool
same_number a b = elim (compare a b) [ Ordering.eq ↦ true | _ ↦ false ]

abbrev pub is_loop : Option ℕ → ℕ → Bool
is_loop none n = false
is_loop (some m) n = same_number m n

-- `except (RedisError, OSError)` and `except RedisError`
abbrev pub is_connection_error : Error → Bool
is_connection_error redis_error = true
is_connection_error os_error = true
is_connection_error _ = false

abbrev pub is_redis_error : Error → Bool
is_redis_error redis_error = true
is_redis_error _ = false

abbrev pub uses_fallback : {R : Type 0} → CacheClient R → Bool
uses_fallback c = c.fallback_active || not c.connected

-- `if ttl` is false for `None` and for 0.
unfoldable pub expiry : ℕ → Option ℕ → Option DateTime
expiry now none = none
expiry now (some zero) = none
expiry now (some (suc n)) = some (aware (now + suc n * second))

abbrev pub is_past : ℕ → Option DateTime → Bool
is_past now none = false
is_past now (some d) = later (aware now) d

module _ {R : Type 0} where
  abbrev pub activate_fallback : CacheClient R → CacheClient R
  activate_fallback c = record c { fallback_active = true }

  -- The branches of `get`, `set` and `delete` that use the dict.
  unfoldable pub fallback_get : String → ℕ → Client R (Option String)
  fallback_get key now c = elim (lookup key c.fallback_store) [
    | none ↦ (ok none, c)
    | some (val, expires) ↦
        if is_past now expires
        then (ok none, record c { fallback_store = remove key c.fallback_store })
        else (ok (some val), c)
  ]

  unfoldable pub fallback_set : String → String → Option DateTime → Client R (Unit {0})
  fallback_set key value expires c =
      (ok tt, record c { fallback_store = put key (value, expires) c.fallback_store })

  unfoldable pub fallback_delete : String → Client R (Unit {0})
  fallback_delete key c = (ok tt, record c { fallback_store = remove key c.fallback_store })

  -- A command of the Redis client, on the server's part of the state.
  abbrev pub send : {A : Type 0} → (R → Result A × R) → Client R A
  send command c = let (r, s) = command c.server in (r, record c { server = s })

module _ {R : Type 0} (redis : Redis R) where
  -- A stale connection is closed, and the flags are reset for the running loop.
  unfoldable pub reset : Client R (Unit {0})
  reset c =
      let c' = (if c.connected then (suppress (send redis.aclose) c).1 else c) in
      (
        ok tt,
        record c' {
          connected = false;
          loop = some c'.running_loop;
          initialized = false;
          fallback_active = false;
        },
      )

  -- How the `try` around `ping` ends, with its `except` and `finally`.
  abbrev pub pinged : Result (Unit {0}) → Client R (Unit {0})
  pinged (ok _) c = (ok tt, record c { fallback_active = false; initialized = true })
  pinged (err e) c =
      if is_connection_error e
      then (ok tt, record c { fallback_active = true; connected = false; initialized = true })
      else (err e, record c { initialized = true })

  unfoldable pub connect : Client R (Unit {0})
  connect c = let (r, c') = send redis.ping (record c { connected = true }) in pinged r c'

  unfoldable pub init_redis : Client R (Unit {0})
  unfolding reset connect ◌>>=◌
  init_redis c =
      if c.initialized && is_loop c.loop c.running_loop then (ok tt, c) else (reset >> connect) c

  -- How the `try` around a Redis command ends: a `RedisError` activates the fallback, and the method
  -- calls itself again.
  abbrev pub attempted : {A : Type 0} → Client R A → Result A → Client R A
  attempted again (ok a) c = (ok a, c)
  attempted again (err e) c = if is_redis_error e then again (activate_fallback c) else (err e, c)

  abbrev pub dispatch : {A : Type 0} → Client R A → Client R A → (R → Result A × R) → Client R A
  dispatch again fallback command c =
      if uses_fallback c then fallback c else (let (r, c') = send command c in attempted again r c')

  -- `get`, `set` and `delete` have one shape. The recursion is on fuel; two calls always suffice.
  unfoldable pub with_fallback : {A : Type 0} → ℕ → Client R A → (R → Result A × R) → Client R A
  unfolding init_redis
  with_fallback zero fallback command = raise recursion_error
  with_fallback (suc fuel) fallback command =
      let again = with_fallback fuel fallback command in
      init_redis >> dispatch again fallback command

  unfoldable pub get : String → ℕ → Client R (Option String)
  get key now = with_fallback 2 (fallback_get key now) (redis.get key)

  unfoldable pub set : String → String → Option ℕ → ℕ → Client R (Unit {0})
  set key value ttl now =
      with_fallback 2 (fallback_set key value (expiry now ttl)) (redis.set key value ttl)

  unfoldable pub delete : String → Client R (Unit {0})
  delete key = with_fallback 2 (fallback_delete key) (redis.delete key)

  unfoldable pub close : Client R (Unit {0})
  close c = if c.connected then send redis.aclose c else (ok tt, c)

  module _ (codec : Codec) where
    unfoldable pub parse : Option String → Result (Option Obj)
    parse none = ok none
    parse (some val) =
        if is_truthy (some val)
        then elim (codec.loads val) [ none ↦ err value_error | some o ↦ ok (some o) ]
        else ok none

    unfoldable pub get_json : String → ℕ → Client R (Option Obj)
    get_json key now = do val ← get key now; lift (parse val)

    unfoldable pub set_json : String → Obj → Option ℕ → ℕ → Client R (Unit {0})
    set_json key value ttl now = set key (codec.dumps value) ttl now

    -- The client, as the services see it.
    unfoldable pub redis_cache : Cache (CacheClient R)
    unfolding get_json set_json delete
    redis_cache = record {
      get_json = get_json;
      set_json = set_json;
      delete = λ key now. delete key;
    }
