-- ===== src/Cache/Deletion.antt =====
-- src/core/cache.py: what is deleted is not found, on a Redis that is up and on the fallback.
use async_pulse.Prelude.{
  ℕ, suc, String, eq_refl, ◌≡◌, ◌≢◌, refl, ap, true, false, ◌⊎◌, inl, inr, Option, none, arith,
}
use async_pulse.Python.Result.{Result, ok}
use async_pulse.Python.Action.{◌>>=◌}
use async_pulse.Env.Retains.{IsLasting}
use async_pulse.Cache.Store.{lookup, remove, lookup-remove}
use async_pulse.Cache.Client.{
  Redis, CacheClient, Client, uses_fallback, fallback_get, fallback_delete, init_redis,
  with_fallback, get, delete,
}
use async_pulse.Cache.Failover.{is_ready, on_fallback}

-- A server that is up answers: `DEL` removes the key and no other, `GET` does not find a key that is not
-- there, and `SET` adds no other key, for a time to live that is missing or positive.
pub record Answers {R : Type 0} (redis : Redis R) (Up : R → Type 0) (Misses : String → R → Type 0)
    : Type 0 where
  pub del-ok : (key : String) (s : R) → Up s → (redis.delete key s).0 ≡ ok tt
  pub del-IsUp : (key : String) (s : R) → Up s → Up (redis.delete key s).1
  pub del-Lacks : (key : String) (s : R) → Up s → Misses key (redis.delete key s).1
  pub del-keeps : (key j : String) (s : R) → Up s → Misses j s → Misses j (redis.delete key s).1
  pub get-ok : (key : String) (s : R) → Up s → (v : Option String) × ((redis.get key s).0 ≡ ok v)
  pub get-IsUp : (key : String) (s : R) → Up s → Up (redis.get key s).1
  pub get-keeps : (key j : String) (s : R) → Up s → Misses j s → Misses j (redis.get key s).1
  pub set-ok :
      (key v : String) (ttl : Option ℕ) (s : R)
      → IsLasting ttl
      → Up s
      → (redis.set key v ttl s).0 ≡ ok tt
  pub set-IsUp :
      (key v : String) (ttl : Option ℕ) (s : R)
      → IsLasting ttl
      → Up s
      → Up (redis.set key v ttl s).1
  pub set-keeps :
      (key j v : String) (ttl : Option ℕ) (s : R)
      → IsLasting ttl
      → key ≢ j
      → Up s
      → Misses j s
      → Misses j (redis.set key v ttl s).1
  pub get-none : (key : String) (s : R) → Up s → Misses key s → (redis.get key s).0 ≡ ok none

module _ {R : Type 0} (redis : Redis R) where
  -- A client that is ready and connected has the answer of the server.
  pub on_server :
      {A : Type 0} (n : ℕ) (f : Client R A) (command : R → Result A × R) (c : CacheClient R) (a : A)
      → is_ready c ≡ true
      → uses_fallback c ≡ false
      → (command c.server).0 ≡ ok a
      → with_fallback redis (suc n) f command c ≡ (ok a, record c { server = (command c.server).1 })
  unfolding with_fallback init_redis ◌>>=◌
  on_server n f command c a h k e = rw (h, k, e) refl

  module _ (Up : R → Type 0) (Misses : String → R → Type 0)
      (answers : Answers redis Up Misses) where
    abbrev pub IsUp : CacheClient R → Type 0
    IsUp c =
        (is_ready c ≡ true) × ((uses_fallback c ≡ true) ⊎ ((uses_fallback c ≡ false) × Up c.server))

    abbrev pub Lacks : String → CacheClient R → Type 0
    Lacks key c =
        ((uses_fallback c ≡ true) × (lookup key c.fallback_store ≡ none))
        ⊎ ((uses_fallback c ≡ false) × Misses key c.server)

    delete-offline :
        (key : String) (c : CacheClient R)
        → is_ready c ≡ true
        → uses_fallback c ≡ true
        → delete redis key c ≡ (ok tt, record c { fallback_store = remove key c.fallback_store })
    unfolding delete fallback_delete
    delete-offline key c = on_fallback redis 1 (fallback_delete key) (redis.delete key) c

    delete-online :
        (key : String) (c : CacheClient R)
        → is_ready c ≡ true
        → uses_fallback c ≡ false
        → Up c.server
        → delete redis key c ≡ (ok tt, record c { server = (redis.delete key c.server).1 })
    unfolding delete
    delete-online key c h k up =
        on_server 1 (fallback_delete key) (redis.delete key) c tt h k
          (answers.del-ok key c.server up)

    pub delete-IsUp : (key : String) (c : CacheClient R) → IsUp c → IsUp (delete redis key c).1
    delete-IsUp key c (h, inl k) = rw (delete-offline key c h k) (h, inl k)
    delete-IsUp key c (h, inr (k, up)) =
        rw (delete-online key c h k up) (h, inr (k, answers.del-IsUp key c.server up))

    pub delete-Lacks :
        (key : String) (c : CacheClient R) → IsUp c → Lacks key (delete redis key c).1
    delete-Lacks key c (h, inl k) =
        rw (delete-offline key c h k)
          (inl (k, ground (arith, lookup-remove key key c.fallback_store, eq_refl key)))
    delete-Lacks key c (h, inr (k, up)) =
        rw (delete-online key c h k up) (inr (k, answers.del-Lacks key c.server up))

    pub delete-keeps :
        (key j : String) (c : CacheClient R) → IsUp c → Lacks j c → Lacks j (delete redis key c).1
    delete-keeps key j c (h, inl k) (inl (_, lacks)) =
        rw (delete-offline key c h k)
          (inl (k, ground (arith, lookup-remove key j c.fallback_store, lacks)))
    delete-keeps key j c (h, inl k) (inr (k', _)) = cc
    delete-keeps key j c (h, inr (k, up)) (inl (k', _)) = cc
    delete-keeps key j c (h, inr (k, up)) (inr (_, lacks)) =
        rw (delete-online key c h k up) (inr (k, answers.del-keeps key j c.server up lacks))

    pub get-offline :
        (key : String) (now : ℕ) (c : CacheClient R)
        → is_ready c ≡ true
        → uses_fallback c ≡ true
        → get redis key now c ≡ fallback_get key now c
    unfolding get
    get-offline key now c = on_fallback redis 1 (fallback_get key now) (redis.get key) c

    get-online :
        (key : String) (now : ℕ) (c : CacheClient R)
        → is_ready c ≡ true
        → uses_fallback c ≡ false
        → (redis.get key c.server).0 ≡ ok none
        → (get redis key now c).0 ≡ ok none
    unfolding get
    get-online key now c h k e =
        ap (λ o. o.0) (on_server 1 (fallback_get key now) (redis.get key) c none h k e)

    pub get-Lacks :
        (key : String) (now : ℕ) (c : CacheClient R)
        → IsUp c
        → Lacks key c
        → (get redis key now c).0 ≡ ok none
    unfolding fallback_get
    get-Lacks key now c (h, inl k) (inl (_, lacks)) =
        rw (get-offline key now c h k, fallback_get, lacks) refl
    get-Lacks key now c (h, inl k) (inr (k', _)) = cc
    get-Lacks key now c (h, inr (k, up)) (inl (k', _)) = cc
    get-Lacks key now c (h, inr (k, up)) (inr (_, lacks)) =
        get-online key now c h k (answers.get-none key c.server up lacks)
