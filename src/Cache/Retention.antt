-- ===== src/Cache/Retention.antt =====
-- src/core/cache.py: what is found was put there, on a Redis that is up and on the fallback.
use async_pulse.Prelude.{
  ◌≢◌, ℕ, String, str_eq, eq_iff, ◌≡◌, refl, subst, Bool, true, false, ◌⊎◌, inl, inr, Option, none,
  some, arith, if◌then◌else◌,
}
use async_pulse.Python.Result.{Result, ok}
use async_pulse.Python.DateTime.{DateTime}
use async_pulse.Python.Action.{◌>>=◌, continue, lift}
use async_pulse.Python.Codec.{Codec}
use async_pulse.Python.Obj.{Obj}
use async_pulse.Env.Retains.{IsLasting, Retains, Drops}
use async_pulse.Cache.Store.{Entry, Store, lookup, put, remove, lookup-put, lookup-remove}
use async_pulse.Cache.Client.{
  Redis, CacheClient, uses_fallback, is_past, expiry, fallback_get, fallback_set, fallback_delete,
  delete, get, set, parse, get_json, set_json, redis_cache,
}
use async_pulse.Cache.Failover.{is_ready, on_fallback}
use async_pulse.Cache.Deletion.{on_server}

-- A server that is up answers `GET` with nothing or with a text that was put under the key.
pub record RetainsTexts {R : Type 0} (redis : Redis R) (Fits : String → String → Type 0)
    (Up : R → Type 0) : Type 0 where
  pub get-Fits :
      (key : String) (s : R)
      → Up s
      → ((redis.get key s).0 ≡ ok none)
        ⊎ ((v : String) × ((redis.get key s).0 ≡ ok (some v)) × Fits key v)
  pub get-IsUp : (key : String) (s : R) → Up s → Up (redis.get key s).1
  pub set-ok :
      (key v : String) (ttl : Option ℕ) (s : R)
      → IsLasting ttl
      → Up s
      → Fits key v
      → (redis.set key v ttl s).0 ≡ ok tt
  pub set-IsUp :
      (key v : String) (ttl : Option ℕ) (s : R)
      → IsLasting ttl
      → Up s
      → Fits key v
      → Up (redis.set key v ttl s).1

module _ (Fits : String → String → Type 0) where
  abbrev pub StoreFits : Store → Type 0
  StoreFits s = (key v : String) (d : Option DateTime) → lookup key s ≡ some (v, d) → Fits key v

  remove-StoreFits : (key : String) (s : Store) → StoreFits s → StoreFits (remove key s)
  remove-StoreFits key s fits j v d e = fits j v d (ground (arith, lookup-remove key j s, e))

  pub put-StoreFits :
      (key value : String) (expires : Option DateTime) (s : Store)
      → Fits key value
      → StoreFits s
      → StoreFits (put key (value, expires) s)
  put-StoreFits key value expires s new fits j v d e = here (str_eq key j) refl
    where
      here : (b : Bool) → str_eq key j ≡ b → Fits j v
      here true h =
          let same : key ≡ j = (eq_iff key j).0 h in
          let is : value ≡ v = ground (arith, lookup-put key j (value, expires) s, h, e) in
          subst (λ x. Fits j x) is (subst (λ x. Fits x value) same new)
      here false h = fits j v d (ground (arith, lookup-put key j (value, expires) s, h, e))

module _ {R : Type 0} (redis : Redis R) (codec : Codec) (Allowed : String → Obj → Type 0) where
  -- A text that reads as a value that is allowed under the key.
  abbrev pub Reads : String → String → Type 0
  Reads key v = (o : Obj) × (parse redis codec (some v) ≡ ok (some o)) × Allowed key o

  module _ (Up : R → Type 0) (server : RetainsTexts redis Reads Up)
      (dumped : (key : String) (o : Obj)
        → Allowed key o
        → parse redis codec (some (codec.dumps o)) ≡ ok (some o)) where
    abbrev pub IsHolding : CacheClient R → Type 0
    IsHolding c =
        (is_ready c ≡ true)
        × (((uses_fallback c ≡ true) × StoreFits Reads c.fallback_store)
            ⊎ ((uses_fallback c ≡ false) × Up c.server))

    -- What a read ends with: nothing, or a text that reads as a value that is allowed under the key.
    abbrev Got : String → Result (Option String) × CacheClient R → Type 0
    Got key (r, c) =
        ((r ≡ ok none) ⊎ ((v : String) × (r ≡ ok (some v)) × Reads key v)) × IsHolding c

    fallback_get-Got :
        (key : String) (now : ℕ) (c : CacheClient R)
        → is_ready c ≡ true
        → uses_fallback c ≡ true
        → StoreFits Reads c.fallback_store
        → Got key (fallback_get key now c)
    unfolding fallback_get
    fallback_get-Got key now c h k fits = cases (lookup key c.fallback_store) refl
      where
        cases :
            (o : Option Entry) → lookup key c.fallback_store ≡ o → Got key (fallback_get key now c)
        cases none e = rw (fallback_get, e) (inl refl, (h, inl (k, fits)))
        cases (some (v, d)) e = rw (fallback_get, e) (here (is_past now d))
          where
            here :
                (b : Bool)
                → Got key (
                    if b
                    then (ok none, record c { fallback_store = remove key c.fallback_store })
                    else (ok (some v), c))
            here true = (inl refl, (h, inl (k, remove-StoreFits Reads key c.fallback_store fits)))
            here false = (inr (v, refl, fits key v d e), (h, inl (k, fits)))

    get-Got :
        (key : String) (now : ℕ) (c : CacheClient R) → IsHolding c → Got key (get redis key now c)
    unfolding get
    get-Got key now c (h, inl (k, fits)) =
        rw (on_fallback redis 1 (fallback_get key now) (redis.get key) c h k)
          (fallback_get-Got key now c h k fits)
    get-Got key now c (h, inr (k, up)) = elim (server.get-Fits key c.server up) [
      | inl e ↦
          rw (on_server redis 1 (fallback_get key now) (redis.get key) c none h k e)
            (inl refl, (h, inr (k, server.get-IsUp key c.server up)))
      | inr (v, e, reads) ↦
          rw (on_server redis 1 (fallback_get key now) (redis.get key) c (some v) h k e)
            (inr (v, refl, reads), (h, inr (k, server.get-IsUp key c.server up)))
    ]

    set-IsHolding :
        (key v : String) (ttl : Option ℕ) (now : ℕ) (c : CacheClient R)
        → IsLasting ttl
        → IsHolding c
        → Reads key v
        → let (r, c') = set redis key v ttl now c in (r ≡ ok tt) × IsHolding c'
    unfolding set fallback_set
    set-IsHolding key v ttl now c lasting (h, inl (k, fits)) reads =
        rw (on_fallback redis 1 (fallback_set key v (expiry now ttl)) (redis.set key v ttl) c h k) (
          refl,
          (h, inl (k, put-StoreFits Reads key v (expiry now ttl) c.fallback_store reads fits)),
        )
    set-IsHolding key v ttl now c lasting (h, inr (k, up)) reads =
        rw
          (on_server redis 1 (fallback_set key v (expiry now ttl)) (redis.set key v ttl) c tt h k
            (server.set-ok key v ttl c.server lasting up reads))
          (refl, (h, inr (k, server.set-IsUp key v ttl c.server lasting up reads)))

    get_json-Got :
        (key : String) (r : Result (Option String)) (c : CacheClient R)
        → Got key (r, c)
        → let (r', c') = continue r c (λ v. lift (parse redis codec v)) in
          ((r' ≡ ok none) ⊎ ((o : Obj) × (r' ≡ ok (some o)) × Allowed key o)) × IsHolding c'
    unfolding lift parse
    get_json-Got key r c (inl e, holds) = rw (e) (inl refl, holds)
    get_json-Got key r c (inr (v, e, (o, is, allowed)), holds) =
        rw (e) (inr (o, is, allowed), holds)

    -- The client keeps the promise that the gate relies on, to answer nothing or a value that was put under
    -- the key, while it is ready and either on its fallback or on a server that is up and keeps it for
    -- texts, for times to live that are missing or positive; for a json that reads back the values that are put.
    pub redis_cache-Retains : Retains (redis_cache redis codec) Allowed IsHolding
    unfolding redis_cache get_json set_json lift ◌>>=◌
    redis_cache-Retains = record {
      get_json-Allowed = λ key now c holds. (get_json-Got key _ _ (get-Got key now c holds)).0;
      get_json-Holds = λ key now c holds. (get_json-Got key _ _ (get-Got key now c holds)).1;
      set_json-ok = λ key value ttl now c lasting holds allowed.
          (set-IsHolding key (codec.dumps value) ttl now c lasting holds
            (value, dumped key value allowed, allowed)).0;
      set_json-Holds = λ key value ttl now c lasting holds allowed.
          (set-IsHolding key (codec.dumps value) ttl now c lasting holds
            (value, dumped key value allowed, allowed)).1;
    }

-- Two bounds on what is found, before and after the deletion of a key, which a server keeps to.
module _ {R : Type 0} (redis : Redis R) (codec : Codec) (key : String)
    (Before After : String → Obj → Type 0) (UpBefore UpAfter : R → Type 0)
    (before : RetainsTexts redis (Reads redis codec Before) UpBefore)
    (after : RetainsTexts redis (Reads redis codec After) UpAfter)
    (dumped_before : (k : String) (o : Obj)
      → Before k o
      → parse redis codec (some (codec.dumps o)) ≡ ok (some o))
    (dumped_after : (k : String) (o : Obj)
      → After k o
      → parse redis codec (some (codec.dumps o)) ≡ ok (some o)) where
  abbrev IsHoldingBefore : CacheClient R → Type 0
  IsHoldingBefore = IsHolding redis codec Before UpBefore before dumped_before

  abbrev IsHoldingAfter : CacheClient R → Type 0
  IsHoldingAfter = IsHolding redis codec After UpAfter after dumped_after

  -- The client keeps the promise on deletions that a refresh relies on, where what may be found under any
  -- other key may still be found, and the server deletes as documented.
  pub redis_cache-Drops :
      ((k : String) (o : Obj) → k ≢ key → Before k o → After k o)
      → ((s : R) → UpBefore s → ((redis.delete key s).0 ≡ ok tt) × UpAfter (redis.delete key s).1)
      → Drops (redis_cache redis codec) key IsHoldingBefore IsHoldingAfter
  unfolding redis_cache delete fallback_delete
  redis_cache-Drops others deletes = record { delete-After = λ now c holds. dropped c holds }
    where
      left :
          (s : Store)
          → StoreFits (Reads redis codec Before) s
          → StoreFits (Reads redis codec After) (remove key s)
      left s fits j v d e = here (str_eq key j) refl
        where
          here : (b : Bool) → str_eq key j ≡ b → Reads redis codec After j v
          here true is = absurd (gone (ground (arith, lookup-remove key j s, is, e)))
            where
              gone : (◌≡◌ {A = Option Entry} none (some (v, d))) → ⊥
              gone h = cc
          here false is =
              let (o, reads, allowed) = fits j v d (ground (arith, lookup-remove key j s, is, e)) in
              (o, reads, others j o (λ same. ground (arith, is, same, eq_iff key j)) allowed)

      dropped : (c : CacheClient R) → IsHoldingBefore c → IsHoldingAfter (delete redis key c).1
      dropped c (h, inl (k, fits)) =
          rw (on_fallback redis 1 (fallback_delete key) (redis.delete key) c h k)
            (h, inl (k, left c.fallback_store fits))
      dropped c (h, inr (k, up)) =
          rw
            (on_server redis 1 (fallback_delete key) (redis.delete key) c tt h k
              (deletes c.server up).0)
            (h, inr (k, (deletes c.server up).1))
