-- ===== src/Cache/Keeps.antt =====
-- src/core/cache.py: reads and writes under other keys bring back nothing that was deleted.
use async_pulse.Prelude.{
  ℕ, String, eq_iff, ◌≡◌, ◌≢◌, refl, sym, subst, true, ◌⊎◌, inl, inr, Option, none, arith,
}
use async_pulse.Python.Result.{Result, ok, err}
use async_pulse.Python.Action.{◌>>=◌, continue, lift}
use async_pulse.Python.Codec.{Codec}
use async_pulse.Env.Retains.{IsLasting}
use async_pulse.Env.Forgets.{Forgets}
use async_pulse.Cache.Store.{lookup, remove, lookup-remove, lookup-put}
use async_pulse.Cache.Client.{
  Redis, CacheClient, uses_fallback, expiry, fallback_get, fallback_set, get, set, parse, get_json,
  set_json, redis_cache,
}
use async_pulse.Cache.Failover.{is_ready, on_fallback}
use async_pulse.Cache.Deletion.{
  Answers, IsUp, Lacks, on_server, delete-IsUp, delete-Lacks, delete-keeps, get-Lacks,
}

module _ {R : Type 0} (redis : Redis R) (Up : R → Type 0) (Misses : String → R → Type 0)
    (answers : Answers redis Up Misses) where
  abbrev Ready : CacheClient R → Type 0
  Ready = IsUp redis Up Misses answers

  abbrev Without : String → CacheClient R → Type 0
  Without = Lacks redis Up Misses answers

  -- A read on the fallback drops an entry that has expired, or changes nothing.
  fallback_get-state :
      (key : String) (now : ℕ) (c : CacheClient R)
      → ((fallback_get key now c).1 ≡ c)
        ⊎ ((fallback_get key now c).1 ≡ record c { fallback_store = remove key c.fallback_store })
  unfolding fallback_get
  fallback_get-state key now c = ground arith

  fallback_get-Ready :
      (key : String) (now : ℕ) (c : CacheClient R)
      → is_ready c ≡ true
      → uses_fallback c ≡ true
      → Ready (fallback_get key now c).1
  fallback_get-Ready key now c h k = elim (fallback_get-state key now c) [
    | inl e ↦ subst Ready (sym e) (h, inl k)
    | inr e ↦ subst Ready (sym e) (h, inl k)
  ]

  fallback_get-Without :
      (key j : String) (now : ℕ) (c : CacheClient R)
      → uses_fallback c ≡ true
      → lookup j c.fallback_store ≡ none
      → Without j (fallback_get key now c).1
  fallback_get-Without key j now c k lacks = elim (fallback_get-state key now c) [
    | inl e ↦ subst (Without j) (sym e) (inl (k, lacks))
    | inr e ↦
        subst (Without j) (sym e)
          (inl (k, ground (arith, lookup-remove key j c.fallback_store, lacks)))
  ]

  get-Ready : (key : String) (now : ℕ) (c : CacheClient R) → Ready c → Ready (get redis key now c).1
  unfolding get
  get-Ready key now c (h, inl k) =
      rw (on_fallback redis 1 (fallback_get key now) (redis.get key) c h k)
        (fallback_get-Ready key now c h k)
  get-Ready key now c (h, inr (k, up)) =
      let (v, e) = answers.get-ok key c.server up in
      rw (on_server redis 1 (fallback_get key now) (redis.get key) c v h k e)
        (h, inr (k, answers.get-IsUp key c.server up))

  get-Without :
      (key j : String) (now : ℕ) (c : CacheClient R)
      → Ready c
      → Without j c
      → Without j (get redis key now c).1
  unfolding get
  get-Without key j now c (h, inl k) (inl (_, lacks)) =
      rw (on_fallback redis 1 (fallback_get key now) (redis.get key) c h k)
        (fallback_get-Without key j now c k lacks)
  get-Without key j now c (h, inl k) (inr (k', _)) = cc
  get-Without key j now c (h, inr (k, up)) (inl (k', _)) = cc
  get-Without key j now c (h, inr (k, up)) (inr (_, lacks)) =
      let (v, e) = answers.get-ok key c.server up in
      rw (on_server redis 1 (fallback_get key now) (redis.get key) c v h k e)
        (inr (k, answers.get-keeps key j c.server up lacks))

  set-Ready :
      (key v : String) (ttl : Option ℕ) (now : ℕ) (c : CacheClient R)
      → IsLasting ttl
      → Ready c
      → Ready (set redis key v ttl now c).1
  unfolding set fallback_set
  set-Ready key v ttl now c lasting (h, inl k) =
      rw (on_fallback redis 1 (fallback_set key v (expiry now ttl)) (redis.set key v ttl) c h k)
        (h, inl k)
  set-Ready key v ttl now c lasting (h, inr (k, up)) =
      rw
        (on_server redis 1 (fallback_set key v (expiry now ttl)) (redis.set key v ttl) c tt h k
          (answers.set-ok key v ttl c.server lasting up))
        (h, inr (k, answers.set-IsUp key v ttl c.server lasting up))

  set-Without :
      (key j v : String) (ttl : Option ℕ) (now : ℕ) (c : CacheClient R)
      → IsLasting ttl
      → key ≢ j
      → Ready c
      → Without j c
      → Without j (set redis key v ttl now c).1
  unfolding set fallback_set
  set-Without key j v ttl now c lasting other (h, inl k) (inl (_, lacks)) =
      rw (on_fallback redis 1 (fallback_set key v (expiry now ttl)) (redis.set key v ttl) c h k) (
        inl (
          k,
          ground (
            arith,
            lookup-put key j (v, expiry now ttl) c.fallback_store,
            eq_iff key j,
            other,
            lacks,
          ),
        ))
  set-Without key j v ttl now c lasting other (h, inl k) (inr (k', _)) = cc
  set-Without key j v ttl now c lasting other (h, inr (k, up)) (inl (k', _)) = cc
  set-Without key j v ttl now c lasting other (h, inr (k, up)) (inr (_, lacks)) =
      rw
        (on_server redis 1 (fallback_set key v (expiry now ttl)) (redis.set key v ttl) c tt h k
          (answers.set-ok key v ttl c.server lasting up))
        (inr (k, answers.set-keeps key j v ttl c.server lasting other up lacks))

  parsed-state :
      (codec : Codec) (r : Result (Option String)) (c : CacheClient R)
      → (continue r c (λ v. lift (parse redis codec v))).1 ≡ c
  unfolding lift
  parsed-state codec (ok v) c = refl
  parsed-state codec (err e) c = refl

  -- The client keeps the promise while it is ready and either on its fallback or on a server that is up.
  pub redis_cache-Forgets : (codec : Codec) → Forgets (redis_cache redis codec) Ready Without
  unfolding redis_cache get_json set_json parse lift ◌>>=◌
  redis_cache-Forgets codec = record {
    delete-IsUp = λ key now c. delete-IsUp redis Up Misses answers key c;
    delete-Lacks = λ key now c. delete-Lacks redis Up Misses answers key c;
    delete-keeps = λ key j now c. delete-keeps redis Up Misses answers key j c;
    get_json-Lacks =
        λ key now c up lacks. rw (get-Lacks redis Up Misses answers key now c up lacks) refl;
    get_json-IsUp = λ key now c up.
        rw (parsed-state codec (get redis key now c).0 (get redis key now c).1)
          (get-Ready key now c up);
    get_json-keeps = λ key j now c up lacks.
        rw (parsed-state codec (get redis key now c).0 (get redis key now c).1)
          (get-Without key j now c up lacks);
    set_json-IsUp =
        λ key value ttl now c lasting up. set-Ready key (codec.dumps value) ttl now c lasting up;
    set_json-keeps = λ key j value ttl now c lasting other up lacks.
        set-Without key j (codec.dumps value) ttl now c lasting other up lacks;
  }
