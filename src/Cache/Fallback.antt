-- ===== src/Cache/Fallback.antt =====
-- src/core/cache.py: the dict of the fallback as a map whose entries expire.
use async_pulse.Prelude.{
  ℕ, zero, suc, ◌+◌, ◌*◌, leb, ◌≤◌, String, str_eq, eq_iff, ◌≡◌, ◌∙◌, refl, true, Option, none,
  some, arith, if◌then◌else◌,
}
use async_pulse.Python.Result.{ok}
use async_pulse.Python.DateTime.{DateTime}
use async_pulse.Cache.Store.{Entry, Store, lookup, remove, lookup-put, lookup-remove}
use async_pulse.Cache.Client.{
  Redis, CacheClient, uses_fallback, is_past, expiry, fallback_get, fallback_set, fallback_delete,
  get, set, delete,
}
use async_pulse.Cache.Failover.{is_ready, on_fallback}

-- What the map shows under a key at a time.
abbrev pub alive : ℕ → Option Entry → Option String
alive now none = none
alive now (some (val, expires)) = if is_past now expires then none else some val

abbrev pub shown : String → ℕ → Store → Option String
shown key now s = alive now (lookup key s)

-- The specification of a time to live, in microseconds: a key that is set for a positive number of
-- seconds is shown up to the last of them, and one that is set without stays for good.
abbrev pub lives : ℕ → Option ℕ → ℕ → String → Option String
lives at none now value = some value
lives at (some zero) now value = some value
lives at (some (suc n)) now value = if leb now (at + suc n * 1_000_000) then some value else none

lives-expiry :
    (at : ℕ) (ttl : Option ℕ) (now : ℕ) (value : String)
    → alive now (some (value, expiry at ttl)) ≡ lives at ttl now value
unfolding expiry
lives-expiry at none now value = refl
lives-expiry at (some zero) now value = refl
lives-expiry at (some (suc n)) now value = ground arith

past-stays :
    (now later : ℕ) (d : Option DateTime)
    → now ≤ later
    → is_past now d ≡ true
    → is_past later d ≡ true
past-stays now later none h p = cc
past-stays now later (some d) h p = ground arith

module _ {R : Type 0} (key j : String) (now later : ℕ) (h : now ≤ later) (c : CacheClient R) where
  shown-remove :
      (v : String) (d : Option DateTime)
      → lookup key c.fallback_store ≡ some (v, d)
      → is_past now d ≡ true
      → shown j later (remove key c.fallback_store) ≡ shown j later c.fallback_store
  shown-remove v d e p =
      ground (arith, lookup-remove key j c.fallback_store, eq_iff key j, past-stays now later d h p)

  fallback_get-shown :
      let (r, c') = fallback_get key now c in
      (r ≡ ok (shown key now c.fallback_store))
      × (shown j later c'.fallback_store ≡ shown j later c.fallback_store)
      × (is_ready c' ≡ is_ready c)
      × (uses_fallback c' ≡ uses_fallback c)
  unfolding fallback_get
  fallback_get-shown = cases (lookup key c.fallback_store) refl
    where
      cases :
          (o : Option Entry)
          → lookup key c.fallback_store ≡ o
          → let (r, c') = fallback_get key now c in
            (r ≡ ok (shown key now c.fallback_store))
            × (shown j later c'.fallback_store ≡ shown j later c.fallback_store)
            × (is_ready c' ≡ is_ready c)
            × (uses_fallback c' ≡ uses_fallback c)
      cases none e = ground (arith, e)
      cases (some (v, d)) e = ground (arith, e, shown-remove v d e)

module _ {R : Type 0} (redis : Redis R) (c : CacheClient R) (ready : is_ready c ≡ true)
    (offline : uses_fallback c ≡ true) where
  -- A client that is initialised and on its fallback answers `get` with what the map shows, stays on
  -- it, and changes nothing that the map shows under any key from then on.
  pub get-refines :
      (key j : String) (now later : ℕ)
      → now ≤ later
      → let (r, c') = get redis key now c in
        (r ≡ ok (shown key now c.fallback_store))
        × (shown j later c'.fallback_store ≡ shown j later c.fallback_store)
        × (is_ready c' ≡ true)
        × (uses_fallback c' ≡ true)
  unfolding get
  get-refines key j now later h =
      rw (on_fallback redis 1 (fallback_get key now) (redis.get key) c ready offline) (
        let (r, m, i, u) = fallback_get-shown key j now later h c in (r, m, i ∙ ready, u ∙ offline))

  -- On a client that is initialised and on its fallback, `set` shows the value under its key until its
  -- time to live has passed, for good where that is 0 or missing, and leaves every other key alone.
  pub set-refines :
      (key value j : String) (ttl : Option ℕ) (at now : ℕ)
      → let (r, c') = set redis key value ttl at c in
        (r ≡ ok tt)
        × (shown j now c'.fallback_store
            ≡ (if str_eq key j then lives at ttl now value else shown j now c.fallback_store))
        × (is_ready c' ≡ true)
        × (uses_fallback c' ≡ true)
  unfolding set fallback_set
  set-refines key value j ttl at now =
      rw
        (on_fallback redis 1 (fallback_set key value (expiry at ttl)) (redis.set key value ttl) c
          ready offline)
        (
          refl,
          rw (lookup-put key j (value, expiry at ttl) c.fallback_store)
              (ground (arith, lives-expiry at ttl now value)),
          ready,
          offline,
        )

  -- On a client that is initialised and on its fallback, `delete` hides its key, and leaves every
  -- other key alone.
  pub delete-refines :
      (key j : String) (now : ℕ)
      → let (r, c') = delete redis key c in
        (r ≡ ok tt)
        × (shown j now c'.fallback_store
            ≡ (if str_eq key j then none else shown j now c.fallback_store))
        × (is_ready c' ≡ true)
        × (uses_fallback c' ≡ true)
  unfolding delete fallback_delete
  delete-refines key j now =
      rw (on_fallback redis 1 (fallback_delete key) (redis.delete key) c ready offline)
        (refl, rw (lookup-remove key j c.fallback_store) (ground arith), ready, offline)
