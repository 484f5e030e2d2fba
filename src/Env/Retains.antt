-- ===== src/Env/Retains.antt =====
-- The promise of a cache on what it answers: nothing, or a value that was put under the key. The gate
-- relies on it; it is what `CacheClient` of src/core/cache.py keeps while it does not fail over.
use async_pulse.Prelude.{ℕ, ◌<◌, String, ◌≡◌, ◌⊎◌, Option, none, some}
use async_pulse.Python.Result.{ok}
use async_pulse.Python.Obj.{Obj}
use async_pulse.Env.{Cache}

-- A time to live that Redis takes: missing, or positive.
abbrev pub IsLasting : Option ℕ → Type 0
IsLasting none = Unit
IsLasting (some n) = 0 < n

-- `Allowed key o` says which values may stand under a key, `Holds c` that no others do.
pub record Retains {C : Type 0} (cache : Cache C) (Allowed : String → Obj → Type 0)
    (Holds : C → Type 0) : Type 0 where
  pub get_json-Allowed :
      (key : String) (now : ℕ) (c : C)
      → Holds c
      → ((cache.get_json key now c).0 ≡ ok none)
        ⊎ ((o : Obj) × ((cache.get_json key now c).0 ≡ ok (some o)) × Allowed key o)
  pub get_json-Holds :
      (key : String) (now : ℕ) (c : C) → Holds c → Holds (cache.get_json key now c).1
  pub set_json-ok :
      (key : String) (value : Obj) (ttl : Option ℕ) (now : ℕ) (c : C)
      → IsLasting ttl
      → Holds c
      → Allowed key value
      → (cache.set_json key value ttl now c).0 ≡ ok tt
  pub set_json-Holds :
      (key : String) (value : Obj) (ttl : Option ℕ) (now : ℕ) (c : C)
      → IsLasting ttl
      → Holds c
      → Allowed key value
      → Holds (cache.set_json key value ttl now c).1

-- The promise on a deletion: a cache that holds nothing but what stands before holds nothing but
-- what may stand after, once the key is deleted.
pub record Drops {C : Type 0} (cache : Cache C) (key : String) (Before After : C → Type 0)
    : Type 0 where
  pub delete-After : (now : ℕ) (c : C) → Before c → After (cache.delete key now c).1
