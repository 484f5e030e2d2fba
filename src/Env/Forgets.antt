-- ===== src/Env/Forgets.antt =====
-- The promise of a cache on deletions: a key that was deleted is not found, until it is put
-- again. The services that delete rely on it; it is what `CacheClient` of src/core/cache.py keeps while it does not fail over.
use async_pulse.Prelude.{ℕ, String, ◌≡◌, ◌≢◌, Option, none}
use async_pulse.Python.Result.{ok}
use async_pulse.Python.Obj.{Obj}
use async_pulse.Env.{Cache}
use async_pulse.Env.Retains.{IsLasting}

pub record Forgets {C : Type 0} (cache : Cache C) (IsUp : C → Type 0) (Lacks : String → C → Type 0)
    : Type 0 where
  pub delete-IsUp : (key : String) (now : ℕ) (c : C) → IsUp c → IsUp (cache.delete key now c).1
  pub delete-Lacks :
      (key : String) (now : ℕ) (c : C) → IsUp c → Lacks key (cache.delete key now c).1
  pub delete-keeps :
      (key j : String) (now : ℕ) (c : C) → IsUp c → Lacks j c → Lacks j (cache.delete key now c).1
  pub get_json-Lacks :
      (key : String) (now : ℕ) (c : C)
      → IsUp c
      → Lacks key c
      → (cache.get_json key now c).0 ≡ ok none
  pub get_json-IsUp : (key : String) (now : ℕ) (c : C) → IsUp c → IsUp (cache.get_json key now c).1
  pub get_json-keeps :
      (key j : String) (now : ℕ) (c : C) → IsUp c → Lacks j c → Lacks j (cache.get_json key now c).1
  pub set_json-IsUp :
      (key : String) (value : Obj) (ttl : Option ℕ) (now : ℕ) (c : C)
      → IsLasting ttl
      → IsUp c
      → IsUp (cache.set_json key value ttl now c).1
  pub set_json-keeps :
      (key j : String) (value : Obj) (ttl : Option ℕ) (now : ℕ) (c : C)
      → IsLasting ttl
      → key ≢ j
      → IsUp c
      → Lacks j c
      → Lacks j (cache.set_json key value ttl now c).1
