-- ===== src/Env/Cached.antt =====
-- The cache's methods as actions, which leave the database alone.
use async_pulse.Prelude.{ℕ, suc, String, Option}
use async_pulse.Python.Result.{Result, ok, err}
use async_pulse.Python.Obj.{Obj}
use async_pulse.Db.Tables.{Tables}
use async_pulse.Db.World.{World}
use async_pulse.Db.Act.{Act, suppress, suppress_or}
use async_pulse.Db.Act.Tx.{Rel, Post, Tx, Tx-suppress, Tx-suppress_or}
use async_pulse.Env.{Cache}

-- A call of the cache client changes the cache and takes time.
unfoldable pub on_cache : {C A : Type 0} → (ℕ → C → Result A × C) → Act C A
on_cache call w =
    let (r, c) = call (w.clock w.reads) w.cache in (r, record w { cache = c; reads = suc w.reads })

module _ {C : Type 0} (cache : Cache C) where
  unfoldable pub get_json : String → Act C (Option Obj)
  unfolding on_cache
  get_json key = on_cache (cache.get_json key)

  unfoldable pub set_json : String → Obj → Option ℕ → Act C (Unit {0})
  unfolding on_cache
  set_json key value ttl = on_cache (cache.set_json key value ttl)

  unfoldable pub delete : String → Act C (Unit {0})
  unfolding on_cache
  delete key = on_cache (cache.delete key)

on_cache-Post :
    {C A : Type 0} (Q : A → Rel) (E : Rel) (r : Result A) (w : World C)
    → ((a : A) → Q a w.committed w.tx)
    → E w.committed w.tx
    → Post Q E (r, w)
on_cache-Post Q E (ok a) w h k = h a
on_cache-Post Q E (err e) w h k = k

module _ {C A : Type 0} {P E : Rel} (call : ℕ → C → Result A × C) where
  pub Tx-on_cache : ((c t : Tables) → P c t → E c t) → Tx P (on_cache call) (λ _. P) E
  unfolding on_cache
  Tx-on_cache k = record {
    at = λ w p.
        let (r, c) = call (w.clock w.reads) w.cache in
        on_cache-Post (λ _. P) E r (record w { cache = c; reads = suc w.reads }) (λ a. p)
          (k w.committed w.tx p);
  }

module _ {C : Type 0} (cache : Cache C) {P E : Rel} where
  pub Tx-delete :
      (key : String) → ((c t : Tables) → P c t → E c t) → Tx P (delete cache key) (λ _. P) E
  unfolding delete
  Tx-delete key k = Tx-on_cache (cache.delete key) k

  pub Tx-set_json :
      (key : String) (value : Obj) (ttl : Option ℕ)
      → ((c t : Tables) → P c t → E c t)
      → Tx P (set_json cache key value ttl) (λ _. P) E
  unfolding set_json
  Tx-set_json key value ttl k = Tx-on_cache (cache.set_json key value ttl) k

  pub Tx-get_json :
      (key : String) → ((c t : Tables) → P c t → E c t) → Tx P (get_json cache key) (λ _. P) E
  unfolding get_json
  Tx-get_json key k = Tx-on_cache (cache.get_json key) k

-- Under `suppress` a call of the cache never raises.
module _ {C : Type 0} (cache : Cache C) {P E : Rel} where
  pub Tx-suppress_delete : (key : String) → Tx P (suppress (delete cache key)) (λ _. P) E
  Tx-suppress_delete key = Tx-suppress (delete cache key) (Tx-delete cache key (λ c t p. p))

  pub Tx-suppress_set_json :
      (key : String) (value : Obj) (ttl : Option ℕ)
      → Tx P (suppress (set_json cache key value ttl)) (λ _. P) E
  Tx-suppress_set_json key value ttl =
      Tx-suppress (set_json cache key value ttl) (Tx-set_json cache key value ttl (λ c t p. p))

  pub Tx-suppress_get_json :
      (key : String) → Tx P (suppress_or Option.none (get_json cache key)) (λ _. P) E
  Tx-suppress_get_json key =
      Tx-suppress_or Option.none (get_json cache key) (Tx-get_json cache key (λ c t p. p))
