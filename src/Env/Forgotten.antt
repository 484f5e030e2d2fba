-- ===== src/Env/Forgotten.antt =====
-- The cache's methods as actions, on a cache that keeps its promise on deletions.
use async_pulse.Prelude.{ℕ, String, ◌≢◌, Option}
use async_pulse.Python.Result.{Result, ok, err}
use async_pulse.Python.Obj.{Obj}
use async_pulse.Db.Tables.{Tables}
use async_pulse.Db.World.{World}
use async_pulse.Db.Act.Yields.{Reached, Yields}
use async_pulse.Env.{Cache}
use async_pulse.Env.Cached.{on_cache, get_json, set_json, delete}
use async_pulse.Env.Retains.{IsLasting}
use async_pulse.Env.Forgets.{Forgets}

module _ {C A : Type 0} (I : World C → Type 0) where
  reached : (r : Result A) (w : World C) → I w → Reached (λ _. I) (r, w)
  reached (ok a) w h = h
  reached (err e) w h = tt

-- Tests on the cache and on the tables that the transaction sees.
abbrev pub On : {C : Type 0} → (C → Type 0) → (Tables → Type 0) → World C → Type 0
On P R w = P w.cache × R w.tx

module _ {C : Type 0} (cache : Cache C) {IsUp : C → Type 0} {Lacks : String → C → Type 0}
    (forgets : Forgets cache IsUp Lacks) (R : Tables → Type 0) where
  pub Yields-delete-IsUp : (key : String) → Yields (On IsUp R) (delete cache key) (λ _. On IsUp R)
  unfolding delete on_cache
  Yields-delete-IsUp key = record {
    at = λ w h. reached (On IsUp R) _ _ (forgets.delete-IsUp key _ w.cache h.0, h.1);
  }

  pub Yields-delete :
      (key : String) → Yields (On IsUp R) (delete cache key) (λ _. On (λ c. IsUp c × Lacks key c) R)
  unfolding delete on_cache
  Yields-delete key = record {
    at = λ w h.
        reached (On (λ c. IsUp c × Lacks key c) R) _ _
          ((forgets.delete-IsUp key _ w.cache h.0, forgets.delete-Lacks key _ w.cache h.0), h.1);
  }

  module _ (j : String) where
    abbrev Without : World C → Type 0
    Without = On (λ c. IsUp c × Lacks j c) R

    pub Yields-get_json : (key : String) → Yields Without (get_json cache key) (λ _. Without)
    unfolding get_json on_cache
    Yields-get_json key = record {
      at = λ w ((up, lacks), r). reached Without _ _ (
        (forgets.get_json-IsUp key _ w.cache up, forgets.get_json-keeps key j _ w.cache up lacks),
        r,
      );
    }

    pub Yields-set_json :
        (key : String) (value : Obj) (ttl : Option ℕ)
        → IsLasting ttl
        → key ≢ j
        → Yields Without (set_json cache key value ttl) (λ _. Without)
    unfolding set_json on_cache
    Yields-set_json key value ttl lasting other = record {
      at = λ w ((up, lacks), r). reached Without _ _ (
        (
          forgets.set_json-IsUp key value ttl _ w.cache lasting up,
          forgets.set_json-keeps key j value ttl _ w.cache lasting other up lacks,
        ),
        r,
      );
    }
