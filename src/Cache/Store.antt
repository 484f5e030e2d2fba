-- ===== src/Cache/Store.antt =====
-- The dict `_fallback_store` of src/core/cache.py: texts with an expiry, by key.
use async_pulse.Prelude.{
  String, ◌≡◌, refl, str_eq, eq_iff, eq_refl, Bool, true, false, Option, none, some, List, [], ◌∷◌,
  arith, if◌then◌else◌,
}
use async_pulse.Python.DateTime.{DateTime}

abbrev pub Entry : Type 0
Entry = String × Option DateTime

abbrev pub Store : Type 0
Store = List (String × Entry)

-- `store.get(key)`
unfoldable pub lookup : String → Store → Option Entry
lookup key [] = none
lookup key ((j, e) ∷ s) = if str_eq j key then some e else lookup key s

-- `store[key] = entry`
unfoldable pub put : String → Entry → Store → Store
put key e [] = (key, e) ∷ []
put key e ((j, d) ∷ s) = if str_eq j key then (key, e) ∷ s else (j, d) ∷ put key e s

-- `store.pop(key, None)`
unfoldable pub remove : String → Store → Store
remove key [] = []
remove key ((j, e) ∷ s) = let rest = remove key s in if str_eq j key then rest else (j, e) ∷ rest

pub lookup-put :
    (k j : String) (e : Entry) (s : Store)
    → lookup j (put k e s) ≡ (if str_eq k j then some e else lookup j s)
unfolding lookup put
lookup-put k j e [] = refl
lookup-put k j e ((i, d) ∷ s) =
    ground (arith, eq_iff k j, eq_iff i k, eq_iff i j, lookup-put k j e s)

pub lookup-remove :
    (k j : String) (s : Store) → lookup j (remove k s) ≡ (if str_eq k j then none else lookup j s)
unfolding lookup remove
lookup-remove k j [] = ground arith
lookup-remove k j ((i, d) ∷ s) =
    ground (arith, eq_iff k j, eq_iff i k, eq_iff i j, lookup-remove k j s)

pub ruleset store_laws = (lookup-put, lookup-remove, eq_refl)
