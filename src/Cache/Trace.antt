-- ===== src/Cache/Trace.antt =====
-- Any sequence of `get`, `set` and `delete` of src/core/cache.py on the fallback, against a map whose
-- entries expire.
use async_pulse.Prelude.{
  ℕ, ◌≤◌, String, str_eq, ◌≡◌, refl, ◌∙◌, ap, true, Option, none, List, [], ◌∷◌, arith,
  if◌then◌else◌,
}
use async_pulse.Python.Result.{ok}
use async_pulse.Python.Action.{pure, ◌>>=◌}
use async_pulse.Cache.Client.{Redis, CacheClient, Client, uses_fallback, get, set, delete}
use async_pulse.Cache.Failover.{is_ready}
use async_pulse.Cache.Fallback.{shown, lives, get-refines, set-refines, delete-refines}

pub data Command : Type 0 where
  get_command : (key : String) → Command
  set_command : (key value : String) (ttl : Option ℕ) → Command
  delete_command : (key : String) → Command

-- Commands with the times at which the clock is read, in order.
abbrev pub Trace : Type 0
Trace = List (ℕ × Command)

abbrev pub IsOrdered : ℕ → Trace → Type 0
IsOrdered start [] = Unit
IsOrdered start ((at, k) ∷ rest) = start ≤ at × IsOrdered at rest

-- The specification: what is shown under each key at each time.
abbrev pub Map : Type 0
Map = String → ℕ → Option String

abbrev pub answer : Command → ℕ → Map → Option String
answer (get_command key) at m = m key at
answer (set_command key value ttl) at m = none
answer (delete_command key) at m = none

abbrev pub after : Command → ℕ → Map → Map
after (get_command key) at m = m
after (set_command key value ttl) at m =
    λ j now. if str_eq key j then lives at ttl now value else m j now
after (delete_command key) at m = λ j now. if str_eq key j then none else m j now

abbrev pub answers : Trace → Map → List (Option String)
answers [] m = []
answers ((at, k) ∷ rest) m = answer k at m ∷ answers rest (after k at m)

module _ {R : Type 0} (redis : Redis R) where
  abbrev pub execute : Command → ℕ → Client R (Option String)
  execute (get_command key) at = get redis key at
  execute (set_command key value ttl) at = set redis key value ttl at >>= λ _. pure none
  execute (delete_command key) at = delete redis key >>= λ _. pure none

  unfoldable pub run : Trace → Client R (List (Option String))
  run [] = pure []
  run ((at, k) ∷ rest) = execute k at >>= λ a. run rest >>= λ as_. pure (a ∷ as_)

  -- The client is initialised and on its fallback, and shows the map from a time on.
  abbrev Shows : CacheClient R → Map → ℕ → Type 0
  Shows c m start =
      (is_ready c ≡ true)
      × (uses_fallback c ≡ true)
      × ((j : String) (later : ℕ) → start ≤ later → shown j later c.fallback_store ≡ m j later)

  abbrev nothing : Option String
  nothing = none

  returning :
      (m : Client R (Unit {0})) (c : CacheClient R)
      → (m c).0 ≡ ok tt
      → (m >>= λ _. pure nothing) c ≡ (ok nothing, (m c).1)
  unfolding ◌>>=◌
  returning m c h = rw (h) refl

  execute-refines :
      (k : Command) (start at : ℕ) (c : CacheClient R) (m : Map)
      → start ≤ at
      → Shows c m start
      → let (r, c') = execute k at c in (r ≡ ok (answer k at m)) × Shows c' (after k at m) at
  unfolding ◌>>=◌
  execute-refines (get_command key) start at c m h (ready, offline, same) = (
    (get-refines redis c ready offline key key at at (ground arith)).0 ∙ ap ok (same key at h),
    (
      (get-refines redis c ready offline key key at at (ground arith)).2,
      (get-refines redis c ready offline key key at at (ground arith)).3,
      λ j later h'.
          (get-refines redis c ready offline key j at later h').1
          ∙ same j later (ground (arith, h, h')),
    ),
  )
  execute-refines (set_command key value ttl) start at c m h (ready, offline, same) =
      rw
        (returning (set redis key value ttl at) c
          (set-refines redis c ready offline key value key ttl at at).0)
        (
          refl,
          (
            (set-refines redis c ready offline key value key ttl at at).2,
            (set-refines redis c ready offline key value key ttl at at).3,
            λ j later h'.
                (set-refines redis c ready offline key value j ttl at later).1
                ∙ ap (λ o. if str_eq key j then lives at ttl later value else o)
                    (same j later (ground (arith, h, h'))),
          ),
        )
  execute-refines (delete_command key) start at c m h (ready, offline, same) =
      rw (returning (delete redis key) c (delete-refines redis c ready offline key key at).0) (
        refl,
        (
          (delete-refines redis c ready offline key key at).2,
          (delete-refines redis c ready offline key key at).3,
          λ j later h'.
              (delete-refines redis c ready offline key j later).1
              ∙ ap (λ o. if str_eq key j then none else o) (same j later (ground (arith, h, h'))),
        ),
      )

  run-refines :
      (trace : Trace) (start : ℕ) (c : CacheClient R) (m : Map)
      → Shows c m start
      → IsOrdered start trace
      → (run trace c).0 ≡ ok (answers trace m)
  unfolding run ◌>>=◌
  run-refines [] start c m shows times = refl
  run-refines ((at, k) ∷ rest) start c m shows (h, times) =
      let (answered, shows') = execute-refines k start at c m h shows in
      rw (answered, run-refines rest at (execute k at c).1 (after k at m) shows' times) refl

  -- On a client that is initialised and on its fallback, any sequence of `get`, `set` and `delete`, at
  -- times that do not go back, is answered as by the map that shows what the client shows at its start.
  pub trace-refines :
      (trace : Trace) (start : ℕ) (c : CacheClient R)
      → is_ready c ≡ true
      → uses_fallback c ≡ true
      → IsOrdered start trace
      → (run trace c).0 ≡ ok (answers trace (λ j now. shown j now c.fallback_store))
  trace-refines trace start c ready offline times =
      run-refines trace start c _ (ready, offline, λ j later h. refl) times
