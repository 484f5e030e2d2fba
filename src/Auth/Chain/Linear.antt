-- ===== src/Auth/Chain/Linear.antt =====
-- The chains of sessions in every state that is reached.
use async_pulse.Prelude.{◌≡◌, true}
use async_pulse.Db.Tables.{Tables, satisfies_constraints}
use async_pulse.Db.World.{World}
use async_pulse.Env.{Env}
use async_pulse.Auth.Chain.{IsChained}
use async_pulse.Auth.Chain.Erasure.{nothing, Tx-erased}
use async_pulse.Auth.Chain.Reachable.{Reachable, Reachable-keeps}

-- The constraints hold, no session has two successors, and every session that has one is revoked.
abbrev pub IsLinear : Tables → Type 0
IsLinear t = (satisfies_constraints t ≡ true) × IsChained t.sessions

module _ {C : Type 0} (env : Env C) where
  -- Where in the committed tables the constraints hold, no session has two successors and every
  -- session that has one is revoked, all of that holds in every state that the requests to both routers,
  -- the changes of passwords and statuses, and the soft and hard deletions lead to, one after another,
  -- with any time and any use of the cache between them.
  pub chains_stay-IsLinear :
      (w w' : World C) → IsLinear w.committed → Reachable env true w w' → IsLinear w'.committed
  chains_stay-IsLinear w w' (h, c) r =
      let (h', (c', _)) =
        Reachable-keeps env true (λ user_id e. Tx-erased user_id) w w' (h, (c, tt)) r in
      (h', c')
