-- ===== src/Auth/Chain/Invariant.antt =====
-- What a property of the stored sessions has to withstand to be kept by every use case: the writes of
-- src/modules/auth/repository.py.
use async_pulse.Prelude.{◌≡◌, ◌≢◌, Bool, true, none, List, [], ◌∷◌, ◌++◌, update_where}
use async_pulse.Python.DateTime.{DateTime}
use async_pulse.Db.Tables.{Tables, merge_row, satisfies_constraints}
use async_pulse.Auth.Models.{SessionModel}
use async_pulse.Auth.Repository.{set_revoked}
use async_pulse.Auth.Rows.{IsStored}

-- An entity that is stored over a row to revoke it.
pub record Retires (m : SessionModel) (x : SessionModel) : Type 0 where
  pub id : m.id ≡ x.id
  pub previous : m.previous_session_id ≡ x.previous_session_id
  pub revoked : m.revoked_at ≢ none
  pub otherwise : m ≡ record x { revoked_at = m.revoked_at }

pub record SessionInvariant : Type 1 where
  pub Holds : List SessionModel → Type 0
  pub add :
      (t : Tables) (m : SessionModel)
      → satisfies_constraints t ≡ true
      → satisfies_constraints (record t { sessions = t.sessions ++ m ∷ [] }) ≡ true
      → Holds t.sessions
      → Holds (t.sessions ++ m ∷ [])
  pub overwrite :
      (m x : SessionModel) (ss : List SessionModel)
      → Retires m x
      → IsStored ss x
      → Holds ss
      → Holds (merge_row m ss)
  pub revoke :
      (p : SessionModel → Bool) (at : DateTime) (ss : List SessionModel)
      → Holds ss
      → Holds (update_where p (set_revoked at) ss)
