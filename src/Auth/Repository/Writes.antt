-- ===== src/Auth/Repository/Writes.antt =====
-- The writes of `AuthRepository` where the database accepts them, as equations.
use async_pulse.Prelude.{◌≡◌, refl, true, false, [], ◌∷◌, ◌++◌, select}
use async_pulse.Python.Result.{ok}
use async_pulse.Db.Tables.{
  satisfies_constraints, merge_row, has, session_ids, user_ids, session_holds,
}
use async_pulse.Db.Tables.Keys.{SameKeys, satisfies-merge_row, satisfies-add_session}
use async_pulse.Db.World.{World}
use async_pulse.Db.Act.{flushed, basic_actions}
use async_pulse.Auth.Models.{SessionModel}
use async_pulse.Auth.Entities.{UserSession}
use async_pulse.Auth.Repository.{
  to_session_entity, to_session_model, has_id, create_session, update_session,
}

pub to_session_entity-model : (s : UserSession) → to_session_entity (to_session_model s) ≡ s
unfolding to_session_entity to_session_model
to_session_entity-model s = refl

module _ {C : Type 0} where
  -- Storing an entity over the row of its key that it agrees with.
  pub update_session-writes :
      (s : UserSession) (x : SessionModel) (w : World C)
      → SameKeys (to_session_model s) x
      → satisfies_constraints w.tx ≡ true
      → select (has_id (to_session_model s).id) w.tx.sessions ≡ x ∷ []
      → update_session s w ≡ (
        ok s,
        record w { tx = record w.tx { sessions = merge_row (to_session_model s) w.tx.sessions } },
      )
  unfolding update_session basic_actions
  update_session-writes s x w same holds stored = rw (
    satisfies-merge_row (to_session_model s) x same w.tx stored,
    holds,
    flushed,
    to_session_entity-model s,
  )

  pub create_session-writes :
      (s : UserSession) (w : World C)
      → satisfies_constraints w.tx ≡ true
      → has (session_ids w.tx) (to_session_model s).id ≡ false
      → session_holds (user_ids w.tx) (session_ids w.tx) (to_session_model s) ≡ true
      → create_session s w ≡ (
        ok s,
        record w { tx = record w.tx { sessions = w.tx.sessions ++ to_session_model s ∷ [] } },
      )
  unfolding create_session basic_actions
  create_session-writes s w holds fresh row = rw (
    satisfies-add_session w.tx (to_session_model s) holds fresh row,
    flushed,
    to_session_entity-model s,
  )
