-- ===== src/Auth/Renewal/Atomic.antt =====
-- `AuthService.refresh_token` on a token whose session may be rotated: both rows or none.
use async_pulse.Prelude.{
  ◌≤◌, String, ◌≡◌, refl, Bool, true, false, ◌&&◌, Option, none, some, [], ◌∷◌, select,
}
use async_pulse.Python.Result.{Result, ok, err, dbapi_error}
use async_pulse.Python.DateTime.{aware, micros}
use async_pulse.Db.Tables.{Tables, satisfies_constraints}
use async_pulse.Db.World.{World, skip, reading}
use async_pulse.Env.{Env, Payload}
use async_pulse.Users.Models.{UserModel}
use async_pulse.Users.Repository.{has_user_id, is_live, to_entity}
use async_pulse.Auth.Models.{SessionModel}
use async_pulse.Auth.Presents.{Presents}
use async_pulse.Auth.Renewal.{refresh_token-rotates}
use async_pulse.Auth.Rotation.{rotated, successor, rotated_pair, rotate-accepted, rotate-refused}
use async_pulse.Auth.Repository.{to_session_entity}
use async_pulse.Auth.Schemas.{TokenPair}
use async_pulse.Auth.Service.Refresh.{may_refresh, rotate, refresh_token}

-- How a rotation ends, by whether the database takes the new row.
abbrev pub IsAllOrNothing :
    {C : Type 0} → Bool → TokenPair → Tables → World C → Result TokenPair × World C → Type 0
IsAllOrNothing true pair t w (r, w') = (r ≡ ok pair) × (w'.committed ≡ t)
IsAllOrNothing false pair t w (r, w') =
    (r ≡ err dbapi_error) × (w'.committed ≡ w.committed) × (w'.tx ≡ w.committed)

-- A token that is read and names a stored session that is neither revoked nor expired, of a live account
-- that may refresh, is rotated all at once or not at all, where the stored rows meet the constraints.
-- Where the rows still meet them with the old row given the revocation time and one row more, which
-- inherits the chain's expiry, the device and the user and names the old row, just that is committed, and
-- the pair that is returned is signed for the new session, its refresh token for no longer than the
-- chain has left. Where they do not, as when the drawn identifier is taken or the address is too long, the
-- call ends with the database's error, and neither change is committed.
pub refresh_token_rotates :
    {C : Type 0} (env : Env C) (token : String) (ip : Option String) {p : Payload}
    {session_id user_id : String} {m : SessionModel} (w : World C)
    → Presents env token p session_id user_id m w
    → m.revoked_at ≡ none
    → (u : UserModel) → reading w 1 ≤ micros m.expires_at
    → select (λ x. has_user_id user_id x && is_live x) w.tx.users ≡ u ∷ []
    → may_refresh (some (to_entity u)) ≡ true
    → satisfies_constraints w.tx ≡ true
    → let v = record w { reads = skip 2 w.reads } in
      let new = successor m (w.uuid w.drawn) user_id ip (aware (reading w 7)) in
      let t = rotated m (aware (reading w 2)) new w.tx in
      IsAllOrNothing
        (satisfies_constraints t)
        (rotated_pair env user_id m v)
        t
        w
        (refresh_token env (record { refresh_token = token }) ip w)
refresh_token_rotates {C = C} env token ip {session_id = session_id} {user_id = user_id} {m = m} w
      presents unrevoked u current account may holds =
    rw (refresh_token-rotates env token ip w presents unrevoked u current account may)
      (ends (satisfies_constraints t) refl)
  where
    v : World C
    v = record w { reads = skip 2 w.reads }

    t : Tables
    t =
        rotated m (aware (reading w 2))
          (successor m (w.uuid w.drawn) user_id ip (aware (reading w 7))) w.tx

    ends :
        (b : Bool)
        → satisfies_constraints t ≡ b
        → IsAllOrNothing b
            (rotated_pair env user_id m v)
            t
            w
            (rotate env session_id user_id ip (to_session_entity m) v)
    ends true e =
        rw
          (rotate-accepted env session_id user_id ip m m.revoked_at v presents.stored unrevoked
            holds e)
          (refl, refl)
    ends false e =
        rotate-refused env session_id user_id ip m m.revoked_at v presents.stored unrevoked holds e
