-- ===== src/Auth/Renewal.antt =====
-- `AuthService.refresh_token` on a token whose session is not revoked.
pub mod Admits
pub mod Atomic
use async_pulse.Prelude.{
  suc, ◌≤◌, ◌<◌, String, ◌≡◌, refl, true, false, ◌&&◌, Option, none, some, List, [], ◌∷◌, map,
  select, arith,
}
use async_pulse.Python.Result.{ok, err}
use async_pulse.Python.DateTime.{aware, micros}
use async_pulse.Db.Tables.{has, fits, session_ids, satisfies_constraints}
use async_pulse.Db.World.{World, skip, reading}
use async_pulse.Db.Act.{basic_actions}
use async_pulse.Env.{Env, Payload}
use async_pulse.Shared.Security.{decode_token}
use async_pulse.Users.Models.{UserModel}
use async_pulse.Users.Repository.{has_user_id, is_live, to_entity, find_live, get_by_id}
use async_pulse.Users.Service.{get_user_by_id}
use async_pulse.Auth.Entities.{is_expired}
use async_pulse.Auth.Models.{SessionModel}
use async_pulse.Auth.Presents.{Presents}
use async_pulse.Auth.Repository.{to_session_entity, get_session_by_id}
use async_pulse.Auth.Schemas.{token_pair}
use async_pulse.Auth.Service.Sessions.{invalid_token}
use async_pulse.Auth.Service.Refresh.{may_refresh, rotate, renew, refresh_token}
use async_pulse.Auth.Rotation.{rotated, successor, rotated-satisfies}

known_user :
    (user_id : String) (us : List UserModel) (u : UserModel)
    → select (λ x. has_user_id user_id x && is_live x) us ≡ u ∷ []
    → has (map (λ x. x.id) us) user_id ≡ true
known_user user_id [] u h = cc
known_user user_id (x ∷ us) u h = ground (arith, known_user user_id us u)

module _ {C : Type 0} (env : Env C) (token : String) (ip : Option String) {p : Payload}
    {session_id user_id : String} {m : SessionModel} (w : World C)
    (presents : Presents env token p session_id user_id m w) (unrevoked : m.revoked_at ≡ none) where
  refresh_token-renews :
      refresh_token env (record { refresh_token = token }) ip w
      ≡ renew env session_id user_id ip (to_session_entity m) (record w { reads = suc w.reads })
  unfolding refresh_token decode_token get_session_by_id to_session_entity basic_actions
  refresh_token-renews = ground (arith, presents.decodes, presents.claims, presents.stored)

  -- A token that is read and names a stored session that is not revoked, but has passed its expiry, is
  -- refused, and nothing is written.
  pub refresh_token_expired :
      micros m.expires_at < reading w 1
      → let (r, w') = refresh_token env (record { refresh_token = token }) ip w in
        (r ≡ err (invalid_token "Refresh token has expired"))
        × (w'.committed ≡ w.committed)
        × (w'.tx ≡ w.tx)
  unfolding renew is_expired to_session_entity basic_actions
  refresh_token_expired late = rw refresh_token-renews (ground arith)

  module _ (u : UserModel) (current : reading w 1 ≤ micros m.expires_at)
      (account : select (λ x. has_user_id user_id x && is_live x) w.tx.users ≡ u ∷ []) where
    -- A token that is read and names a stored session that is neither revoked nor expired, of an
    -- account that may not refresh, as one that is suspended or banned, is refused, and nothing is
    -- written.
    pub refresh_token_blocked :
        may_refresh (some (to_entity u)) ≡ false
        → let (r, w') = refresh_token env (record { refresh_token = token }) ip w in
          (r ≡ err (invalid_token "User account is inactive or blocked"))
          × (w'.committed ≡ w.committed)
          × (w'.tx ≡ w.tx)
    unfolding renew is_expired to_session_entity get_user_by_id get_by_id find_live basic_actions
    refresh_token_blocked blocked = rw refresh_token-renews (ground (arith, account))

    renew-rotates :
        may_refresh (some (to_entity u)) ≡ true
        → renew env session_id user_id ip (to_session_entity m) (record w { reads = suc w.reads })
          ≡ rotate env session_id user_id ip
              (to_session_entity m)
              (record w { reads = skip 2 w.reads })
    unfolding renew is_expired to_session_entity get_user_by_id get_by_id find_live basic_actions
    renew-rotates may = ground (arith, account)

    pub refresh_token-rotates :
        may_refresh (some (to_entity u)) ≡ true
        → refresh_token env (record { refresh_token = token }) ip w
          ≡ rotate env session_id user_id ip
              (to_session_entity m)
              (record w { reads = skip 2 w.reads })
    refresh_token-rotates may = rw (refresh_token-renews, renew-rotates may) refl

    -- The row's new owner is known, so the rows with the successor meet the constraints.
    pub refresh_token-accepted :
        satisfies_constraints w.tx ≡ true
        → has (session_ids w.tx) (w.uuid w.drawn) ≡ false
        → fits 45 ip ≡ true
        → satisfies_constraints (
            rotated m
              (aware (reading w 2))
              (successor m (w.uuid w.drawn) user_id ip (aware (reading w 7)))
              w.tx)
          ≡ true
    refresh_token-accepted holds fresh short =
        rotated-satisfies env session_id user_id ip m m.revoked_at
          (record w { reads = skip 2 w.reads }) presents.stored unrevoked holds fresh
          (known_user user_id w.tx.users u account) short _ _
