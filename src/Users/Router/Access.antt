-- ===== src/Users/Router/Access.antt =====
-- Who may update and delete accounts.
use async_pulse.Prelude.{String, ◌≡◌, ◌≢◌, ◌∙◌, refl, sym, ap, arith, eq_iff}
use async_pulse.Python.Result.{ok, err, app}
use async_pulse.Db.World.{World}
use async_pulse.Db.Act.{in_session, basic_actions}
use async_pulse.Db.Act.Tx.Weaken.{Post-both}
use async_pulse.Env.{Env}
use async_pulse.Users.Entities.{User, superuser, role_hierarchy, role_value}
use async_pulse.Users.Exceptions.{insufficient_permissions_error}
use async_pulse.Users.Schemas.{UserUpdate}
use async_pulse.Users.Router.{update_user, patch_route, delete_route}
use async_pulse.Auth.Gate.{get_current_user, require_role}
use async_pulse.Auth.Gate.Keeps.{Tx-get_current_user}

-- The state in which a request starts.
abbrev pub request : {C : Type 0} → World C → World C
request w = record w { tx = w.committed }

module _ {C : Type 0} (env : Env C) where
  gate_keeps :
      (token : String) (w : World C) → (get_current_user env token w).1.committed ≡ w.committed
  gate_keeps token w =
      Post-both (λ c t. c ≡ w.committed) _ _ ((Tx-get_current_user env token).at w refl)

  module _ (token user_id : String) (w w' : World C) (current : User)
      (passed : get_current_user env token (request w) ≡ (ok current, w')) where
    unchanged : w'.committed ≡ w.committed
    unchanged = ap (λ o. o.1.committed) (sym passed) ∙ gate_keeps token (request w)

    -- Somebody who passes the gate, but is neither the owner of the profile nor a superuser, is told
    -- that the permission is missing, and the database is as before.
    pub patch_needs_ownership :
        (payload : UserUpdate)
        → current.id ≢ user_id
        → current.role ≢ superuser
        → let (r, w₂) = patch_route env token user_id payload w in
          (r ≡ err (app (insufficient_permissions_error "Cannot update other users' profile")))
          × (w₂.committed ≡ w.committed)
    unfolding patch_route update_user in_session basic_actions
    patch_needs_ownership payload other plain =
        ground (arith, passed, unchanged, eq_iff current.id user_id, other, plain)

    -- Somebody who passes the gate, but is no superuser, deletes no account: the permission is missing,
    -- and the database is as before.
    pub delete_needs_superuser :
        current.role ≢ superuser
        → let (r, w₂) = delete_route env token user_id w in
          (r
            ≡ err (
                app
                  (insufficient_permissions_error "Requires at least superuser role permissions")))
          × (w₂.committed ≡ w.committed)
    unfolding delete_route require_role role_hierarchy role_value in_session basic_actions
    delete_needs_superuser plain = ground (arith, passed, unchanged, plain)
