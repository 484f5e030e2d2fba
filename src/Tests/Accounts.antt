-- ===== src/Tests/Accounts.antt =====
-- Suspending, deleting, registering and updating accounts.
use async_pulse.Prelude.{
  List, ◌≡◌, ◌≢◌, ◌↔◌, ◌⊎◌, refl, true, false, none, some, [], ◌∷◌, map, select, sort_by, insert_by,
  arith,
}
use async_pulse.Python.Result.{ok, err, is_ok, multiple_results_found}
use async_pulse.Python.DateTime.{aware}
use async_pulse.Db.Tables.{
  Tables, users_hold, user_fits, sessions_hold, session_holds, session_fits, satisfies_constraints,
}
use async_pulse.Db.World.{World, next_request}
use async_pulse.Db.Act.{basic_actions}
use async_pulse.Db.Act.Tx.{Post}
use async_pulse.Env.Cached.{delete}
use async_pulse.Users.Entities.{
  User, pending_verification, active, suspended, banned, user, transition_to, valid_transitions,
}
use async_pulse.Users.Entities.Lifecycle.{Edge, transition_to_iff}
use async_pulse.Users.Models.{UserModel}
use async_pulse.Users.Profile.{IsGuarded, privileged, update_user_keeps_privileges}
use mathlib.Core.List.{Perm}
use async_pulse.Users.Router
use async_pulse.Users.Router.{list_users}
use async_pulse.Users.Router.Secrecy.{with_hashes, answers_hide_hashes}
use async_pulse.Users.Listing.{IsNewestFirst, pages, pages-partition}
use async_pulse.Users.Repository.{is_live}
use async_pulse.Users.Registration.{
  new_row, with_user, create_user_registers, create_user_two_holders,
}
use async_pulse.Users.Repository.{to_entity, get_by_id, find_live, set_status, save}
use async_pulse.Users.Schemas.{UserCreate}
use async_pulse.Users.Service.{
  is_lockout, lock_out, get_user, change_status, delete_user, create_user, update_user,
}
use async_pulse.Auth.Gate.{get_current_user, access_claims}
use async_pulse.Auth.Lockout.{IsApplied, change_status_locks_out}
use async_pulse.Auth.Lockout.Deletion.{IsErased, delete_user_locks_out}
use async_pulse.Auth.Refused.Suspension.{suspension_takes_effect}
use async_pulse.Env.Forgets.{Forgets}
use async_pulse.Auth.Repository.{
  get_active_sessions_for_user, revoke_all_sessions, to_session_entity,
}
use async_pulse.Auth.Revoker.{purge, revoke_user_sessions, build_session_revoker}
use async_pulse.Tests.Sample.{env, account, access_payload, home, world, tables}

suspension : is_lockout suspended ≡ true
unfolding is_lockout
suspension = refl

change_status_locks_out_example :
    Post
      (λ _ c t. IsApplied "u1" suspended c)
      (λ c t. (c ≡ home.committed) ⊎ IsApplied "u1" suspended c)
      (change_status env (build_session_revoker env) "u1" suspended home)
change_status_locks_out_example = change_status_locks_out env "u1" suspended home suspension

delete_user_locks_out_example :
    Post
      (λ _ c t. IsErased "u1" c)
      (λ c t. (c ≡ home.committed) ⊎ IsErased "u1" c)
      (delete_user env (build_session_revoker env) "u1" home)
delete_user_locks_out_example = delete_user_locks_out env "u1" home

-- The state after Ann has been suspended, and Ann in it.
abbrev suspended_tables : Tables
suspended_tables = record {
  users = record (account suspended) { updated_at = aware 100_000_000 } ∷ [];
  sessions = (tables suspended (some (aware 100_000_002))).sessions;
}

abbrev suspended_world : World (Unit {0})
suspended_world = record home { committed = suspended_tables; tx = suspended_tables; reads = 6 }

abbrev suspended_ann : User
suspended_ann = record {
  id = "u1";
  email = "ann@example.org";
  username = "ann";
  name = some "Ann";
  hashed_password = "saltsecret";
  status = suspended;
  role = user;
  deleted_at = none;
  created_at = some (aware 0);
  updated_at = some (aware 100_000_000);
}

ann_is_suspended :
    change_status env (build_session_revoker env) "u1" suspended home
    ≡ (ok suspended_ann, suspended_world)
unfolding change_status build_session_revoker revoke_user_sessions purge revoke_all_sessions
    get_active_sessions_for_user to_session_entity get_user get_by_id find_live to_entity
    transition_to valid_transitions set_status save lock_out is_lockout delete satisfies_constraints
    users_hold user_fits sessions_hold session_holds session_fits sort_by insert_by basic_actions
ann_is_suspended = refl

pub env-Forgets : Forgets env.cache (λ c. Unit {0}) (λ key c. Unit {0})
env-Forgets = record {
  delete-IsUp = λ key now c up. tt;
  delete-Lacks = λ key now c up. tt;
  delete-keeps = λ key j now c up lacks. tt;
  get_json-Lacks = λ key now c up lacks. refl;
  get_json-IsUp = λ key now c up. tt;
  get_json-keeps = λ key j now c up lacks. tt;
  set_json-IsUp = λ key value ttl now c lasting up. tt;
  set_json-keeps = λ key j value ttl now c lasting other up lacks. tt;
}

pub ann_claims : access_claims access_payload ≡ ok ("u1", "s1")
unfolding access_claims
ann_claims = refl

suspension_takes_effect_example :
    is_ok (get_current_user env "access" (next_request suspended_world)).0 ≡ false
suspension_takes_effect_example =
    suspension_takes_effect env "u1" "access" "s1" suspended home suspended_world suspended_ann
      access_payload env-Forgets tt suspension ann_is_suspended refl ann_claims

transition_to_iff_example :
    (transition_to banned suspended_ann ≡ ok (record suspended_ann { status = banned })) ↔ (
      (record suspended_ann { status = banned } ≡ record suspended_ann { status = banned })
      × ((banned ≡ suspended) ⊎ Edge suspended banned))
transition_to_iff_example =
    transition_to_iff banned suspended_ann (record suspended_ann { status = banned })

abbrev banned_ann : User
banned_ann = record suspended_ann { status = banned }

is_verified : suspended_ann.status ≢ pending_verification
is_verified e = cc

update_user_keeps_privileges_example :
    let (r, w') =
      update_user env "u1" (record { email = some "new@example.org"; username = none }) home in
    IsGuarded (map privileged home.committed.users) home.committed.sessions w'.committed
    × IsGuarded (map privileged home.committed.users) home.committed.sessions w'.tx
update_user_keeps_privileges_example =
    update_user_keeps_privileges env "u1"
      (record { email = some "new@example.org"; username = none }) home refl

-- Registrations.
abbrev bob : UserCreate
bob = record { email = "bob@example.org"; name = "Bob"; username = "bob"; password = "secret" }

abbrev bob_row : UserModel
bob_row = new_row "fresh" bob "saltsecret" (aware 100_000_000) (aware 100_000_001)

bob_fits : satisfies_constraints (with_user bob_row home.tx) ≡ true
unfolding satisfies_constraints users_hold user_fits sessions_hold session_holds session_fits
bob_fits = refl

create_user_registers_example :
    let (r, w') = create_user env bob home in
    (r ≡ ok (to_entity bob_row))
    × (w'.committed ≡ with_user bob_row home.tx)
    × (w'.tx ≡ w'.committed)
create_user_registers_example = create_user_registers env bob home "saltsecret" refl refl bob_fits

abbrev pub ann_again : UserCreate
ann_again = record {
  email = "ann@example.org";
  name = "Ann";
  username = "other";
  password = "secret";
}

-- Ann's account has been soft-deleted.
abbrev pub deleted_ann : UserModel
deleted_ann = record (account active) { deleted_at = some (aware 1) }

abbrev pub after_deletion : World (Unit {0})
after_deletion = world 100_000_000 (record { users = deleted_ann ∷ []; sessions = [] })

-- The email is Ann's and the username Eve's.
abbrev eve_row : UserModel
eve_row = record (account active) { id = "u3"; email = "eve@example.org"; username = "other" }

abbrev crowded : World (Unit {0})
crowded = world 100_000_000 (record { users = account active ∷ eve_row ∷ []; sessions = [] })

create_user_two_holders_example :
    create_user env ann_again crowded ≡ (err multiple_results_found, crowded)
create_user_two_holders_example =
    create_user_two_holders env ann_again crowded (account active) eve_row [] refl

-- Three users on pages of two, the newest stored in between.
abbrev newest_row : UserModel
newest_row = record eve_row { id = "u4"; email = "zoe@example.org"; created_at = aware 9 }

abbrev three_users : World (Unit {0})
three_users = world 100_000_000 (record {
  users = account active ∷ newest_row ∷ record eve_row { created_at = aware 5 } ∷ [];
  sessions = [];
})

pages-partition_example :
    (rows : List UserModel) × (pages 2 three_users 2 ≡ map to_entity rows)
    × IsNewestFirst rows
    × Perm rows (select is_live three_users.tx.users)
pages-partition_example = pages-partition 2 three_users 2 (ground arith) (
  ((λ e. ground (arith, e)), ((λ e. ground (arith, e)), tt)),
  ((λ e. ground (arith, e), tt), (tt, tt)),
)

answers_hide_hashes_example :
    let v = record home { tx = with_hashes (λ m. "other") home.tx } in
    ((list_users (record { page = 1; page_size = 10 }) v).0
      ≡ (list_users (record { page = 1; page_size = 10 }) home).0)
    × ((Router.get_user "u1" v).0 ≡ (Router.get_user "u1" home).0)
answers_hide_hashes_example =
    answers_hide_hashes (λ m. "other") (record { page = 1; page_size = 10 }) "u1" home
