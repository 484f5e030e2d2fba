-- ===== src/Tests/Tokens.antt =====
-- Refresh tokens.
use async_pulse.Prelude.{String, eq_iff, ◌≡◌, ◌≢◌, refl, true, false, none, some, arith}
use async_pulse.Python.Result.{dbapi_error, ok, err}
use async_pulse.Python.DateTime.{aware}
use async_pulse.Db.Tables.{
  satisfies_constraints, users_hold, user_fits, sessions_hold, session_holds, session_fits,
}
use async_pulse.Db.World.{World}
use async_pulse.Auth.Presents.{Presents}
use async_pulse.Auth.Service.Sessions.{invalid_token, grace_key}
use async_pulse.Auth.Service.Refresh.{refresh_claims, refresh_token, may_refresh}
use async_pulse.Auth.Rotation.{rotated_pair, rotated, successor}
use async_pulse.Auth.Renewal.Atomic.{refresh_token_rotates}
use async_pulse.Auth.Reuse.{replayed, refresh_token_in_grace, refresh_token_after_grace}
use async_pulse.Auth.Signout.{revoked_for, logout_all-commits}
use async_pulse.Auth.Service.Logout.{logout_all}
use async_pulse.Env.{stamped}
use async_pulse.Shared.Security.{claims}
use async_pulse.Auth.Locked.{IsLockedOut}
use async_pulse.Users.Entities.{active, suspended}
use async_pulse.Users.Repository.{to_entity}
use async_pulse.Tests.Sample.{
  env, account, session, access_payload, refresh_payload, home, late, soon, replayed_late,
  home_holds, replayed_late_holds, world, tables,
}

home-Presents : Presents env "refresh" refresh_payload "s1" "u1" (session none) home
unfolding refresh_claims
home-Presents = record { decodes = refl; claims = refl; stored = refl }

late-Presents : Presents env "refresh" refresh_payload "s1" "u1" (session none) late
unfolding refresh_claims
late-Presents = record { decodes = refl; claims = refl; stored = refl }

soon-Presents :
    Presents env "refresh" refresh_payload "s1" "u1" (session (some (aware 90_000_000))) soon
unfolding refresh_claims
soon-Presents = record { decodes = refl; claims = refl; stored = refl }

replayed-Presents :
    Presents env "refresh" refresh_payload "s1" "u1"
      (session (some (aware 90_000_000)))
      replayed_late
unfolding refresh_claims
replayed-Presents = record { decodes = refl; claims = refl; stored = refl }

abbrev blocked_home : World (Unit {0})
blocked_home = world 100_000_000 (tables suspended none)

blocked-Presents : Presents env "refresh" refresh_payload "s1" "u1" (session none) blocked_home
unfolding refresh_claims
blocked-Presents = record { decodes = refl; claims = refl; stored = refl }

access_claimed : some access_payload ≡ some (stamped (claims "u1" 900_000_000 "access" (some "s1")))
unfolding claims
access_claimed = refl

pub s1_not_empty : ◌≢◌ {A = String} "s1" ""
s1_not_empty e = ground (arith, eq_iff "s1" "", e)

may_not : may_refresh (some (to_entity (account suspended))) ≡ false
unfolding may_refresh to_entity
may_not = refl

may_ann : may_refresh (some (to_entity (account active))) ≡ true
unfolding may_refresh to_entity
may_ann = refl

refresh_token_rotates_example :
    let v = record home { reads = 2 } in
    let (r, w') =
      refresh_token env (record { refresh_token = "refresh" }) (some "127.0.0.1") home in
    (r ≡ ok (rotated_pair env "u1" (session none) v))
    × (w'.committed
        ≡ rotated
            (session none)
            (aware 100_000_002)
            (successor (session none) "fresh" "u1" (some "127.0.0.1") (aware 100_000_007))
            home.tx)
unfolding satisfies_constraints users_hold user_fits sessions_hold session_holds session_fits
refresh_token_rotates_example =
    refresh_token_rotates env "refresh" (some "127.0.0.1") home home-Presents refl (account active)
      (ground arith) refl may_ann home_holds

-- An address that does not fit its column.
abbrev long_address : String
long_address = "0123456789012345678901234567890123456789012345"

too_long_is_refused :
    let (r, w') =
      refresh_token env (record { refresh_token = "refresh" }) (some long_address) home in
    (r ≡ err dbapi_error) × (w'.committed ≡ home.committed) × (w'.tx ≡ home.committed)
unfolding satisfies_constraints users_hold user_fits sessions_hold session_holds session_fits
too_long_is_refused =
    refresh_token_rotates env "refresh" (some long_address) home home-Presents refl (account active)
      (ground arith) refl may_ann home_holds

refresh_token_in_grace_example :
    let (r, w') = refresh_token env (record { refresh_token = "refresh" }) none soon in
    (w'.committed ≡ soon.committed)
    × (w'.tx ≡ soon.tx)
    × (r ≡ replayed (env.cache.get_json (grace_key "s1") 100_000_002 soon.cache).0)
refresh_token_in_grace_example =
    refresh_token_in_grace env "refresh" none soon (aware 90_000_000) soon-Presents refl
      (ground arith)

refresh_token_after_grace_example :
    let (r, w') = refresh_token env (record { refresh_token = "refresh" }) none replayed_late in
    (r ≡ err (invalid_token "Token reuse detected. All sessions revoked."))
    × (w'.committed ≡ revoked_for "u1" (aware 200_000_003) replayed_late.tx)
    × IsLockedOut "u1" w'.committed
refresh_token_after_grace_example =
    refresh_token_after_grace env "refresh" none replayed_late (aware 90_000_000) replayed-Presents
      refl (ground arith) replayed_late_holds

logout_all-commits_example :
    let (r, w') = logout_all env "u1" home in
    (r ≡ ok tt)
    × (w'.committed ≡ revoked_for "u1" (aware 100_000_001) home.tx)
    × (w'.tx ≡ w'.committed)
    × IsLockedOut "u1" w'.committed
logout_all-commits_example = logout_all-commits env "u1" home home_holds
