-- ===== src/Tests/Chains.antt =====
-- A session that is refreshed, the new one after a logout, and the user erased; and a session that is
-- refreshed twice at once.
use async_pulse.Prelude.{◌≡◌, refl, inl, true, false, none, some, All}
use async_pulse.Python.Result.{is_ok}
use async_pulse.Python.DateTime.{aware}
use async_pulse.Db.Tables.{
  satisfies_constraints, users_hold, user_fits, sessions_hold, session_holds, session_fits, has,
  distinct, session_ids,
}
use async_pulse.Db.World.{World}
use async_pulse.Db.Act.{in_session}
use async_pulse.Auth.Chain.Reachable.{refresh, logout, handled, request, erasure, start, next}
use async_pulse.Auth.Chain.{links}
use async_pulse.Auth.Repository.{to_session_entity}
use async_pulse.Auth.Rotation.{rotated, successor}
use async_pulse.Auth.Rotation.Race.{won-commits, parallel_rotations_fork}
use async_pulse.Auth.Service.Refresh.{rotate}
use async_pulse.Auth.Chain.Erasure.{erased}
use async_pulse.Auth.Chain.Linear.{IsLinear, chains_stay-IsLinear}
use async_pulse.Auth.Chain.History.{Lasts, sessions_are_history}
use async_pulse.Tests.Sample.{env, home, home_holds, session, world}

home-IsLinear : IsLinear home.committed
unfolding satisfies_constraints users_hold user_fits sessions_hold session_holds session_fits
home-IsLinear = (refl, (refl, (inl refl, tt)))

abbrev refreshed : World (Unit {0})
refreshed = (in_session (handled env (refresh none (some "refresh") none)) home).1

abbrev logged_out : World (Unit {0})
logged_out = (in_session (handled env (logout "access")) refreshed).1

abbrev emptied : World (Unit {0})
emptied = (in_session (erased "u1") logged_out).1

chains_stay-IsLinear_example : IsLinear emptied.committed
chains_stay-IsLinear_example = chains_stay-IsLinear env home emptied home-IsLinear (
    next logged_out emptied
      (next refreshed logged_out
        (next home refreshed start (request (refresh none (some "refresh") none)))
        (request (logout "access")))
      (erasure "u1" refl))

sessions_are_history_example : All (Lasts logged_out.committed.sessions) home.committed.sessions
sessions_are_history_example = sessions_are_history env home logged_out home-IsLinear (
    next refreshed logged_out
      (next home refreshed start (request (refresh none (some "refresh") none)))
      (request (logout "access")))

-- A second request that has read the session before the first one rotated it.
abbrev winner : World (Unit {0})
winner = (rotate env "s1" "u1" none (to_session_entity (session none)) home).1

abbrev second : World (Unit {0})
second = record (world 200_000_000 winner.committed) { uuid = λ n. "other" }

second_unused : has (session_ids second.tx) (second.uuid second.drawn) ≡ false
second_unused =
    rw (won-commits env "s1" "u1" none (session none) home refl refl home_holds refl refl refl) refl

parallel_rotations_fork_example :
    let (r, v') = rotate env "s1" "u1" none (to_session_entity (session none)) second in
    (is_ok r ≡ true)
    × (v'.committed
        ≡ rotated
            (session none)
            (aware 200_000_000)
            (successor (session none) "other" "u1" none (aware 200_000_005))
            (rotated
              (session none)
              (aware 100_000_000)
              (successor (session none) "fresh" "u1" none (aware 100_000_005))
              home.tx))
    × (distinct (links v'.committed.sessions) ≡ false)
parallel_rotations_fork_example =
    parallel_rotations_fork env "s1" "u1" none (session none) home refl refl home_holds refl refl
      refl none second refl refl second_unused
