-- ===== src/Auth/Reuse.antt =====
-- `AuthService.refresh_token` on a token whose session is revoked: the grace window and the breach.
use async_pulse.Prelude.{
  ℕ, suc, ◌-◌, ◌≤◌, ◌<◌, String, ◌≡◌, refl, true, false, Option, some, arith, leb, if◌then◌else◌,
}
use async_pulse.Python.Result.{Result, ok, err}
use async_pulse.Python.DateTime.{DateTime, naive, aware, micros, as_utc}
use async_pulse.Python.Obj.{Obj, non_empty}
use async_pulse.Db.Tables.{satisfies_constraints}
use async_pulse.Db.World.{World}
use async_pulse.Db.Act.{basic_actions}
use async_pulse.Env.{Env, Payload}
use async_pulse.Env.Cached.{get_json}
use async_pulse.Auth.Signout.{revoked_for, logout_all-commits}
use async_pulse.Shared.Security.{decode_token}
use async_pulse.Auth.Models.{SessionModel}
use async_pulse.Auth.Repository.{to_session_entity, get_session_by_id}
use async_pulse.Auth.Schemas.{TokenPair}
use async_pulse.Auth.Presents.{Presents}
use async_pulse.Auth.Locked.{IsLockedOut}
use async_pulse.Auth.Service.Sessions.{grace_key, invalid_token}
use async_pulse.Auth.Service.Refresh.{cached_pair, replay, breach, reuse, refresh_token}

-- What a retry within the window is told, by what the cache says of the grace entry.
abbrev pub replayed : Result (Option Obj) → Result TokenPair
replayed (ok (some o)) =
    if non_empty (some o)
    then cached_pair o
    else err (invalid_token "Concurrent refresh — please retry")
replayed _ = err (invalid_token "Concurrent refresh — please retry")

in_window :
    (clock : ℕ → ℕ) (n : ℕ) (at : DateTime)
    → clock (suc n) - micros at ≤ 30_000_000
    → leb (clock (suc n) - micros (as_utc at)) 30_000_000 ≡ true
in_window clock n (naive t) h = ground arith
in_window clock n (aware t) h = ground arith

past_window :
    (clock : ℕ → ℕ) (n : ℕ) (at : DateTime)
    → 30_000_000 < clock (suc n) - micros at
    → leb (clock (suc n) - micros (as_utc at)) 30_000_000 ≡ false
past_window clock n (naive t) h = ground arith
past_window clock n (aware t) h = ground arith

module _ {C : Type 0} (env : Env C) where
  replay-answers :
      (session_id : String) (v : World C)
      → let (r, w') = replay env session_id v in
        (w'.committed ≡ v.committed)
        × (w'.tx ≡ v.tx)
        × (r ≡ replayed (env.cache.get_json (grace_key session_id) (v.clock v.reads) v.cache).0)
  unfolding replay get_json basic_actions
  replay-answers session_id v = ground arith

  breach-commits :
      (user_id : String) (v : World C)
      → satisfies_constraints v.tx ≡ true
      → let (r, w') = breach env user_id v in
        (r ≡ err (invalid_token "Token reuse detected. All sessions revoked."))
        × (w'.committed ≡ revoked_for user_id (aware (v.clock (suc v.reads))) v.tx)
        × IsLockedOut user_id w'.committed
  unfolding breach basic_actions
  breach-commits user_id v holds =
      let (r, c, x, locked) = logout_all-commits env user_id v holds in rw r (refl, c, locked)

  refresh_token-revoked :
      (token : String) (ip : Option String) {p : Payload} {session_id user_id : String}
      {m : SessionModel} (w : World C) (at : DateTime)
      → Presents env token p session_id user_id m w
      → m.revoked_at ≡ some at
      → refresh_token env (record { refresh_token = token }) ip w
        ≡ reuse env session_id user_id at (record w { reads = suc w.reads })
  unfolding refresh_token decode_token get_session_by_id to_session_entity basic_actions
  refresh_token-revoked token ip w at h r = ground (arith, h.decodes, h.claims, h.stored)

  -- A revoked token that is presented within the grace window, measured from the row's revocation
  -- time, changes nothing in the database whatever the cache does, so it revokes no session, and is
  -- answered by the pair of the session's grace entry, or by a plain 401 where the cache has none.
  pub refresh_token_in_grace :
      (token : String) (ip : Option String) {p : Payload} {session_id user_id : String}
      {m : SessionModel} (w : World C) (at : DateTime)
      → Presents env token p session_id user_id m w
      → m.revoked_at ≡ some at
      → w.clock (suc w.reads) - micros at ≤ 30_000_000
      → let (r, w') = refresh_token env (record { refresh_token = token }) ip w in
        (w'.committed ≡ w.committed)
        × (w'.tx ≡ w.tx)
        × (r
            ≡ replayed
                (env.cache.get_json (grace_key session_id) (w.clock (suc (suc w.reads))) w.cache).0)
  unfolding reuse basic_actions
  refresh_token_in_grace token ip {session_id} w at h r within =
      rw (refresh_token-revoked token ip w at h r) (
        rw (in_window w.clock w.reads at within)
          (replay-answers session_id (record w { reads = suc (suc w.reads) })))

  -- A revoked token that is presented after the grace window raises the breach error, and commits
  -- exactly the revocation of every session of the user that was not revoked, where the stored rows
  -- meet the constraints.
  pub refresh_token_after_grace :
      (token : String) (ip : Option String) {p : Payload} {session_id user_id : String}
      {m : SessionModel} (w : World C) (at : DateTime)
      → Presents env token p session_id user_id m w
      → m.revoked_at ≡ some at
      → 30_000_000 < w.clock (suc w.reads) - micros at
      → satisfies_constraints w.tx ≡ true
      → let (r, w') = refresh_token env (record { refresh_token = token }) ip w in
        (r ≡ err (invalid_token "Token reuse detected. All sessions revoked."))
        × (w'.committed ≡ revoked_for user_id (aware (w.clock (suc (suc (suc w.reads))))) w.tx)
        × IsLockedOut user_id w'.committed
  unfolding reuse basic_actions
  refresh_token_after_grace token ip {user_id} w at h r late holds =
      rw (refresh_token-revoked token ip w at h r) (
        rw (past_window w.clock w.reads at late)
          (breach-commits user_id (record w { reads = suc (suc w.reads) }) holds))
