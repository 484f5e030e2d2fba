-- ===== src/Auth/Admission/Checks.antt =====
-- The checks of the gate, on a cache that holds nothing but what the tables show.
use async_pulse.Prelude.{ℕ, String, ◌≡◌, refl, ◌∙◌, ap, Option, none, some, List, [], ◌∷◌, arith}
use async_pulse.Python.Result.{Result, ok, err, or_raise as result_or_raise, ◌>>=◌ as ◌>>>=◌}
use async_pulse.Python.Action.{continue}
use async_pulse.Python.DateTime.{aware}
use async_pulse.Db.Rows.{scalar_one_or_none}
use async_pulse.Db.World.{World, skip, reading}
use async_pulse.Db.Act.{Act, basic_actions, lift, ◌>>=◌}
use async_pulse.Env.{Env}
use async_pulse.Env.Retains.{Retains}
use async_pulse.Users.Entities.{User}
use async_pulse.Users.Models.{UserModel}
use async_pulse.Users.Repository.{to_entity}
use async_pulse.Auth.Entities.{
  from_session, validation_is_active, validation_is_expired, validation_is_revoked,
}
use async_pulse.Auth.Models.{SessionModel}
use async_pulse.Auth.Repository.{to_session_entity}
use async_pulse.Auth.Service.Sessions.{invalid_token}
use async_pulse.Auth.Gate.{check_session, find_user, check_status}
use async_pulse.Auth.Admission.Stale.{remembered}
use async_pulse.Auth.Admission.Verdict.{IsShown, live_users, judged_row, judged_user}
use async_pulse.Auth.Admission.Coherent.{known, projected, account, find_user-Known}

known-check_status : (u : User) → known (check_status u) ≡ check_status (remembered u)
unfolding check_status
known-check_status u = ground arith

known->>= : (r : Result User) → known (r >>>= check_status) ≡ (known r >>>= check_status)
known->>= (ok u) = known-check_status u
known->>= (err e) = refl

account-judged :
    (rows : List UserModel)
    → (account rows >>>= check_status) ≡ (
        scalar_one_or_none rows >>>= λ o.
        result_or_raise (invalid_token "User profile not found") o >>>= λ m.
        check_status (remembered (to_entity m)))
account-judged [] = refl
account-judged (m ∷ []) = refl
account-judged (m ∷ n ∷ rows) = refl

module _ {C : Type 0} (env : Env C) (Holds : C → Type 0) where
  check_session-judged :
      (user_id : String) (m : SessionModel) (w : World C)
      → check_session env user_id (projected (some m)) w
        ≡ (judged_row (aware (reading w 0)) user_id (some m), record w { reads = skip 1 w.reads })
  unfolding check_session judged_row validation_is_active validation_is_expired
      validation_is_revoked from_session to_session_entity basic_actions
  check_session-judged user_id m w = ground arith

  abbrev pub identified : String → Act C User
  identified user_id = find_user env user_id >>= λ u. lift (check_status u)

  identified-judged :
      (user_id : String) (w : World C)
      → Retains env.cache (IsShown env.codec w.tx) Holds
      → Holds w.cache
      → let (r, w') = identified user_id w in
        (known r ≡ judged_user w.tx user_id)
        × Holds w'.cache
        × (w'.committed ≡ w.committed)
        × (w'.tx ≡ w.tx)
  unfolding judged_user ◌>>=◌
  identified-judged user_id w rets holds =
      let (k, c, held, r, runs, same) = find_user-Known env Holds w rets holds user_id in
      rw (runs) (finish r c k held same)
    where
      finish :
          (r : Result User) (c : C) (k : ℕ)
          → Holds c
          → known r ≡ account (live_users user_id w.tx)
          → let (r', w') =
              continue r
                (record w { cache = c; reads = skip k w.reads })
                (λ u. lift (check_status u)) in
            (known r' ≡ judged_user w.tx user_id)
            × Holds w'.cache
            × (w'.committed ≡ w.committed)
            × (w'.tx ≡ w.tx)
      finish (ok u) c k held same = (
        known-check_status u
            ∙ ap (λ r. r >>>= check_status) same
            ∙ account-judged (live_users user_id w.tx),
        held,
        refl,
        refl,
      )
      finish (err e) c k held same = (
        ap (λ r. r >>>= check_status) same ∙ account-judged (live_users user_id w.tx),
        held,
        refl,
        refl,
      )

  -- What follows the lookup of the session.
  abbrev checked : String → Option SessionModel → Act C User
  checked user_id o = check_session env user_id (projected o) >>= λ _. identified user_id

  pub checked-Agrees :
      (user_id : String) (o : Option SessionModel) (w : World C)
      → Retains env.cache (IsShown env.codec w.tx) Holds
      → Holds w.cache
      → let (r, w') = checked user_id o w in
        (known r ≡ (judged_row (aware (reading w 0)) user_id o >>>= λ _. judged_user w.tx user_id))
        × Holds w'.cache
        × (w'.committed ≡ w.committed)
        × (w'.tx ≡ w.tx)
  unfolding check_session judged_row basic_actions
  checked-Agrees user_id none w rets holds = (refl, holds, refl, refl)
  checked-Agrees user_id (some m) w rets holds =
      rw (check_session-judged user_id m w)
        (finish (judged_row (aware (reading w 0)) user_id (some m)))
    where
      finish :
          (j : Result (Unit {0}))
          → let (r, w') =
              continue j (record w { reads = skip 1 w.reads }) (λ _. identified user_id) in
            (known r ≡ (j >>>= λ _. judged_user w.tx user_id))
            × Holds w'.cache
            × (w'.committed ≡ w.committed)
            × (w'.tx ≡ w.tx)
      finish (ok _) = identified-judged user_id (record w { reads = skip 1 w.reads }) rets holds
      finish (err e) = (refl, holds, refl, refl)
