-- ===== src/Auth/Admission/Equivalence.antt =====
-- The gate as a whole, on a cache that holds nothing but what the tables show.
use async_pulse.Prelude.{
  ℕ, zero, suc, ◌≤◌, String, ◌≡◌, refl, subst, ap, Option, none, some, select, All, arith,
}
use async_pulse.Python.Result.{
  Result, ok, err, jwt_error, or_raise as result_or_raise, ◌>>=◌ as ◌>>>=◌,
}
use async_pulse.Python.Action.{continue, replace_error}
use async_pulse.Python.DateTime.{DateTime, aware}
use async_pulse.Db.Rows.{scalar_one_or_none}
use async_pulse.Db.World.{World, skip, reading}
use async_pulse.Db.Act.{Act, basic_actions, lift, ◌>>=◌}
use async_pulse.Env.{Env, Payload}
use async_pulse.Env.Retains.{Retains}
use async_pulse.Shared.Security.{decode_token}
use async_pulse.Users.Entities.{User}
use async_pulse.Auth.Models.{SessionModel}
use async_pulse.Auth.Repository.{has_id}
use async_pulse.Auth.Service.Sessions.{invalid_token}
use async_pulse.Auth.Gate.{access_claims, find_session, check_session, get_current_user}
use async_pulse.Auth.Admission.Verdict.{IsShown, judged_row, judged_session, judged_user, judged}
use async_pulse.Auth.Admission.Coherent.{known, projected, RowReadsBack, find_session-Found}
use async_pulse.Auth.Admission.Checks.{identified, checked-Agrees}

skip-suc : (k n : ℕ) → skip k (suc n) ≡ suc (skip k n)
skip-suc zero n = refl
skip-suc (suc k) n = ap suc (skip-suc k n)

module _ {C : Type 0} (env : Env C) (Holds : C → Type 0) where
  -- An answer that is the verdict at some of the first readings of the clock, and leaves the tables alone.
  abbrev Agrees : World C → (DateTime → Result User) → Result User × World C → Type 0
  Agrees w verdict (r, w') =
      ((k : ℕ) × (k ≤ 3) × (known r ≡ verdict (aware (reading w k))))
      × Holds w'.cache
      × (w'.committed ≡ w.committed)
      × (w'.tx ≡ w.tx)

  abbrev looked_up : String → String → Act C User
  looked_up user_id session_id = find_session env session_id >>= λ s.
      check_session env user_id s >>= λ _. identified env Holds user_id

  looked_up-Agrees :
      (user_id session_id : String) (w : World C)
      → Retains env.cache (IsShown env.codec w.tx) Holds
      → Holds w.cache
      → All (RowReadsBack env) w.tx.sessions
      → let (r, w') = looked_up user_id session_id w in
        ((k : ℕ) × (k ≤ 2)
          × (known r ≡ (
              judged_session w.tx (aware (reading w k)) user_id session_id >>>= λ _.
              judged_user w.tx user_id)))
        × Holds w'.cache
        × (w'.committed ≡ w.committed)
        × (w'.tx ≡ w.tx)
  unfolding judged_session ◌>>=◌
  looked_up-Agrees user_id session_id w rets holds dates =
      let (k, c, held, few, runs) = find_session-Found env Holds w rets holds session_id dates in
      rw (runs)
        (finish (scalar_one_or_none (select (has_id session_id) w.tx.sessions)) k c held few)
    where
      finish :
          (s : Result (Option SessionModel)) (k : ℕ) (c : C)
          → Holds c
          → k ≤ 2
          → let (r, w') =
              continue
                (s >>>= λ o. ok (projected o))
                (record w { cache = c; reads = skip k w.reads })
                (λ v. check_session env user_id v >>= λ _. identified env Holds user_id) in
            ((k : ℕ) × (k ≤ 2)
              × (known r ≡ (
                  s >>>= (λ o. judged_row (aware (reading w k)) user_id o) >>>= λ _.
                  judged_user w.tx user_id)))
            × Holds w'.cache
            × (w'.committed ≡ w.committed)
            × (w'.tx ≡ w.tx)
      finish (ok o) k c held few =
          let (same, h, c_is, t_is) =
            checked-Agrees env Holds user_id o (record w { cache = c; reads = skip k w.reads }) rets
              held in
          ((k, few, same), h, c_is, t_is)
      finish (err e) k c held few = ((k, few, refl), held, refl, refl)

  -- On a cache that holds nothing but what the tables show, the gate answers as the tables do: for every
  -- text that is presented, its answer is the verdict on the tables at one of its first four readings of
  -- the clock, errors included, up to the fields that the cache does not keep. The cache then still holds
  -- nothing else, and the tables are left alone. The dates of the stored sessions read back.
  pub gate-Agrees :
      (token : String) (w : World C)
      → Retains env.cache (IsShown env.codec w.tx) Holds
      → Holds w.cache
      → All (RowReadsBack env) w.tx.sessions
      → let (r, w') = get_current_user env token w in
        ((k : ℕ) × (k ≤ 3)
          × (known r
              ≡ judged w.tx
                  (aware (reading w k))
                  (env.jwt.decode (reading w 0) token env.settings.secret_key)))
        × Holds w'.cache
        × (w'.committed ≡ w.committed)
        × (w'.tx ≡ w.tx)
  unfolding get_current_user decode_token judged basic_actions
  gate-Agrees token w rets holds dates =
      decoded (env.jwt.decode (reading w 0) token env.settings.secret_key)
    where
      w₁ : World C
      w₁ = record w { reads = skip 1 w.reads }

      claimed :
          (c : Result (String × String))
          → Agrees w
              (λ at. c >>>= λ (user_id, session_id).
                judged_session w.tx at user_id session_id >>>= λ _. judged_user w.tx user_id)
              (continue c w₁ (λ (user_id, session_id). looked_up user_id session_id))
      claimed (ok (user_id, session_id)) =
          let ((k, few, same), h, c_is, t_is) =
            looked_up-Agrees user_id session_id w₁ rets holds dates in
          (
            (
              suc k,
              omega (arith, few),
              subst
                  (λ n. known (looked_up user_id session_id w₁).0 ≡ (
                    judged_session w.tx (aware (w.clock n)) user_id session_id >>>= λ _.
                    judged_user w.tx user_id))
                  (skip-suc k w.reads) same,
            ),
            h,
            c_is,
            t_is,
          )
      claimed (err e) = ((0, omega arith, refl), holds, refl, refl)

      decoded :
          (p : Option Payload)
          → Agrees w
              (λ at. judged w.tx at p)
              (continue
                (replace_error
                  (invalid_token "Invalid or expired token")
                  (result_or_raise jwt_error p))
                w₁
                (λ p.
                  lift (access_claims p) >>= λ (user_id, session_id). looked_up user_id session_id))
      decoded none = ((0, omega arith, refl), holds, refl, refl)
      decoded (some p) = claimed (access_claims p)
