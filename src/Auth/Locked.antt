-- ===== src/Auth/Locked.antt =====
-- What it means that a user is locked out, and how `revoke_all_sessions` brings it about.
use async_pulse.Prelude.{
  String, ◌≡◌, ◌≢◌, ◌⊎◌, inr, false, none, List, eq_iff, arith, All, All-update_where, update_where,
}
use async_pulse.Python.DateTime.{DateTime}
use async_pulse.Db.Tables.{Tables}
use async_pulse.Db.Act.Tx.{Rel, Tx, Tx-bind, Tx-now, Tx-write, Tx-flush, Tx-query, Tx-pure}
use async_pulse.Auth.Models.{SessionModel}
use async_pulse.Auth.Repository.{
  is_unrevoked_row, set_revoked, get_active_sessions_for_user, revoke_all_sessions,
}

-- Every session of the user carries a revocation time.
abbrev pub IsLockedOut : String → Tables → Type 0
IsLockedOut user_id t = All (λ s. (s.user_id ≢ user_id) ⊎ (s.revoked_at ≢ none)) t.sessions

unrevoked-false :
    (user_id : String) (s : SessionModel)
    → is_unrevoked_row user_id s ≡ false
    → (s.user_id ≢ user_id) ⊎ (s.revoked_at ≢ none)
unrevoked-false user_id s h = ground (arith, eq_iff s.user_id user_id)

pub IsLockedOut-revoke :
    (user_id : String) (at : DateTime) (t : Tables)
    → IsLockedOut user_id (record t {
      sessions = update_where (is_unrevoked_row user_id) (set_revoked at) t.sessions;
    })
IsLockedOut-revoke user_id at t =
    All-update_where (λ s. (s.user_id ≢ user_id) ⊎ (s.revoked_at ≢ none)) (is_unrevoked_row user_id)
      (set_revoked at) (λ s h. inr (λ r. cc)) (unrevoked-false user_id) t.sessions

module _ {C : Type 0} {P E : Rel} where
  -- A read keeps what is known of the tables.
  pub Tx-get_active_sessions :
      (user_id : String) → Tx {C = C} P (get_active_sessions_for_user user_id) (λ _. P) E
  unfolding get_active_sessions_for_user
  Tx-get_active_sessions user_id =
      Tx-bind Tx-now λ at. Tx-bind (Tx-query _) λ models. Tx-pure _ (λ c t h. h.0)

  -- `R` is what of the tables does not depend on the sessions' revocation times.
  pub Tx-revoke_all_sessions :
      {R : Rel} (user_id : String)
      → ((c t : Tables) (rows : List SessionModel) → P c t → R c (record t { sessions = rows }))
      → ((c t : Tables) → R c t → E c c)
      → Tx {C = C} P (revoke_all_sessions user_id) (λ _ c t. R c t × IsLockedOut user_id t) E
  unfolding revoke_all_sessions
  Tx-revoke_all_sessions user_id keep fail = Tx-bind Tx-now λ at.
      Tx-bind (Tx-write _ (λ c t p. (keep c t _ p, IsLockedOut-revoke user_id at t)))
        λ _. Tx-flush (λ c t h. fail c t h.0)
