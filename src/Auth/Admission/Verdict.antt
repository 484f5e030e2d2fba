-- ===== src/Auth/Admission/Verdict.antt =====
-- What the tables alone say of an access token, and which values the cache may hold beside them.
use async_pulse.Prelude.{
  String, ◌≡◌, ◌≢◌, refl, sym, ◌∙◌, subst, eq_iff, ◌&&◌, leb, str_eq, Option, none, some, List, [],
  ◌∷◌, select, if◌then◌else◌, ◌⧺◌, arith,
}
use text.Mathlib.TextLemmas.{append_assoc, append_cancel_left, append_inj}
use async_pulse.Python.Result.{Result, ok, err, or_raise, ◌>>=◌}
use async_pulse.Python.DateTime.{DateTime, micros}
use async_pulse.Python.Obj.{Obj}
use async_pulse.Python.Codec.{Codec}
use async_pulse.Db.Tables.{Tables}
use async_pulse.Db.Rows.{scalar_one_or_none}
use async_pulse.Env.{Payload}
use async_pulse.Users.Entities.{User}
use async_pulse.Users.Models.{UserModel}
use async_pulse.Users.Repository.{has_user_id, is_live, to_entity}
use async_pulse.Users.Service.{user_key}
use async_pulse.Auth.Entities.{is_some, from_session, to_dict}
use async_pulse.Auth.Entities.Laws.{DatesReadBack}
use async_pulse.Auth.Models.{SessionModel}
use async_pulse.Auth.Repository.{has_id, to_session_entity}
use async_pulse.Auth.Service.Sessions.{session_key, invalid_token}
use async_pulse.Auth.Gate.{access_claims, identity_dict, check_status}
use async_pulse.Auth.Admission.Stale.{remembered}

abbrev pub live_users : String → Tables → List UserModel
live_users user_id t = select (λ m. has_user_id user_id m && is_live m) t.users

-- One stored session, of that user, neither expired nor revoked.
unfoldable pub judged_row : DateTime → String → Option SessionModel → Result (Unit {0})
judged_row at user_id none = err (invalid_token "Session is invalid or has been logged out")
judged_row at user_id (some m) =
    if leb (micros at) (micros m.expires_at)
    then (if is_some m.revoked_at
        then err (invalid_token "Session is invalid or has been logged out")
        else if str_eq m.user_id user_id
        then ok tt
        else err (invalid_token "Session does not belong to this user"))
    else err (invalid_token "Session is invalid or has been logged out")

unfoldable pub judged_session : Tables → DateTime → String → String → Result (Unit {0})
unfolding judged_row
judged_session t at user_id session_id = do
  o ← scalar_one_or_none (select (has_id session_id) t.sessions)
  judged_row at user_id o

-- One live account whose status lets it pass.
unfoldable pub judged_user : Tables → String → Result User
judged_user t user_id = do
  o ← scalar_one_or_none (live_users user_id t)
  m ← or_raise (invalid_token "User profile not found") o
  check_status (remembered (to_entity m))

-- The verdict on what the token says, at a time.
unfoldable pub judged : Tables → DateTime → Option Payload → Result User
unfolding judged_session judged_user
judged t at decoded = do
  payload ← or_raise (invalid_token "Invalid or expired token") decoded
  (user_id, session_id) ← access_claims payload
  _ ← judged_session t at user_id session_id
  judged_user t user_id

-- What the cache may hold: under a session's key what its one row shows, and under a user's key what the
-- one live row shows.
pub record IsShown (codec : Codec) (t : Tables) (key : String) (o : Obj) : Type 0 where
  pub session :
      (session_id : String)
      → key ≡ session_key session_id
      → (m : SessionModel) × (select (has_id session_id) t.sessions ≡ m ∷ [])
        × DatesReadBack codec (from_session (to_session_entity m))
        × (o ≡ to_dict codec (from_session (to_session_entity m)))
  pub user :
      (user_id : String)
      → key ≡ user_key user_id
      → (m : UserModel) × (live_users user_id t ≡ m ∷ []) × (o ≡ identity_dict (to_entity m))

pub session_key-ne-user_key : (s u : String) → session_key s ≢ user_key u
session_key-ne-user_key s u e =
    let split : "sessi" ⧺ ("on:" ⧺ s) ≡ "user:" ⧺ u = sym (append_assoc "sessi" "on:" s) ∙ e in
    let same : "sessi" ≡ "user:" = (append_inj split refl).0 in
    ground (arith, eq_iff "sessi" "user:", same)

module _ (codec : Codec) (t : Tables) where
  pub session-IsShown :
      (session_id : String) (m : SessionModel)
      → select (has_id session_id) t.sessions ≡ m ∷ []
      → DatesReadBack codec (from_session (to_session_entity m))
      → IsShown codec t
          (session_key session_id)
          (to_dict codec (from_session (to_session_entity m)))
  session-IsShown session_id m stored dates = record {
    session = λ k e.
        let same : session_id ≡ k = append_cancel_left "session:" session_id k e in
        (m, subst (λ i. select (has_id i) t.sessions ≡ m ∷ []) same stored, dates, refl);
    user = λ k e. absurd (session_key-ne-user_key session_id k e);
  }

  pub user-IsShown :
      (user_id : String) (m : UserModel)
      → live_users user_id t ≡ m ∷ []
      → IsShown codec t (user_key user_id) (identity_dict (to_entity m))
  user-IsShown user_id m stored = record {
    session = λ k e. absurd (session_key-ne-user_key k user_id (sym e));
    user = λ k e.
        let same : user_id ≡ k = append_cancel_left "user:" user_id k e in
        (m, subst (λ i. live_users i t ≡ m ∷ []) same stored, refl);
  }
