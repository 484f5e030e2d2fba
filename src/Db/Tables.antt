-- ===== src/Db/Tables.antt =====
-- The tables `users` and `sessions` with the constraints that src/modules/users/models.py and
-- src/modules/auth/models.py declare: keys, uniqueness, references and column widths.
pub mod Keys
use Prim.Native.String.{count}
use async_pulse.Prelude.{
  ℕ, String, str_eq, Bool, true, false, not, ◌&&◌, ◌||◌, Option, none, some, List, map, all, leb,
  [], ◌∷◌, if◌then◌else◌,
}
use async_pulse.Users.Models.{UserModel}
use async_pulse.Auth.Models.{SessionModel}

pub record Tables : Type 0 where
  pub users : List UserModel
  pub sessions : List SessionModel

abbrev pub has : List String → String → Bool
has [] k = false
has (j ∷ js) k = let rest = has js k in str_eq j k || rest

abbrev pub distinct : List String → Bool
distinct [] = true
distinct (k ∷ ks) = let rest = distinct ks in not (has ks k) && rest

abbrev pub fits : ℕ → Option String → Bool
fits n none = true
fits n (some s) = leb (count s) n

abbrev pub refers : List String → Option String → Bool
refers ids none = true
refers ids (some k) = has ids k

abbrev pub user_ids : Tables → List String
user_ids t = map (λ u. u.id) t.users

abbrev pub session_ids : Tables → List String
session_ids t = map (λ s. s.id) t.sessions

-- The widths of the text columns.
unfoldable pub user_fits : UserModel → Bool
user_fits u =
    fits 255 (some u.email)
    && fits 100 u.name
    && fits 100 (some u.username)
    && fits 255 (some u.hashed_password)

unfoldable pub session_fits : SessionModel → Bool
session_fits s = fits 255 s.device_info && fits 45 s.ip_address

unfoldable pub users_hold : List UserModel → Bool
unfolding user_fits
users_hold us =
    distinct (map (λ u. u.id) us)
    && distinct (map (λ u. u.email) us)
    && distinct (map (λ u. u.username) us)
    && all user_fits us

-- A session's user exists, and so does the session that it was rotated from.
unfoldable pub session_holds : List String → List String → SessionModel → Bool
unfolding session_fits
session_holds uids sids s =
    has uids s.user_id && refers sids s.previous_session_id && session_fits s

unfoldable pub sessions_hold : List String → List SessionModel → Bool
unfolding session_holds
sessions_hold uids ss =
    distinct (map (λ s. s.id) ss) && all (session_holds uids (map (λ s. s.id) ss)) ss

-- What the database checks when pending changes are flushed.
unfoldable pub satisfies_constraints : Tables → Bool
unfolding users_hold sessions_hold
satisfies_constraints t = users_hold t.users && sessions_hold (user_ids t) t.sessions

-- `session.merge(model)`: the row of that key is overwritten, or a new one is added.
abbrev pub merge_row : SessionModel → List SessionModel → List SessionModel
merge_row m [] = m ∷ []
merge_row m (x ∷ xs) = if str_eq x.id m.id then m ∷ xs else x ∷ merge_row m xs
