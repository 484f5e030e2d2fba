-- ===== src/Users/Profile.antt =====
-- `UserService.update_user`: what a profile update can and cannot reach.
pub mod Saves
use async_pulse.Prelude.{
  String, str_eq, ◌≡◌, refl, ap, ◌∙◌, Bool, Option, none, some, List, [], ◌∷◌, ◌++◌, map,
  update_where, All, any, arith,
}
use async_pulse.Python.DateTime.{DateTime}
use async_pulse.Db.Tables.{Tables}
use async_pulse.Db.World.{World}
use async_pulse.Db.Act.Tx.{
  Rel, Tx, Tx-bind, Tx-pure, Tx-raise, Tx-if, Tx-or_raise, Tx-require, Tx-commit,
}
use async_pulse.Db.Act.Tx.Weaken.{Post-both, Tx-weaken, Tx-given}
use async_pulse.Env.{Env}
use async_pulse.Env.Cached.{Tx-delete}
use async_pulse.Auth.Models.{SessionModel}
use async_pulse.Users.Entities.{User, UserStatus, UserRole}
use async_pulse.Users.Models.{UserModel}
use async_pulse.Users.Repository.{
  Field, is_forbidden, set_attr, set_attrs, has_user_id, update, get_by_email, get_by_username,
}
use async_pulse.Users.Repository.Effects.{Tx-find_live, Tx-get_by_id, Tx-save}
use async_pulse.Users.Schemas.{UserUpdate}
use async_pulse.Users.Service.{
  get_user, refuse_taken, email_field, username_field, apply_fields, update_user,
}

-- What a profile update must not touch.
pub record Privileged : Type 0 where
  pub id : String
  pub hashed_password : String
  pub status : UserStatus
  pub role : UserRole
  pub deleted_at : Option DateTime
  pub created_at : DateTime

abbrev pub privileged : UserModel → Privileged
privileged m = record {
  id = m.id;
  hashed_password = m.hashed_password;
  status = m.status;
  role = m.role;
  deleted_at = m.deleted_at;
  created_at = m.created_at;
}

abbrev pub IsGuarded : List Privileged → List SessionModel → Tables → Type 0
IsGuarded ps ss t = (map privileged t.users ≡ ps) × (t.sessions ≡ ss)

abbrev IsProfile : Field → Type 0
IsProfile f = (m : UserModel) → privileged (set_attr f m) ≡ privileged m

set_attrs-privileged :
    (fs : List Field) (m : UserModel)
    → All IsProfile fs
    → privileged (set_attrs fs m) ≡ privileged m
unfolding set_attrs
set_attrs-privileged [] m h = refl
set_attrs-privileged (f ∷ fs) m (h, hs) = set_attrs-privileged fs (set_attr f m) hs ∙ h m

map-update_where :
    (p : UserModel → Bool) (f : UserModel → UserModel)
    → ((m : UserModel) → privileged (f m) ≡ privileged m)
    → (us : List UserModel) → map privileged (update_where p f us) ≡ map privileged us
map-update_where p f h [] = refl
map-update_where p f h (u ∷ us) = ground (arith, h u, map-update_where p f h us)

module _ (ps : List Privileged) (ss : List SessionModel) where
  abbrev pub Guarded : Rel
  Guarded c t = IsGuarded ps ss c × IsGuarded ps ss t

module _ (ps : List Privileged) (ss : List SessionModel) where
  abbrev Fields : List Field → Rel
  Fields fs c t = Guarded ps ss c t × All IsProfile fs

module _ {C : Type 0} (ps : List Privileged) (ss : List SessionModel) where
  Tx-update :
      (u : User) (fs : List Field)
      → All IsProfile fs
      → Tx {C = C} (Guarded ps ss) (update u fs) (λ _. Guarded ps ss) (Guarded ps ss)
  unfolding update
  Tx-update u fs hs =
      Tx-if (any is_forbidden fs) _ _ (λ _. Tx-raise _ (λ c t h. h))
        (λ _.
          Tx-save u.id (set_attrs fs) (λ c t h. h)
            (λ c t at h. (
              h.0,
              (
                map-update_where (has_user_id u.id)
                      (λ m. record (set_attrs fs m) { updated_at = at })
                      (λ m. set_attrs-privileged fs m hs) t.users
                    ∙ h.1.0,
                h.1.1,
              ),
            ))
            (λ c t h. (h.0, h.0)))

  Tx-refuse_taken :
      (user_id message : String) (o : Option User)
      → Tx {C = C}
          (Guarded ps ss)
          (refuse_taken user_id message o)
          (λ _. Guarded ps ss)
          (Guarded ps ss)
  unfolding refuse_taken
  Tx-refuse_taken user_id message none = Tx-pure _ (λ c t h. h)
  Tx-refuse_taken user_id message (some u) =
      Tx-weaken (λ _ c t h. h.0) (Tx-require (str_eq u.id user_id) _ (λ c t h. h))

  Tx-email_field :
      (user_id : String) (o : Option String)
      → Tx {C = C} (Guarded ps ss) (email_field user_id o) (Fields ps ss) (Guarded ps ss)
  unfolding email_field get_by_email set_attr
  Tx-email_field user_id none = Tx-pure _ (λ c t h. (h, tt))
  Tx-email_field user_id (some email) =
      Tx-bind (Tx-weaken (λ _ c t h. h.0) (Tx-find_live (λ c t h. h) _)) λ existing.
        Tx-bind (Tx-refuse_taken user_id _ existing)
          λ _. Tx-pure _ (λ c t h. (h, ((λ m. refl), tt)))

  Tx-username_field :
      (user_id : String) (o : Option String)
      → Tx {C = C} (Guarded ps ss) (username_field user_id o) (Fields ps ss) (Guarded ps ss)
  unfolding username_field get_by_username set_attr
  Tx-username_field user_id none = Tx-pure _ (λ c t h. (h, tt))
  Tx-username_field user_id (some username) =
      Tx-bind (Tx-weaken (λ _ c t h. h.0) (Tx-find_live (λ c t h. h) _)) λ existing.
        Tx-bind (Tx-refuse_taken user_id _ existing)
          λ _. Tx-pure _ (λ c t h. (h, ((λ m. refl), tt)))

  Tx-get_user :
      (user_id : String)
      → Tx {C = C} (Guarded ps ss) (get_user user_id) (λ _. Guarded ps ss) (Guarded ps ss)
  unfolding get_user
  Tx-get_user user_id =
      Tx-bind (Tx-get_by_id (λ c t h. h) user_id)
        λ found. Tx-or_raise _ found (λ u c t e h. h.0) (λ c t h. h.0)

All-append : (fs gs : List Field) → All IsProfile fs → All IsProfile gs → All IsProfile (fs ++ gs)
All-append [] gs h k = k
All-append (f ∷ fs) gs (h, hs) k = (h, All-append fs gs hs k)

module _ {C : Type 0} (env : Env C) (ps : List Privileged) (ss : List SessionModel) where
  Tx-apply_fields :
      (user_id : String) (u : User) (fs : List Field)
      → All IsProfile fs
      → Tx (Guarded ps ss) (apply_fields env user_id u fs) (λ _. Guarded ps ss) (Guarded ps ss)
  unfolding apply_fields
  Tx-apply_fields user_id u [] h = Tx-pure _ (λ c t p. p)
  Tx-apply_fields user_id u (f ∷ fs) h = Tx-bind (Tx-update ps ss u (f ∷ fs) h) λ updated.
      Tx-bind {Q = λ _. Guarded ps ss} (Tx-commit (λ c t p. (p.1, p.1)))
        λ _. Tx-bind (Tx-delete env.cache _ (λ c t p. p)) λ _. Tx-pure _ (λ c t p. p)

  Tx-update_user :
      (user_id : String) (payload : UserUpdate)
      → Tx (Guarded ps ss) (update_user env user_id payload) (λ _. Guarded ps ss) (Guarded ps ss)
  unfolding update_user
  Tx-update_user user_id payload = Tx-bind (Tx-get_user ps ss user_id) λ u.
      Tx-bind (Tx-email_field ps ss user_id payload.email) λ email. Tx-given λ profile_email.
        Tx-bind (Tx-username_field ps ss user_id payload.username) λ username.
          Tx-given λ profile_username.
            Tx-apply_fields user_id u (email ++ username)
              (All-append email username profile_email profile_username)

-- However it ends, a profile update leaves every row's id, password hash, status, role, deletion mark
-- and creation time as they were, and every session: in the committed tables and in its own, for a
-- request that starts on the committed tables.
pub update_user_keeps_privileges :
    {C : Type 0} (env : Env C) (user_id : String) (payload : UserUpdate) (w : World C)
    → w.tx ≡ w.committed
    → let (r, w') = update_user env user_id payload w in
      IsGuarded (map privileged w.committed.users) w.committed.sessions w'.committed
      × IsGuarded (map privileged w.committed.users) w.committed.sessions w'.tx
update_user_keeps_privileges env user_id payload w h =
    Post-both (Guarded (map privileged w.committed.users) w.committed.sessions) _ _ (
      (Tx-update_user env (map privileged w.committed.users) w.committed.sessions user_id
          payload).at
        w ((refl, refl), (ap (λ t. map privileged t.users) h, ap (λ t. t.sessions) h)))
