-- ===== src/Users/Profile/Saves.antt =====
-- `UserService.update_user` on a profile that it may change.
use async_pulse.Prelude.{
  String, str_eq, eq_iff, ◌≡◌, refl, sym, ap, ◌∙◌, if◌then◌else◌, map, update_where-map, Bool, true,
  false, ◌&&◌, ◌⊎◌, inl, inr, Option, none, some, List, [], ◌∷◌, ◌++◌, select, any, arith,
}
use async_pulse.Python.Result.{ok}
use async_pulse.Python.DateTime.{DateTime, aware}
use async_pulse.Db.Tables.{Tables, satisfies_constraints}
use async_pulse.Db.World.{World, reading}
use async_pulse.Db.Act.{basic_actions}
use async_pulse.Env.{Env}
use async_pulse.Env.Cached.{delete}
use async_pulse.Users.Models.{UserModel}
use async_pulse.Users.Repository.{
  Field, is_forbidden, set_attrs, has_user_id, is_live, to_entity, modify_user, set_attr, find_live,
  get_by_id, get_by_email, get_by_username, save, update,
}
use async_pulse.Users.Schemas.{UserUpdate}
use async_pulse.Users.Service.{
  get_user, refuse_taken, email_field, username_field, apply_fields, update_user,
}

-- The row is the only one of its id, and live.
abbrev pub IsOnly : UserModel → Tables → Type 0
IsOnly m t =
    (select (has_user_id m.id) t.users ≡ m ∷ [])
    × (select (λ u. has_user_id m.id u && is_live u) t.users ≡ m ∷ [])

-- No live row but that of the user passes the test.
abbrev pub IsFree : String → (UserModel → Bool) → Tables → Type 0
IsFree user_id p t =
    (select (λ m. p m && is_live m) t.users ≡ [])
    ⊎ ((m : UserModel) × (select (λ m. p m && is_live m) t.users ≡ m ∷ []) × (m.id ≡ user_id))

abbrev pub IsFreeIfAny : String → (String → UserModel → Bool) → Option String → Tables → Type 0
IsFreeIfAny user_id p none t = Unit
IsFreeIfAny user_id p (some v) t = IsFree user_id (p v) t

abbrev pub has_email : String → UserModel → Bool
has_email v m = str_eq m.email v

abbrev pub has_username : String → UserModel → Bool
has_username v m = str_eq m.username v

-- The fields that a payload sets.
abbrev pub field : (String → Field) → Option String → List Field
field f none = []
field f (some v) = f v ∷ []

abbrev pub fields : UserUpdate → List Field
fields payload = field Field.email payload.email ++ field Field.username payload.username

abbrev pub given : Option String → String → String
given none old = old
given (some v) old = v

-- A row after the change: that of the user has the email and the username that are given and the time
-- of the change, and every other row and every other column is as before.
abbrev pub changed_row : String → DateTime → UserUpdate → UserModel → UserModel
changed_row user_id at payload m =
    if str_eq m.id user_id
    then record m {
      email = given payload.email m.email;
      username = given payload.username m.username;
      updated_at = at;
    }
    else m

abbrev pub is_empty : Option String → Option String → Bool
is_empty none none = true
is_empty _ _ = false

-- The tables after the change: as they are where the payload gives nothing.
abbrev pub saved : String → DateTime → UserUpdate → Tables → Tables
saved user_id at payload t =
    if is_empty payload.email payload.username
    then t
    else record t { users = map (changed_row user_id at payload) t.users }

-- What the fields of a payload make of the tables.
abbrev modified : String → DateTime → List Field → Tables → Tables
modified user_id at [] t = t
modified user_id at (f ∷ fs) t =
    modify_user user_id (λ m. record (set_attrs (f ∷ fs) m) { updated_at = at }) t

modified-saved :
    (user_id : String) (at : DateTime) (e u : Option String) (t : Tables)
    → modified user_id at (fields (record { email = e; username = u })) t
      ≡ saved user_id at (record { email = e; username = u }) t
unfolding set_attrs set_attr
modified-saved user_id at none none t = refl
modified-saved user_id at none (some u) t =
    ap (λ us. record t { users = us })
      (update_where-map (has_user_id user_id) _ _ (λ m. refl) t.users)
modified-saved user_id at (some e) none t =
    ap (λ us. record t { users = us })
      (update_where-map (has_user_id user_id) _ _ (λ m. refl) t.users)
modified-saved user_id at (some e) (some u) t =
    ap (λ us. record t { users = us })
      (update_where-map (has_user_id user_id) _ _ (λ m. refl) t.users)

module _ {C : Type 0} (user_id : String) (w : World C) where
  email_field-free :
      (o : Option String)
      → IsFreeIfAny user_id has_email o w.tx
      → email_field user_id o w ≡ (ok (field Field.email o), w)
  unfolding email_field refuse_taken get_by_email find_live to_entity basic_actions
  email_field-free none h = refl
  email_field-free (some v) (inl e) = ground (arith, e)
  email_field-free (some v) (inr (m, e, own)) = ground (arith, e, own, eq_iff m.id user_id)

  username_field-free :
      (o : Option String)
      → IsFreeIfAny user_id has_username o w.tx
      → username_field user_id o w ≡ (ok (field Field.username o), w)
  unfolding username_field refuse_taken get_by_username find_live to_entity basic_actions
  username_field-free none h = refl
  username_field-free (some v) (inl e) = ground (arith, e)
  username_field-free (some v) (inr (m, e, own)) = ground (arith, e, own, eq_iff m.id user_id)

module _ {C : Type 0} (env : Env C) (payload : UserUpdate) (m : UserModel) (w : World C)
    (only : IsOnly m w.tx) where
  get_user-only : get_user m.id w ≡ (ok (to_entity m), w)
  unfolding get_user get_by_id find_live basic_actions
  get_user-only = ground (arith, only.1)

  allowed : any is_forbidden (fields payload) ≡ false
  unfolding is_forbidden
  allowed = here payload.email payload.username
    where
      here :
          (e u : Option String)
          → any is_forbidden (field Field.email e ++ field Field.username u) ≡ false
      here none none = refl
      here none (some u) = refl
      here (some e) none = refl
      here (some e) (some u) = refl

  apply_fields-commits :
      (fs : List Field)
      → any is_forbidden fs ≡ false
      → satisfies_constraints (modified m.id (aware (reading w 0)) fs w.tx) ≡ true
      → w.tx ≡ w.committed
      → (apply_fields env m.id (to_entity m) fs w).1.committed
        ≡ modified m.id (aware (reading w 0)) fs w.tx
  unfolding apply_fields update save delete to_entity basic_actions
  apply_fields-commits [] free holds start = sym start
  apply_fields-commits (f ∷ fs) free holds start = ground (arith, free, holds, only.0)

  -- A profile update where the row is the only one of its id and live, no other live row holds the new
  -- email or the new username, and the changed tables meet the constraints, commits exactly that change:
  -- the email and the username that are given and the time of the change, in the row of the user;
  -- where nothing is given, it changes nothing. The request starts
  -- on the committed tables.
  pub update_user_saves :
      IsFreeIfAny m.id has_email payload.email w.tx
      → IsFreeIfAny m.id has_username payload.username w.tx
      → satisfies_constraints (saved m.id (aware (reading w 0)) payload w.tx) ≡ true
      → w.tx ≡ w.committed
      → (update_user env m.id payload w).1.committed ≡ saved m.id (aware (reading w 0)) payload w.tx
  unfolding update_user basic_actions
  update_user_saves email username holds start =
      rw
        (
          get_user-only,
          email_field-free m.id w payload.email email,
          username_field-free m.id w payload.username username,
        )
        (apply_fields-commits (fields payload) allowed (rw (same) holds) start ∙ same)
    where
      same :
          modified m.id (aware (reading w 0)) (fields payload) w.tx
          ≡ saved m.id (aware (reading w 0)) payload w.tx
      same = modified-saved m.id (aware (reading w 0)) payload.email payload.username w.tx
