-- ===== src/Users/Repository/Effects.antt =====
-- What the methods of `UserRepository` do to the tables.
use mathlib.Core.Option
use async_pulse.Prelude.{
  String, Bool, true, ◌&&◌, ◌≡◌, refl, Option, none, some, List, [], select, select-head, and_left,
  and_right,
}
use async_pulse.Python.Result.{ok}
use async_pulse.Db.Rows.{scalar_one_or_none, scalar_one_or_none-some}
use async_pulse.Python.DateTime.{DateTime}
use async_pulse.Db.Tables.{Tables}
use async_pulse.Db.Act.Tx.{Rel, Tx, Tx-bind, Tx-now, Tx-write, Tx-flush, Tx-query, Tx-pure, Tx-lift}
use async_pulse.Users.Entities.{User}
use async_pulse.Users.Models.{UserModel}
use async_pulse.Users.Repository.{
  to_entity, has_user_id, is_live, modify_user, find_live, get_by_id, save,
}

-- A read of one live row returns nothing, or the entity of a row that passes the test.
abbrev pub IsFound : (UserModel → Bool) → Option User → Type 0
IsFound p none = Unit
IsFound p (some u) = (m : UserModel) × (p m ≡ true) × (is_live m ≡ true) × (u ≡ to_entity m)

IsFound-scalar :
    (p : UserModel → Bool) (l : List UserModel) (o : Option UserModel)
    → scalar_one_or_none (select (λ m. p m && is_live m) l) ≡ ok o
    → IsFound p (Option.map to_entity o)
IsFound-scalar p l none h = tt
IsFound-scalar p l (some m) h =
    let q : (p m && is_live m) ≡ true =
      select-head _ l m [] (scalar_one_or_none-some (select (λ m. p m && is_live m) l) m h) in
    (m, and_left (p m) (is_live m) q, and_right (p m) (is_live m) q, refl)

module _ {C : Type 0} {P E : Rel} (fail : (c t : Tables) → P c t → E c t) where
  pub Tx-find_live :
      (p : UserModel → Bool) → Tx {C = C} P (find_live p) (λ o c t. P c t × IsFound p o) E
  unfolding find_live
  Tx-find_live p = Tx-bind (Tx-query _) λ rows.
      Tx-bind {Q = λ o c t. P c t × IsFound p (Option.map to_entity o)}
        (Tx-lift _ (λ o c t e h. (h.0, IsFound-scalar p t.users o (rw (← h.1) e)))
          (λ c t h. fail c t h.0))
        λ m. Tx-pure _ (λ c t h. h)

  pub Tx-get_by_id :
      (user_id : String)
      → Tx {C = C} P (get_by_id user_id) (λ o c t. P c t × IsFound (has_user_id user_id) o) E
  unfolding get_by_id
  Tx-get_by_id user_id = Tx-find_live _

-- A mutation of one row: refused for want of the row, refused by the flush, or done.
module _ {C : Type 0} {P R E : Rel} where
  pub Tx-save :
      (user_id : String) (f : UserModel → UserModel)
      → ((c t : Tables) → P c t → E c t)
      → ((c t : Tables) (at : DateTime)
          → P c t
          → R c (modify_user user_id (λ m. record (f m) { updated_at = at }) t))
      → ((c t : Tables) → R c t → E c c)
      → Tx {C = C} P (save user_id f) (λ _. R) E
  unfolding save
  Tx-save user_id f fail done refused = Tx-bind (Tx-query _) λ rows.
      Tx-bind (Tx-lift _ (λ a c t e h. h.0) (λ c t h. fail c t h.0)) λ m. Tx-bind Tx-now λ at.
        Tx-bind (Tx-write _ (λ c t h. done c t at h))
          λ _. Tx-bind (Tx-flush refused) λ _. Tx-pure _ (λ c t h. h)
