-- ===== src/Users/Router/Secrecy.antt =====
-- What the read routes of src/modules/users/router.py tell of the password hashes: nothing.
use async_pulse.Prelude.{
  ℕ, String, ◌≡◌, refl, ◌∙◌, sym, ap, ◌&&◌, List, [], ◌∷◌, map, length, take, drop, select, sort_by,
  select-map, sort_by-map, length-map, take-map, arith,
}
use async_pulse.Python.Result.{Result, ok, err, app, multiple_results_found}
use async_pulse.Db.Tables.{Tables}
use async_pulse.Db.World.{World}
use async_pulse.Db.Act.{basic_actions}
use async_pulse.Users.Exceptions.{user_not_found_error}
use async_pulse.Users.Models.{UserModel}
use async_pulse.Users.Repository as Repository
use async_pulse.Users.Repository.{
  to_entity, has_user_id, is_live, created_after, find_live, get_by_id,
}
use async_pulse.Users.Listing.{drop-map}
use async_pulse.Users.Service as Service
use async_pulse.Users.Router.{
  UserRead, PageParams, PagedResponse, offset, model_validate, validate_all, get_user, list_users,
}

abbrev rehash : (UserModel → String) → UserModel → UserModel
rehash hash m = record m { hashed_password = hash m }

-- The same tables with other password hashes.
abbrev pub with_hashes : (UserModel → String) → Tables → Tables
with_hashes hash t = record t { users = map (rehash hash) t.users }

model_validate-rehash :
    (hash : UserModel → String) (m : UserModel)
    → model_validate (to_entity (rehash hash m)) ≡ model_validate (to_entity m)
unfolding model_validate to_entity
model_validate-rehash hash m = refl

-- The answer of `GET /users/{user_id}`, by the rows that are found.
abbrev shown : String → List UserModel → Result UserRead
shown user_id [] = err (app (user_not_found_error user_id))
shown user_id (m ∷ []) = model_validate (to_entity m)
shown user_id (m ∷ n ∷ ms) = err multiple_results_found

shown-rehash :
    (hash : UserModel → String) (user_id : String) (ms : List UserModel)
    → shown user_id (map (rehash hash) ms) ≡ shown user_id ms
shown-rehash hash user_id [] = refl
shown-rehash hash user_id (m ∷ []) = model_validate-rehash hash m
shown-rehash hash user_id (m ∷ n ∷ ms) = refl

validate_all-rehash :
    (hash : UserModel → String) (ms : List UserModel)
    → validate_all (map to_entity (map (rehash hash) ms)) ≡ validate_all (map to_entity ms)
unfolding validate_all
validate_all-rehash hash [] = refl
validate_all-rehash hash (m ∷ ms) =
    rw (model_validate-rehash hash m, validate_all-rehash hash ms) refl

-- The rows of a page, in order.
abbrev page_rows : PageParams → List UserModel → List UserModel
page_rows pagination us =
    take pagination.page_size (drop (offset pagination) (sort_by created_after (select is_live us)))

abbrev paged : PageParams → Result (List UserRead) → ℕ → Result (PagedResponse UserRead)
paged pagination (err e) total = err e
paged pagination (ok items) total = ok (record {
  items = items;
  total = total;
  page = pagination.page;
  page_size = pagination.page_size;
})

page_rows-rehash :
    (hash : UserModel → String) (pagination : PageParams) (us : List UserModel)
    → page_rows pagination (map (rehash hash) us) ≡ map (rehash hash) (page_rows pagination us)
page_rows-rehash hash pagination us =
    rw
      (
        select-map (rehash hash) is_live (λ m. refl) us,
        sort_by-map (rehash hash) created_after (λ a b. refl) (select is_live us),
        drop-map (rehash hash) (offset pagination) (sort_by created_after (select is_live us)),
        take-map (rehash hash) pagination.page_size
            (drop (offset pagination) (sort_by created_after (select is_live us))),
      )
      refl

module _ {C : Type 0} where
  get_user-shown :
      (user_id : String) (w : World C)
      → (get_user user_id w).0
        ≡ shown user_id (select (λ m. has_user_id user_id m && is_live m) w.tx.users)
  unfolding get_user Service.get_user get_by_id find_live basic_actions
  get_user-shown user_id w = ground arith

  list_users-paged :
      (pagination : PageParams) (w : World C)
      → (list_users pagination w).0
        ≡ paged pagination
            (validate_all (map to_entity (page_rows pagination w.tx.users)))
            (length (select is_live w.tx.users))
  unfolding list_users Service.list_users Repository.list_users basic_actions
  list_users-paged pagination w = ground arith

  -- No read route tells anything of the password hashes: with any other hash for each user, the answers
  -- of `GET /users` and of `GET /users/{user_id}` are the same, errors included.
  pub answers_hide_hashes :
      (hash : UserModel → String) (pagination : PageParams) (user_id : String) (w : World C)
      → let v = record w { tx = with_hashes hash w.tx } in
        ((list_users pagination v).0 ≡ (list_users pagination w).0)
        × ((get_user user_id v).0 ≡ (get_user user_id w).0)
  answers_hide_hashes hash pagination user_id w =
      let v = record w { tx = with_hashes hash w.tx } in
      (
        list_users-paged pagination v
            ∙ ap
                (λ ms.
                  paged pagination (validate_all (map to_entity ms))
                    (length (select is_live v.tx.users)))
                (page_rows-rehash hash pagination w.tx.users)
            ∙ rw
                (
                  validate_all-rehash hash (page_rows pagination w.tx.users),
                  select-map (rehash hash) is_live (λ m. refl) w.tx.users,
                  length-map (rehash hash) (select is_live w.tx.users),
                )
                (sym (list_users-paged pagination w)),
        get_user-shown user_id v
            ∙ ap (shown user_id) (
                select-map (rehash hash) (λ m. has_user_id user_id m && is_live m) (λ m. refl)
                  w.tx.users)
            ∙ shown-rehash hash user_id
                (select (λ m. has_user_id user_id m && is_live m) w.tx.users)
            ∙ sym (get_user-shown user_id w),
      )
