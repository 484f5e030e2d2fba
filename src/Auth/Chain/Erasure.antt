-- ===== src/Auth/Chain/Erasure.antt =====
-- The hard delete, `UserRepository.delete` of src/modules/users/repository.py, keeps the chains: the
-- database deletes the sessions of the user, and empties the references to them.
use async_pulse.Prelude.{
  String, ◌≡◌, refl, inl, inr, Bool, true, false, Option, none, some, List, [], ◌∷◌, map, select,
  All, arith, if◌then◌else◌,
}
use async_pulse.Db.Tables.{has, distinct}
use async_pulse.Db.Act.{Act, pure, write, flush, commit, ◌>>◌}
use async_pulse.Db.Act.Tx.{Tx, Tx-bind, Tx-pure, Tx-write, Tx-query, Tx-lift, Tx-commit}
use async_pulse.Db.Act.Tx.Flush.{Tx-flush_checked}
use async_pulse.Auth.Models.{SessionModel}
use async_pulse.Users.Models.{UserModel}
use async_pulse.Users.Repository.{refers_to, forget_sessions, erase_user}
use async_pulse.Users.Repository as Users
use async_pulse.Auth.Chain.{links, IsSpent, IsChained}
use async_pulse.Auth.Chain.Invariant.{SessionInvariant}
use async_pulse.Auth.Chain.Writes.{Good, Pending}

-- A link that is kept or dropped, in front of fewer links.
distinct-links :
    (ls' ls : List String) (o : Option String) (dropped : Bool)
    → distinct (elim o [ none ↦ ls | some k ↦ k ∷ ls ]) ≡ true
    → ((k : String) → has ls k ≡ false → has ls' k ≡ false)
    → distinct ls' ≡ true
    → distinct (elim (if dropped then none else o) [ none ↦ ls' | some k ↦ k ∷ ls' ]) ≡ true
distinct-links ls' ls o true h f d = d
distinct-links ls' ls none false h f d = d
distinct-links ls' ls (some k) false h f d = ground (arith, f k)

module _ (gone : List SessionModel) (p : SessionModel → Bool) where
  -- What is left of the rows.
  abbrev left : List SessionModel → List SessionModel
  left ss = map (forget_sessions gone) (select p ss)

  has-left :
      (k : String) (ss : List SessionModel)
      → has (links ss) k ≡ false
      → has (links (left ss)) k ≡ false
  has-left k [] h = refl
  has-left k (s ∷ ss) h = ground (arith, has-left k ss)

  distinct-left :
      (ss : List SessionModel) → distinct (links ss) ≡ true → distinct (links (left ss)) ≡ true
  distinct-left [] h = refl
  distinct-left (s ∷ ss) h = here (p s) (distinct-left ss (ground (arith, h))) (
      distinct-links (links (left ss)) (links ss) s.previous_session_id
        (refers_to gone s.previous_session_id) h (λ k. has-left k ss)
        (distinct-left ss (ground (arith, h))))
    where
      here :
          (b : Bool)
          → distinct (links (left ss)) ≡ true
          → distinct (links (forget_sessions gone s ∷ left ss)) ≡ true
          → distinct
              (links (map (forget_sessions gone) (if b then s ∷ select p ss else select p ss)))
            ≡ true
      here true rest h = h
      here false rest h = rest

  All-left :
      (ls ls' : List String) (ss : List SessionModel)
      → ((k : String) → has ls k ≡ false → has ls' k ≡ false)
      → All (IsSpent ls) ss
      → All (IsSpent ls') (left ss)
  All-left ls ls' [] f h = tt
  All-left ls ls' (s ∷ ss) f (h, hs) = here (p s) (spent h) (All-left ls ls' ss f hs)
    where
      spent : IsSpent ls s → IsSpent ls' (forget_sessions gone s)
      spent (inl n) = inl (f s.id n)
      spent (inr r) = inr r

      here :
          (b : Bool)
          → IsSpent ls' (forget_sessions gone s)
          → All (IsSpent ls') (left ss)
          → All
              (IsSpent ls')
              (map (forget_sessions gone) (if b then s ∷ select p ss else select p ss))
      here true h hs = (h, hs)
      here false h hs = hs

  IsChained-left : (ss : List SessionModel) → IsChained ss → IsChained (left ss)
  IsChained-left ss (d, h) =
      (distinct-left ss d, All-left (links ss) (links (left ss)) ss (λ k. has-left k ss) h)

-- No property beyond that of the chains.
instance abbrev pub nothing : SessionInvariant
nothing = record {
  Holds = λ ss. Unit {0};
  add = λ t m h k x. tt;
  overwrite = λ m x ss r h k. tt;
  revoke = λ p at ss h. tt;
}

module _ {C : Type 0} where
  Tx-erase :
      (user_id : String) (o : Option UserModel)
      → Tx {C = C} Good
          (elim o [ none ↦ pure tt | some m ↦ write (erase_user user_id) >> flush ])
          (λ _. Good)
          Good
  unfolding erase_user
  Tx-erase user_id none = Tx-pure tt (λ c t p. p)
  Tx-erase user_id (some m) =
      Tx-bind {Q = λ _. Pending}
        (Tx-write _ (λ c t g. (g.0, λ _. (IsChained-left _ _ t.sessions g.1.1.0, tt))))
        λ _. Tx-flush_checked (λ c t p h. (p.0, (h, p.1 h))) (λ c t p. (p.0, p.0))

  -- `UserRepository.delete` only flushes; who calls it commits.
  abbrev pub erased : String → Act C (Unit {0})
  erased user_id = Users.delete user_id >> commit

  pub Tx-erased : (user_id : String) → Tx Good (erased user_id) (λ _. Good) Good
  unfolding Users.delete
  Tx-erased user_id =
      Tx-bind
        (Tx-bind (Tx-query _) λ rows.
          Tx-bind (Tx-lift _ (λ a c t e h. h.0) (λ c t h. h.0)) λ model. Tx-erase user_id model)
        λ _. Tx-commit (λ c t p. (p.1, p.1))
