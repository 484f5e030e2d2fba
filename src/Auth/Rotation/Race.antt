-- ===== src/Auth/Rotation/Race.antt =====
-- Two rotations of one session at once: `AuthService.refresh_token` of src/modules/auth/service.py reads
-- the session without locking its row, so both may read it before either writes.
use async_pulse.Prelude.{
  String, ◌≡◌, ◌≢◌, refl, sym, subst, ◌∙◌, ap, true, false, Option, none, some, List, [], ◌∷◌, ◌++◌,
  select, arith, eq_iff,
}
use async_pulse.Python.Result.{is_ok}
use async_pulse.Python.DateTime.{DateTime, aware}
use async_pulse.Db.Tables.{
  Tables, has, fits, distinct, user_ids, session_ids, merge_row, satisfies_constraints,
}
use async_pulse.Db.World.{World, reading}
use async_pulse.Env.{Env}
use async_pulse.Auth.Models.{SessionModel}
use async_pulse.Auth.Repository.{has_id, to_session_entity}
use async_pulse.Auth.Rows.{select-merge_row, select-beside, found-id, found-has}
use async_pulse.Auth.Chain.{links, links-merge_row}
use async_pulse.Auth.Chain.Adding.{links-add_next}
use async_pulse.Auth.Service.Refresh.{rotate}
use async_pulse.Auth.Rotation.{retired, successor, rotated, rotate-commits, rotated-satisfies}

module _ (key : String) (m : SessionModel) (t : Tables)
    (stored : select (has_id key) t.sessions ≡ m ∷ []) where
  unused-ne : (id : String) → has (session_ids t) id ≡ false → id ≢ key
  unused-ne id fresh e =
      ground (arith, fresh, e, found-id key t.sessions m stored, found-has key t.sessions m stored)

  -- What the other rotation left of the session.
  rotated-row :
      (at : DateTime) (new : SessionModel)
      → has (session_ids t) new.id ≡ false
      → select (has_id key) (rotated m at new t).sessions ≡ retired m at ∷ []
  rotated-row at new fresh =
      select-beside key (merge_row (retired m at) t.sessions) new (unused-ne new.id fresh)
      ∙ select-merge_row key m (retired m at) t.sessions (found-id key t.sessions m stored) stored

links-rotated :
    (m x : SessionModel) (at created : DateTime) (id user_id : String) (ip : Option String)
    (t : Tables)
    → m.previous_session_id ≡ x.previous_session_id
    → select (has_id m.id) t.sessions ≡ x ∷ []
    → links (rotated m at (successor m id user_id ip created) t).sessions
      ≡ links t.sessions ++ m.id ∷ []
links-rotated m x at created id user_id ip t e stored =
    links-add_next (merge_row (retired m at) t.sessions) (successor m id user_id ip created) m.id
      refl
    ∙ ap (λ ls. ls ++ m.id ∷ []) (links-merge_row (retired m at) x e (λ r. cc) t.sessions stored)

twice : (ls : List String) (k : String) → distinct ((ls ++ k ∷ []) ++ k ∷ []) ≡ false
twice [] k = ground (arith, eq_iff k k)
twice (l ∷ ls) k = ground (arith, twice ls k)

module _ {C : Type 0} (env : Env C) (key user_id : String) (ip : Option String) (m : SessionModel)
    (w : World C) (stored : select (has_id key) w.tx.sessions ≡ m ∷ []) (live : m.revoked_at ≡ none)
    (holds : satisfies_constraints w.tx ≡ true)
    (fresh : has (session_ids w.tx) (w.uuid w.drawn) ≡ false)
    (known : has (user_ids w.tx) user_id ≡ true) (short : fits 45 ip ≡ true) where
  -- The tables that the first of the two commits.
  abbrev won : Tables
  won =
      rotated m (aware (reading w 0))
        (successor m (w.uuid w.drawn) user_id ip (aware (reading w 5))) w.tx

  pub won-commits : (rotate env key user_id ip (to_session_entity m) w).1.committed ≡ won
  won-commits =
      (rotate-commits env key user_id ip m m.revoked_at w stored live holds fresh known short).1

  won-satisfies : satisfies_constraints won ≡ true
  won-satisfies =
      rotated-satisfies env key user_id ip m m.revoked_at w stored live holds fresh known short
        (aware (reading w 0)) (aware (reading w 5))

  won-row : select (has_id key) won.sessions ≡ retired m (aware (reading w 0)) ∷ []
  won-row =
      rotated-row key m w.tx stored (aware (reading w 0))
        (successor m (w.uuid w.drawn) user_id ip (aware (reading w 5))) fresh

  stored_by_id :
      (t : Tables) (x : SessionModel)
      → select (has_id key) t.sessions ≡ x ∷ []
      → select (has_id m.id) t.sessions ≡ x ∷ []
  stored_by_id t x h =
      subst (λ k. select (has_id k) t.sessions ≡ x ∷ []) (sym (found-id key w.tx.sessions m stored))
        h

  module _ (ip' : Option String) (v : World C) (short' : fits 45 ip' ≡ true) where
    links-forked :
        (at created : DateTime) (id : String)
        → links (rotated m at (successor m id user_id ip' created) won).sessions
          ≡ (links w.tx.sessions ++ m.id ∷ []) ++ m.id ∷ []
    links-forked at created id =
        links-rotated m (retired m (aware (reading w 0))) at created id user_id ip' won refl
          (stored_by_id won (retired m (aware (reading w 0))) won-row)
        ∙ ap (λ ls. ls ++ m.id ∷ [])
            (links-rotated m m (aware (reading w 0)) (aware (reading w 5)) (w.uuid w.drawn) user_id
              ip w.tx refl (stored_by_id w.tx m stored))

    second-commits :
        v.tx ≡ won
        → has (session_ids v.tx) (v.uuid v.drawn) ≡ false
        → let (r, v') = rotate env key user_id ip' (to_session_entity m) v in
          (is_ok r ≡ true)
          × (v'.committed
              ≡ rotated m
                  (aware (reading v 0))
                  (successor m (v.uuid v.drawn) user_id ip' (aware (reading v 5)))
                  v.tx)
    second-commits now fresh' =
        let (r, c) =
          rotate-commits env key user_id ip' m (some (aware (reading w 0))) v (rw (now) won-row)
            live (rw (now) won-satisfies) fresh' (rw (now) known) short' in
        (ap is_ok r, c)

    -- Two requests that have both read a stored session as not revoked, before either of them rotates it,
    -- both succeed, one after the other: the second finds the tables that the first committed, and leaves
    -- two successors of the one session. The rows at the start meet the constraints, the user exists, the
    -- identifiers drawn are unused and the addresses fit their column.
    pub parallel_rotations_fork :
        v.tx ≡ (rotate env key user_id ip (to_session_entity m) w).1.committed
        → has (session_ids v.tx) (v.uuid v.drawn) ≡ false
        → let (r, v') = rotate env key user_id ip' (to_session_entity m) v in
          (is_ok r ≡ true)
          × (v'.committed
              ≡ rotated m
                  (aware (reading v 0))
                  (successor m (v.uuid v.drawn) user_id ip' (aware (reading v 5)))
                  won)
          × (distinct (links v'.committed.sessions) ≡ false)
    parallel_rotations_fork later fresh' =
        let now = later ∙ won-commits in
        let (r, c) = second-commits now fresh' in
        let committed = c ∙ ap (rotated m _ _) now in
        (
          r,
          committed,
          subst (λ t. distinct (links t.sessions) ≡ false) (sym committed)
              (rw (links-forked _ _ _) (twice (links w.tx.sessions) m.id)),
        )
