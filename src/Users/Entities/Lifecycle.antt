-- ===== src/Users/Entities/Lifecycle.antt =====
-- What the status machine of `User.transition_to` allows.
use async_pulse.Prelude.{
  ◌≡◌, refl, sym, ap, ◌∙◌, ◌≢◌, ◌⊎◌, inl, inr, ◌↔◌, Bool, true, false, List, [], ◌∷◌, any, arith,
}
use async_pulse.Python.Result.{Result, ok, err}
use async_pulse.Users.Entities.{
  UserStatus, pending_verification, active, suspended, banned, User, eq_status, valid_transitions,
  transition_to,
}

-- The lifecycle, independently of the code.
pub data Edge : UserStatus → UserStatus → Type 0 where
  verify : Edge pending_verification active
  suspend : Edge active suspended
  reinstate : Edge suspended active
  ban_pending : Edge pending_verification banned
  ban_active : Edge active banned
  ban_suspended : Edge suspended banned

eq_status→eq : (s t : UserStatus) → eq_status s t ≡ true → s ≡ t
eq_status→eq s t h = ground arith

allowed-Edge : (s t : UserStatus) → any (eq_status t) (valid_transitions s) ≡ true → Edge s t
unfolding valid_transitions
allowed-Edge pending_verification active h = verify
allowed-Edge pending_verification banned h = ban_pending
allowed-Edge active suspended h = suspend
allowed-Edge active banned h = ban_active
allowed-Edge suspended active h = reinstate
allowed-Edge suspended banned h = ban_suspended
allowed-Edge _ _ h = cc

-- An accepted transition changes the status alone, and to the same status or along an edge.
accepted :
    (t : UserStatus) (u v : User)
    → transition_to t u ≡ ok v
    → (v ≡ record u { status = t }) × ((t ≡ u.status) ⊎ Edge u.status t)
unfolding transition_to
accepted t u v h =
    split (eq_status t u.status) refl (any (eq_status t) (valid_transitions u.status)) refl h
  where
    split :
        (b : Bool)
        → eq_status t u.status ≡ b
        → (c : Bool) → any (eq_status t) (valid_transitions u.status) ≡ c
        → transition_to t u ≡ ok v
        → (v ≡ record u { status = t }) × ((t ≡ u.status) ⊎ Edge u.status t)
    split true e c d k =
        (ground (arith, eq_status→eq t u.status e), inl (eq_status→eq t u.status e))
    split false e true d k = (ground arith, inr (allowed-Edge u.status t d))
    split false e false d k = absurd (ground arith)

Edge-transition_to :
    {s t : UserStatus} (u : User)
    → s ≡ u.status
    → Edge s t
    → transition_to t u ≡ ok (record u { status = t })
unfolding transition_to
Edge-transition_to u e verify = ground arith
Edge-transition_to u e suspend = ground arith
Edge-transition_to u e reinstate = ground arith
Edge-transition_to u e ban_pending = ground arith
Edge-transition_to u e ban_active = ground arith
Edge-transition_to u e ban_suspended = ground arith

same-transition_to :
    (t : UserStatus) (u : User) → t ≡ u.status → transition_to t u ≡ ok (record u { status = t })
unfolding transition_to
same-transition_to t u e = ground arith

-- `transition_to` accepts a status exactly when it is the present one or an edge of the lifecycle
-- leads to it, and it then changes the status and nothing else.
pub transition_to_iff :
    (t : UserStatus) (u v : User)
    → (transition_to t u ≡ ok v)
      ↔ ((v ≡ record u { status = t }) × ((t ≡ u.status) ⊎ Edge u.status t))
transition_to_iff t u v = (accepted t u v, back)
  where
    back :
        (v ≡ record u { status = t }) × ((t ≡ u.status) ⊎ Edge u.status t)
        → transition_to t u ≡ ok v
    back (e, inl same) = same-transition_to t u same ∙ ap ok (sym e)
    back (e, inr edge) = Edge-transition_to u refl edge ∙ ap ok (sym e)

-- A sequence of attempts, where a refused one leaves the user as it is.
abbrev kept : User → Result User → User
kept u (ok v) = v
kept u (err e) = u

unfoldable pub attempts : List UserStatus → User → User
attempts [] u = u
attempts (t ∷ ts) u = attempts ts (kept u (transition_to t u))

banned-step :
    (t : UserStatus) (u : User) → u.status ≡ banned → (kept u (transition_to t u)).status ≡ banned
unfolding transition_to
banned-step t u h = ground arith

pending-step :
    (t : UserStatus) (u : User)
    → u.status ≢ pending_verification
    → (kept u (transition_to t u)).status ≢ pending_verification
unfolding transition_to
pending-step t u h = ground arith

-- Whatever transitions are attempted on a banned user, the user stays banned.
pub attempts_banned :
    (ts : List UserStatus) (u : User) → u.status ≡ banned → (attempts ts u).status ≡ banned
unfolding attempts
attempts_banned [] u h = h
attempts_banned (t ∷ ts) u h = attempts_banned ts (kept u (transition_to t u)) (banned-step t u h)

-- A user that is not awaiting verification never awaits it again, whatever transitions are tried.
pub attempts_verified :
    (ts : List UserStatus) (u : User)
    → u.status ≢ pending_verification
    → (attempts ts u).status ≢ pending_verification
unfolding attempts
attempts_verified [] u h = h
attempts_verified (t ∷ ts) u h =
    attempts_verified ts (kept u (transition_to t u)) (pending-step t u h)
