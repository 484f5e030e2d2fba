-- ===== src/Auth/Chain/Reachable.antt =====
-- The states that requests to src/modules/auth/router.py and src/modules/users/router.py and the other
-- use cases lead to, one after another.
use async_pulse.Prelude.{String, ◌≡◌, subst, sym, Bool, true, Option}
use async_pulse.Python.Obj.{is_truthy, to_str}
use async_pulse.Db.World.{World}
use async_pulse.Db.Act.{Act, pure, in_session, ◌>>=◌}
use async_pulse.Db.Act.Tx.{Tx, Tx-bind, Tx-pure, Tx-raise, Tx-now, Tx-or_raise, Tx-if, Tx-suppress}
use async_pulse.Db.Act.Tx.Weaken.{Post-both}
use async_pulse.Env.{Env}
use async_pulse.Shared.Security.{decode_token}
use async_pulse.Auth.Schemas.{TokenRefreshRequest}
use async_pulse.Auth.Gate.{get_current_user}
use async_pulse.Auth.Gate.Keeps.{Tx-get_current_user}
use async_pulse.Auth.Router
use async_pulse.Auth.Router.{LoginRequest, token_str, logout_presented}
use async_pulse.Auth.Chain.Invariant.{SessionInvariant}
use async_pulse.Auth.Chain.Writes.{IsGood, Good}
use async_pulse.Auth.Chain.Requests.{Tx-logout, Tx-logout_all}
use async_pulse.Auth.Chain.Refresh.{Tx-refresh_token}
use async_pulse.Auth.Chain.Login.{Tx-authenticate}
use async_pulse.Auth.Chain.Erasure.{erased}
use async_pulse.Auth.Chain.Commands.{
  UserCall, Command, answered, executed, Tx-answered, Tx-executed,
}

-- A request to one of the four routes, with what FastAPI takes from it.
pub data Call : Type 0 where
  login : (payload : LoginRequest) (device_info ip_address : Option String) → Call
  refresh : (body : Option TokenRefreshRequest) (cookie ip_address : Option String) → Call
  logout logout_all : (authorization : String) → Call

module _ {C : Type 0} (env : Env C) where
  abbrev pub handled : Call → Act C (Unit {0})
  handled (login payload device ip) = Router.login env payload device ip >>= λ _. pure tt
  handled (refresh body cookie ip) = Router.refresh_token env body cookie ip >>= λ _. pure tt
  handled (logout authorization) = Router.logout env authorization >>= λ _. pure tt
  handled (logout_all authorization) =
      get_current_user env authorization >>= λ u. Router.logout_all env u >>= λ _. pure tt

module _ ⦃inv : SessionInvariant⦄ {C : Type 0} (env : Env C) where
  Tx-handled : (call : Call) → Tx Good (handled env call) (λ _. Good) Good
  unfolding Router.login Router.refresh_token Router.logout Router.logout_all logout_presented
      decode_token
  Tx-handled (login payload device ip) =
      Tx-bind
        (Tx-bind (Tx-authenticate env payload.email payload.password device ip)
          λ response. Tx-pure _ (λ c t p. p))
        λ _. Tx-pure _ (λ c t p. p)
  Tx-handled (refresh body cookie ip) =
      Tx-bind
        (Tx-if (is_truthy (token_str env body cookie)) _ _
          (λ _. Tx-bind (Tx-refresh_token env _ ip) λ pair. Tx-pure _ (λ c t p. p))
          (λ _. Tx-raise _ (λ c t p. p)))
        λ _. Tx-pure _ (λ c t p. p)
  Tx-handled (logout authorization) =
      Tx-bind
        (Tx-bind
          (Tx-suppress (logout_presented env authorization) (
            Tx-bind (Tx-bind Tx-now λ t. Tx-or_raise _ _ (λ a c t e p. p) (λ c t p. p)) λ payload.
              Tx-if (is_truthy payload.sid) _ _ (λ _. Tx-logout env (to_str payload.sid))
                (λ _. Tx-pure _ (λ c t p. p))))
          λ _. Tx-pure _ (λ c t p. p))
        λ _. Tx-pure _ (λ c t p. p)
  Tx-handled (logout_all authorization) = Tx-bind (Tx-get_current_user env authorization) λ u.
      Tx-bind (Tx-bind (Tx-logout_all env u.id) λ _. Tx-pure _ (λ c t p. p))
        λ _. Tx-pure _ (λ c t p. p)

-- From one state to the next: a request to a route of either module, a command, whatever does not touch
-- the committed tables, as time passing and other uses of the cache, and, where `erasing` says so, a hard
-- delete.
module _ {C : Type 0} (env : Env C) (erasing : Bool) where
  pub data Step (w : World C) : World C → Type 0 where
    request : (call : Call) → Step w (in_session (handled env call) w).1
    user_request : (call : UserCall) → Step w (in_session (answered env call) w).1
    command : (k : Command) → Step w (in_session (executed env k) w).1
    erasure : (user_id : String) → erasing ≡ true → Step w (in_session (erased user_id) w).1
    elsewhere : (w' : World C) → w'.committed ≡ w.committed → Step w w'

  pub data Reachable (w : World C) : World C → Type 0 where
    start : Reachable w w
    next : (w₁ w₂ : World C) → Reachable w w₁ → Step w₁ w₂ → Reachable w w₂

module _ ⦃inv : SessionInvariant⦄ {C : Type 0} (env : Env C) (erasing : Bool)
    (erases : (user_id : String)
      → erasing ≡ true
      → Tx {C = C} Good (erased user_id) (λ _. Good) Good) where
  session-keeps :
      (m : Act C (Unit {0})) (w : World C)
      → Tx Good m (λ _. Good) Good
      → IsGood w.committed
      → IsGood (in_session m w).1.committed
  unfolding in_session
  session-keeps m w keeps g =
      (Post-both Good _ _ (keeps.at (record w { tx = w.committed }) (g, g))).0

  Step-keeps : (w w' : World C) → Step env erasing w w' → IsGood w.committed → IsGood w'.committed
  Step-keeps w _ (request call) g = session-keeps (handled env call) w (Tx-handled env call) g
  Step-keeps w _ (user_request call) g =
      session-keeps (answered env call) w (Tx-answered env call) g
  Step-keeps w _ (command k) g = session-keeps (executed env k) w (Tx-executed env k) g
  Step-keeps w _ (erasure user_id e) g = session-keeps (erased user_id) w (erases user_id e) g
  Step-keeps w w' (elsewhere _ e) g = subst IsGood (sym e) g

  pub Reachable-keeps :
      (w w' : World C) → IsGood w.committed → Reachable env erasing w w' → IsGood w'.committed
  Reachable-keeps w _ g start = g
  Reachable-keeps w w' g (next w₁ _ before step) =
      Step-keeps w₁ w' step (Reachable-keeps w w₁ g before)
