-- ===== src/Db/Sessions/Shared.antt =====
-- Actions on one session, one after another, are one action on that session.
use async_pulse.Prelude.{
  ℕ, ◌<◌, ◌==◌, ◌≡◌, refl, ◌∙◌, sym, ap, true, false, Bool, if◌then◌else◌, arith,
}
use mathlib.Core.Path.{fun_ext}
use async_pulse.Python.Result.{Result, ok, err}
use async_pulse.Python.Action.{Action, pure, lift, ◌>>=◌, continue}
use async_pulse.Db.Tables.{Tables}
use async_pulse.Db.World.{World}
use async_pulse.Db.Act.{Act, in_session}
use async_pulse.Db.Sessions.{
  Database, AsyncSession, view, set_tx, put_back, on_session, open_session, close_session,
  get_async_session,
}

same_number : (n : ℕ) → (n == n) ≡ true
same_number n = ground arith

set_tx-same : (n : ℕ) (t : Tables) (tx : ℕ → Tables) → set_tx n t tx n ≡ t
set_tx-same n t tx = rw (same_number n) refl

set_tx-other :
    (n k : ℕ) (t t' t'' : Tables) (tx : ℕ → Tables)
    → k < n
    → set_tx n t (set_tx n t' (set_tx n t'' tx)) k ≡ tx k
set_tx-other n k t t' t'' tx h = ground arith

set_tx-twice :
    (n : ℕ) (t t' : Tables) (tx : ℕ → Tables) → set_tx n t' (set_tx n t tx) ≡ set_tx n t' tx
set_tx-twice n t t' tx = fun_ext (λ k. here k (n == k))
  where
    here : (k : ℕ) (b : Bool) → (if b then t' else if b then t else tx k) ≡ (if b then t' else tx k)
    here k true = refl
    here k false = refl

module _ {C A B : Type 0} (s : AsyncSession) where
  continue-on_session :
      (f : A → Act C B) (b : Database C) (r : Result A) (w : World C)
      → (let (r', w') = continue r w f in (r', put_back s b w'))
        ≡ continue r (put_back s b w) (λ a. on_session s (f a))
  unfolding on_session
  continue-on_session f b (err e) w = refl
  continue-on_session f b (ok a) w =
      rw (set_tx-same s.number w.tx b.tx, set_tx-twice s.number w.tx (f a w).1.tx b.tx) refl

  pub on_session->>= :
      (m : Act C A) (f : A → Act C B)
      → on_session s (m >>= f) ≡ (on_session s m >>= λ a. on_session s (f a))
  unfolding on_session ◌>>=◌
  on_session->>= m f = fun_ext (λ b. continue-on_session f b (m (view s b)).0 (m (view s b)).1)

set_tx_self : (n : ℕ) (tx : ℕ → Tables) → set_tx n (tx n) tx ≡ tx
set_tx_self n tx = fun_ext (λ k. here k (n == k) refl)
  where
    here : (k : ℕ) (b : Bool) → (n == k) ≡ b → (if b then tx n else tx k) ≡ tx k
    here k true e = ap tx (ground arith)
    here k false e = refl

module _ {C A : Type 0} (s : AsyncSession) where
  untouched :
      (r : Result A) (b : Database C)
      → ◌≡◌ {A = Result A × Database C} (r, b) (r, put_back s b (view s b))
  untouched r b = rw (set_tx_self s.number b.tx) refl

  pub lift-on_session :
      (r : Result A) → ◌≡◌ {A = Action (Database C) A} (lift r) (on_session s (lift r))
  unfolding on_session lift
  lift-on_session r = fun_ext (λ b. untouched r b)

  pub pure-on_session : (a : A) → ◌≡◌ {A = Action (Database C) A} (pure a) (on_session s (pure a))
  unfolding on_session pure
  pure-on_session a = fun_ext (λ b. untouched (ok a) b)

module _ {C A B : Type 0} (s : AsyncSession) where
  -- A step on the session, in front of steps on it.
  pub then_shared :
      (m : Action (Database C) A) (n : Act C A) (g : A → Action (Database C) B) (f : A → Act C B)
      → m ≡ on_session s n
      → ((a : A) → g a ≡ on_session s (f a))
      → (m >>= g) ≡ on_session s (n >>= f)
  then_shared m n g f e h =
      ap (λ k. k >>= g) e ∙ ap (λ k. on_session s n >>= k) (fun_ext h) ∙ sym (on_session->>= s n f)

-- A request on a session of its own, as the one that the requests of the services' model run in.
module _ {C A : Type 0} (m : Act C A) (b : Database C) where
  pub session-in_session :
      let (r, b') = get_async_session (λ s. on_session s m) b in
      let (r', w') = in_session m (view (record { number = b.opened }) b) in
      (r ≡ r')
      × (b'.committed ≡ w'.committed)
      × (b'.cache ≡ w'.cache)
      × ((k : ℕ) → k < b.opened → b'.tx k ≡ b.tx k)
  unfolding get_async_session open_session close_session on_session in_session ◌>>=◌
  session-in_session =
      rw (set_tx-same b.opened b.committed b.tx)
        (refl, refl, refl, λ k h. set_tx-other b.opened k _ _ _ b.tx h)
