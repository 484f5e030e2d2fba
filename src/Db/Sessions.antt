-- ===== src/Db/Sessions.antt =====
-- src/db/session.py: several sessions over one database, each with a transaction of its own. An object
-- works on the session that it was given.
pub mod Shared
use async_pulse.Prelude.{
  ℕ, suc, String, ◌==◌, ◌≡◌, refl, ◌∙◌, sym, ap, true, false, Bool, if◌then◌else◌, arith,
}
use mathlib.Core.Path.{fun_ext}
use async_pulse.Python.Result.{Result, ok, err}
use async_pulse.Python.Action.{Action, pure, lift, ◌>>=◌, continue}
use async_pulse.Db.Tables.{Tables}
use async_pulse.Db.World.{World}
use async_pulse.Db.Act.{Act, in_session}

-- `tx n` is what session number n sees; `opened` sessions have been opened.
pub record Database (C : Type 0) : Type 0 where
  pub committed : Tables
  pub tx : ℕ → Tables
  pub opened : ℕ
  pub cache : C
  pub clock : ℕ → ℕ
  pub reads : ℕ
  pub uuid : ℕ → String
  pub drawn : ℕ

-- An `AsyncSession`, by its number.
pub record AsyncSession : Type 0 where
  pub number : ℕ

abbrev pub set_tx : ℕ → Tables → (ℕ → Tables) → ℕ → Tables
set_tx n t tx k = if n == k then t else tx k

module _ {C : Type 0} where
  -- What a request with that session sees.
  abbrev pub view : AsyncSession → Database C → World C
  view s b = record {
    committed = b.committed;
    tx = b.tx s.number;
    cache = b.cache;
    clock = b.clock;
    reads = b.reads;
    uuid = b.uuid;
    drawn = b.drawn;
  }

  -- The database after that session has been worked on.
  abbrev pub put_back : AsyncSession → Database C → World C → Database C
  put_back s b w = record {
    committed = w.committed;
    tx = set_tx s.number w.tx b.tx;
    opened = b.opened;
    cache = w.cache;
    clock = w.clock;
    reads = w.reads;
    uuid = w.uuid;
    drawn = w.drawn;
  }

  unfoldable pub on_session : {A : Type 0} → AsyncSession → Act C A → Action (Database C) A
  on_session s m b = let (r, w) = m (view s b) in (r, put_back s b w)

  -- `async_session_factory()`: a new session, which has not read anything yet.
  unfoldable pub open_session : Action (Database C) AsyncSession
  open_session b = (
    ok (record { number = b.opened }),
    record b { tx = set_tx b.opened b.committed b.tx; opened = suc b.opened },
  )

  -- `session.close()` at the end of `async with`: what was not committed is gone.
  unfoldable pub close_session : AsyncSession → Action (Database C) (Unit {0})
  close_session s b = (ok tt, record b { tx = set_tx s.number b.committed b.tx })

  -- `get_async_session`, around a request: the session is closed however the request ends.
  unfoldable pub get_async_session :
      {A : Type 0} → (AsyncSession → Action (Database C) A) → Action (Database C) A
  unfolding open_session close_session
  get_async_session request = do
    session ← open_session
    λ b. let (r, b') = request session b in (r, (close_session session b').1)
