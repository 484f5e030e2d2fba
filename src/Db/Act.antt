-- ===== src/Db/Act.antt =====
-- Asynchronous methods of one request, as actions on the `World`: the clock, random identifiers,
-- the transaction of src/db/session.py, and src/db/unit_of_work.py.
pub mod Tx
pub mod Yields
use async_pulse.Prelude.{ℕ, suc, String, Bool, true, false}
use async_pulse.Python.Result.{Result, ok, err, dbapi_error}
use async_pulse.Python.DateTime.{DateTime, aware}
use async_pulse.Python.Action.{Action}
pub use async_pulse.Python.Action.{◌>>◌}
unfoldable pub use async_pulse.Python.Action.{
  pure, raise, lift, or_raise, require, ◌>>=◌, suppress, suppress_or, reraise,
}
use async_pulse.Db.Tables.{Tables, satisfies_constraints}
use async_pulse.Db.World.{World}

abbrev pub Act : Type 0 → Type 0 → Type 0
Act C A = Action (World C) A

module _ {C : Type 0} where
  -- `datetime.now(UTC)`
  unfoldable pub now : Act C DateTime
  now w = (ok (aware (w.clock w.reads)), record w { reads = suc w.reads })

  -- The number of the next random draw.
  unfoldable pub draw : Act C ℕ
  draw w = (ok w.drawn, record w { drawn = suc w.drawn })

  -- `str(uuid.uuid4())`
  unfoldable pub uuid4 : Act C String
  uuid4 w = (ok (w.uuid w.drawn), record w { drawn = suc w.drawn })

  unfoldable pub write : (Tables → Tables) → Act C (Unit {0})
  write f w = (ok tt, record w { tx = f w.tx })

  abbrev pub flushed : Bool → Act C (Unit {0})
  flushed true w = (ok tt, w)
  flushed false w = (err dbapi_error, record w { tx = w.committed })

  -- `session.flush()`: the database refuses rows that break a constraint, and the transaction is
  -- then rolled back.
  unfoldable pub flush : Act C (Unit {0})
  flush w = flushed (satisfies_constraints w.tx) w

  unfoldable pub commit : Act C (Unit {0})
  commit w = (ok tt, record w { committed = w.tx })

  unfoldable pub rollback : Act C (Unit {0})
  rollback w = (ok tt, record w { tx = w.committed })

unfoldable pub query : {C A : Type 0} → (Tables → A) → Act C A
query f w = (ok (f w.tx), w)

-- A request has a session of its own: what it has not committed is gone when it ends.
unfoldable pub in_session : {C A : Type 0} → Act C A → Act C A
in_session m w =
    let (r, w') = m (record w { tx = w.committed }) in (r, record w' { tx = w'.committed })

-- A proof that runs an action opens this, and with it every basic action.
unfoldable pub basic_actions : Unit {0}
unfolding ◌>>=◌ suppress suppress_or reraise now draw uuid4 write flush commit rollback query
basic_actions = tt
