-- ===== src/Db/Act/Tx/Flush.antt =====
-- A flush whose outcome is known: src/db/session.py.
use async_pulse.Prelude.{◌≡◌, refl, Bool, true, false}
use async_pulse.Db.Tables.{Tables, satisfies_constraints}
use async_pulse.Db.World.{World}
use async_pulse.Db.Act.{flushed, flush}
use async_pulse.Db.Act.Tx.{Rel, Post, Tx}

-- Where the constraints hold, the flush goes through.
flushed-true :
    {C : Type 0} (P E : Rel) (b : Bool) (w : World C)
    → P w.committed w.tx
    → b ≡ true
    → Post (λ _. P) E (flushed b w)
flushed-true P E true w p h = p
flushed-true P E false w p h = cc

module _ {C : Type 0} {P E : Rel} where
  pub Tx-flush_ok :
      ((c t : Tables) → P c t → satisfies_constraints t ≡ true) → Tx {C = C} P flush (λ _. P) E
  unfolding flush
  Tx-flush_ok holds = record {
    at = λ w p. flushed-true P E (satisfies_constraints w.tx) w p (holds w.committed w.tx p);
  }

-- After a flush that went through, the constraints hold.
flushed-checked :
    {C : Type 0} (Q E : Rel) (b : Bool) (w : World C)
    → (b ≡ true → Q w.committed w.tx)
    → E w.committed w.committed
    → Post (λ _. Q) E (flushed b w)
flushed-checked Q E true w h k = h refl
flushed-checked Q E false w h k = k

module _ {C : Type 0} {P Q E : Rel} where
  pub Tx-flush_checked :
      ((c t : Tables) → P c t → satisfies_constraints t ≡ true → Q c t)
      → ((c t : Tables) → P c t → E c c)
      → Tx {C = C} P flush (λ _. Q) E
  unfolding flush
  Tx-flush_checked h k = record {
    at = λ w p.
        flushed-checked Q E (satisfies_constraints w.tx) w (h w.committed w.tx p)
          (k w.committed w.tx p);
  }
