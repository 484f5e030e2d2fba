-- ===== src/Db/Act/Tx/Weaken.antt =====
-- Stronger relations before an action, and weaker ones after it.
use async_pulse.Python.Result.{Result, ok, err}
use async_pulse.Db.Tables.{Tables}
use async_pulse.Db.World.{World}
use async_pulse.Db.Act.{Act}
use async_pulse.Db.Act.Tx.{Rel, Post, Tx}

-- A relation that holds however the action ends.
pub Post-both :
    {C A : Type 0} (P : Rel) (r : Result A) (w : World C)
    → Post (λ _. P) P (r, w)
    → P w.committed w.tx
Post-both P (ok a) w h = h
Post-both P (err e) w h = h

module _ {C A : Type 0} (Q R : A → Rel) (E : Rel) where
  Post-weaken :
      ((a : A) (c t : Tables) → Q a c t → R a c t)
      → (r : Result A) (w : World C) → Post Q E (r, w)
      → Post R E (r, w)
  Post-weaken h (ok a) w p = h a w.committed w.tx p
  Post-weaken h (err e) w p = p

module _ {C A : Type 0} {Q R : A → Rel} {E : Rel} where
  pub Tx-weaken :
      {P : Rel} {m : Act C A}
      → ((a : A) (c t : Tables) → Q a c t → R a c t)
      → Tx P m Q E
      → Tx P m R E
  Tx-weaken {P} {m} h hm = record { at = λ w p. Post-weaken Q R E h (m w).0 (m w).1 (hm.at w p) }

module _ {C A : Type 0} (Q : A → Rel) (E F : Rel) where
  Post-weaken_error :
      ((c t : Tables) → E c t → F c t)
      → (r : Result A) (w : World C) → Post Q E (r, w)
      → Post Q F (r, w)
  Post-weaken_error h (ok a) w p = p
  Post-weaken_error h (err e) w p = h w.committed w.tx p

module _ {C A : Type 0} {Q : A → Rel} {E F : Rel} where
  pub Tx-weaken_error :
      {P : Rel} {m : Act C A} → ((c t : Tables) → E c t → F c t) → Tx P m Q E → Tx P m Q F
  Tx-weaken_error {P} {m} h hm = record {
    at = λ w p. Post-weaken_error Q E F h (m w).0 (m w).1 (hm.at w p);
  }

-- A fact that does not depend on the tables may be used for the rest of the action.
module _ {C A : Type 0} {P : Rel} {F : Type 0} {m : Act C A} {Q : A → Rel} {E : Rel} where
  pub Tx-given : (F → Tx P m Q E) → Tx (λ c t. P c t × F) m Q E
  Tx-given h = record { at = λ w p. (h p.1).at w p.0 }

-- What is known of some value may be used for the value.
module _ {C A X : Type 0} {P : X → Rel} {m : Act C A} {Q : A → Rel} {E : Rel} where
  pub Tx-exists : ((x : X) → Tx (P x) m Q E) → Tx (λ c t. (x : X) × P x c t) m Q E
  Tx-exists h = record { at = λ w (x, p). (h x).at w p }

module _ {C A : Type 0} {P P' : Rel} {m : Act C A} {Q : A → Rel} {E : Rel} where
  pub Tx-from : ((c t : Tables) → P c t → P' c t) → Tx P' m Q E → Tx P m Q E
  Tx-from h hm = record { at = λ w p. hm.at w (h w.committed w.tx p) }
