-- ===== src/Db/World.antt =====
-- The state that a request works on.
use async_pulse.Prelude.{ℕ, zero, suc, String}
use async_pulse.Db.Tables.{Tables}

-- `committed` is what other transactions see, `tx` what this one sees. `cache` is the state of the
-- cache client. The clock shows `clock n` at its reading number n, and `uuid n` is the n-th random
-- identifier.
pub record World (C : Type 0) : Type 0 where
  pub committed : Tables
  pub tx : Tables
  pub cache : C
  pub clock : ℕ → ℕ
  pub reads : ℕ
  pub uuid : ℕ → String
  pub drawn : ℕ

-- The clock's reading after `k` more readings.
abbrev pub skip : ℕ → ℕ → ℕ
skip zero n = n
skip (suc k) n = suc (skip k n)

abbrev pub reading : {C : Type 0} → World C → ℕ → ℕ
reading w k = w.clock (skip k w.reads)

-- The request that follows sees what was committed.
abbrev pub next_request : {C : Type 0} → World C → World C
next_request w = record w { tx = w.committed }
