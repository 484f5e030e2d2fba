-- ===== src/Migrations/Models.antt =====
-- What alembic/env.py makes of a database, against the models of src/modules.
use mathlib.Core.List.Perm
use mathlib.Core.List.{Perm}
use async_pulse.Prelude.{◌≡◌, map}
use async_pulse.Core.Settings.{Settings}
use async_pulse.Migrations.Catalog.{ColumnType, enum_, string, Column, Table}

-- The column that is made: an enumeration is a text of its length.
abbrev stored_type : ColumnType → ColumnType
stored_type (enum_ labels length) = string length
stored_type t = t

abbrev pub stored : Column → Column
stored c = record c { type_ = stored_type c.type_ }

-- The same table, whatever the order of its columns, constraints and indexes.
pub record Agrees (t u : Table) : Type 0 where
  pub schema : t.schema ≡ u.schema
  pub name : t.name ≡ u.name
  pub columns : Perm (map stored t.columns) (map stored u.columns)
  pub constraints : Perm t.constraints u.constraints
  pub indexes : Perm t.indexes u.indexes
