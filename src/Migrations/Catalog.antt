-- ===== src/Migrations/Catalog.antt =====
-- Tables of a database, the operations of `alembic.op`, and when PostgreSQL's documentation says
-- that they succeed, whatever rows there are.
use async_pulse.Prelude.{
  ℕ, String, str_eq, Bool, true, false, not, ◌≡◌, refl, ◌&&◌, ◌||◌, Option, none, some, List, [],
  ◌∷◌, ◌++◌, select, any, all, if◌then◌else◌,
}

-- `native_enum=False`: the labels are not in the database, the column has the length.
pub data ColumnType : Type 0 where
  uuid integer timestamptz : ColumnType
  string : (length : ℕ) → ColumnType
  enum_ : (labels : List String) (length : ℕ) → ColumnType

pub record Column : Type 0 where
  pub name : String
  pub type_ : ColumnType
  pub nullable : Bool
  pub server_default : Option String

pub data Constraint : Type 0 where
  primary_key : (columns : List String) → Constraint
  foreign_key :
      (columns : List String) (schema table column : String) (ondelete : String) → Constraint

pub record Index : Type 0 where
  pub name : String
  pub columns : List String
  pub unique : Bool

pub record Table : Type 0 where
  pub schema : String
  pub name : String
  pub columns : List Column
  pub constraints : List Constraint
  pub indexes : List Index

pub data Op : Type 0 where
  create_table :
      (name : String) (columns : List Column) (constraints : List Constraint) (schema : String) → Op
  drop_table : (name schema : String) → Op
  add_column : (table : String) (column : Column) (schema : String) → Op
  drop_column : (table column schema : String) → Op
  create_index :
      (name table : String) (columns : List String) (unique : Bool) (schema : String) → Op
  drop_index : (name table schema : String) → Op

pub record Catalog : Type 0 where
  pub schemas : List String
  pub tables : List Table

abbrev pub has_schema : String → Catalog → Bool
has_schema s c = any (str_eq s) c.schemas

abbrev pub is_table : String → String → Table → Bool
is_table s n t = str_eq t.schema s && str_eq t.name n

abbrev pub find_table : String → String → List Table → Option Table
find_table s n [] = none
find_table s n (t ∷ ts) = let rest = find_table s n ts in if is_table s n t then some t else rest

-- The first table of that name, changed.
abbrev pub alter_table : String → String → (Table → Table) → List Table → List Table
alter_table s n f [] = []
alter_table s n f (t ∷ ts) =
    let rest = alter_table s n f ts in if is_table s n t then f t ∷ ts else t ∷ rest

abbrev pub remove_table : String → String → List Table → List Table
remove_table s n [] = []
remove_table s n (t ∷ ts) =
    let rest = remove_table s n ts in if is_table s n t then ts else t ∷ rest

-- Tables and indexes of a schema share their names.
abbrev pub is_taken : String → String → List Table → Bool
is_taken s n =
    any (λ t. str_eq t.schema s && (str_eq t.name n || any (λ i. str_eq i.name n) t.indexes))

abbrev pub has_column : String → Table → Bool
has_column c t = any (λ d. str_eq d.name c) t.columns

abbrev pub constrains : String → Constraint → Bool
constrains c (primary_key cs) = any (str_eq c) cs
constrains c (foreign_key cs s t d ondelete) = any (str_eq c) cs

abbrev pub references : String → String → Constraint → Bool
references s n (primary_key cs) = false
references s n (foreign_key cs s' n' d ondelete) = str_eq s' s && str_eq n' n

abbrev pub is_referenced : String → String → List Table → Bool
is_referenced s n = any (λ t. any (references s n) t.constraints)

-- The table that a foreign key refers to is there, or is the new one.
abbrev refers_well : String → String → List Table → Constraint → Bool
refers_well s n ts (primary_key cs) = true
refers_well s n ts (foreign_key cs s' n' d ondelete) =
    (str_eq s' s && str_eq n' n) || any (is_table s' n') ts

abbrev has_default : Column → Bool
has_default c = c.nullable || elim c.server_default [ none ↦ false | some d ↦ true ]

abbrev guarded : {A : Type 0} → Bool → A → Option A
guarded true a = some a
guarded false a = none

abbrev in_table : String → String → (Table → Option Table) → Catalog → Option Catalog
in_table s n f c = elim (find_table s n c.tables) [
  | none ↦ none
  | some t ↦ elim (f t) [
    | none ↦ none
    | some t' ↦ some (record c { tables = alter_table s n (λ _. t') c.tables })
  ]
]

-- What an operation makes of the tables; `none` where it may be refused.
unfoldable pub apply : Op → Catalog → Option Catalog
apply (create_table n cs ks s) c =
    guarded (has_schema s c && not (is_taken s n c.tables) && all (refers_well s n c.tables) ks)
      (record c {
        tables =
            record { schema = s; name = n; columns = cs; constraints = ks; indexes = [] }
            ∷ c.tables;
      })
apply (drop_table n s) c =
    let rest = remove_table s n c.tables in
    guarded (any (is_table s n) c.tables && not (is_referenced s n rest))
      (record c { tables = rest })
apply (add_column n d s) c =
    in_table s n
      (λ t.
        guarded (not (has_column d.name t) && has_default d)
          (record t { columns = t.columns ++ d ∷ [] }))
      c
apply (drop_column n d s) c =
    in_table s n
      (λ t. guarded (has_column d t && not (any (constrains d) t.constraints)) (record t {
        columns = select (λ e. not (str_eq e.name d)) t.columns;
        indexes = select (λ i. not (any (str_eq d) i.columns)) t.indexes;
      }))
      c
apply (create_index i n cs u s) c =
    if is_taken s i c.tables
    then none
    else in_table s n
        (λ t.
          guarded (all (λ d. has_column d t) cs) (record t {
            indexes = t.indexes ++ record { name = i; columns = cs; unique = u } ∷ [];
          }))
        c
apply (drop_index i n s) c =
    in_table s n
      (λ t.
        guarded (any (λ j. str_eq j.name i) t.indexes)
          (record t { indexes = select (λ j. not (str_eq j.name i)) t.indexes }))
      c

infixl 5 ◌>>=◌
abbrev pub ◌>>=◌ : Option Catalog → (Catalog → Option Catalog) → Option Catalog
none >>= f = none
some c >>= f = f c

unfoldable pub apply_all : List Op → Catalog → Option Catalog
apply_all [] c = some c
apply_all (op ∷ ops) c = apply op c >>= apply_all ops

-- An operation that succeeds, and then the others.
pub apply_all-next :
    (op : Op) (ops : List Op) (c c₁ : Catalog)
    → apply op c ≡ some c₁
    → apply_all (op ∷ ops) c ≡ apply_all ops c₁
unfolding apply_all
apply_all-next op ops c c₁ h = rw (apply_all, h) refl

pub apply_all-append :
    (xs ys : List Op) (c : Catalog) → apply_all (xs ++ ys) c ≡ apply_all xs c >>= apply_all ys
unfolding apply_all
apply_all-append [] ys c = refl
apply_all-append (x ∷ xs) ys c = through (apply x c) (λ d. apply_all-append xs ys d)
  where
    through :
        (o : Option Catalog)
        → ((d : Catalog) → apply_all (xs ++ ys) d ≡ apply_all xs d >>= apply_all ys)
        → o >>= apply_all (xs ++ ys) ≡ (o >>= apply_all xs) >>= apply_all ys
    through none h = refl
    through (some d) h = h d
