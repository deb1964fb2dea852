-- ===== src/State/Migrations.antt =====
-- The two migrations of package state (state/migrate_ports_column.go, state/migrate_unit.go), on a
-- database whose tables may lack a column. SQLite is known by its answers: whether a statement
-- fails, given those before it. The commands of cmd/ only call them.
pub mod Migrated
use firecracker_lab.Prelude.{
  Text, codes, Bool, true, false, ◌||◌, Option, none, some, List, [], ◌∷◌, ◌++◌, ◌==◌, text_eq, map,
  if◌then◌else◌,
}
use firecracker_lab.World.{⊤}

-- The columns of a row that the migrations read or write; NULL is `none`.
pub record Row : Type 0 where
  pub id : Text
  pub ports : Option Text
  pub unit : Option Text

pub record Table : Type 0 where
  pub columns : List Text
  pub rows : List Row

pub record Schema : Type 0 where
  pub vms : Table
  pub snapshots : Table

pub data TableName : Type 0 where
  vms_table snapshots_table : TableName

pub data Column : Type 0 where
  ports_column unit_column : Column

pub data Statement : Type 0 where
  table_info : TableName → Statement
  add_column fill_column : TableName → Column → Statement

pub record Store : Type 0 where
  pub schema : Schema
  pub log : List Statement

-- Whether a statement fails, behind those that were executed.
abbrev pub Answers : Type 0
Answers = List Statement → Statement → Bool

unfoldable pub column_name : Column → Text
column_name ports_column = codes "ports"
column_name unit_column = codes "unit"

unfoldable pub table_of : TableName → Schema → Table
table_of vms_table s = s.vms
table_of snapshots_table s = s.snapshots

unfoldable pub set_table : TableName → Table → Schema → Schema
set_table vms_table t s = record s { vms = t }
set_table snapshots_table t s = record s { snapshots = t }

unfoldable pub set_cell : Column → Option Text → Row → Row
set_cell ports_column cell r = record r { ports = cell }
set_cell unit_column cell r = record r { unit = cell }

unfoldable pub cell_of : Column → Row → Option Text
cell_of ports_column r = r.ports
cell_of unit_column r = r.unit

-- `'[]'`, and `'labctl-' || id`
unfoldable pub initial : Column → Row → Text
initial ports_column r = codes "[]"
initial unit_column r = codes "labctl-" ++ r.id

unfoldable pub has_name : Text → List Text → Bool
has_name name [] = false
has_name name (c ∷ columns) = c == name || has_name name columns

-- `ALTER TABLE ... ADD COLUMN ...`: the new cells are NULL.
unfoldable pub altered : Column → Table → Table
unfolding column_name
altered c t = record {
  columns = t.columns ++ column_name c ∷ [];
  rows = map (set_cell c none) t.rows;
}

unfoldable pub fill_cell : Column → Row → Option Text → Row
fill_cell c r none = set_cell c (some (initial c r)) r
fill_cell c r (some cell) = r

-- `UPDATE ... SET ... WHERE ... IS NULL`
unfoldable pub filled : Column → Table → Table
unfolding fill_cell
filled c t = record t { rows = map (λ r. fill_cell c r (cell_of c r)) t.rows }

-- A migration ends with or without an error.
pub data Outcome : Type 0 where
  done error : Store → Outcome

unfoldable pub then_do : Outcome → (Store → Outcome) → Outcome
then_do (done s) k = k s
then_do (error s) k = error s

module _ (fails : Answers) where
  -- One statement, and what it does to the schema if it does not fail.
  unfoldable pub execute : Statement → (Schema → Schema) → Store → Outcome
  execute q change s =
      if fails s.log q
      then error (record s { log = q ∷ s.log })
      else done (record { schema = change s.schema; log = q ∷ s.log })

  -- The column is added and filled, if the table does not have it.
  unfoldable pub add_missing : TableName → Column → Store → Outcome
  unfolding column_name
  add_missing n c s =
      if has_name (column_name c) (table_of n s.schema).columns
      then done s
      else then_do (execute (add_column n c) (λ d. set_table n (altered c (table_of n d)) d) s)
          (execute (fill_column n c) (λ d. set_table n (filled c (table_of n d)) d))

  unfoldable pub migrate_table : TableName → Column → Store → Outcome
  migrate_table n c s = then_do (execute (table_info n) (λ d. d) s) (add_missing n c)

  -- `MigratePortsColumn`
  unfoldable pub migrate_ports_column : Store → Outcome
  migrate_ports_column s =
      then_do (migrate_table vms_table ports_column s) (migrate_table snapshots_table ports_column)

  -- `MigrateUnitColumn`
  unfoldable pub migrate_unit_column : Store → Outcome
  migrate_unit_column s = migrate_table vms_table unit_column s
