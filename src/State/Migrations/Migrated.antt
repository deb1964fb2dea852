-- ===== src/State/Migrations/Migrated.antt =====
-- What the migrations have done, by how they ended.
use mathlib.Core.Path.{subst}
use firecracker_lab.Prelude.{
  Text, codes, Option, none, some, map, ◌≡◌, refl, ◌∙◌, ap, true, false, List, [], ◌∷◌, ◌++◌, ◌⊎◌,
  inl, inr, arith, Bool-cases,
}
use firecracker_lab.State.Migrations.{
  Row, cell_of, set_cell, initial, fill_cell, Table, Schema, Store, TableName, vms_table,
  snapshots_table, Column, ports_column, unit_column, Answers, table_info, add_column, fill_column,
  column_name, table_of, set_table, has_name, altered, filled, Outcome, done, error, then_do,
  execute, add_missing, migrate_table, migrate_ports_column, migrate_unit_column,
}

-- The table had the column and is as it was, or it lacked the column, which was added and filled.
abbrev pub Migrated : Column → Table → Table → Type 0
Migrated c t t' =
    ((has_name (column_name c) t.columns ≡ true) × (t' ≡ t))
    ⊎ ((has_name (column_name c) t.columns ≡ false) × (t' ≡ filled c (altered c t)))

-- The table is as it was, or the column was added to it and is NULL in every row.
abbrev pub HalfMigrated : Column → Table → Table → Type 0
HalfMigrated c t t' = (t' ≡ t) ⊎ ((has_name (column_name c) t.columns ≡ false) × (t' ≡ altered c t))

-- One table: the other one stays as it was.
abbrev TableMigrated : TableName → Column → Schema → Outcome → Type 0
TableMigrated n c d (done s) =
    (t' : Table) × Migrated c (table_of n d) t' × (s.schema ≡ set_table n t' d)
TableMigrated n c d (error s) =
    (t' : Table) × HalfMigrated c (table_of n d) t' × (s.schema ≡ set_table n t' d)

set_table-same : (n : TableName) (d : Schema) → d ≡ set_table n (table_of n d) d
unfolding set_table table_of
set_table-same vms_table d = refl
set_table-same snapshots_table d = refl

set_table-again :
    (n : TableName) (t : Table) (c : Column) (d : Schema)
    → set_table n (filled c (table_of n (set_table n t d))) (set_table n t d)
      ≡ set_table n (filled c t) d
unfolding set_table table_of
set_table-again vms_table t c d = refl
set_table-again snapshots_table t c d = refl

-- Both tables of a schema.
abbrev Both : Table → Table → Schema
Both t u = record { vms = t; snapshots = u }

-- The two migrations of MigratePortsColumn in order: after an error, the first
-- table is as it was, half migrated or migrated, and the second one as it was or half migrated.
abbrev InOrder : Schema → Outcome → Type 0
InOrder d (done s) =
    (t : Table) × (u : Table) × Migrated ports_column d.vms t
    × Migrated ports_column d.snapshots u
    × (s.schema ≡ Both t u)
InOrder d (error s) =
    (t : Table) × (u : Table) × (HalfMigrated ports_column d.vms t ⊎ Migrated ports_column d.vms t)
    × HalfMigrated ports_column d.snapshots u
    × (s.schema ≡ Both t u)

-- What `MigrateUnitColumn` has done.
abbrev pub UnitMigrated : Schema → Outcome → Type 0
UnitMigrated d o = TableMigrated vms_table unit_column d o

module _ (fails : Answers) where
  add_missing-TableMigrated :
      (n : TableName) (c : Column) (s : Store)
      → TableMigrated n c s.schema (add_missing fails n c s)
  unfolding add_missing execute then_do
  add_missing-TableMigrated n c s =
      elim (Bool-cases (has_name (column_name c) (table_of n s.schema).columns)) [
        | inl present ↦
            rw present (table_of n s.schema, inl (present, refl), set_table-same n s.schema)
        | inr absent ↦ rw absent (elim (Bool-cases (fails s.log (add_column n c))) [
          | inl f ↦ rw f (table_of n s.schema, inl refl, set_table-same n s.schema)
          | inr f ↦ rw f (elim (Bool-cases (fails (add_column n c ∷ s.log) (fill_column n c))) [
            | inl g ↦ rw g (altered c (table_of n s.schema), inr (absent, refl), refl)
            | inr g ↦ rw g (
              filled c (altered c (table_of n s.schema)),
              inr (absent, refl),
              set_table-again n (altered c (table_of n s.schema)) c s.schema,
            )
          ])
        ])
      ]

  migrate_table-TableMigrated :
      (n : TableName) (c : Column) (s : Store)
      → TableMigrated n c s.schema (migrate_table fails n c s)
  unfolding migrate_table execute then_do
  migrate_table-TableMigrated n c s = elim (Bool-cases (fails s.log (table_info n))) [
    | inl f ↦ rw f (table_of n s.schema, inl refl, set_table-same n s.schema)
    | inr f ↦
        rw f
          (add_missing-TableMigrated n c (record { schema = s.schema; log = table_info n ∷ s.log }))
  ]

  second :
      (d : Schema) (t : Table) (s : Store)
      → Migrated ports_column d.vms t
      → s.schema ≡ Both t d.snapshots
      → (o : Outcome) → TableMigrated snapshots_table ports_column s.schema o
      → InOrder d o
  unfolding set_table table_of
  second d t s h e (done v) (u, k, e') = (
    t,
    u,
    h,
    subst (λ (x : Schema). Migrated ports_column x.snapshots u) e k,
    e' ∙ ap (λ (x : Schema). Both x.vms u) e,
  )
  second d t s h e (error v) (u, k, e') = (
    t,
    u,
    inr h,
    subst (λ (x : Schema). HalfMigrated ports_column x.snapshots u) e k,
    e' ∙ ap (λ (x : Schema). Both x.vms u) e,
  )

  -- The second table, behind the first one.
  snapshots_after :
      (d : Schema) (o : Outcome)
      → TableMigrated vms_table ports_column d o
      → InOrder d (then_do o (migrate_table fails snapshots_table ports_column))
  unfolding then_do set_table table_of
  snapshots_after d (error s) (t, h, e) = (t, d.snapshots, inl h, inl refl, e)
  snapshots_after d (done s) (t, h, e) =
      second d t s h e (migrate_table fails snapshots_table ports_column s)
        (migrate_table-TableMigrated snapshots_table ports_column s)

  migrate_ports_column-InOrder : (s : Store) → InOrder s.schema (migrate_ports_column fails s)
  unfolding migrate_ports_column
  migrate_ports_column-InOrder s =
      snapshots_after s.schema (migrate_table fails vms_table ports_column s)
        (migrate_table-TableMigrated vms_table ports_column s)

-- A table with the column `ports` behind its own ones, and the same cell of it in each row.
abbrev pub with_ports : Option Text → Table → Table
with_ports cell t = record {
  columns = t.columns ++ codes "ports" ∷ [];
  rows = map (λ r. record { id = r.id; ports = cell; unit = r.unit }) t.rows;
}

-- The table had the column and is as it was, or it lacked it and has got it, with `[]` in each row.
abbrev pub HasPorts : Table → Table → Type 0
HasPorts t t' =
    ((has_name (codes "ports") t.columns ≡ true) × (t' ≡ t))
    ⊎ ((has_name (codes "ports") t.columns ≡ false) × (t' ≡ with_ports (some (codes "[]")) t))

-- The table is as it was, or it lacked the column and has got it, with NULL in each row.
abbrev pub HalfHasPorts : Table → Table → Type 0
HalfHasPorts t t' =
    (t' ≡ t) ⊎ ((has_name (codes "ports") t.columns ≡ false) × (t' ≡ with_ports none t))

filled_rows :
    (rows : List Row)
    → map
        (λ r. fill_cell ports_column r (cell_of ports_column r))
        (map (set_cell ports_column none) rows)
      ≡ map (λ r. record { id = r.id; ports = some (codes "[]"); unit = r.unit }) rows
unfolding fill_cell cell_of set_cell initial
filled_rows [] = refl
filled_rows (r ∷ rows) =
    ap (λ rs. record { id = r.id; ports = some (codes "[]"); unit = r.unit } ∷ rs)
      (filled_rows rows)

Migrated-HasPorts : (t t' : Table) → Migrated ports_column t t' → HasPorts t t'
unfolding column_name filled altered
Migrated-HasPorts t t' (inl h) = inl h
Migrated-HasPorts t t' (inr (absent, e)) = inr (
  absent,
  e
      ∙ ap (λ rs. record { columns = t.columns ++ codes "ports" ∷ []; rows = rs })
          (filled_rows t.rows),
)

HalfMigrated-HalfHasPorts : (t t' : Table) → HalfMigrated ports_column t t' → HalfHasPorts t t'
unfolding column_name altered set_cell
HalfMigrated-HalfHasPorts t t' h = h

-- What `MigratePortsColumn` at schema `d` has done, by how it ended: after an error, the first
-- table is as it was, half migrated or migrated, and the second one as it was or half migrated.
abbrev pub PortsMigrated : Schema → Outcome → Type 0
PortsMigrated d (done s) =
    (t : Table) × (u : Table) × HasPorts d.vms t
    × HasPorts d.snapshots u
    × (s.schema ≡ record { vms = t; snapshots = u })
PortsMigrated d (error s) =
    (t : Table) × (u : Table) × (HalfHasPorts d.vms t ⊎ HasPorts d.vms t)
    × HalfHasPorts d.snapshots u
    × (s.schema ≡ record { vms = t; snapshots = u })

InOrder-PortsMigrated : (d : Schema) (o : Outcome) → InOrder d o → PortsMigrated d o
InOrder-PortsMigrated d (done s) (t, u, h, k, e) =
    (t, u, Migrated-HasPorts d.vms t h, Migrated-HasPorts d.snapshots u k, e)
InOrder-PortsMigrated d (error s) (t, u, inl h, k, e) =
    (t, u, inl (HalfMigrated-HalfHasPorts d.vms t h), HalfMigrated-HalfHasPorts d.snapshots u k, e)
InOrder-PortsMigrated d (error s) (t, u, inr h, k, e) =
    (t, u, inr (Migrated-HasPorts d.vms t h), HalfMigrated-HalfHasPorts d.snapshots u k, e)

-- On any database, MigratePortsColumn without an error leaves each of the two tables as it was if
-- it had the column, and adds the column to it with '[]' in every row if it lacked it. An error
-- leaves a table as it was, or with the column and NULL in every row, or, if it is the first
-- table, migrated.
pub migrate_ports_column-PortsMigrated :
    (fails : Answers) (s : Store) → PortsMigrated s.schema (migrate_ports_column fails s)
migrate_ports_column-PortsMigrated fails s =
    InOrder-PortsMigrated s.schema (migrate_ports_column fails s)
      (migrate_ports_column-InOrder fails s)

has_name-append : (name : Text) (columns : List Text) → has_name name (columns ++ name ∷ []) ≡ true
unfolding has_name
has_name-append name [] = ground arith
has_name-append name (c ∷ columns) = ground (arith, has_name-append name columns)

-- A table has a column that was added to it.
altered-has_name : (c : Column) (t : Table) → has_name (column_name c) (altered c t).columns ≡ true
unfolding altered
altered-has_name c t = has_name-append (column_name c) t.columns

-- The store of an outcome.
abbrev pub store_of : Outcome → Store
store_of (done s) = s
store_of (error s) = s

-- A run of MigrateUnitColumn on a table to which the column was added but not filled, as an
-- interrupted run leaves it, changes nothing, whatever the database answers: the cells stay NULL.
pub migrate_unit_column-altered :
    (fails : Answers) (s : Store) (t : Table)
    → s.schema.vms ≡ altered unit_column t
    → (store_of (migrate_unit_column fails s)).schema ≡ s.schema
unfolding migrate_unit_column migrate_table add_missing execute then_do table_of
migrate_unit_column-altered fails s t h = elim (Bool-cases (fails s.log (table_info vms_table))) [
  | inl f ↦ rw f refl
  | inr f ↦ rw (f, h, altered-has_name unit_column t) refl
]
