-- ===== src/Tests/Migrations.antt =====
-- The theorems on the migrations, applied to a database without the new columns.
use firecracker_lab.Prelude.{codes, ◌≡◌, refl, false, none, [], ◌∷◌}
use firecracker_lab.State.Migrations.{
  Table, Store, Answers, unit_column, altered, migrate_ports_column, migrate_unit_column,
}
use firecracker_lab.State.Migrations.Migrated.{
  PortsMigrated, migrate_ports_column-PortsMigrated, store_of, migrate_unit_column-altered,
}

abbrev never : Answers
never log q = false

abbrev old : Table
old = record {
  columns = codes "id" ∷ [];
  rows = record { id = codes "vm-0"; ports = none; unit = none } ∷ [];
}

abbrev store : Store
store = record { schema = record { vms = old; snapshots = old }; log = [] }

-- An interrupted run has added the column.
abbrev interrupted : Store
interrupted = record store { schema = record { vms = altered unit_column old; snapshots = old } }

migrate_ports_column-PortsMigrated_example :
    PortsMigrated store.schema (migrate_ports_column never store)
migrate_ports_column-PortsMigrated_example = migrate_ports_column-PortsMigrated never store

migrate_unit_column-altered_example :
    (store_of (migrate_unit_column never interrupted)).schema ≡ interrupted.schema
migrate_unit_column-altered_example = migrate_unit_column-altered never interrupted old refl
