-- ===== src/State/Snapshots.antt =====
-- The snapshots table (state/state.go: Snapshot, InsertSnapshot, GetSnapshotByName, scanSnapshot,
-- DeleteSnapshot, ListSnapshots).
pub mod Effects
use firecracker_lab.Prelude.{
  Text, codes, ℤ, Bool, true, false, ◌||◌, Option, none, some, List, [], ◌∷◌, ◌++◌, ◌==◌, text_eq,
  if◌then◌else◌,
}
use firecracker_lab.World.{
  sql, Host, Error, message, wrap, Result, ok, err, Action, ⊤, pure, raise, gets, set_db, call,
  ◌>>=◌, ◌>>◌,
}
use firecracker_lab.World.{insert_snapshot, select_snapshot_name, delete_snapshot, list_snapshots}
use firecracker_lab.World.Rows.{SnapshotRow, Db}
use firecracker_lab.State.Ports.{marshal_ports, unmarshal_ports}
use firecracker_lab.State.Vms.{or_empty, returns}

pub record Snapshot : Type 0 where
  pub id : Text
  pub name : Text
  pub dir : Text
  pub vcpus : ℤ
  pub mem_mib : ℤ
  pub ports : List ℤ

-- `SELECT ... FROM snapshots WHERE name = ?`
unfoldable pub find_name : Text → List SnapshotRow → Option SnapshotRow
find_name name [] = none
find_name name (r ∷ rows) = if r.name == name then some r else find_name name rows

-- `DELETE FROM snapshots WHERE id = ?`
unfoldable pub delete_id : Text → List SnapshotRow → List SnapshotRow
delete_id id [] = []
delete_id id (r ∷ rows) = let rest = delete_id id rows in if r.id == id then rest else r ∷ rest

-- The primary key and the UNIQUE constraint of the table.
unfoldable pub clashes : SnapshotRow → List SnapshotRow → Bool
clashes v [] = false
clashes v (r ∷ rows) = (r.id == v.id || r.name == v.name) || clashes v rows

unique_error : Text → Error
unique_error name = message (codes "UNIQUE constraint failed: " ++ name)

-- The row that INSERT writes.
unfoldable pub row_of : Snapshot → SnapshotRow
row_of s = record {
  id = s.id;
  name = s.name;
  dir = s.dir;
  vcpus = s.vcpus;
  mem_mib = s.mem_mib;
  ports = marshal_ports s.ports;
}

scan_ports : SnapshotRow → Option (List ℤ) → Result Snapshot
scan_ports r none =
    err (wrap (codes "unmarshal ports for snapshot " ++ r.name) (message (codes "invalid JSON")))
scan_ports r (some ports) = ok (record {
  id = r.id;
  name = r.name;
  dir = r.dir;
  vcpus = r.vcpus;
  mem_mib = r.mem_mib;
  ports = ports;
})

-- `Scan` into the fields of a snapshot, and the unmarshalling of its ports.
unfoldable pub scan_row : SnapshotRow → Result Snapshot
unfolding scan_ports
scan_row r = scan_ports r (unmarshal_ports r.ports)

-- `sql.ErrNoRows` is a nil snapshot and no error.
unfoldable pub scan_found : Option SnapshotRow → Result (Option Snapshot)
scan_found none = ok none
scan_found (some r) = elim (scan_row r) [ err e ↦ err e | ok s ↦ ok (some s) ]

-- The loop over the rows stops at the first row that cannot be read.
unfoldable pub scan_rows : List SnapshotRow → Result (List Snapshot)
scan_rows [] = ok []
scan_rows (r ∷ rows) = elim (scan_row r) [
  | err e ↦ err e
  | ok s ↦ elim (scan_rows rows) [ err e ↦ err e | ok ss ↦ ok (s ∷ ss) ]
]

module _ (host : Host) where
  unfoldable pub insert : Text → Text → ℤ → ℤ → Option (List ℤ) → Action Snapshot
  unfolding unique_error
  insert name dir vcpus mem_mib ports = do
    id ← gets (λ w. host.uuid w.log)
    let snap : Snapshot = record {
      id = id;
      name = name;
      dir = dir;
      vcpus = vcpus;
      mem_mib = mem_mib;
      ports = or_empty ports;
    }
    call host (sql (insert_snapshot name))
    db ← gets (λ w. w.db)
    if clashes (row_of snap) db.snapshots
        then raise (unique_error name)
        else (set_db (record db { snapshots = db.snapshots ++ row_of snap ∷ [] }) >> pure snap)

  unfoldable pub get_by_name : Text → Action (Option Snapshot)
  get_by_name name = do
    call host (sql (select_snapshot_name name))
    row ← gets (λ w. find_name name w.db.snapshots)
    returns (scan_found row)

  unfoldable pub delete : Text → Action ⊤
  delete id = do
    call host (sql (delete_snapshot id))
    db ← gets (λ w. w.db)
    set_db (record db { snapshots = delete_id id db.snapshots })

  unfoldable pub list : Action (List Snapshot)
  list = do
    call host (sql list_snapshots)
    rows ← gets (λ w. w.db.snapshots)
    returns (scan_rows rows)
