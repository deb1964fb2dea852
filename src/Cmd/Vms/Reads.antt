-- ===== src/Cmd/Vms/Reads.antt =====
-- What `labctl snapshot` leaves for `labctl restore`.
use mathlib.Core.Path.{subst}
use firecracker_lab.Prelude.{Text, ◌≡◌, refl, Option, none, some, List, [], ◌∷◌, ◌++◌, arith}
use firecracker_lab.Agent.{Codec}
use firecracker_lab.World.{Host, IsSqlUp, ok, World, select_snapshot_name, sql-ok}
use firecracker_lab.World.Rows.{VmRow, SnapshotRow}
use firecracker_lab.State.Vms.{Vm, returns}
use firecracker_lab.State.Vms.Sound.{scan_vm-IsInt}
use firecracker_lab.State.Snapshots.{Snapshot, find_name, scan_row, scan_found, row_of, get_by_name}
use firecracker_lab.State.Snapshots.Effects.{scan_row-row_of, find_name-append}
use firecracker_lab.Cmd.{Config, snapshot_dir}
use firecracker_lab.Cmd.Lookup.{IsRowOf}
use firecracker_lab.Cmd.Vms.{snapshot}
use firecracker_lab.Cmd.Vms.Snapshotted.{Snapshotted, snapshot-Snapshotted, snapshot_of}

-- A lookup that returns no snapshot has found no row.
pub not_found : (row : Option SnapshotRow) → scan_found row ≡ ok none → row ≡ none
unfolding scan_found
not_found none h = refl
not_found (some r) h = ground arith

found_row : (r : SnapshotRow) (s : Snapshot) → scan_row r ≡ ok s → scan_found (some r) ≡ ok (some s)
unfolding scan_found
found_row r s h = rw (scan_found, h) refl

-- The row of a snapshot, behind rows with other names.
pub appended :
    (s : Snapshot) (rows : List SnapshotRow)
    → find_name s.name rows ≡ none
    → find_name s.name (rows ++ row_of s ∷ []) ≡ some (row_of s)
unfolding row_of
appended s rows h = find_name-append (row_of s) rows h

module _ (host : Host) (codec : Codec) (cfg : Config) (id name : Text) where
  -- After a `snapshot` that succeeds, on a host whose database answers, GetSnapshotByName returns a
  -- snapshot with the directory that was written and with the processors, the memory and the
  -- ports of the VM.
  pub get_by_name-snapshot :
      (w v : World)
      → IsSqlUp host
      → snapshot host codec cfg id name w ≡ (ok tt, v)
      → (r : VmRow) × (u : Vm) × (key : Text) × IsRowOf id w.db.vms r u
        × ((get_by_name host name v).0 ≡ ok (some (snapshot_of key name (snapshot_dir cfg name) u)))
  unfolding get_by_name returns
  get_by_name-snapshot w v up e =
      let (r, u, x, y, key, at, fresh, saved, same) =
        subst (Snapshotted host codec cfg id name w.db) e
          (snapshot-Snapshotted host codec cfg id name w up) in
      let s = snapshot_of key name (snapshot_dir cfg name) u in
      (
        r,
        u,
        key,
        at,
        rw
            (
              sql-ok host (select_snapshot_name name) v up,
              same,
              appended s w.db.snapshots (not_found (find_name name w.db.snapshots) fresh),
            )
            (found_row (row_of s) s (scan_row-row_of s (scan_vm-IsInt r u at.1))),
      )
