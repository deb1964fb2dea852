-- ===== src/Cmd/Vms/Moved.antt =====
-- `labctl snapshot` and then `labctl restore` of that snapshot.
use mathlib.Core.Path.{subst}
use firecracker_lab.Prelude.{
  Text, ℕ, ℤ, Bool, ◌≡◌, ◌<◌, sym, ◌∙◌, ap, false, some, List, [], ◌∷◌, ◌++◌, arith,
}
use firecracker_lab.Agent.{Codec}
use firecracker_lab.World.{Host, IsSqlUp, Result, ok, err, World, ⊤}
use firecracker_lab.World.Rows.{VmRow, SnapshotRow, Db}
use firecracker_lab.State.Names.{tap_name}
use firecracker_lab.State.Vms.{Vm, has_tap, slots, new_vm, remove_vm}
use firecracker_lab.State.Vms.Ledger.{IsLedger, remove_vm-IsLedger}
use firecracker_lab.State.Vms.Allocate
use firecracker_lab.State.Vms.Sound.{scan_vm-IsInt}
use firecracker_lab.State.Snapshots.{Snapshot, find_name, scan_row, row_of}
use firecracker_lab.State.Snapshots.Effects.{scan_row-row_of}
use firecracker_lab.Runner.Lifecycle
use firecracker_lab.Cmd.{Config, new_runner, snapshot_dir}
use firecracker_lab.Cmd.Lookup.{IsRowOf, IsSnapshotOf}
use firecracker_lab.Cmd.Vms.{snapshot, restore}
use firecracker_lab.Cmd.Vms.Reads.{appended, not_found}
use firecracker_lab.Cmd.Vms.Restored.{Restored, restore-Restored}
use firecracker_lab.Cmd.Vms.Snapshotted.{Snapshotted, snapshot-Snapshotted, snapshot_of}

-- One text scans as one snapshot.
same_scan :
    (rows : List SnapshotRow) (name : Text) (r r' : SnapshotRow) (s s' : Snapshot)
    → find_name name rows ≡ some r
    → scan_row r ≡ ok s
    → IsSnapshotOf name rows r' s'
    → s' ≡ s
same_scan rows name r r' s s' found scanned (found', scanned') = ground arith

module _ (host : Host) (codec : Codec) (cfg : Config) (id name : Text) where
  ledger_after :
      (db : Db) (v : World)
      → Snapshotted host codec cfg id name db (ok tt, v)
      → IsLedger db.vms
      → IsLedger v.db.vms
  ledger_after db v (r, u, x, y, key, at, fresh, saved, same) sound =
      subst (λ d. IsLedger d.vms) (sym same) (remove_vm-IsLedger id db.vms sound)

  module _ (uid gid : ℤ) (attach : Bool) (jailer_bin : Text) where
    -- What snapshot at database `db` and then restore have done, by how the restore ended.
    abbrev pub Moved : Db → Result ⊤ × World → Type 0
    Moved db (ok a, w) =
        (r : VmRow) × (u : Vm) × (i : ℕ) × (x : World) × (y : World) × IsRowOf id db.vms r u
        × (i < slots)
        × (has_tap (tap_name i) (remove_vm id db.vms) ≡ false)
        × (Lifecycle.restore host codec (new_runner cfg jailer_bin uid gid)
              (new_vm i u.vcpus u.mem_mib u.ports) (snapshot_dir cfg name) attach x
            ≡ (ok tt, y))
        × (w.db.vms
            ≡ remove_vm id db.vms ++ Allocate.row_of u.vcpus u.mem_mib [] (some u.ports) i ∷ [])
    Moved db (err e, w) = w.db.vms ≡ remove_vm id db.vms

    moved :
        (db : Db) (v : World) (o : Result ⊤ × World)
        → Snapshotted host codec cfg id name db (ok tt, v)
        → Restored host codec cfg name uid gid attach jailer_bin v.db o
        → Moved db o
    moved db v (err e, w) (r, u, x, y, key, at, fresh, saved, same) kept =
        ap (λ d. d.vms) (kept ∙ same)
    moved db v (ok a, w) (r, u, x, y, key, at, fresh, saved, same)
          (r', s', i, x', y', at', lt, free, below, booted, stored) =
        let s = snapshot_of key name (snapshot_dir cfg name) u in
        let found = subst (λ d. IsSnapshotOf name d.snapshots r' s') same at' in
        let e =
          same_scan _ name (row_of s) r' s s'
            (appended s db.snapshots (not_found (find_name name db.snapshots) fresh))
            (scan_row-row_of s (scan_vm-IsInt r u at.1)) found in
        (
          r,
          u,
          i,
          x',
          y',
          at,
          lt,
          subst (λ d. has_tap (tap_name i) d.vms ≡ false) same free,
          subst
              (λ z.
                Lifecycle.restore host codec (new_runner cfg jailer_bin uid gid)
                  (new_vm i z.vcpus z.mem_mib z.ports) z.dir attach x'
                ≡ (ok tt, y'))
              e booted,
          ap (λ d. d.vms) stored
              ∙ ap (λ d. d.vms ++ Allocate.row_of s'.vcpus s'.mem_mib [] (some s'.ports) i ∷ [])
                  same
              ∙ ap
                  (λ z.
                    remove_vm id db.vms
                    ++ Allocate.row_of z.vcpus z.mem_mib [] (some z.ports) i ∷ [])
                  e,
        )

    -- On a host whose database answers, in a ledger, after a snapshot that succeeded: a restore of
    -- it that succeeds has booted, from the directory of the snapshot, a VM of a slot below 1000
    -- whose tap no other row has, with the processors, the memory and the ports of the old VM, and
    -- the rows with the old id have given way to the row of that VM; a restore that fails leaves
    -- the vms table as the snapshot has left it.
    pub restore-snapshot :
        (w v : World)
        → IsSqlUp host
        → IsLedger w.db.vms
        → snapshot host codec cfg id name w ≡ (ok tt, v)
        → Moved w.db (restore host codec cfg name uid gid attach jailer_bin v)
    restore-snapshot w v up sound e =
        let snapped =
          subst (Snapshotted host codec cfg id name w.db) e
            (snapshot-Snapshotted host codec cfg id name w up) in
        let ledger : IsLedger v.db.vms = ledger_after w.db v snapped sound in
        moved w.db v (restore host codec cfg name uid gid attach jailer_bin v) snapped
          (restore-Restored host codec cfg name uid gid attach jailer_bin v up ledger)
