-- ===== src/Cmd/Vms/Restored.antt =====
-- What `labctl restore` does to the state database.
use mathlib.Core.Path.{subst}
use firecracker_lab.Prelude.{
  Text, ℕ, ℤ, Bool, ◌≡◌, ◌<◌, refl, sym, ◌∙◌, ap, false, some, List, [], ◌∷◌, ◌++◌,
}
use firecracker_lab.Agent.{Codec}
use firecracker_lab.World.{Host, IsSqlUp, Result, ok, err, World, ⊤, delete_vm, sql-ok}
use firecracker_lab.World.Rows.{VmRow, SnapshotRow, Db}
use firecracker_lab.World.Ends.{Ends, after}
use firecracker_lab.State.Names.{tap_name, vm_id}
use firecracker_lab.State.Vms.{
  Vm, has_tap, slots, new_vm, new_row, or_empty, remove_vm, remove, allocate_and_insert,
}
use firecracker_lab.State.Vms.Slots.{Taken}
use firecracker_lab.State.Vms.Ledger.{IsLedger}
use firecracker_lab.State.Vms.Allocate.{row_of, Allocated, allocate_and_insert-Allocated}
use firecracker_lab.State.Vms.Effects.{remove_vm-append}
use firecracker_lab.State.Snapshots.{Snapshot}
use firecracker_lab.Runner.Lifecycle
use firecracker_lab.Runner.Lifecycle.Unrecorded.{restore-Keeps}
use firecracker_lab.Cmd.{Config, new_runner}
use firecracker_lab.Cmd.Lookup.{IsSnapshotOf, loaded, new_runner-IsReal}
use firecracker_lab.Cmd.Vms.Lookup.{snapshot_required}
use firecracker_lab.Cmd.Vms.{restore, boot_snapshot, after_restore}

module _ (host : Host) (codec : Codec) (cfg : Config) where
  module _ (name : Text) (uid gid : ℤ) (attach : Bool) (jailer_bin : Text) where
    -- What `restore` at database `db` has done, by how it ended.
    abbrev pub Restored : Db → Result ⊤ × World → Type 0
    Restored db (ok a, w) =
        (r : SnapshotRow) × (s : Snapshot) × (i : ℕ) × (x : World) × (y : World) × IsSnapshotOf name
          db.snapshots r s
        × (i < slots)
        × (has_tap (tap_name i) db.vms ≡ false)
        × Taken db.vms 0 i
        × (Lifecycle.restore host codec (new_runner cfg jailer_bin uid gid)
              (new_vm i s.vcpus s.mem_mib s.ports) s.dir attach x
            ≡ (ok tt, y))
        × (w.db ≡ record db { vms = db.vms ++ row_of s.vcpus s.mem_mib [] (some s.ports) i ∷ [] })
    Restored db (err e, w) = w.db ≡ db

  -- Removing the row that a restore has added.
  removed :
      (db : Db) (i : ℕ) (r : VmRow) (y : World)
      → IsSqlUp host
      → IsLedger db.vms
      → has_tap (tap_name i) db.vms ≡ false
      → r.id ≡ vm_id i
      → y.db ≡ record db { vms = db.vms ++ r ∷ [] }
      → (remove host (vm_id i) y).1.db ≡ db
  unfolding remove
  removed db i r y up sound free hid same = rw (sql-ok host (delete_vm (vm_id i)) y up) (
      ap {A = Db} (λ d. record d { vms = remove_vm (vm_id i) d.vms }) same
      ∙ ap {A = List VmRow} (λ vms. record db { vms = vms })
          (remove_vm-append i r db.vms hid sound free))

  module _ (name : Text) (uid gid : ℤ) (attach : Bool) (jailer_bin : Text) where
    boot_ends :
        (db : Db) (r : SnapshotRow) (s : Snapshot) (i : ℕ) (x : World)
        → (o : Result ⊤ × World)
        → Lifecycle.restore host codec
            (new_runner cfg jailer_bin uid gid)
            (new_vm i s.vcpus s.mem_mib s.ports)
            s.dir
            attach
            x
          ≡ o
        → IsSqlUp host
        → IsLedger db.vms
        → IsSnapshotOf name db.snapshots r s
        → i < slots
        → has_tap (tap_name i) db.vms ≡ false
        → Taken db.vms 0 i
        → o.1.db ≡ record db { vms = db.vms ++ row_of s.vcpus s.mem_mib [] (some s.ports) i ∷ [] }
        → Restored name uid gid attach jailer_bin db
            (after_restore host codec cfg (vm_id i) o.0 o.1)
    unfolding after_restore
    boot_ends db r s i x (ok a, y) e up sound at lt free below same =
        (r, s, i, x, y, at, lt, free, below, e, same)
    boot_ends db r s i x (err f, y) e up sound at lt free below same =
        removed db i (row_of s.vcpus s.mem_mib [] (some s.ports) i) y up sound free
          (unfold new_vm new_row in refl) same

    booted :
        (db : Db) (r : SnapshotRow) (s : Snapshot) (u : Vm) (x : World)
        → IsSqlUp host
        → IsLedger db.vms
        → IsSnapshotOf name db.snapshots r s
        → Allocated s.vcpus s.mem_mib [] (some s.ports) db (ok u, x)
        → Ends
            (boot_snapshot host codec cfg (new_runner cfg jailer_bin uid gid) attach s u)
            x
            (Restored name uid gid attach jailer_bin db)
    unfolding boot_snapshot or_empty
    booted db r s u x up sound at (i, lt, free, below, made, stored) = record {
      ends =
          subst
            (λ z.
              Restored name uid gid attach jailer_bin db
                (boot_snapshot host codec cfg (new_runner cfg jailer_bin uid gid) attach s z x))
            (sym made)
            (unfold new_vm in
              boot_ends db r s i x _ refl up sound at lt free below (
                (restore-Keeps host codec (new_runner cfg jailer_bin uid gid)
                    (new_runner-IsReal cfg jailer_bin uid gid) (new_vm i s.vcpus s.mem_mib s.ports)
                    s.dir attach).same_db
                  x
                ∙ stored));
    }

    -- On a host whose database answers, in a ledger: a `restore` that succeeds has booted the
    -- snapshot of that name in the VM of the lowest free slot and has added one row for it, with
    -- the processors, the memory and the ports of the snapshot; one that fails, at whatever step,
    -- leaves the database as it was.
    pub restore-Restored :
        (w : World)
        → IsSqlUp host
        → IsLedger w.db.vms
        → Restored name uid gid attach jailer_bin w.db
            (restore host codec cfg name uid gid attach jailer_bin w)
    unfolding restore
    restore-Restored w up sound =
        let Q : Result ⊤ × World → Type 0 = Restored name uid gid attach jailer_bin w.db in
        (loaded host w.db w Q _ refl
          (λ _ v1 s1.
            snapshot_required host w.db v1 Q name _ s1
              (λ s v2 s2 r at.
                after (allocate_and_insert host s.vcpus s.mem_mib [] (some s.ports)) _ v2 Q
                  (Allocated s.vcpus s.mem_mib [] (some s.ports) w.db)
                  (subst
                    (λ d.
                      Allocated s.vcpus s.mem_mib [] (some s.ports) d
                        (allocate_and_insert host s.vcpus s.mem_mib [] (some s.ports) v2))
                    s2 (allocate_and_insert-Allocated s.vcpus s.mem_mib [] (some s.ports) host v2))
                  (λ u x made. booted w.db r s u x up sound at made) (λ _ _ same. same))
              (λ _ _ s. s))
          (λ _ _ s. s)).ends
