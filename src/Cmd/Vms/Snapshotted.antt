-- ===== src/Cmd/Vms/Snapshotted.antt =====
-- What `labctl snapshot` does to the state database.
use firecracker_lab.Prelude.{
  Text, codes, ◌≡◌, refl, sym, ◌∙◌, ap, Option, none, some, [], ◌∷◌, ◌++◌, inl, inr, arith,
}
use firecracker_lab.Agent.{Codec}
use firecracker_lab.World.{
  Host, IsSqlUp, Result, ok, err, World, ⊤, sql, delete_vm, select_snapshot_name, sql-ok,
  call-cases, ◌>>=◌, wrapping,
}
use firecracker_lab.World.Rows.{VmRow, Db}
use firecracker_lab.World.Keeps.{Keeps, keeping, wrapping-Keeps}
use firecracker_lab.World.Ends.{Ends, step, kept, after, Keeps-at, wrapping-ok}
use firecracker_lab.State.Vms.{Vm, remove_vm, remove, returns}
use firecracker_lab.State.Vms.Effects.{Becomes}
use firecracker_lab.State.Snapshots.{Snapshot, find_name, scan_found, row_of, insert, get_by_name}
use firecracker_lab.State.Snapshots.Effects.{get_by_name-Keeps, insert-Becomes, new_snapshot}
use firecracker_lab.Runner.Lifecycle
use firecracker_lab.Runner.Lifecycle.Unrecorded.{snapshot-Keeps}
use firecracker_lab.Cmd.{Config, plain_runner, snapshot_dir}
use firecracker_lab.Cmd.Lookup.{IsRowOf, loaded, required, plain_runner-IsReal}
use firecracker_lab.Cmd.Vms.{snapshot, named, unused_name}

module _ (host : Host) (codec : Codec) (cfg : Config) where
  named-Keeps : (name : Text) → Keeps (named host codec cfg name)
  unfolding named
  named-Keeps [] = search keeping
  named-Keeps (c ∷ name) = search keeping

-- What the lookup of a snapshot returns.
get_by_name-ok :
    (host : Host) (name : Text) (w : World) (found : Option Snapshot) (v : World)
    → get_by_name host name w ≡ (ok found, v)
    → scan_found (find_name name w.db.snapshots) ≡ ok found
unfolding get_by_name returns
get_by_name-ok host name w found v h = elim (call-cases host (sql (select_snapshot_name name)) w) [
  | inl e ↦ absurd (ground (arith, e, h))
  | inr e ↦ ground (arith, e, h)
]

-- The snapshot of a VM.
abbrev pub snapshot_of : Text → Text → Text → Vm → Snapshot
snapshot_of key name dir u = record {
  id = key;
  name = name;
  dir = dir;
  vcpus = u.vcpus;
  mem_mib = u.mem_mib;
  ports = u.ports;
}

module _ (host : Host) (codec : Codec) (cfg : Config) (id name : Text) where
  -- What `snapshot` at database `db` has done, by how it ended.
  abbrev pub Snapshotted : Db → Result ⊤ × World → Type 0
  Snapshotted db (ok a, w) =
      (r : VmRow) × (u : Vm) × (x : World) × (y : World) × (key : Text) × IsRowOf id db.vms r u
      × (scan_found (find_name name db.snapshots) ≡ ok none)
      × (Lifecycle.snapshot host codec (plain_runner cfg) u (snapshot_dir cfg name) x ≡ (ok tt, y))
      × (w.db ≡ record db {
        vms = remove_vm id db.vms;
        snapshots = db.snapshots ++ row_of (snapshot_of key name (snapshot_dir cfg name) u) ∷ [];
      })
  Snapshotted db (err e, w) = w.db ≡ db

  module _ (up : IsSqlUp host) (db : Db) where
    -- The two statements behind the snapshot itself.
    recorded :
        (r : VmRow) (u : Vm) (x y : World)
        → IsRowOf id db.vms r u
        → scan_found (find_name name db.snapshots) ≡ ok none
        → Lifecycle.snapshot host codec (plain_runner cfg) u (snapshot_dir cfg name) x ≡ (ok tt, y)
        → y.db ≡ db
        → Ends
            (insert host name (snapshot_dir cfg name) u.vcpus u.mem_mib (some u.ports) >>= λ _.
              remove host id)
            y
            (Snapshotted db)
    recorded r u x y at fresh e same =
        after (insert host name (snapshot_dir cfg name) u.vcpus u.mem_mib (some u.ports)) _ y
          (Snapshotted db)
          (Becomes y.db (record y.db {
            snapshots =
                y.db.snapshots
                ++ row_of
                    (new_snapshot host y name (snapshot_dir cfg name) u.vcpus u.mem_mib u.ports)
                  ∷ [];
          }))
          (insert-Becomes host y name (snapshot_dir cfg name) u.vcpus u.mem_mib u.ports)
          (λ _ v s. record {
            ends =
                unfold remove in
                rw (sql-ok host (delete_vm id) v up)
                  (r, u, x, y, host.uuid y.log, at, fresh, e, rw (s, same) refl);
          })
          (λ _ v s. s ∙ same)

    unused_then :
        (u : Vm) (r : VmRow) (found : Option Snapshot) (v : World)
        → v.db ≡ db
        → IsRowOf id db.vms r u
        → scan_found (find_name name db.snapshots) ≡ ok found
        → Ends
            (unused_name name found >>= λ _.
              (wrapping
                  (codes "snapshot " ++ id)
                  (Lifecycle.snapshot host codec (plain_runner cfg) u (snapshot_dir cfg name))
                >>= λ _.
                    (insert host name (snapshot_dir cfg name) u.vcpus u.mem_mib (some u.ports)
                      >>= λ _. remove host id)))
            v
            (Snapshotted db)
    unused_then u r none v same at fresh =
        let m = Lifecycle.snapshot host codec (plain_runner cfg) u (snapshot_dir cfg name) in
        let keeps =
          snapshot-Keeps host codec (plain_runner cfg) (plain_runner-IsReal cfg) u
            (snapshot_dir cfg name) in
        record {
          ends =
              unfold unused_name in
              (step (wrapping (codes "snapshot " ++ id) m) _ v (Snapshotted db)
                (λ _ y e.
                  let e' = wrapping-ok (codes "snapshot " ++ id) m v e in
                  recorded r u v y at fresh e' (Keeps-at keeps e' ∙ same))
                (λ x y e.
                  Keeps-at (wrapping-Keeps (codes "snapshot " ++ id) m keeps) e ∙ same)).ends;
        }
    unused_then u r (some s) v same at fresh = record { ends = unfold unused_name in same }

  -- On a host whose database answers: a `snapshot` that succeeds has found the VM's row and no
  -- snapshot of that name, has saved the VM and torn it down, and then has added one snapshot
  -- with the processors, the memory and the ports of the VM, and deleted the VM's row; one that
  -- fails, at whatever step, leaves the database as it was.
  pub snapshot-Snapshotted :
      (w : World) → IsSqlUp host → Snapshotted w.db (snapshot host codec cfg id name w)
  unfolding snapshot
  snapshot-Snapshotted w up =
      (kept (named host codec cfg name) _ w (Snapshotted w.db) w.db
        (named-Keeps host codec cfg name) refl
        (λ _ v0 s0.
          loaded host w.db v0 (Snapshotted w.db) _ s0
            (λ _ v1 s1.
              required host w.db v1 (Snapshotted w.db) id _ s1
                (λ u v2 s2 r at.
                  step (get_by_name host name) _ v2 (Snapshotted w.db)
                    (λ found v3 e.
                      unused_then up w.db u r found v3
                        (Keeps-at (get_by_name-Keeps host name) e ∙ s2) at
                        (ap (λ d. scan_found (find_name name d.snapshots)) (sym s2)
                          ∙ get_by_name-ok host name v2 found v3 e))
                    (λ _ v3 e. Keeps-at (get_by_name-Keeps host name) e ∙ s2))
                (λ _ _ s. s))
            (λ _ _ s. s))
        (λ _ _ s. s)).ends
