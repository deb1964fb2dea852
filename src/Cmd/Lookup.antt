-- ===== src/Cmd/Lookup.antt =====
-- The first steps of the commands: the database is opened, and the VM or the snapshot is looked up.
use firecracker_lab.Prelude.{
  Text, ℤ, ◌≡◌, refl, sym, ◌∙◌, ap, Option, none, some, List, inl, inr, arith,
}
use firecracker_lab.World.{
  sql, select_vm, Host, Error, Result, ok, err, World, Action, ⊤, continue, call-cases, ◌>>=◌,
  logged,
}
use firecracker_lab.World.Rows.{VmRow, SnapshotRow, Db}
use firecracker_lab.World.Keeps.{Keeps, keeping}
use firecracker_lab.World.Ends.{Ends, step, kept, Keeps-at}
use firecracker_lab.State.Vms.{Vm, find_vm, scan_vm, scan_found, get, returns}
use firecracker_lab.State.Vms.Effects.{get-Keeps}
use firecracker_lab.State.Snapshots.{Snapshot, find_name, scan_row}
use firecracker_lab.Runner.Lifecycle.Unrecorded.{IsReal}
use firecracker_lab.Cmd.{Config, new_runner, plain_runner, known_vm, load, require_vm}

-- The row of a VM, and the VM that is read from it.
abbrev pub IsRowOf : Text → List VmRow → VmRow → Vm → Type 0
IsRowOf id rows r u = (find_vm id rows ≡ some r) × (scan_vm r ≡ ok u)

-- The same for a snapshot.
abbrev pub IsSnapshotOf : Text → List SnapshotRow → SnapshotRow → Snapshot → Type 0
IsSnapshotOf name rows r s = (find_name name rows ≡ some r) × (scan_row r ≡ ok s)

pub new_runner-IsReal :
    (cfg : Config) (jailer_bin : Text) (uid gid : ℤ) → IsReal (new_runner cfg jailer_bin uid gid)
unfolding new_runner
new_runner-IsReal cfg jailer_bin uid gid = record {
  net_eq = refl;
  supervisor_eq = refl;
  forwarder_eq = refl;
}

pub plain_runner-IsReal : (cfg : Config) → IsReal (plain_runner cfg)
unfolding plain_runner
plain_runner-IsReal cfg = record { net_eq = refl; supervisor_eq = refl; forwarder_eq = refl }

known_vm-Keeps : (id : Text) (found : Option Vm) → Keeps (known_vm id found)
unfolding known_vm
known_vm-Keeps id none = search keeping
known_vm-Keeps id (some v) = search keeping

known_vm-ok :
    (id : Text) (row : Option VmRow) (x : World) (u : Vm) (v : World)
    → continue (known_vm id) (scan_found row, x) ≡ (ok u, v)
    → (r : VmRow) × (row ≡ some r) × (scan_vm r ≡ ok u)
unfolding known_vm scan_found
known_vm-ok id none x u v h = absurd cc
known_vm-ok id (some r) x u v h = (r, refl, ground arith)

module _ (host : Host) where
  pub load-Keeps : Keeps (load host)
  unfolding load
  load-Keeps = search keeping

  pub require_vm-Keeps : (id : Text) → Keeps (require_vm host id)
  unfolding require_vm
  require_vm-Keeps id = search (keeping, get-Keeps, known_vm-Keeps) depth 8

  require_vm-ok :
      (id : Text) (w : World) (u : Vm) (v : World)
      → require_vm host id w ≡ (ok u, v)
      → (r : VmRow) × IsRowOf id w.db.vms r u
  unfolding require_vm get returns
  require_vm-ok id w u v h = elim (call-cases host (sql (select_vm id)) w) [
    | inl e ↦ absurd (ground (arith, e, h))
    | inr e ↦
        let (r, found, scanned) =
          known_vm-ok id (find_vm id w.db.vms) (logged (sql (select_vm id)) w) u v
            (ground (arith, e, h)) in
        (r, (found, scanned))
  ]

  module _ {B : Type 0} (db : Db) (w : World) (Q : Result B × World → Type 0) where
    pub loaded :
        (f : ⊤ → Action B)
        → w.db ≡ db
        → ((a : ⊤) (v : World) → v.db ≡ db → Ends (f a) v Q)
        → ((e : Error) (v : World) → v.db ≡ db → Q (err e, v))
        → Ends (load host >>= f) w Q
    loaded f same h k = kept (load host) f w Q db load-Keeps same h k

    pub required :
        (id : Text) (f : Vm → Action B)
        → w.db ≡ db
        → ((u : Vm) (v : World) → v.db ≡ db → (r : VmRow) → IsRowOf id db.vms r u → Ends (f u) v Q)
        → ((e : Error) (v : World) → v.db ≡ db → Q (err e, v))
        → Ends (require_vm host id >>= f) w Q
    required id f same h k =
        step (require_vm host id) f w Q
          (λ u v e.
            let (r, at) = require_vm-ok id w u v e in
            h u v (Keeps-at (require_vm-Keeps id) e ∙ same) r
              (ap (λ d. find_vm id d.vms) (sym same) ∙ at.0, at.1))
          (λ x v e. k x v (Keeps-at (require_vm-Keeps id) e ∙ same))
