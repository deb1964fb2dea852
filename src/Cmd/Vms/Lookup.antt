-- ===== src/Cmd/Vms/Lookup.antt =====
-- The snapshot that `restore` and `snapshot delete` look up.
use firecracker_lab.Prelude.{Text, ◌≡◌, refl, sym, ◌∙◌, ap, Option, none, some, inl, inr, arith}
use firecracker_lab.World.{
  sql, select_snapshot_name, Host, Error, Result, ok, err, World, Action, continue, call-cases,
  ◌>>=◌, logged,
}
use firecracker_lab.World.Rows.{SnapshotRow, Db}
use firecracker_lab.World.Keeps.{Keeps, keeping}
use firecracker_lab.World.Ends.{Ends, step, Keeps-at}
use firecracker_lab.State.Vms.{returns}
use firecracker_lab.State.Snapshots.{Snapshot, find_name, scan_row, scan_found, get_by_name}
use firecracker_lab.State.Snapshots.Effects.{get_by_name-Keeps}
use firecracker_lab.Cmd.Lookup.{IsSnapshotOf}
use firecracker_lab.Cmd.Vms.{known_snapshot}

known_snapshot-Keeps : (name : Text) (found : Option Snapshot) → Keeps (known_snapshot name found)
unfolding known_snapshot
known_snapshot-Keeps name none = search keeping
known_snapshot-Keeps name (some s) = search keeping

known_snapshot-ok :
    (name : Text) (row : Option SnapshotRow) (x : World) (s : Snapshot) (v : World)
    → continue (known_snapshot name) (scan_found row, x) ≡ (ok s, v)
    → (r : SnapshotRow) × (row ≡ some r) × (scan_row r ≡ ok s)
unfolding known_snapshot scan_found
known_snapshot-ok name none x s v h = absurd cc
known_snapshot-ok name (some r) x s v h = (r, refl, ground arith)

module _ (host : Host) where
  pub require_snapshot-Keeps : (name : Text) → Keeps (get_by_name host name >>= known_snapshot name)
  require_snapshot-Keeps name = search (keeping, get_by_name-Keeps, known_snapshot-Keeps) depth 8

  require_snapshot-ok :
      (name : Text) (w : World) (s : Snapshot) (v : World)
      → (get_by_name host name >>= known_snapshot name) w ≡ (ok s, v)
      → (r : SnapshotRow) × IsSnapshotOf name w.db.snapshots r s
  unfolding get_by_name returns
  require_snapshot-ok name w s v h = elim (call-cases host (sql (select_snapshot_name name)) w) [
    | inl e ↦ absurd (ground (arith, e, h))
    | inr e ↦
        let (r, found, scanned) =
          known_snapshot-ok name (find_name name w.db.snapshots)
            (logged (sql (select_snapshot_name name)) w) s v (ground (arith, e, h)) in
        (r, (found, scanned))
  ]

  module _ {B : Type 0} (db : Db) (w : World) (Q : Result B × World → Type 0) where
    pub snapshot_required :
        (name : Text) (f : Snapshot → Action B)
        → w.db ≡ db
        → ((s : Snapshot) (v : World)
            → v.db ≡ db
            → (r : SnapshotRow) → IsSnapshotOf name db.snapshots r s
            → Ends (f s) v Q)
        → ((e : Error) (v : World) → v.db ≡ db → Q (err e, v))
        → Ends ((get_by_name host name >>= known_snapshot name) >>= f) w Q
    snapshot_required name f same h k =
        step (get_by_name host name >>= known_snapshot name) f w Q
          (λ s v e.
            let (r, at) = require_snapshot-ok name w s v e in
            h s v (Keeps-at (require_snapshot-Keeps name) e ∙ same) r
              (ap (λ d. find_name name d.snapshots) (sym same) ∙ at.0, at.1))
          (λ x v e. k x v (Keeps-at (require_snapshot-Keeps name) e ∙ same))
