-- ===== src/State/Snapshots/Effects.antt =====
-- What each operation on the snapshots table does to the state database, and what it reads back.
use mathlib.Core.Path.{subst}
use firecracker_lab.Prelude.{
  Text, ℤ, ◌≡◌, refl, Option, none, some, List, [], ◌∷◌, ◌++◌, text_eq, inl, inr, arith, Bool-cases,
}
use firecracker_lab.Prelude.Lists.{All}
use firecracker_lab.World.{sql, insert_snapshot, delete_snapshot, Host, ok, World, call-cases}
use firecracker_lab.World.Rows.{SnapshotRow}
use firecracker_lab.World.Keeps.{Keeps, keeping}
use firecracker_lab.State.Vms.{returns, or_empty}
use firecracker_lab.State.Vms.Effects.{Becomes}
use firecracker_lab.State.Ports.{unmarshal_ports}
use firecracker_lab.State.Ports.Range.{unmarshal_ports-AllFit}
use firecracker_lab.State.Ports.RoundTrip.{IsInt, unmarshal_ports-marshal_ports}
use firecracker_lab.State.Snapshots.{
  Snapshot, find_name, delete_id, clashes, row_of, scan_row, scan_ports, insert, get_by_name,
  delete, list,
}

-- A snapshot is scanned as it was written.
pub scan_row-row_of : (s : Snapshot) → All IsInt s.ports → scan_row (row_of s) ≡ ok s
unfolding scan_row row_of
scan_row-row_of s fits = rw (unmarshal_ports-marshal_ports s.ports fits) refl

-- A row with a new name is found behind the others.
pub find_name-append :
    (r : SnapshotRow) (rows : List SnapshotRow)
    → find_name r.name rows ≡ none
    → find_name r.name (rows ++ r ∷ []) ≡ some r
unfolding find_name
find_name-append r [] h = ground arith
find_name-append r (s ∷ rows) h = ground (arith, find_name-append r rows)

module _ (host : Host) where
  pub get_by_name-Keeps : (name : Text) → Keeps (get_by_name host name)
  unfolding get_by_name returns
  get_by_name-Keeps name = search keeping depth 8

  pub list-Keeps : Keeps (list host)
  unfolding list returns
  list-Keeps = search keeping depth 8

  module _ (w : World) where
    pub delete-Becomes :
        (id : Text)
        → Becomes w.db (record w.db { snapshots = delete_id id w.db.snapshots }) (delete host id w)
    unfolding delete
    delete-Becomes id = elim (call-cases host (sql (delete_snapshot id)) w) [
      | inl e ↦ rw e refl
      | inr e ↦ rw e refl
    ]

    -- The snapshot that is inserted.
    abbrev pub new_snapshot : Text → Text → ℤ → ℤ → List ℤ → Snapshot
    new_snapshot name dir vcpus mem_mib ports = record {
      id = host.uuid w.log;
      name = name;
      dir = dir;
      vcpus = vcpus;
      mem_mib = mem_mib;
      ports = ports;
    }

    pub insert-Becomes :
        (name dir : Text) (vcpus mem_mib : ℤ) (ports : List ℤ)
        → Becomes w.db
            (record w.db {
              snapshots = w.db.snapshots ++ row_of (new_snapshot name dir vcpus mem_mib ports) ∷ [];
            })
            (insert host name dir vcpus mem_mib (some ports) w)
    unfolding insert or_empty
    insert-Becomes name dir vcpus mem_mib ports =
        elim (call-cases host (sql (insert_snapshot name)) w) [
          | inl e ↦ rw e refl
          | inr e ↦
              rw e
                (elim (Bool-cases
                  (clashes (row_of (new_snapshot name dir vcpus mem_mib ports)) w.db.snapshots)) [
                    | inl clash ↦ rw clash refl
                    | inr fine ↦ rw fine refl
                  ])
        ]

scan_ports-IsInt :
    (r : SnapshotRow) (parsed : Option (List ℤ)) (s : Snapshot)
    → unmarshal_ports r.ports ≡ parsed
    → scan_ports r parsed ≡ ok s
    → All IsInt s.ports
unfolding scan_ports
scan_ports-IsInt r none s e h = absurd cc
scan_ports-IsInt r (some ports) s e h =
    subst (λ ps. All IsInt ps) (ground (arith, h)) (unmarshal_ports-AllFit r.ports ports e)

-- The ports of a snapshot that was read are integers of 64 bits.
pub scan_row-IsInt : (r : SnapshotRow) (s : Snapshot) → scan_row r ≡ ok s → All IsInt s.ports
unfolding scan_row
scan_row-IsInt r s h = scan_ports-IsInt r (unmarshal_ports r.ports) s refl h
