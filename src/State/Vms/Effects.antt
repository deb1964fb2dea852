-- ===== src/State/Vms/Effects.antt =====
-- What each operation on the vms table does to the state database, error or not.
use firecracker_lab.Prelude.{
  Text, ℕ, ℤ, ◌≡◌, refl, sym, ◌∙◌, ap, false, some, List, [], ◌∷◌, ◌++◌, text_eq, inl, inr, arith,
}
use firecracker_lab.World.{sql, delete_vm, update_ports, Host, Result, ok, err, World, call-cases}
use firecracker_lab.World.Rows.{VmRow, Db}
use firecracker_lab.World.Keeps.{Keeps, keeping}
use firecracker_lab.State.Names.{vm_id, tap_name}
use firecracker_lab.State.Names.Distinct.{vm_id_injective}
use firecracker_lab.State.Ports.{marshal_ports}
use firecracker_lab.State.Vms.{
  has_tap, remove_vm, write_ports, get, list, remove, set_ports, count_vms_using_image, returns,
  or_empty,
}
use firecracker_lab.State.Vms.Ledger.{IsLedger}

-- The database is `now` if the action succeeded, and `db` if it failed.
abbrev pub Becomes : {A : Type 0} → Db → Db → Result A × World → Type 0
Becomes db now (ok a, w) = w.db ≡ now
Becomes db now (err e, w) = w.db ≡ db

module _ (host : Host) where
  pub get-Keeps : (id : Text) → Keeps (get host id)
  unfolding get returns
  get-Keeps id = search keeping depth 8

  pub list-Keeps : Keeps (list host)
  unfolding list returns
  list-Keeps = search keeping depth 8

  pub count_vms_using_image-Keeps : (image : Text) → Keeps (count_vms_using_image host image)
  unfolding count_vms_using_image
  count_vms_using_image-Keeps image = search keeping depth 8

  module _ (w : World) (id : Text) where
    pub remove-Becomes :
        Becomes w.db (record w.db { vms = remove_vm id w.db.vms }) (remove host id w)
    unfolding remove
    remove-Becomes = elim (call-cases host (sql (delete_vm id)) w) [
      | inl e ↦ rw e refl
      | inr e ↦ rw e refl
    ]

    pub set_ports-Becomes :
        (ports : List ℤ)
        → Becomes w.db
            (record w.db { vms = write_ports (marshal_ports ports) id w.db.vms })
            (set_ports host id (some ports) w)
    unfolding set_ports or_empty
    set_ports-Becomes ports = elim (call-cases host (sql (update_ports id)) w) [
      | inl e ↦ rw e refl
      | inr e ↦ rw e refl
    ]

-- Deleting the row that was added for a free slot gives the table back.
pub remove_vm-append :
    (i : ℕ) (v : VmRow) (rows : List VmRow)
    → v.id ≡ vm_id i
    → IsLedger rows
    → has_tap (tap_name i) rows ≡ false
    → remove_vm (vm_id i) (rows ++ v ∷ []) ≡ rows
unfolding remove_vm has_tap
remove_vm-append i v [] hid sound free = ground (arith, hid)
remove_vm-append i v (r ∷ rows) hid (row, fresh, sound) free =
    ground (
      arith,
      remove_vm-append i v rows hid sound,
      vm_id_injective row.slot i,
      row.id_eq,
      row.tap_eq,
    )

-- The row of a free slot is not in the ledger.
remove_vm_free :
    (i : ℕ) (rows : List VmRow)
    → IsLedger rows
    → has_tap (tap_name i) rows ≡ false
    → remove_vm (vm_id i) rows ≡ rows
unfolding remove_vm has_tap
remove_vm_free i [] sound free = refl
remove_vm_free i (r ∷ rows) (row, fresh, sound) free =
    ground (arith, remove_vm_free i rows sound, vm_id_injective row.slot i, row.id_eq, row.tap_eq)

-- Deleting the first row of a ledger leaves the others.
pub remove_vm-head :
    (r : VmRow) (rows : List VmRow) → IsLedger (r ∷ rows) → remove_vm r.id (r ∷ rows) ≡ rows
unfolding remove_vm
remove_vm-head r rows (row, fresh, sound) = ground (
  arith,
  remove_vm_free row.slot rows sound (ap (λ tap. has_tap tap rows) (sym row.tap_eq) ∙ fresh),
  row.id_eq,
)
