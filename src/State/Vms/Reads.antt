-- ===== src/State/Vms/Reads.antt =====
-- What `Get` and `List` return, and how `Remove` and `SetPorts` change it.
use firecracker_lab.Prelude.{
  Text, ℤ, ◌≡◌, ◌≢◌, refl, sym, ◌∙◌, Option, none, some, List, [], ◌∷◌, text_eq, arith, ◌==◌,
  if◌then◌else◌,
}
use firecracker_lab.Prelude.Lists.{All}
use firecracker_lab.World.{
  select_vm, delete_vm, update_ports, list_vms, Host, IsSqlUp, ok, World, sql-ok,
}
use firecracker_lab.World.Rows.{VmRow}
use firecracker_lab.State.Names.{vm_id, unit_name}
use firecracker_lab.State.Ports.{marshal_ports}
use firecracker_lab.State.Ports.RoundTrip.{IsInt, unmarshal_ports-marshal_ports}
use firecracker_lab.State.Vms.{
  Vm, find_vm, remove_vm, write_ports, scan_vm, scan_vms, scan_found, get, list, remove, set_ports,
  or_empty, returns,
}
use firecracker_lab.State.Vms.Ledger.{IsLedger, IsSlotRow}

pub find_vm-remove_vm_self : (id : Text) (rows : List VmRow) → find_vm id (remove_vm id rows) ≡ none
unfolding find_vm remove_vm
find_vm-remove_vm_self id [] = refl
find_vm-remove_vm_self id (r ∷ rows) = ground (arith, find_vm-remove_vm_self id rows)

pub find_vm-remove_vm_ne :
    (id j : Text) (rows : List VmRow) → j ≢ id → find_vm j (remove_vm id rows) ≡ find_vm j rows
unfolding find_vm remove_vm
find_vm-remove_vm_ne id j [] ne = refl
find_vm-remove_vm_ne id j (r ∷ rows) ne = ground (arith, find_vm-remove_vm_ne id j rows ne)

pub find_vm-write_ports_ne :
    (text id j : Text) (rows : List VmRow)
    → j ≢ id
    → find_vm j (write_ports text id rows) ≡ find_vm j rows
unfolding find_vm write_ports
find_vm-write_ports_ne text id j [] ne = refl
find_vm-write_ports_ne text id j (r ∷ rows) ne =
    ground (arith, find_vm-write_ports_ne text id j rows ne)

find_vm-write_ports_self :
    (text id : Text) (rows : List VmRow) {r : VmRow}
    → find_vm id rows ≡ some r
    → find_vm id (write_ports text id rows) ≡ some (record r { ports = text })
unfolding find_vm write_ports
find_vm-write_ports_self text id [] {r} h = cc
find_vm-write_ports_self text id (s ∷ rows) {r} h =
    ground (arith, find_vm-write_ports_self text id rows {r = r})

-- The VM that a row of the ledger stands for.
abbrev pub vm_of : (r : VmRow) → IsSlotRow r → Vm
vm_of r row = record {
  id = r.id;
  tap = r.tap;
  ip = r.ip;
  cid = r.cid;
  vcpus = r.vcpus;
  mem_mib = r.mem_mib;
  unit = unit_name (vm_id row.slot);
  ports = row.forwarded;
}

pub scan_vm-ok : (r : VmRow) (row : IsSlotRow r) → scan_vm r ≡ ok (vm_of r row)
unfolding scan_vm
scan_vm-ok r row =
    ground
      (arith, row.unit_eq, row.ports_eq, unmarshal_ports-marshal_ports row.forwarded row.ports_fit)

-- The VMs of a ledger, in the order of its rows.
abbrev pub vms_of : (rows : List VmRow) → IsLedger rows → List Vm
vms_of [] sound = []
vms_of (r ∷ rows) (row, _, sound) = vm_of r row ∷ vms_of rows sound

scan_vms-ok : (rows : List VmRow) (sound : IsLedger rows) → scan_vms rows ≡ ok (vms_of rows sound)
unfolding scan_vms
scan_vms-ok [] sound = refl
scan_vms-ok (r ∷ rows) (row, fresh, sound) =
    ground (arith, scan_vm-ok r row, scan_vms-ok rows sound)

module _ (host : Host) (w : World) (up : IsSqlUp host) where
  -- On a host whose database answers, a ledger is listed without error, each row as the VM of its
  -- slot.
  pub list-vms_of : (sound : IsLedger w.db.vms) → (list host w).0 ≡ ok (vms_of w.db.vms sound)
  unfolding list returns
  list-vms_of sound = rw (sql-ok host list_vms w up, scan_vms-ok w.db.vms sound) refl

  pub get-scan_found : (id : Text) → (get host id w).0 ≡ scan_found (find_vm id w.db.vms)
  unfolding get returns
  get-scan_found id = rw (sql-ok host (select_vm id) w up)

-- After `Remove`, on a host whose database answers, the VM is not found.
pub get-remove :
    (host : Host) (w : World) (id : Text)
    → IsSqlUp host
    → (get host id (remove host id w).1).0 ≡ ok none
unfolding remove
get-remove host w id up =
    get-scan_found host _ up id
    ∙ rw (sql-ok host (delete_vm id) w up, find_vm-remove_vm_self) (unfold scan_found in refl)

-- After `Remove`, on a host whose database answers, every other VM reads as before.
pub get-remove_ne :
    (host : Host) (w : World) (id j : Text)
    → IsSqlUp host
    → j ≢ id
    → (get host j (remove host id w).1).0 ≡ (get host j w).0
unfolding remove
get-remove_ne host w id j up ne =
    get-scan_found host _ up j
    ∙ rw (sql-ok host (delete_vm id) w up, find_vm-remove_vm_ne id j w.db.vms ne)
        (sym (get-scan_found host w up j))

scan_found-ports :
    (r : VmRow) (ports : List ℤ) {v : Vm}
    → All IsInt ports
    → scan_found (some r) ≡ ok (some v)
    → scan_found (some (record r { ports = marshal_ports ports }))
      ≡ ok (some (record v { ports = ports }))
unfolding scan_found scan_vm
scan_found-ports r ports fits h = ground (arith, unmarshal_ports-marshal_ports ports fits)

pub found_again :
    (id : Text) (rows : List VmRow) (row : Option VmRow) (ports : List ℤ) {v : Vm}
    → find_vm id rows ≡ row
    → All IsInt ports
    → scan_found row ≡ ok (some v)
    → scan_found (find_vm id (write_ports (marshal_ports ports) id rows))
      ≡ ok (some (record v { ports = ports }))
found_again id rows none ports e fits h = absurd (unfold scan_found in cc)
found_again id rows (some r) ports e fits h =
    rw (find_vm-write_ports_self (marshal_ports ports) id rows e) (scan_found-ports r ports fits h)

-- After `SetPorts` with integers of 64 bits, on a host whose database answers, a VM that was found
-- has the ports that were given and is otherwise as it was.
pub get-set_ports :
    (host : Host) (w : World) (id : Text) (ports : List ℤ) (v : Vm)
    → IsSqlUp host
    → All IsInt ports
    → (get host id w).0 ≡ ok (some v)
    → (get host id (set_ports host id (some ports) w).1).0 ≡ ok (some (record v { ports = ports }))
unfolding set_ports or_empty
get-set_ports host w id ports v up fits found =
    get-scan_found host _ up id
    ∙ rw (sql-ok host (update_ports id) w up) (
        found_again id w.db.vms (find_vm id w.db.vms) ports refl fits
          (sym (get-scan_found host w up id) ∙ found))

-- After `SetPorts`, on a host whose database answers, every other VM reads as before.
pub get-set_ports_ne :
    (host : Host) (w : World) (id j : Text) (ports : List ℤ)
    → IsSqlUp host
    → j ≢ id
    → (get host j (set_ports host id (some ports) w).1).0 ≡ (get host j w).0
unfolding set_ports or_empty
get-set_ports_ne host w id j ports up ne =
    get-scan_found host _ up j
    ∙ rw
        (
          sql-ok host (update_ports id) w up,
          find_vm-write_ports_ne (marshal_ports ports) id j w.db.vms ne,
        )
        (sym (get-scan_found host w up j))

-- After `Remove`, on a host whose database answers, the VM is not found, and every other id reads
-- as before.
pub get-remove_at :
    (host : Host) (w : World) (id j : Text)
    → IsSqlUp host
    → (get host j (remove host id w).1).0 ≡ (if j == id then ok none else (get host j w).0)
get-remove_at host w id j up = ground (arith, get-remove host w id up, get-remove_ne host w id j up)

-- After `SetPorts` with integers of 64 bits, on a host whose database answers, a VM that was found
-- has the ports that were given and is otherwise as it was, and every other id reads as before.
pub get-set_ports_at :
    (host : Host) (w : World) (id j : Text) (ports : List ℤ) (v : Vm)
    → IsSqlUp host
    → All IsInt ports
    → (get host id w).0 ≡ ok (some v)
    → (get host j (set_ports host id (some ports) w).1).0
      ≡ (if j == id then ok (some (record v { ports = ports })) else (get host j w).0)
get-set_ports_at host w id j ports v up fits found =
    ground
      (arith, get-set_ports host w id ports v up fits found, get-set_ports_ne host w id j ports up)
