-- ===== src/State/Vms.antt =====
-- The vms table (state/state.go: VM, AllocateAndInsert, Get, List, Remove, SetPorts,
-- CountVMsUsingImage). A slice argument that may be nil is an `Option`.
pub mod Slots
pub mod Ledger
pub mod Allocate
pub mod Complete
pub mod Reads
pub mod Effects
pub mod Sound
pub mod Advances
pub mod Registry
use firecracker_lab.Prelude.{
  Text, codes, ℕ, zero, suc, ℤ, ◌+◌, Bool, true, false, ◌||◌, Option, none, some, List, [], ◌∷◌,
  ◌++◌, ◌==◌, nat_eq, text_eq, if◌then◌else◌,
}
use firecracker_lab.World.{
  sql, Host, Error, message, wrap, Result, ok, err, World, Action, ⊤, pure, raise, gets, set_db,
  call, ◌>>=◌, ◌>>◌,
}
use firecracker_lab.World.{
  begin_immediate, commit, rollback, select_tap, insert_vm, select_vm, delete_vm, update_ports,
  list_vms, count_vms,
}
use firecracker_lab.World.Rows.{VmRow, Db}
use firecracker_lab.State.Names.{tap_name, vm_id, vm_ip, unit_name}
use firecracker_lab.State.Ports.{marshal_ports, unmarshal_ports}

pub record Vm : Type 0 where
  pub id : Text
  pub tap : Text
  pub ip : Text
  pub cid : ℕ
  pub vcpus : ℤ
  pub mem_mib : ℤ
  pub unit : Text
  pub ports : List ℤ

-- `SELECT 1 FROM vms WHERE tap = ?`
unfoldable pub has_tap : Text → List VmRow → Bool
has_tap tap [] = false
has_tap tap (r ∷ rows) = r.tap == tap || has_tap tap rows

-- The UNIQUE constraints and the primary key of the table.
pub clashes : VmRow → List VmRow → Bool
clashes v [] = false
clashes v (r ∷ rows) =
    (r.id == v.id || r.tap == v.tap || r.ip == v.ip || r.cid == v.cid) || clashes v rows

-- `SELECT ... FROM vms WHERE id = ?`
unfoldable pub find_vm : Text → List VmRow → Option VmRow
find_vm id [] = none
find_vm id (r ∷ rows) = if r.id == id then some r else find_vm id rows

-- `DELETE FROM vms WHERE id = ?`
unfoldable pub remove_vm : Text → List VmRow → List VmRow
remove_vm id [] = []
remove_vm id (r ∷ rows) = let rest = remove_vm id rows in if r.id == id then rest else r ∷ rest

-- `UPDATE vms SET ports = ? WHERE id = ?`
unfoldable pub write_ports : Text → Text → List VmRow → List VmRow
write_ports ports id [] = []
write_ports ports id (r ∷ rows) =
    (if r.id == id then record r { ports = ports } else r) ∷ write_ports ports id rows

-- `SELECT COUNT(*) FROM vms WHERE image_id = ?`
unfoldable pub count_image : Text → List VmRow → ℕ
count_image image [] = 0
count_image image (r ∷ rows) = (if refers r.image_id then 1 else 0) + count_image image rows
  where
    refers : Option Text → Bool
    refers none = false
    refers (some i) = i == image

-- `if ports == nil { ports = []int{} }`
unfoldable pub or_empty : Option (List ℤ) → List ℤ
or_empty none = []
or_empty (some ports) = ports

-- `sql.NullString` is not used: a NULL cannot be scanned into a string.
scan_text : Option Text → Result Text
scan_text none = err (message (codes "converting NULL to string is unsupported"))
scan_text (some t) = ok t

pub unmarshal_error : Text → Error
unmarshal_error id = wrap (codes "unmarshal ports for " ++ id) (message (codes "invalid JSON"))

unmarshal_row : VmRow → Text → Option (List ℤ) → Result Vm
unfolding unmarshal_error
unmarshal_row r unit none = err (unmarshal_error r.id)
unmarshal_row r unit (some ports) = ok (record {
  id = r.id;
  tap = r.tap;
  ip = r.ip;
  cid = r.cid;
  vcpus = r.vcpus;
  mem_mib = r.mem_mib;
  unit = unit;
  ports = ports;
})

-- `Scan` into the fields of a VM, and the unmarshalling of its ports.
unfoldable pub scan_vm : VmRow → Result Vm
unfolding scan_text unmarshal_row
scan_vm r = elim (scan_text r.unit) [
  | err e ↦ err e
  | ok unit ↦ unmarshal_row r unit (unmarshal_ports r.ports)
]

-- `sql.ErrNoRows` is a nil VM and no error.
unfoldable pub scan_found : Option VmRow → Result (Option Vm)
scan_found none = ok none
scan_found (some r) = elim (scan_vm r) [ err e ↦ err e | ok v ↦ ok (some v) ]

-- The loop over the rows stops at the first row that cannot be read.
unfoldable pub scan_vms : List VmRow → Result (List Vm)
scan_vms [] = ok []
scan_vms (r ∷ rows) = elim (scan_vm r) [
  | err e ↦ err e
  | ok v ↦ elim (scan_vms rows) [ err e ↦ err e | ok vs ↦ ok (v ∷ vs) ]
]

unfoldable pub returns : {A : Type 0} → Result A → Action A
returns r w = (r, w)

-- The VM of slot i.
unfoldable pub new_vm : ℕ → ℤ → ℤ → List ℤ → Vm
new_vm i vcpus mem_mib ports = record {
  id = vm_id i;
  tap = tap_name i;
  ip = vm_ip i;
  cid = 3 + i;
  vcpus = vcpus;
  mem_mib = mem_mib;
  unit = unit_name (vm_id i);
  ports = ports;
}

-- The row that INSERT writes for it.
unfoldable pub new_row : Vm → Option Text → VmRow
new_row v image = record {
  id = v.id;
  tap = v.tap;
  ip = v.ip;
  cid = v.cid;
  vcpus = v.vcpus;
  mem_mib = v.mem_mib;
  image_id = image;
  unit = some v.unit;
  ports = marshal_ports v.ports;
}

-- `if imageID != "" { imgID = imageID }`
unfoldable pub null_if_empty : Text → Option Text
null_if_empty [] = none
null_if_empty (c ∷ s) = some (c ∷ s)

abbrev pub slots : ℕ
slots = 1000

pub no_slots : Error
no_slots = message (codes "no available slots")

pub unique_error : Text → Error
unique_error id = message (codes "UNIQUE constraint failed: " ++ id)

module _ (host : Host) where
  -- `for i = range 1000`: the first index whose tap is not taken, with the rounds left.
  unfoldable pub find_slot : ℕ → ℕ → Action (Option ℕ)
  find_slot zero i = pure none
  find_slot (suc left) i = do
    call host (sql (select_tap (tap_name i)))
    taken ← gets (λ w. has_tap (tap_name i) w.db.vms)
    elim taken [ true ↦ find_slot left (suc i) | false ↦ pure (some i) ]

  insert_row : VmRow → Action ⊤
  unfolding clashes
  insert_row r = do
    call host (sql (insert_vm r.id))
    vms ← gets (λ w. w.db.vms)
    db ← gets (λ w. w.db)
    if clashes r vms then raise (unique_error r.id) else set_db (record db { vms = vms ++ r ∷ [] })

  -- The body of the transaction, between BEGIN IMMEDIATE and COMMIT.
  claim : ℤ → ℤ → Text → Option (List ℤ) → Option ℕ → Action Vm
  unfolding insert_row
  claim vcpus mem_mib image ports none = raise no_slots
  claim vcpus mem_mib image ports (some i) = do
    let v = new_vm i vcpus mem_mib (or_empty ports)
    insert_row (new_row v (null_if_empty image))
    call host (sql commit)
    pure v

  -- The deferred ROLLBACK: the database is as it was at `before`. Its own error is dropped.
  roll_back : {A : Type 0} → Db → Result A × World → Result A × World
  roll_back before (ok a, w) = (ok a, w)
  roll_back before (err e, w) = (err e, record (call host (sql rollback) w).1 { db = before })

  or_rollback : {A : Type 0} → Db → Action A → Action A
  unfolding roll_back
  or_rollback before m w = roll_back before (m w)

  unfoldable pub allocate_and_insert : ℤ → ℤ → Text → Option (List ℤ) → Action Vm
  unfolding or_rollback claim
  allocate_and_insert vcpus mem_mib image ports = do
    call host (sql begin_immediate)
    before ← gets (λ w. w.db)
    or_rollback before (find_slot slots 0 >>= claim vcpus mem_mib image ports)

  -- A nil VM, when there is no such row, is `none`.
  unfoldable pub get : Text → Action (Option Vm)
  get id = do
    call host (sql (select_vm id))
    row ← gets (λ w. find_vm id w.db.vms)
    returns (scan_found row)

  unfoldable pub list : Action (List Vm)
  list = do call host (sql list_vms); rows ← gets (λ w. w.db.vms); returns (scan_vms rows)

  unfoldable pub remove : Text → Action ⊤
  remove id = do
    call host (sql (delete_vm id))
    db ← gets (λ w. w.db)
    set_db (record db { vms = remove_vm id db.vms })

  unfoldable pub set_ports : Text → Option (List ℤ) → Action ⊤
  set_ports id ports = do
    call host (sql (update_ports id))
    db ← gets (λ w. w.db)
    set_db (record db { vms = write_ports (marshal_ports (or_empty ports)) id db.vms })

  unfoldable pub count_vms_using_image : Text → Action ℕ
  count_vms_using_image image = do
    call host (sql (count_vms image))
    gets (λ w. count_image image w.db.vms)
