-- ===== src/Cmd/Reachable/Interleaved.antt =====
-- Commands on the ports of VMs that run at the same time (cmd/ports.go). Each reads the VM with
-- Get and writes all its ports with SetPorts; other statements may come in between.
pub mod Lost
use mathlib.Core.Path.{subst}
use firecracker_lab.Prelude.{
  Text, ℕ, ℤ, ◌≡◌, ◌≢◌, refl, sym, ap, ◌∙◌, Bool, true, false, Option, none, some, List, [], ◌∷◌,
  ◌++◌, ◌==◌, nat_eq, int_eq, if◌then◌else◌, ℕ_discrete, arith, Bool-cases, inl, inr,
}
use firecracker_lab.Prelude.Lists.{All, All-append}
use firecracker_lab.Agent.{Codec}
use firecracker_lab.World.{Host, ok, World}
use firecracker_lab.World.Rows.{VmRow}
use firecracker_lab.State.Ports.{marshal_ports}
use firecracker_lab.State.Ports.RoundTrip.{IsInt}
use firecracker_lab.State.Vms.{Vm, find_vm, scan_vm, scan_found, write_ports}
use firecracker_lab.State.Vms.Ledger.{IsLedger, write_ports-IsLedger}
use firecracker_lab.State.Vms.Reads.{found_again}
use firecracker_lab.State.Vms.Sound.{scan_vm-IsInt}
use firecracker_lab.Cmd.{Config}
use firecracker_lab.Cmd.Lookup.{IsRowOf}
use firecracker_lab.Cmd.Ports.{add, rm, atoi, contains, without}
use firecracker_lab.Cmd.Ports.Range.{atoi-IsInt, without-All}
use firecracker_lab.Cmd.Ports.Recorded.{Changed, Stored, add-Changed, rm-without}
use firecracker_lab.Cmd.Reachable.{Command, execute}
use firecracker_lab.Cmd.Reachable.Ledger.{execute-Advances}

pub data Edit : Type 0 where
  adding removing : Edit

-- Whether the port must be there, and what is stored.
abbrev pub wants : Edit → Bool
wants adding = false
wants removing = true

abbrev pub change : Edit → ℤ → List ℤ → List ℤ
change adding port ports = ports ++ port ∷ []
change removing port ports = without port ports

-- Where a `ports add` or a `ports rm` stands: before Get; between Get and SetPorts, with the port
-- and the ports that Get returned; behind SetPorts, or behind an error.
pub data Phase : Type 0 where
  ready : Edit → Text → Text → Phase
  holding : Edit → Text → ℤ → List ℤ → Phase
  stored failed : Phase

pub data Move (rows : List VmRow) : Phase → List VmRow → Phase → Type 0 where
  read :
      {e : Edit} {id arg : Text} {port : ℤ} (r : VmRow) (u : Vm)
      → atoi arg ≡ some port
      → IsRowOf id rows r u
      → contains port u.ports ≡ wants e
      → Move rows (ready e id arg) rows (holding e id port u.ports)
  store :
      {e : Edit} {id : Text} {port : ℤ} {ports : List ℤ}
      → Move rows
          (holding e id port ports)
          (write_ports (marshal_ports (change e port ports)) id rows)
          stored
  fail : {p : Phase} → Move rows p rows failed

pub record System : Type 0 where
  pub rows : List VmRow
  pub phase : ℕ → Phase

abbrev pub update : (ℕ → Phase) → ℕ → Phase → ℕ → Phase
update f i p j = if i == j then p else f j

-- One of the commands moves, or a whole other command of labctl runs.
pub data Step (s : System) : System → Type 0 where
  turn :
      (i : ℕ) {rows : List VmRow} {p : Phase}
      → Move s.rows (s.phase i) rows p
      → Step s (record { rows = rows; phase = update s.phase i p })
  other :
      (host : Host) (codec : Codec) (cfg : Config) (c : Command) (w : World)
      → w.db.vms ≡ s.rows
      → Step s (record s { rows = (execute host codec cfg c w).1.db.vms })

pub data Interleaved (s : System) : System → Type 0 where
  here : Interleaved s s
  later : {t u : System} → Interleaved s t → Step t u → Interleaved s u

module _ (host : Host) (codec : Codec) (cfg : Config) (id arg : Text) (w v : World) where
  moves :
      (e : Edit)
      → Stored id arg (wants e) (change e) w.db v
      → (port : ℤ) × (ports : List ℤ) × Move w.db.vms
          (ready e id arg)
          w.db.vms
          (holding e id port ports)
        × Move w.db.vms (holding e id port ports) v.db.vms stored
  moves e (port, r, u, parsed, at, guard, same) =
      (port, u.ports, Move.read r u parsed at guard, rw same Move.store)

  -- A `ports add` that succeeds is these two moves, with nothing in between.
  pub add-moves :
      add host codec cfg id arg w ≡ (ok tt, v)
      → (port : ℤ) × (ports : List ℤ) × Move w.db.vms
          (ready adding id arg)
          w.db.vms
          (holding adding id port ports)
        × Move w.db.vms (holding adding id port ports) v.db.vms stored
  add-moves e =
      moves adding
        (subst (Changed id arg false (change adding) w.db) e (add-Changed host codec cfg id arg w))

  -- The same for `ports rm`.
  pub rm-moves :
      rm host codec cfg id arg w ≡ (ok tt, v)
      → (port : ℤ) × (ports : List ℤ) × Move w.db.vms
          (ready removing id arg)
          w.db.vms
          (holding removing id port ports)
        × Move w.db.vms (holding removing id port ports) v.db.vms stored
  rm-moves e =
      moves removing
        (subst (Changed id arg true (change removing) w.db) e (rm-without host codec cfg id arg w))

-- What a command holds fits an int.
abbrev pub Held : Phase → Type 0
Held (ready e id arg) = Unit
Held (holding e id port ports) = IsInt port × All IsInt ports
Held stored = Unit
Held failed = Unit

change-All :
    (e : Edit) (port : ℤ) (ports : List ℤ)
    → IsInt port
    → All IsInt ports
    → All IsInt (change e port ports)
change-All adding port ports h k = All-append IsInt ports (port ∷ []) k (h, tt)
change-All removing port ports h k = without-All port ports k

Move-IsLedger :
    {rows rows' : List VmRow} {p p' : Phase}
    → Move rows p rows' p'
    → IsLedger rows
    → Held p
    → IsLedger rows' × Held p'
Move-IsLedger (read {arg} {port} r u parsed at guard) sound h =
    (sound, (atoi-IsInt arg port parsed, scan_vm-IsInt r u (at.1)))
Move-IsLedger {rows} (store {e} {id} {port} {ports}) sound (h, k) =
    (write_ports-IsLedger id (change e port ports) rows (change-All e port ports h k) sound, tt)
Move-IsLedger fail sound h = (sound, tt)

update-Held :
    (f : ℕ → Phase) (i : ℕ) (p : Phase) (j : ℕ)
    → ((k : ℕ) → Held (f k))
    → Held p
    → Held (update f i p j)
update-Held f i p j h k = elim (Bool-cases (i == j)) [
  | inl same ↦ rw same k
  | inr other' ↦ rw other' (h j)
]

-- A ledger, and commands that hold nothing but ints.
record IsSound (s : System) : Type 0 where
  ledger : IsLedger s.rows
  held : (i : ℕ) → Held (s.phase i)

Step-IsSound : {s t : System} → Step s t → IsSound s → IsSound t
Step-IsSound {s} (turn i {rows} {p} m) h =
    let (sound, k) = Move-IsLedger m h.ledger (h.held i) in
    record { ledger = sound; held = λ j. update-Held s.phase i p j h.held k }
Step-IsSound {s} (other host codec cfg c w e) h = record {
  ledger = (execute-Advances host codec cfg c w (rw e h.ledger)).0;
  held = h.held;
}

Interleaved-IsSound : {s t : System} → Interleaved s t → IsSound s → IsSound t
Interleaved-IsSound here h = h
Interleaved-IsSound (later l st) h = Step-IsSound st (Interleaved-IsSound l h)

-- However the reads and the writes of any number of port commands, none of them between the two at
-- first, and other commands between them interleave, and whichever fail, the vms table stays a
-- ledger.
pub Interleaved-IsLedger :
    {s t : System}
    → Interleaved s t
    → IsLedger s.rows
    → ((i : ℕ) → Held (s.phase i))
    → IsLedger t.rows
Interleaved-IsLedger l sound held =
    (Interleaved-IsSound l (record { ledger = sound; held = held })).ledger
