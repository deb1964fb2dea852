-- ===== src/Cmd/Reachable/Interleaved/Lost.antt =====
-- Two `ports add` on one VM at the same time (cmd/ports.go): one port may be lost.
use firecracker_lab.Prelude.{
  Text, ℕ, zero, suc, ℤ, ◌≡◌, ◌≢◌, refl, false, some, List, [], ◌∷◌, ◌++◌, nat_eq, int_eq,
  ℕ_discrete, arith,
}
use firecracker_lab.Prelude.Lists.{All, All-append}
use firecracker_lab.World.{ok}
use firecracker_lab.World.Rows.{VmRow}
use firecracker_lab.State.Ports.{marshal_ports}
use firecracker_lab.State.Ports.RoundTrip.{IsInt}
use firecracker_lab.State.Vms.{Vm, find_vm, scan_found, write_ports}
use firecracker_lab.State.Vms.Reads.{found_again}
use firecracker_lab.State.Vms.Sound.{scan_vm-IsInt}
use firecracker_lab.Cmd.Ports.Reads.{found_row}
use firecracker_lab.Cmd.Lookup.{IsRowOf}
use firecracker_lab.Cmd.Ports.{atoi, contains}
use firecracker_lab.Cmd.Ports.Range.{atoi-IsInt}
use firecracker_lab.Cmd.Reachable.Interleaved.{
  adding, Phase, ready, holding, stored, failed, Move, System, update, Step, Interleaved,
}

-- Both commands are about to start.
abbrev pub two : Text → Text → Text → ℕ → Phase
two id a b zero = ready adding id a
two id a b (suc zero) = ready adding id b
two id a b _ = failed

contains-append_ne :
    (p q : ℤ) (ports : List ℤ)
    → p ≢ q
    → contains p ports ≡ false
    → contains p (ports ++ q ∷ []) ≡ false
unfolding contains
contains-append_ne p q [] ne h = ground arith
contains-append_ne p q (x ∷ ports) ne h = ground (arith, contains-append_ne p q ports ne)

module _ (id a b : Text) (p q : ℤ) (rows : List VmRow) (r : VmRow) (u : Vm) where
  -- The rows after the second write.
  abbrev once : List VmRow
  once = write_ports (marshal_ports (u.ports ++ p ∷ [])) id rows

  abbrev twice : List VmRow
  twice = write_ports (marshal_ports (u.ports ++ q ∷ [])) id once

  -- Both read before either writes.
  abbrev last : ℕ → Phase
  last =
      update
        (update
          (update (update (two id a b) 0 (holding adding id p u.ports)) 1
            (holding adding id q u.ports))
          0 stored)
        1 stored

  -- Of two `ports add` of different ports, which the VM does not have, on the same VM, both may
  -- store their ports and yet the VM reads with the second port alone.
  pub add-lost :
      atoi a ≡ some p
      → atoi b ≡ some q
      → p ≢ q
      → IsRowOf id rows r u
      → contains p u.ports ≡ false
      → contains q u.ports ≡ false
      → (t : System) × Interleaved (record { rows = rows; phase = two id a b }) t
        × (t.phase 0 ≡ stored)
        × (t.phase 1 ≡ stored)
        × (scan_found (find_vm id t.rows) ≡ ok (some (record u { ports = u.ports ++ q ∷ [] })))
        × (contains p (u.ports ++ q ∷ []) ≡ false)
  unfolding ℕ_discrete
  add-lost pa qb ne at hp hq = (
    record { rows = twice; phase = last },
    Interleaved.later
        (Interleaved.later
          (Interleaved.later
            (Interleaved.later Interleaved.here (Step.turn 0 (Move.read r u pa at hp)))
            (Step.turn 1 (Move.read r u qb at hq)))
          (Step.turn 0 Move.store))
        (Step.turn 1 Move.store),
    refl,
    refl,
    found_again id once _ (u.ports ++ q ∷ []) refl (fits q b qb)
        (found_again id rows (some r) (u.ports ++ p ∷ []) (at.0) (fits p a pa) read_row),
    contains-append_ne p q u.ports ne hp,
  )
    where
      fits : (z : ℤ) (s : Text) → atoi s ≡ some z → All IsInt (u.ports ++ z ∷ [])
      fits z s e =
          All-append IsInt u.ports (z ∷ []) (scan_vm-IsInt r u (at.1)) (atoi-IsInt s z e, tt)

      read_row : scan_found (some r) ≡ ok (some u)
      read_row = found_row r u (at.1)
