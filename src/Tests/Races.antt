-- ===== src/Tests/Races.antt =====
-- The theorems on commands that interleave, and on the tree of commands, applied.
use firecracker_lab.Prelude.{
  codes, ℕ, zero, suc, pos, ◌≡◌, refl, false, some, [], ◌∷◌, ◌++◌, ℕ_discrete, text_dec, int_dec,
  text_eq, int_eq,
}
use firecracker_lab.World.{ok}
use firecracker_lab.State.Names.{vm_id}
use firecracker_lab.State.Ports.{marshal_ports, unmarshal_ports, to_int}
use firecracker_lab.State.Vms.{
  Vm, new_vm, new_row, or_empty, null_if_empty, find_vm, scan_vm, scan_found, write_ports,
}
use firecracker_lab.State.Vms.Ledger.{IsLedger}
use firecracker_lab.Prelude.Decimal.{digits, format_int}
use firecracker_lab.Cmd.Lookup.{IsRowOf}
use firecracker_lab.Cmd.Ports.{atoi, contains}
use firecracker_lab.Cmd.Reachable.Interleaved.{
  System, Move, Step, Interleaved, Held, update, adding, holding, stored, Interleaved-IsLedger,
}
use firecracker_lab.Cmd.Reachable.Interleaved.Lost.{two, add-lost}
use firecracker_lab.Tests.{web, vm_row, world_sound}

abbrev web_vm : Vm
web_vm = new_vm 0 (pos 2) (pos 512) web

row_at : IsRowOf (vm_id 0) (vm_row ∷ []) vm_row web_vm
unfolding find_vm scan_vm unmarshal_ports marshal_ports to_int new_vm new_row or_empty null_if_empty
    vm_id digits format_int text_dec int_dec ℕ_discrete
row_at = (refl, refl)

reads : (atoi (codes "22") ≡ some (pos 22)) × (atoi (codes "23") ≡ some (pos 23))
unfolding atoi to_int int_dec ℕ_discrete
reads = (refl, refl)

absent : (contains (pos 22) web_vm.ports ≡ false) × (contains (pos 23) web_vm.ports ≡ false)
unfolding contains new_vm int_dec ℕ_discrete
absent = (refl, refl)

abbrev both : System
both = record { rows = vm_row ∷ []; phase = two (vm_id 0) (codes "22") (codes "23") }

add-lost_example :
    (t : System) × Interleaved both t
    × (t.phase 0 ≡ stored)
    × (t.phase 1 ≡ stored)
    × (scan_found (find_vm (vm_id 0) t.rows)
        ≡ ok (some (record web_vm { ports = web_vm.ports ++ pos 23 ∷ [] })))
    × (contains (pos 22) (web_vm.ports ++ pos 23 ∷ []) ≡ false)
add-lost_example =
    add-lost (vm_id 0) (codes "22") (codes "23") (pos 22) (pos 23) (vm_row ∷ []) vm_row web_vm
      (reads.0) (reads.1) (λ e. cc e) row_at (absent.0) (absent.1)

-- Both commands have read, and one has stored its port.
abbrev midway : System
midway = record {
  rows = write_ports (marshal_ports (web ++ pos 22 ∷ [])) (vm_id 0) (vm_row ∷ []);
  phase =
      update
        (update
          (update (two (vm_id 0) (codes "22") (codes "23")) 0
            (holding adding (vm_id 0) (pos 22) web_vm.ports))
          1 (holding adding (vm_id 0) (pos 23) web_vm.ports))
        0 stored;
}

to_midway : Interleaved both midway
unfolding ℕ_discrete new_vm
to_midway =
    Interleaved.later
      (Interleaved.later
        (Interleaved.later Interleaved.here
          (Step.turn 0 (Move.read vm_row web_vm (reads.0) row_at (absent.0))))
        (Step.turn 1 (Move.read vm_row web_vm (reads.1) row_at (absent.1))))
      (Step.turn 0 Move.store)

none-Held : (i : ℕ) → Held (both.phase i)
none-Held zero = tt
none-Held (suc zero) = tt
none-Held (suc (suc i)) = tt

Interleaved-IsLedger_example : IsLedger midway.rows
Interleaved-IsLedger_example =
    Interleaved-IsLedger {s = both} {t = midway} to_midway world_sound none-Held
