-- ===== src/Cmd/Reachable/Refined.antt =====
-- The commands of labctl refine the registry: a VM for some of the ids.
use firecracker_lab.World.{World}
use firecracker_lab.State.Vms.Ledger.{IsLedger}
use firecracker_lab.State.Vms.Registry.{Registry, Steps, Steps-trans, registry}
use firecracker_lab.Cmd.Reachable.{Reaches}
use firecracker_lab.Cmd.Reachable.Ledger.{Reaches-IsLedger, execute-Advances}

-- The registry of the database.
abbrev pub registry_of : World → Registry
registry_of w = registry w.db.vms

-- Whatever commands run, on whatever hosts and with whatever outcome, the registry of a ledger only
-- takes its own steps: a slot below 1000 that is not assigned is assigned to the VM of that slot,
-- an id is released, or the ports of a VM change and nothing else of it.
pub Reaches-Steps :
    {w v : World} → Reaches w v → IsLedger w.db.vms → Steps (registry_of w) (registry_of v)
Reaches-Steps Reaches.here sound = Steps.stay
Reaches-Steps (Reaches.then_run {v} host codec cfg c reached) sound =
    Steps-trans (Reaches-Steps reached sound)
      (execute-Advances host codec cfg c v (Reaches-IsLedger reached sound)).1
