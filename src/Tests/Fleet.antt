-- ===== src/Tests/Fleet.antt =====
-- The theorems on the VMs of a host, applied to the host of the tests.
use firecracker_lab.Prelude.{codes, ◌≡◌, refl, some, [], ◌∷◌, ℕ_discrete}
use firecracker_lab.Prelude.Decimal.{digits}
use firecracker_lab.World.{World, for_each}
use firecracker_lab.World.Total.{IsUp}
use firecracker_lab.State.Names.{vm_id}
use firecracker_lab.State.Vms.Reads.{vms_of}
use firecracker_lab.State.Vms.Registry.{Steps}
use firecracker_lab.Cmd.Listing.{format_bytes, float64_of, round_div, ratio, letter, list_vms}
use firecracker_lab.Cmd.Listing.Complete.{Listed, list_vms-Listed}
use firecracker_lab.Cmd.Reachable.{Command, Reaches, execute}
use firecracker_lab.Cmd.Reachable.Refined.{registry_of, Reaches-Steps}
use firecracker_lab.Cmd.Vms.{destroy}
use firecracker_lab.Cmd.Vms.Emptied.{Emptied, destroy-Emptied}
use firecracker_lab.World.Emits.{Emits}
use firecracker_lab.Runner.Lifecycle
use firecracker_lab.Runner.Lifecycle.Own.{IsCallOf, destroy-Emits}
use firecracker_lab.Runner.Lifecycle.Saved.{SavedFirst, snapshot-SavedFirst}
use firecracker_lab.Cmd.{plain_runner}
use firecracker_lab.Cmd.Lookup.{plain_runner-IsReal}
use firecracker_lab.Tests.{vm, host, codec, cfg, world, sql_up, world_sound}

up : IsUp host
up h c = refl

destroy-Emptied_example :
    Emptied host codec cfg up (for_each world.db.vms (λ r. destroy host codec cfg r.id) world)
destroy-Emptied_example = destroy-Emptied host codec cfg up world.db.vms world refl world_sound

abbrev stocked : World
stocked = record world {
  db = record world.db {
    images =
        record { id = codes "img"; name = codes "a"; path = codes "/a.ext4"; size_bytes = 1 } ∷ [];
  };
}

list_vms-Listed_example :
    Listed host codec cfg (vms_of world.db.vms world_sound) world.db (list_vms host codec cfg world)
list_vms-Listed_example = list_vms-Listed host codec cfg world world_sound sql_up

Reaches-Steps_example :
    Steps
      (registry_of world)
      (registry_of (execute host codec cfg (Command.destroy_command (vm_id 0)) world).1)
Reaches-Steps_example =
    Reaches-Steps (Reaches.then_run host codec cfg (Command.destroy_command (vm_id 0)) Reaches.here)
      world_sound

test_format_bytes :
    (format_bytes 512 ≡ some (codes "512B"))
    × (format_bytes 1536 ≡ some (codes "1.5KiB"))
    × (format_bytes 536870912 ≡ some (codes "512.0MiB"))
unfolding format_bytes float64_of round_div ratio letter digits ℕ_discrete
test_format_bytes = (refl, refl, refl)

destroy-Emits_example :
    Emits (IsCallOf (plain_runner cfg) vm) (Lifecycle.destroy host codec (plain_runner cfg) vm)
destroy-Emits_example = destroy-Emits host codec (plain_runner cfg) (plain_runner-IsReal cfg) vm

snapshot-SavedFirst_example :
    SavedFirst host codec
      (plain_runner cfg)
      vm
      (codes "/snap")
      world
      (Lifecycle.snapshot host codec (plain_runner cfg) vm (codes "/snap") world)
snapshot-SavedFirst_example =
    snapshot-SavedFirst host codec (plain_runner cfg) vm (codes "/snap") world
