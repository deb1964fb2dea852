-- ===== src/Tests/Ports.antt =====
-- The theorems on the ports of a VM, applied to the host of the tests.
use firecracker_lab.Prelude.{
  codes, ◌≡◌, refl, false, [], ◌∷◌, ◌++◌, ℕ_discrete, text_dec, int_dec, text_eq,
}
use firecracker_lab.Prelude.Decimal.{digits, format_int}
use firecracker_lab.World.{Host, IsSqlUp, ok, call}
use firecracker_lab.World.{ask, for_each}
use firecracker_lab.State.Names.{vm_id}
use firecracker_lab.State.Ports.{marshal_ports, unmarshal_ports, to_int}
use firecracker_lab.State.Vms.{
  new_vm, new_row, or_empty, null_if_empty, returns, find_vm, scan_found, scan_vm, get, set_ports,
  write_ports,
}
use firecracker_lab.Runner.Api.{run}
use firecracker_lab.Runner.Systemd.{
  stop_unit, succeeded, is_active, is_known_unit, supervisor, systemd_supervisor, port_forwarder,
  systemd_port_forwarder,
}
use firecracker_lab.Runner.Lifecycle.{is_alive, stop_port_forwards}
use firecracker_lab.Cmd.Ports.Reads.{Reread, add-Reread}
use firecracker_lab.Cmd.{load, require_vm, known_vm, plain_runner, new_runner}
use firecracker_lab.Cmd.Ports.{
  add, rm, without, parse_port, atoi, contains, single_port, forwarding_runner,
}
use firecracker_lab.Cmd.Ports.Recorded.{Changed, DroppedBy, add-Changed, rm-Changed}
use firecracker_lab.Tests.{host, codec, cfg, world, is_exec}

add-Changed_example :
    Changed
      (vm_id 0)
      (codes "22")
      false
      (λ port ports. ports ++ port ∷ [])
      world.db
      (add host codec cfg (vm_id 0) (codes "22") world)
add-Changed_example = add-Changed host codec cfg (vm_id 0) (codes "22") world

rm-Changed_example :
    DroppedBy (vm_id 0) (codes "443") world.db (rm host codec cfg (vm_id 0) (codes "443") world)
rm-Changed_example = rm-Changed host codec cfg (vm_id 0) (codes "443") world

-- A host without systemd and iproute2: every command fails.
abbrev bare : Host
bare = record host { fails = λ h c. is_exec c }

bare_up : IsSqlUp bare
bare_up h s = refl

added_ok :
    add bare codec cfg (vm_id 0) (codes "22") world
    ≡ (ok tt, (add bare codec cfg (vm_id 0) (codes "22") world).1)
unfolding add parse_port atoi to_int load require_vm known_vm get returns find_vm scan_found scan_vm
    unmarshal_ports marshal_ports new_vm new_row or_empty null_if_empty vm_id digits format_int call
    text_dec int_dec ℕ_discrete contains set_ports write_ports is_alive supervisor
    systemd_supervisor is_active succeeded run forwarding_runner plain_runner new_runner
added_ok = refl

add-Reread_example :
    Reread bare
      (vm_id 0)
      (codes "22")
      false
      (λ port ports. ports ++ port ∷ [])
      world
      (add bare codec cfg (vm_id 0) (codes "22") world).1
add-Reread_example =
    add-Reread bare (vm_id 0) (codes "22") bare_up codec cfg world
      (add bare codec cfg (vm_id 0) (codes "22") world).1 added_ok

removed_ok :
    rm bare codec cfg (vm_id 0) (codes "443") world
    ≡ (ok tt, (rm bare codec cfg (vm_id 0) (codes "443") world).1)
unfolding rm parse_port atoi to_int load require_vm known_vm get returns find_vm scan_found scan_vm
    unmarshal_ports marshal_ports new_vm new_row or_empty null_if_empty vm_id digits format_int call
    ask text_dec int_dec ℕ_discrete contains without set_ports write_ports is_alive supervisor
    systemd_supervisor is_active succeeded run plain_runner new_runner stop_port_forwards
    port_forwarder systemd_port_forwarder stop_unit is_known_unit for_each single_port
removed_ok = refl
