-- ===== src/Tests.antt =====
-- A host that answers every call, a state database with one VM and one snapshot, and the theorems
-- applied to them.
mod Images
mod Fleet
mod Migrations
mod Setup
mod Fakes
mod Ports
mod Links
mod Agents
mod Races
use firecracker_lab.Prelude.{
  Text, codes, ℕ, ℤ, pos, ◌+◌, ◌<◌, ◌≡◌, ◌≢◌, ◌↔◌, refl, Bool, true, false, not, ◌||◌, none, some,
  List, [], ◌∷◌, ◌++◌, ◌^◌, ◌%◌, arith, ℕ_discrete, text_dec, int_dec, ◌==◌, text_eq, if◌then◌else◌,
}
use firecracker_lab.Prelude.Decimal.{digits, format_int}
use firecracker_lab.Prelude.Lists.{All, length}
use firecracker_lab.Agent.{Codec, Response, read_frame, put_uint32}
use firecracker_lab.Agent.Frames.{read_frame-put_uint32}
use firecracker_lab.FilePath.{clean, join_slash}
use firecracker_lab.FilePath.Rooted.{IsName, clean-IsName}
use firecracker_lab.World.{
  Call, sleep, History, exited, Host, IsHonestClock, IsSqlUp, ok, World, call,
}
use firecracker_lab.World.{exec, ask, for_each}
use firecracker_lab.World.Rows.{VmRow, SnapshotRow}
use firecracker_lab.State.Names.{vm_id, vm_ip, unit_name}
use firecracker_lab.State.Names.Distinct.{
  vm_ip_injective, vm_ip_in_bridge, vm_ip-ne-gateway, bridge_prefix, gateway,
}
use firecracker_lab.State.Ports.{marshal_ports, unmarshal_ports, to_int}
use firecracker_lab.State.Ports.Range.{unmarshal_ports-AllFit}
use firecracker_lab.State.Ports.RoundTrip.{IsInt, unmarshal_ports-marshal_ports}
use firecracker_lab.State.Vms.{
  Vm, new_vm, new_row, has_tap, or_empty, null_if_empty, returns, find_vm, scan_found, scan_vm, get,
  list, remove, set_ports, write_ports, allocate_and_insert,
}
use firecracker_lab.State.Vms.Ledger.{IsLedger}
use firecracker_lab.State.Vms.Allocate.{row_of, Allocated, allocate_and_insert-Allocated}
use firecracker_lab.State.Vms.Complete.{row_of-IsSlotRow, Ends, allocate_and_insert-Ends}
use firecracker_lab.State.Vms.Reads.{vms_of, list-vms_of, get-remove_at, get-set_ports_at}
use firecracker_lab.Vsock.{dial_vsock, retry_loop, rounds_for, dial_vsock_retry}
use firecracker_lab.Vsock.Laws.{Dialled, dial_vsock-Dialled, retry_loop-enough}
use firecracker_lab.Runner.Api.{wait_loop, wait_for_socket, run}
use firecracker_lab.Runner.Systemd.{
  stop_unit, stop_args, succeeded, is_active, is_known_unit, supervisor, systemd_supervisor,
  port_forwarder, systemd_port_forwarder,
}
use firecracker_lab.Runner.Systemd.Stopped.{is_known, stop_unit-succeeded}
use firecracker_lab.Runner.Lifecycle.{is_alive, stop_port_forwards}
use firecracker_lab.Cmd.Vms.{unused_name}
use firecracker_lab.Cmd.Vms.Reads.{get_by_name-snapshot}
use firecracker_lab.Cmd.Vms.Moved.{Moved, restore-snapshot}
use firecracker_lab.OciImage.{Platform, parse_platform}
use firecracker_lab.OciImage.Platforms.{Names, parse_platform-Names}
use firecracker_lab.Cmd.Lookup.{IsRowOf}
use firecracker_lab.State.Snapshots.{get_by_name, insert}
use firecracker_lab.State.Snapshots
use firecracker_lab.Runner.Lifecycle
use firecracker_lab.Runner.Lifecycle.{save, tear_down}
use firecracker_lab.Runner.Api.{api_put, api_patch, api_request}
use firecracker_lab.Runner.Chroot.{reflink_copy, copy_out}
use firecracker_lab.Runner.Systemd.{net, iproute2_network_provisioner}
use firecracker_lab.Cmd.{snapshot_dir}
use firecracker_lab.Cmd.Ports.Reads.{Reread, add-Reread, rm-Reread}
use firecracker_lab.Cmd.{Config, load, require_vm, known_vm, plain_runner, new_runner}
use firecracker_lab.Cmd.Vms.{restore, destroy, snapshot}
use firecracker_lab.Cmd.Vms.Restored.{Restored, restore-Restored}
use firecracker_lab.Cmd.Vms.Destroyed.{Destroyed, destroy-Destroyed}
use firecracker_lab.Cmd.Vms.Snapshotted.{Snapshotted, snapshot-Snapshotted}
use firecracker_lab.Cmd.Ports.{
  add, rm, without, parse_port, atoi, contains, single_port, forwarding_runner,
}
use firecracker_lab.Cmd.Ports.Recorded.{Changed, add-Changed, rm-Changed}
use firecracker_lab.Cmd.Reachable.{Command, Reaches, execute}
use firecracker_lab.Cmd.Reachable.Ledger.{Reaches-IsLedger}

abbrev duration : Call → ℕ
duration (sleep ms) = ms
duration c = 0

-- The milliseconds that a history takes.
abbrev elapsed : History → ℕ
elapsed [] = 0
elapsed (c ∷ h) = duration c + elapsed h

abbrev is_exec : Call → Bool
is_exec (exec args) = true
is_exec c = false

-- A host on which nothing fails, and whose vsock listener answers OK.
abbrev host : Host
host = record {
  fails = λ h c. false;
  is_exist = λ h c. false;
  is_not_exist = λ h c. false;
  is_dir = λ h c. false;
  size = λ h c. 4096;
  output = λ h c. codes "OK 5\n";
  status = λ h c. 204;
  now = elapsed;
  wakeup = λ h. exited (some (codes "inactive"));
  uuid = λ h. codes "7d1f";
}

sql_up : IsSqlUp host
sql_up h s = refl

abbrev codec : Codec
codec = record { marshal = λ r. some (1 ∷ []); unmarshal = λ s. some Response.ack }

abbrev cfg : Config
cfg = record {
  data_dir = codes "/var/lib/labctl";
  source_dir = codes ".";
  fc_bin = codes "firecracker";
}

abbrev web : List ℤ
web = pos 8080 ∷ pos 443 ∷ []

abbrev vm_row : VmRow
vm_row = row_of (pos 2) (pos 512) (codes "img") (some web) 0

abbrev saved : SnapshotRow
saved = record {
  id = codes "7d1e";
  name = codes "base";
  dir = codes "/var/lib/labctl/snapshots/base";
  vcpus = pos 1;
  mem_mib = pos 256;
  ports = marshal_ports web;
}

abbrev world : World
world = record { db = record { vms = vm_row ∷ []; images = []; snapshots = saved ∷ [] }; log = [] }

web_fits : All IsInt web
web_fits = (omega arith, (omega arith, tt))

world_sound : IsLedger world.db.vms
unfolding has_tap or_empty
world_sound =
    (row_of-IsSlotRow (pos 2) (pos 512) (codes "img") (some web) 0 (omega arith) web_fits, refl, tt)

Reaches-IsLedger_example :
    IsLedger
      (execute host codec cfg (Command.ports_add_command (vm_id 0) (codes "22")) world).1.db.vms
Reaches-IsLedger_example =
    Reaches-IsLedger
      (Reaches.then_run host codec cfg (Command.ports_add_command (vm_id 0) (codes "22"))
        Reaches.here)
      world_sound

restore-Restored_example :
    Restored host codec cfg
      (codes "base")
      (pos 123)
      (pos 123)
      false
      (codes "jailer")
      world.db
      (restore host codec cfg (codes "base") (pos 123) (pos 123) false (codes "jailer") world)
restore-Restored_example =
    restore-Restored host codec cfg (codes "base") (pos 123) (pos 123) false (codes "jailer") world
      sql_up world_sound

snapshot-Snapshotted_example :
    Snapshotted host codec cfg
      (vm_id 0)
      (codes "second")
      world.db
      (snapshot host codec cfg (vm_id 0) (codes "second") world)
snapshot-Snapshotted_example =
    snapshot-Snapshotted host codec cfg (vm_id 0) (codes "second") world sql_up

destroy-Destroyed_example :
    Destroyed host codec cfg (vm_id 0) world.db (destroy host codec cfg (vm_id 0) world)
destroy-Destroyed_example = destroy-Destroyed host codec cfg (vm_id 0) world

allocate_and_insert-Allocated_example :
    Allocated
      (pos 1)
      (pos 256)
      (codes "img")
      none
      world.db
      (allocate_and_insert host (pos 1) (pos 256) (codes "img") none world)
allocate_and_insert-Allocated_example =
    allocate_and_insert-Allocated (pos 1) (pos 256) (codes "img") none host world

allocate_and_insert-Ends_example :
    Ends
      (pos 1)
      (pos 256)
      (codes "img")
      none
      host
      world.db.vms
      (allocate_and_insert host (pos 1) (pos 256) (codes "img") none world).0
allocate_and_insert-Ends_example =
    allocate_and_insert-Ends (pos 1) (pos 256) (codes "img") none host world sql_up world_sound

abbrev vm : Vm
vm = record {
  id = vm_row.id;
  tap = vm_row.tap;
  ip = vm_row.ip;
  cid = vm_row.cid;
  vcpus = vm_row.vcpus;
  mem_mib = vm_row.mem_mib;
  unit = unit_name (vm_id 0);
  ports = web;
}

get-vm : (get host (vm_id 0) world).0 ≡ ok (some vm)
unfolding get returns find_vm scan_found scan_vm unmarshal_ports marshal_ports new_vm new_row
    or_empty null_if_empty vm_id digits format_int call text_dec ℕ_discrete to_int
get-vm = refl

snapshot_ok :
    snapshot host codec cfg (vm_id 0) (codes "second") world
    ≡ (ok tt, (snapshot host codec cfg (vm_id 0) (codes "second") world).1)
unfolding snapshot load require_vm known_vm get returns find_vm scan_found scan_vm unmarshal_ports
    marshal_ports to_int new_vm new_row or_empty null_if_empty vm_id digits format_int call text_dec
    ℕ_discrete unused_name get_by_name insert Snapshots.find_name Snapshots.scan_found
    Snapshots.clashes Snapshots.row_of remove Lifecycle.snapshot save tear_down api_put api_patch
    api_request reflink_copy copy_out for_each run supervisor systemd_supervisor stop_unit
    stop_port_forwards port_forwarder systemd_port_forwarder net iproute2_network_provisioner
    plain_runner new_runner
snapshot_ok = refl

restore-snapshot_example :
    Moved host codec cfg
      (vm_id 0)
      (codes "second")
      (pos 123)
      (pos 123)
      false
      (codes "jailer")
      world.db
      (restore host codec cfg
        (codes "second")
        (pos 123)
        (pos 123)
        false
        (codes "jailer")
        (snapshot host codec cfg (vm_id 0) (codes "second") world).1)
restore-snapshot_example =
    restore-snapshot host codec cfg (vm_id 0) (codes "second") (pos 123) (pos 123) false
      (codes "jailer") world (snapshot host codec cfg (vm_id 0) (codes "second") world).1 sql_up
      world_sound snapshot_ok
