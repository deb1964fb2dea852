-- ===== src/Tests/Links.antt =====
-- The theorems on names, paths, sockets and units, applied to the host of the tests.
use firecracker_lab.Prelude.{
  Text, codes, ℕ, ◌+◌, ◌<◌, ◌≡◌, ◌↔◌, refl, not, ◌||◌, none, some, List, ◌∷◌, ◌++◌, arith,
  ℕ_discrete, text_eq,
}
use firecracker_lab.Prelude.Lists.{All}
use firecracker_lab.FilePath.{slash, clean, join_slash}
use firecracker_lab.FilePath.Rooted.{IsName}
use firecracker_lab.World.{IsHonestClock}
use firecracker_lab.World.{exec}
use firecracker_lab.State.Names.{vm_ip}
use firecracker_lab.State.Names.Distinct.{vm_ip_in_bridge, bridge_prefix}
use firecracker_lab.Vsock.{dial_vsock, retry_loop, rounds_for, dial_vsock_retry}
use firecracker_lab.Vsock.Laws.{Dialled, dial_vsock-Dialled, retry_loop-enough}
use firecracker_lab.Runner.Systemd.{stop_unit, stop_args, succeeded}
use firecracker_lab.Runner.Systemd.Stopped.{is_known, stop_unit-succeeded}
use firecracker_lab.Runner.Api.{wait_loop, wait_for_socket}
use firecracker_lab.Runner.Api.Waits.{wait_loop-enough}
use firecracker_lab.OciImage.Build.{agent_path}
use firecracker_lab.OciImage.Build.Placed.{agent_path-names}
use firecracker_lab.OciImage.{Platform, parse_platform}
use firecracker_lab.Tests.{host, world}

clock : IsHonestClock host
clock = record { monotone = λ h c. omega arith; slept = λ h ms. omega arith }

dial_vsock-Dialled_example :
    Dialled host
      (codes "/run/vsock.sock")
      world
      (dial_vsock host (codes "/run/vsock.sock") 1234 world)
dial_vsock-Dialled_example = dial_vsock-Dialled host (codes "/run/vsock.sock") 1234 world

retry_loop-enough_example :
    retry_loop host
      (rounds_for 500 + 7)
      (codes "/run/vsock.sock")
      1234
      (host.now world.log + 500)
      world
    ≡ dial_vsock_retry host (codes "/run/vsock.sock") 1234 500 world
retry_loop-enough_example = retry_loop-enough host clock (codes "/run/vsock.sock") 1234 500 7 world

abbrev slot : ℕ
slot = 7

vm_ip_in_bridge_example : ((rest : Text) × (vm_ip 252 ≡ bridge_prefix ++ rest)) ↔ (252 < 252)
vm_ip_in_bridge_example = vm_ip_in_bridge 252

stop_unit-succeeded_example : succeeded (stop_unit host (codes "labctl-vm-0") world).0 ≡ (
    not (host.fails world.log (exec (stop_args (codes "labctl-vm-0"))))
    || not (is_known host (codes "labctl-vm-0") world))
stop_unit-succeeded_example = stop_unit-succeeded host (codes "labctl-vm-0") world

abbrev amd64 : Platform
amd64 = record { os = codes "linux"; architecture = codes "amd64" }

test_parse_platform :
    (parse_platform (codes "linux/amd64") ≡ some amd64)
    × (parse_platform (codes "linux/") ≡ none)
    × (parse_platform (codes "linux") ≡ none)
unfolding parse_platform ℕ_discrete
test_parse_platform = (refl, refl, refl)

agent_path-names_example :
    (dirs : List Text) × (names : List Text) × All IsName names
    × (clean (codes "/tmp/rootfs") ≡ slash ∷ join_slash dirs)
    × (agent_path (codes "/tmp/rootfs") (codes "../../bin/x") ≡ slash ∷ join_slash (dirs ++ names))
agent_path-names_example = agent_path-names (codes "tmp/rootfs") (codes "../../bin/x")

wait_loop-enough_example :
    wait_loop host
      (rounds_for 5000 + 3)
      (codes "/run/firecracker.socket")
      (host.now world.log + 5000)
      world
    ≡ wait_for_socket host (codes "/run/firecracker.socket") 5000 world
wait_loop-enough_example =
    wait_loop-enough host clock (codes "/run/firecracker.socket") 5000 3 world
