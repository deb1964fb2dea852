-- ===== src/Tests/Setup.antt =====
-- The set-up of a host, on a host that answers as `ip` does.
use firecracker_lab.Prelude.{codes, pos, ◌≡◌, refl, [], ℕ_discrete, text_dec}
use firecracker_lab.Prelude.Decimal.{digits}
use firecracker_lab.Cidr.{parse_cidr, dotted, masked}
use firecracker_lab.Strings.{fields, split_on}
use firecracker_lab.World.{Host, ok, ask}
use firecracker_lab.Cmd.Setup.{wan_interface, interface_cidr, following, locate, run_setup}
use firecracker_lab.Cmd.Setup.Prepared.{Prepared, run_setup-Prepared}
use firecracker_lab.Tests.{host, cfg, world}

abbrev routed : Host
routed = record host {
  output = λ h c. codes "default via 192.168.8.1 dev eth0 inet 192.168.8.17/24\n";
}

run_setup-Prepared_example :
    Prepared routed cfg
      (pos 123)
      (pos 123)
      []
      world
      (run_setup routed cfg (pos 123) (pos 123) [] world)
run_setup-Prepared_example = run_setup-Prepared routed cfg (pos 123) (pos 123) [] world

test_locate : (locate routed [] world).0 ≡ ok (codes "eth0", codes "192.168.8.0/24")
unfolding locate wan_interface interface_cidr following fields parse_cidr split_on dotted masked
    digits ask ℕ_discrete text_dec
test_locate = refl
