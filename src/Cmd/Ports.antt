-- ===== src/Cmd/Ports.antt =====
-- cmd/ports.go, with `strconv.Atoi`.
pub mod Recorded
pub mod Reads
pub mod Range
use firecracker_lab.Prelude.{
  Text, codes, ℕ, ℤ, pos, ◌+◌, ◌-◌, ◌*◌, Bool, true, false, not, ◌&&◌, ◌||◌, Option, none, some,
  List, [], ◌∷◌, ◌++◌, ◌==◌, int_eq, nat_eq, leb, if◌then◌else◌,
}
use firecracker_lab.Agent.{Codec, start_proxy, stop_proxy}
use firecracker_lab.State.Ports.{to_int}
use firecracker_lab.State.Vms.{Vm}
use firecracker_lab.State.Vms
use firecracker_lab.World.{
  Host, Error, message, Action, ⊤, pure, raise, attempt, wrapping, for_each, ◌>>=◌, ◌>>◌,
}
use firecracker_lab.Runner.{Runner, vsock_path}
use firecracker_lab.Runner.Lifecycle.{
  launch_port_forwards, stop_port_forwards, restart_port_forwards, is_alive, port_forward_alive,
}
use firecracker_lab.Cmd.{Config, new_runner, plain_runner, load, require_vm}

-- The number that the digits behind `acc` spell; `none` if one is not a digit.
atoi_digits : ℕ → Text → Option ℕ
atoi_digits acc [] = some acc
atoi_digits acc (c ∷ s) =
    let more = atoi_digits (acc * 10 + (c - b'0')) s in
    if leb b'0' c && leb c b'9' then more else none

in_range : Bool → Option ℕ → Option ℤ
in_range negative none = none
in_range negative (some n) = to_int negative n

unsigned : Bool → Text → Option ℤ
unfolding atoi_digits in_range
unsigned negative [] = none
unsigned negative (c ∷ s) = in_range negative (atoi_digits 0 (c ∷ s))

-- `strconv.Atoi`: an optional sign and at least one decimal digit, in the range of an int.
unfoldable pub atoi : Text → Option ℤ
unfolding unsigned
atoi [] = none
atoi (c ∷ s) =
    if c == b'-'
    then unsigned true s
    else if c == b'+'
    then unsigned false s
    else unsigned false (c ∷ s)

unfoldable pub contains : ℤ → List ℤ → Bool
contains port [] = false
contains port (p ∷ ports) = p == port || contains port ports

-- The loop of `ports rm` over the ports that stay.
unfoldable pub without : ℤ → List ℤ → List ℤ
without port [] = []
without port (p ∷ ports) = let rest = without port ports in if p == port then rest else p ∷ rest

valid_port : Text → Option ℤ → Action ℤ
valid_port arg none = raise (message (codes "invalid port " ++ arg))
valid_port arg (some port) = pure port

unfoldable pub parse_port : Text → Action ℤ
unfolding valid_port
parse_port arg = valid_port arg (atoi arg)

-- `&state.VM{ID: v.ID, Unit: v.Unit, Ports: []int{port}}`; the fields that are left are zero.
unfoldable pub single_port : Vm → ℤ → Vm
single_port v port = record {
  id = v.id;
  tap = [];
  ip = [];
  cid = 0;
  vcpus = pos 0;
  mem_mib = pos 0;
  unit = v.unit;
  ports = port ∷ [];
}

unfoldable pub forwarding_runner : Config → Runner
forwarding_runner cfg = record (plain_runner cfg) { uid = pos 123; gid = pos 123 }

module _ (host : Host) (codec : Codec) (cfg : Config) where
  not_forwarded : Vm → ℤ → Action ⊤
  not_forwarded v port =
      if contains port v.ports then raise (message (codes "port is already forwarded")) else pure tt

  -- The part of `ports add` that starts the forward of a VM which runs.
  start_forward : Runner → Vm → ℤ → Action ⊤
  start_forward r v port = do
    wrapping (codes "start forward") (launch_port_forwards host codec r (single_port v port))
    wrapping (codes "start guest-side proxy") (start_proxy host codec (vsock_path r v.id) port)

  -- `labctl ports add`
  unfoldable pub add : Text → Text → Action ⊤
  unfolding not_forwarded start_forward
  add id arg = do
    port ← parse_port arg
    load host
    v ← require_vm host id
    not_forwarded v port
    Vms.set_ports host id (some (v.ports ++ port ∷ []))
    alive ← is_alive host codec (forwarding_runner cfg) v
    if alive then start_forward (forwarding_runner cfg) v port else pure tt

  forwarded : Vm → ℤ → Action ⊤
  forwarded v port =
      if contains port v.ports then pure tt else raise (message (codes "port is not forwarded"))

  -- The part of `ports rm` that stops the forward.
  stop_forward : Runner → Vm → ℤ → Action ⊤
  stop_forward r v port = do
    wrapping (codes "stop forward") (stop_port_forwards host codec r (single_port v port))
    alive ← is_alive host codec r v
    if alive
        then wrapping (codes "stop guest-side proxy")
            (stop_proxy host codec (vsock_path r v.id) port)
        else pure tt

  -- `labctl ports rm`
  unfoldable pub rm : Text → Text → Action ⊤
  unfolding forwarded stop_forward
  rm id arg = do
    port ← parse_port arg
    load host
    v ← require_vm host id
    forwarded v port
    Vms.set_ports host id (some (without port v.ports))
    stop_forward (plain_runner cfg) v port

  -- The rows of `labctl ports list`: each port, and whether its unit is active.
  statuses : Text → List ℤ → Action (List (ℤ × Bool))
  statuses id [] = pure []
  statuses id (p ∷ ports) = do
    active ← port_forward_alive host codec (plain_runner cfg) id p
    rest ← statuses id ports
    pure ((p, active) ∷ rest)

  unfoldable pub list : Text → Action (List (ℤ × Bool))
  unfolding statuses
  list id = do load host; v ← require_vm host id; statuses id v.ports

  -- `labctl ports reload`; an error of stopping a proxy is dropped.
  unfoldable pub reload : Text → Action ⊤
  reload id = do
    load host
    v ← require_vm host id
    restart_port_forwards host codec (plain_runner cfg) v
    for_each v.ports λ port. do
      attempt (stop_proxy host codec (vsock_path (plain_runner cfg) v.id) port)
      wrapping (codes "restart guest-side proxy")
          (start_proxy host codec (vsock_path (plain_runner cfg) v.id) port)
