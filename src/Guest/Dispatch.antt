-- ===== src/Guest/Dispatch.antt =====
-- What the agent answers to a request (guest-agent/src/transport/dispatch.rs).
pub mod Kept
pub mod Served
use firecracker_lab.Prelude.{
  codes, ℕ, ◌%◌, ◌^◌, Option, none, some, ◌++◌, ◌==◌, nat_eq, ltb, if◌then◌else◌,
}
use firecracker_lab.Prelude.Decimal.{digits}
use firecracker_lab.Agent.{
  Request, status, vm_restore, start_tcp_vsock_proxy, stop_tcp_vsock_proxy, healthy, degraded,
  StatusResponse, Response, status_response, ack, error_response,
}
use firecracker_lab.Guest.Machine.{
  Stats, Kernel, Machine, Reply, done, bail, Action, pure, raise, gets, ensure, ◌>>=◌, ◌>>◌,
}
use firecracker_lab.Guest.Mounts.{default_config, mount_system_paths, restore_time}
use firecracker_lab.Guest.Proxies.{start, stop}

-- `Status::Running as u8`
abbrev pub running : ℕ
running = 1

-- `u16::try_from`
unfoldable pub parse_port : ℕ → Action ℕ
parse_port port = do
  ensure (ltb port (2 ^ 16)) (codes "invalid tcp_port " ++ digits port ++ codes ": must be 1-65535")
  pure port

unfoldable pub handle_status : Stats → StatusResponse
handle_status s = record {
  health = if s.status == running then healthy else degraded;
  cpu_pct = s.cpu_pct % 2 ^ 32;
  mem_available_bytes = s.mem_available_bytes;
  last_beat = s.last_beat;
}

unfoldable pub acked : Reply (Unit {0}) × Machine → Reply Response × Machine
acked (done _, m) = (done ack, m)
acked (bail reason, m) = (done (error_response reason), m)

unfoldable pub ack_or_error : Action (Unit {0}) → Action Response
ack_or_error s m = acked (s m)

module _ (kernel : Kernel) where
  unfoldable pub handle_vm_restore : ℕ → Action (Unit {0})
  handle_vm_restore restored_at = do
    mount_system_paths kernel default_config
    restore_time kernel restored_at

  unfoldable pub handle_start_proxy : ℕ → ℕ → ℕ → Action (Unit {0})
  handle_start_proxy tcp_port cid vsock_port = do
    port ← parse_port tcp_port
    start kernel port cid vsock_port

  unfoldable pub handle_stop_proxy : ℕ → Action (Unit {0})
  handle_stop_proxy tcp_port = do port ← parse_port tcp_port; stop kernel port

  -- `none` is a request whose oneof is not set.
  unfoldable pub dispatch : Option Request → Action Response
  dispatch none = raise (codes "request with no request_type set")
  dispatch (some status) = gets (λ m. status_response (handle_status m.stats))
  dispatch (some (vm_restore restored_at)) = do handle_vm_restore restored_at; pure ack
  dispatch (some (start_tcp_vsock_proxy tcp_port cid vsock_port)) =
      ack_or_error (handle_start_proxy tcp_port cid vsock_port)
  dispatch (some (stop_tcp_vsock_proxy tcp_port)) = ack_or_error (handle_stop_proxy tcp_port)
