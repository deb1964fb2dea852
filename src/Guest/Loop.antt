-- ===== src/Guest/Loop.antt =====
-- The boot and the main loop of the agent (guest-agent/src/main.rs), with the ticks of the timer
-- (scheduler/timerfd.rs) and the accept loop of the two listeners (transport/vsock.rs and
-- transport/pty_vsock.rs). The descriptors are opened before and are parameters, as is what has
-- arrived when an event is handled. Signals are drained, and sessions get threads of their own.
pub mod Healthy
use firecracker_lab.Prelude.{Text, ℕ, Bool, true, false, Option, none, some, List, [], ◌∷◌}
use firecracker_lab.Guest.Machine.{
  SignalSource, signal, vsock_listen, pty_vsock_listen, timer, Errno, Kernel, Machine, done, Action,
  ◌>>=◌, ◌>>◌,
}
use firecracker_lab.Guest.Mounts.{default_config, mount_system_paths}
use firecracker_lab.Guest.Dispatch.{running}
use firecracker_lab.Guest.Server.{GuestCodec, handle_connection}
use firecracker_lab.Guest.Stats.{sample}
use firecracker_lab.Guest.Poller.{add_all}

-- The descriptors that main registers.
pub record Descriptors : Type 0 where
  pub signal_fd : ℕ
  pub vsock_fd : ℕ
  pub pty_fd : ℕ
  pub timer_fd : ℕ

-- What a call of accept gives: a connection, by the bytes that it brings, or an error.
pub data Accepted : Type 0 where
  connection : Text → Accepted
  would_block : Accepted
  failed : Errno → Accepted

-- What there is for the handler of an event: the time and the two files of /proc, and what the calls
-- of accept give, in order.
pub record Arrival : Type 0 where
  pub now : ℕ
  pub stat : Option Text
  pub meminfo : Option Text
  pub accepts : List Accepted

unfoldable pub one_more : Text → Option (List Text) → Option (List Text)
one_more s none = none
one_more s (some ss) = some (s ∷ ss)

-- VsockDispatcher::accept_connections and PtyVsockDispatcher::accept_connections, the same code;
-- `none` means that the loop still runs after these calls.
unfoldable pub accept_connections : List Accepted → Option (List Text)
unfolding one_more
accept_connections [] = none
accept_connections (connection s ∷ rest) = one_more s (accept_connections rest)
accept_connections (would_block ∷ rest) = some []
accept_connections (failed e ∷ rest) = accept_connections rest

unfoldable pub set_running : Action (Unit {0})
set_running m = (done tt, record m { stats = record m.stats { status = running } })

-- `main` up to its loop; an error is a panic.
unfoldable pub boot : Kernel → Descriptors → Action (Unit {0})
unfolding set_running
boot kernel fds = do
  mount_system_paths kernel default_config
  add_all kernel (
      (signal, fds.signal_fd)
      ∷ (vsock_listen, fds.vsock_fd)
      ∷ (pty_vsock_listen, fds.pty_fd)
      ∷ (timer, fds.timer_fd)
      ∷ [])
  set_running

module _ (codec : GuestCodec) (kernel : Kernel) where
  -- VsockDispatcher::handle_events; what a connection ends with is dropped.
  unfoldable pub serve_all : List Text → Machine → Machine
  serve_all [] m = m
  serve_all (s ∷ ss) m = serve_all ss (handle_connection codec kernel s m).1

  -- The connections of a listener; a session leaves the machine as it is.
  unfoldable pub accepted : Bool → Option (List Text) → Machine → Option Machine
  accepted pty none m = none
  accepted true (some ss) m = some m
  accepted false (some ss) m = some (serve_all ss m)

  -- One event of the loop; `none` means that its accept loop still runs.
  unfoldable pub handle_source : Arrival → Option SignalSource → Machine → Option Machine
  unfolding accepted
  handle_source a (some signal) m = some m
  handle_source a (some timer) m = some (record m { stats = sample a.now a.stat a.meminfo m.stats })
  handle_source a (some vsock_listen) m = accepted false (accept_connections a.accepts) m
  handle_source a (some pty_vsock_listen) m = accepted true (accept_connections a.accepts) m
  handle_source a none m = some m

  unfoldable pub and_then : Option Machine → (Machine → Option Machine) → Option Machine
  and_then none f = none
  and_then (some m) f = f m

  -- The events of the loop, in order.
  unfoldable pub main_loop : List (Arrival × Option SignalSource) → Machine → Option Machine
  unfolding and_then
  main_loop [] m = some m
  main_loop ((a, source) ∷ events) m = and_then (handle_source a source m) (main_loop events)
