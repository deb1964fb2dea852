-- ===== src/Tests/Agents.antt =====
-- The theorems on the guest agent, applied to a kernel on which nothing fails.
use firecracker_lab.Prelude.{
  Text, codes, ◌+◌, ◌-◌, ◌*◌, ◌≤◌, ◌<◌, Option, none, some, List, [], ◌∷◌, ◌≡◌, refl, sym, ap, ◌∙◌,
  true, inl, inr, arith, ℕ_discrete,
}
use firecracker_lab.Prelude.Lists.{All}
use firecracker_lab.World.{Host}
use firecracker_lab.Agent.{Codec, Request, start_tcp_vsock_proxy, Response, ack, send_request}
use firecracker_lab.OciImage.Build
use firecracker_lab.OciImage.Build.{json_of}
use firecracker_lab.Guest.Machine.{
  timer, signal, SignalSource, other, Errno, Syscall, mount, mkdir, clock_settime, bind,
  set_nonblocking, drop_listener, join_listener, spawn_listener, epoll_add, epoll_modify,
  epoll_delete, Kernel, Stats, Machine, Reply, done, bail, sys, sys_answer,
}
use firecracker_lab.Guest.Mounts.{default_config, mount_system_paths, mount_fs, make_dir}
use firecracker_lab.Guest.Mounts.Again.{in_place, IsSticky, IsDone, mount_system_paths-again}
use firecracker_lab.Guest.Dispatch.{dispatch, ack_or_error, acked, handle_start_proxy, parse_port}
use firecracker_lab.Guest.Proxies.{start, contains_key}
use firecracker_lab.Guest.Dispatch.Served.{Serves, booted, replied, Follows, Serves-Follows}
use firecracker_lab.Guest.Server.{GuestCodec, handle_connection}
use firecracker_lab.Guest.Client.{IsAgreed, frame, written, seen, send_request-dispatch}
use firecracker_lab.Guest.Stats.{
  read_cpu_ticks, sample, cpu_ticks, parsed, parse_u64, all_digits, sum_u64,
}
use firecracker_lab.Strings.{fields}
use firecracker_lab.Guest.Stats.Share.{sample-cpu_pct}
use firecracker_lab.Guest.Poller.{add_epoll, add_all, remove_epoll}
use firecracker_lab.Guest.Poller.Interest.{
  is_some, interest, IsEpoll, idle, add, remove, tag_of, source_of, Polls-source_of,
}
use firecracker_lab.Agent.{StatusResponse, healthy, status, status_response}
use firecracker_lab.Guest.Machine.{vsock_listen}
use firecracker_lab.Guest.Loop.{
  Descriptors, connection, failed, would_block, Arrival, boot, set_running, main_loop,
}
use firecracker_lab.Guest.Loop.Healthy.{gives_would_block, dispatch-IsHealthy}
use firecracker_lab.Guest.Session.{env_vars, split_once, pty_command}
use firecracker_lab.Guest.Session.Configured.{run_as, pty_command-json_of}
use firecracker_lab.Tests.{host, world}

abbrev kernel : Kernel
kernel = record { answer = λ l c. none; display = λ e. [] }

abbrev fresh : Stats
fresh = record {
  status = 1;
  cpu_pct = 0;
  mem_available_bytes = 0;
  last_beat = 0;
  prev_cpu_total = 0;
  prev_cpu_idle = 0;
}

abbrev machine : Machine
machine = record { proxies = []; registered = []; stats = fresh; asked = [] }

held : (c : Syscall) (a : Option Errno) → in_place c a ≡ true → in_place c none ≡ true
held (mount _ _ _) a h = refl
held (mkdir _) a h = refl
held (clock_settime _) a h = h
held (bind _) a h = h
held (set_nonblocking _) a h = h
held (drop_listener _) a h = h
held (join_listener _) a h = h
held (spawn_listener _) a h = h
held (epoll_add _ _) a h = h
held (epoll_modify _ _) a h = h
held (epoll_delete _) a h = h

kernel-IsSticky : IsSticky kernel
kernel-IsSticky [] c h = absurd h
kernel-IsSticky ((d, a) ∷ l) c (inl (e, h)) = held c a h
kernel-IsSticky ((d, a) ∷ l) c (inr h) = kernel-IsSticky l c h

abbrev mounted : Machine
mounted = (mount_system_paths kernel default_config machine).1

default-IsDone : IsDone (mount_system_paths kernel default_config machine)
unfolding mount_system_paths default_config mount_fs make_dir sys
default-IsDone = tt

mount_system_paths-again_example : IsDone (mount_system_paths kernel default_config mounted)
mount_system_paths-again_example =
    mount_system_paths-again kernel default_config machine mounted kernel-IsSticky default-IsDone
      ([], refl)

abbrev trace : List (Request × Response)
trace = (start_tcp_vsock_proxy 11434 2 11434, ack) ∷ []

abbrev proxying : Machine
proxying = (dispatch kernel (some (start_tcp_vsock_proxy 11434 2 11434)) machine).1

served : Serves kernel trace proxying
unfolding dispatch ack_or_error acked handle_start_proxy parse_port start contains_key sys
served = replied (start_tcp_vsock_proxy 11434 2 11434) (booted machine refl refl) refl

Serves-Follows_example : Follows trace proxying
Serves-Follows_example = Serves-Follows served

abbrev guest_codec : GuestCodec
guest_codec = record {
  decode = λ s. some (some (start_tcp_vsock_proxy 11434 2 11434));
  encode = λ r. 2 ∷ [];
}

abbrev labctl_codec : Codec
labctl_codec = record { marshal = λ r. some (1 ∷ []); unmarshal = λ s. some ack }

-- The host's vsock with the agent at its end.
abbrev agent_host : Host
agent_host = record host {
  output = λ h c. written (handle_connection guest_codec kernel (frame (1 ∷ [])) machine);
}

acknowledged :
    dispatch kernel (some (start_tcp_vsock_proxy 11434 2 11434)) machine ≡ (done ack, proxying)
unfolding dispatch ack_or_error acked handle_start_proxy parse_port start contains_key sys
acknowledged = refl

abbrev response_of : Reply Response × Machine → Option Response
response_of (done r, m) = some r
response_of (bail e, m) = none

agreed :
    IsAgreed labctl_codec guest_codec
      (start_tcp_vsock_proxy 11434 2 11434)
      (1 ∷ [])
      (dispatch kernel (some (start_tcp_vsock_proxy 11434 2 11434)) machine)
agreed = record {
  marshalled = refl;
  received = refl;
  short = omega arith;
  answered = λ r m e. (ap response_of (sym acknowledged ∙ e), omega arith);
}

send_request-dispatch_example :
    (send_request agent_host labctl_codec
      (record { sock = codes "/run/vsock.sock"; buffered = [] })
      (start_tcp_vsock_proxy 11434 2 11434)
      world).0
    ≡ seen (dispatch kernel (some (start_tcp_vsock_proxy 11434 2 11434)) machine)
send_request-dispatch_example =
    send_request-dispatch labctl_codec guest_codec (start_tcp_vsock_proxy 11434 2 11434) (1 ∷ [])
      agent_host kernel (codes "/run/vsock.sock") machine world agreed (λ h c. refl) refl

abbrev stat_line : Text
stat_line = codes "cpu  30 0 20 100 0\n"

ticks : read_cpu_ticks stat_line ≡ some (150, 100)
unfolding read_cpu_ticks fields cpu_ticks parsed parse_u64 all_digits sum_u64 ℕ_discrete
ticks = refl

sample-cpu_pct_example :
    ((sample 7 (some stat_line) none fresh).cpu_pct * (150 - 0) ≤ 100 * (150 - 0 - (100 - 0)))
    × (100 * (150 - 0 - (100 - 0))
        < ((sample 7 (some stat_line) none fresh).cpu_pct + 1) * (150 - 0))
sample-cpu_pct_example =
    sample-cpu_pct 7 150 100 stat_line none fresh ticks (omega arith) (omega arith)

abbrev polled : Machine
polled =
    (remove_epoll kernel 3 (add_epoll kernel timer 4 (add_epoll kernel signal 3 machine).1).1).1

epoll : IsEpoll kernel
epoll l fd h = absurd cc

Polls-source_of_example :
    (source_of (interest polled.asked 4) ≡ tag_of polled.registered 4)
    × (is_some (interest polled.asked 4) ≡ is_some (tag_of polled.registered 4))
Polls-source_of_example =
    Polls-source_of 4 epoll (remove 3 (add timer 4 (add signal 3 (idle machine refl (λ fd. refl)))))

abbrev config : Build.ImageConfig
config = record {
  entrypoint = codes "/entry" ∷ [];
  cmd = codes "serve" ∷ codes "-v" ∷ [];
  env = codes "A=1" ∷ codes "B" ∷ [];
  working_dir = [];
  user = [];
}

pty_command-json_of_example :
    pty_command (json_of config) ≡ some (run_as config.cmd (env_vars config.env))
pty_command-json_of_example = pty_command-json_of config

test_env : env_vars config.env ≡ (codes "A", codes "1") ∷ []
unfolding env_vars split_once ℕ_discrete
test_env = refl

abbrev descriptors : Descriptors
descriptors = record { signal_fd = 3; vsock_fd = 4; pty_fd = 5; timer_fd = 6 }

abbrev main_started : Machine
main_started = (boot kernel descriptors machine).1

main_boots : boot kernel descriptors machine ≡ (done tt, main_started)
unfolding boot set_running mount_system_paths default_config mount_fs make_dir sys add_all add_epoll
    sys_answer
main_boots = refl

abbrev arrival : Arrival
arrival = record {
  now = 7;
  stat = some stat_line;
  meminfo = none;
  accepts = connection (frame (1 ∷ [])) ∷ failed (other 24) ∷ would_block ∷ [];
}

abbrev events : List (Arrival × Option SignalSource)
events = (arrival, some timer) ∷ (arrival, some vsock_listen) ∷ []

arrivals_end : All (λ (a, source). gives_would_block a.accepts ≡ true) events
unfolding gives_would_block
arrivals_end = (refl, (refl, tt))

dispatch-IsHealthy_example :
    (m' : Machine) × (s : StatusResponse) × (main_loop guest_codec kernel events main_started
      ≡ some m')
    × ((dispatch kernel (some status) m').0 ≡ done (status_response s))
    × (s.health ≡ healthy)
    × (s.cpu_pct ≤ 100)
dispatch-IsHealthy_example =
    dispatch-IsHealthy guest_codec kernel descriptors machine main_started events (omega arith)
      main_boots arrivals_end
