-- ===== src/Guest/Loop/Healthy.antt =====
-- What the agent tells of itself (main.rs and transport/dispatch.rs, handle_status).
use mathlib.Core.Path.{subst}
use firecracker_lab.Prelude.{
  Text, ℕ, Bool, true, false, ◌≤◌, nat_eq, Option, none, some, List, [], ◌∷◌, ◌≡◌, refl, ◌∙◌, arith,
}
use firecracker_lab.Prelude.Lists.{All}
use firecracker_lab.Agent.{
  Request, status, healthy, StatusResponse, status_response, uint32_of, read_full,
}
use firecracker_lab.Guest.Machine.{
  SignalSource, signal, vsock_listen, pty_vsock_listen, timer, Errno, busy, exist, noent, other,
  epoll_add, Kernel, Machine, Stats, Reply, done, bail, Action, pure, next, sys, sys_answer,
}
use firecracker_lab.Guest.Mounts.{default_config, mount_system_paths}
use firecracker_lab.Guest.Dispatch.{running, handle_status, dispatch}
use firecracker_lab.Guest.Dispatch.Kept.{Kept, Keeps, mount_system_paths-Keeps}
use firecracker_lab.Guest.Dispatch.Served.{dispatch-stats}
use firecracker_lab.Guest.Server.{
  GuestCodec, read_exact, extract_payload, decoded, read, response_frame, handle_connection,
}
use firecracker_lab.Guest.Stats.{sample}
use firecracker_lab.Guest.Stats.Share.{sample-le, sample-status}
use firecracker_lab.Guest.Poller.{as_u64, or_modify, add_epoll, add_all, set_tag, registering}
use firecracker_lab.Guest.Loop.{
  Descriptors, Accepted, connection, would_block, failed, Arrival, accept_connections, accepted,
  and_then, one_more, set_running, boot, serve_all, handle_source, main_loop,
}

-- Some call of accept finds no connection.
unfoldable pub gives_would_block : List Accepted → Bool
gives_would_block [] = false
gives_would_block (connection s ∷ rest) = gives_would_block rest
gives_would_block (would_block ∷ rest) = true
gives_would_block (failed e ∷ rest) = gives_would_block rest

accept_connections-some :
    (l : List Accepted)
    → gives_would_block l ≡ true
    → (ss : List Text) × (accept_connections l ≡ some ss)
unfolding gives_would_block accept_connections one_more
accept_connections-some [] ends = absurd cc
accept_connections-some (connection s ∷ rest) ends =
    let (ss, e) = accept_connections-some rest ends in (s ∷ ss, rw e refl)
accept_connections-some (would_block ∷ rest) ends = ([], refl)
accept_connections-some (failed e ∷ rest) ends = accept_connections-some rest ends

-- The agent runs, and has measured a percentage.
pub record IsHealthy (s : Stats) : Type 0 where
  pub runs : s.status ≡ running
  pub share : s.cpu_pct ≤ 100

-- The samples stay as they are.
Still : {A : Type 0} → Action A → Type 0
Still s = (m : Machine) → (s m).1.stats ≡ m.stats

next-Still :
    {A B : Type 0} (f : A → Action B) (m : Machine) (o : Reply A × Machine)
    → o.1.stats ≡ m.stats
    → ((a : A) → Still (f a))
    → (next f o).1.stats ≡ m.stats
unfolding Still
next-Still f m (done a, n) h k = k a n ∙ h
next-Still f m (bail e, n) h k = h

bind-Still :
    {A B : Type 0} (s : Action A) (f : A → Action B)
    → Still s
    → ((a : A) → Still (f a))
    → Still (λ m. next f (s m))
unfolding Still
bind-Still s f h k m = next-Still f m (s m) (h m) k

pure-Still : {A : Type 0} (a : A) → Still (pure a)
unfolding Still
pure-Still a m = refl

read-Still : (o : Option (Text × Text)) → Still (read o)
unfolding Still read
read-Still none m = refl
read-Still (some parts) m = refl

read_exact-Still : (n : ℕ) (s : Text) → Still (read_exact n s)
unfolding read_exact
read_exact-Still n s = read-Still (read_full n s)

module _ (kernel : Kernel) where
  or_modify-Still :
      (tag : SignalSource) (fd : ℕ) (o : Option Errno) → Still (or_modify kernel tag fd o)
  unfolding Still or_modify sys
  or_modify-Still tag fd none m = refl
  or_modify-Still tag fd (some busy) m = refl
  or_modify-Still tag fd (some exist) m = refl
  or_modify-Still tag fd (some noent) m = refl
  or_modify-Still tag fd (some (other n)) m = refl

  add_epoll-Still : (tag : SignalSource) (fd : ℕ) → Still (add_epoll kernel tag fd)
  unfolding Still add_epoll sys_answer registering
  add_epoll-Still tag fd m =
      next-Still (λ _ n. (done tt, record n { registered = set_tag tag fd n.registered })) m
        (or_modify kernel tag fd (kernel.answer m.asked (epoll_add fd (as_u64 tag))) (record m {
          asked =
              (epoll_add fd (as_u64 tag), kernel.answer m.asked (epoll_add fd (as_u64 tag)))
              ∷ m.asked;
        }))
        (or_modify-Still tag fd (kernel.answer m.asked (epoll_add fd (as_u64 tag))) _) (λ _ n. refl)

  add_all-Still : (specs : List (SignalSource × ℕ)) → Still (add_all kernel specs)
  unfolding Still add_all
  add_all-Still [] m = refl
  add_all-Still ((tag, fd) ∷ specs) m =
      next-Still (λ _. add_all kernel specs) m (add_epoll kernel tag fd m)
        (add_epoll-Still tag fd m) (λ _. add_all-Still specs)

  module _ (codec : GuestCodec) where
    decoded-Still : (o : Option (Option Request)) → Still (decoded o)
    unfolding Still decoded
    decoded-Still none m = refl
    decoded-Still (some req) m = refl

    extract_payload-Still : (n : ℕ) (s : Text) → Still (extract_payload codec n s)
    unfolding extract_payload
    extract_payload-Still n s =
        bind-Still _ _ (read_exact-Still n s) λ (body, rest). decoded-Still (codec.decode body)

    dispatch-Still : (req : Option Request) → Still (dispatch kernel req)
    unfolding Still
    dispatch-Still req = dispatch-stats kernel req

    handle_connection-Still : (s : Text) → Still (handle_connection codec kernel s)
    unfolding handle_connection
    handle_connection-Still s = bind-Still _ _ (read_exact-Still 4 s) λ (prefix, rest).
        bind-Still _ _ (extract_payload-Still (uint32_of prefix) rest)
          λ req. bind-Still _ _ (dispatch-Still req) λ r. pure-Still (response_frame codec r)

    serve_all-stats : (ss : List Text) (m : Machine) → (serve_all codec kernel ss m).stats ≡ m.stats
    unfolding serve_all Still
    serve_all-stats [] m = refl
    serve_all-stats (s ∷ ss) m =
        serve_all-stats ss (handle_connection codec kernel s m).1 ∙ handle_connection-Still s m

    handle_source-IsHealthy :
        (a : Arrival) (source : Option SignalSource) (m : Machine)
        → gives_would_block a.accepts ≡ true
        → IsHealthy m.stats
        → (m' : Machine) × (handle_source codec kernel a source m ≡ some m') × IsHealthy m'.stats
    unfolding handle_source accepted
    handle_source-IsHealthy a (some signal) m ends h = (m, refl, h)
    handle_source-IsHealthy a (some timer) m ends h = (
      record m { stats = sample a.now a.stat a.meminfo m.stats },
      refl,
      record {
        runs = sample-status a.now a.stat a.meminfo m.stats ∙ h.runs;
        share = sample-le a.now a.stat a.meminfo m.stats h.share;
      },
    )
    handle_source-IsHealthy a (some vsock_listen) m ends h =
        let (ss, e) = accept_connections-some a.accepts ends in
        (serve_all codec kernel ss m, rw e refl, rw (serve_all-stats ss m) h)
    handle_source-IsHealthy a (some pty_vsock_listen) m ends h =
        let (ss, e) = accept_connections-some a.accepts ends in (m, rw e refl, h)
    handle_source-IsHealthy a none m ends h = (m, refl, h)

    main_loop-IsHealthy :
        (events : List (Arrival × Option SignalSource)) (m : Machine)
        → All (λ (a, source). gives_would_block a.accepts ≡ true) events
        → IsHealthy m.stats
        → (m' : Machine) × (main_loop codec kernel events m ≡ some m') × IsHealthy m'.stats
    unfolding main_loop and_then
    main_loop-IsHealthy [] m ends h = (m, refl, h)
    main_loop-IsHealthy ((a, source) ∷ events) m (end, ends) h =
        let (m1, e1, h1) = handle_source-IsHealthy a source m end h in
        let (m2, e2, h2) = main_loop-IsHealthy events m1 ends h1 in (m2, rw e1 e2, h2)

  -- The agent after a boot that does not panic.
  Booted : Reply (Unit {0}) × Machine → Type 0
  Booted (done _, n) = IsHealthy n.stats
  Booted (bail e, n) = Unit

  running_then :
      (m : Machine) (o : Reply (Unit {0}) × Machine)
      → m.stats.cpu_pct ≤ 100
      → o.1.stats ≡ m.stats
      → Booted (next (λ _. set_running) o)
  unfolding Booted set_running
  running_then m (done _, n) h e = record { runs = refl; share = rw e h }
  running_then m (bail e', n) h e = tt

  registered_then :
      (specs : List (SignalSource × ℕ)) (m : Machine) (o : Reply (Unit {0}) × Machine)
      → m.stats.cpu_pct ≤ 100
      → o.1.stats ≡ m.stats
      → Booted (next (λ _ n. next (λ _. set_running) (add_all kernel specs n)) o)
  unfolding Still Booted
  registered_then specs m (done _, n) h e =
      running_then m (add_all kernel specs n) h (add_all-Still specs n ∙ e)
  registered_then specs m (bail e', n) h e = tt

  boot-Booted :
      (fds : Descriptors) (m : Machine) → m.stats.cpu_pct ≤ 100 → Booted (boot kernel fds m)
  unfolding boot Keeps Kept
  boot-Booted fds m h =
      registered_then _ m (mount_system_paths kernel default_config m) h
        ((mount_system_paths-Keeps kernel default_config m).2)

-- After a boot that does not panic, from samples of at most 100 percent, such as those of a new
-- agent, every sequence of events is handled to its end, if each loop of accept meets a WouldBlock;
-- and a status request is then answered, as healthy and with at most 100 percent.
pub dispatch-IsHealthy :
    (codec : GuestCodec) (kernel : Kernel) (fds : Descriptors) (m n : Machine)
    (events : List (Arrival × Option SignalSource))
    → m.stats.cpu_pct ≤ 100
    → boot kernel fds m ≡ (done tt, n)
    → All (λ (a, source). gives_would_block a.accepts ≡ true) events
    → (m' : Machine) × (s : StatusResponse) × (main_loop codec kernel events n ≡ some m')
      × ((dispatch kernel (some status) m').0 ≡ done (status_response s))
      × (s.health ≡ healthy)
      × (s.cpu_pct ≤ 100)
unfolding dispatch handle_status Booted
dispatch-IsHealthy codec kernel fds m n events small booted ends =
    let start : IsHealthy n.stats = subst (Booted kernel) booted (boot-Booted kernel fds m small) in
    let (m', e, h) = main_loop-IsHealthy kernel codec events n ends start in
    (m', handle_status m'.stats, e, refl, ground (arith, h.runs), omega (arith, h.share))
