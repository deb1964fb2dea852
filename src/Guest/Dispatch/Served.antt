-- ===== src/Guest/Dispatch/Served.antt =====
-- Sequences of requests to the agent (dispatch.rs), and which ports have a proxy after them.
use firecracker_lab.Prelude.{
  ℕ, ◌<◌, ◌^◌, Bool, false, ◌||◌, Option, none, some, List, [], ◌∷◌, ◌≡◌, refl, ◌==◌, nat_eq, ltb,
  if◌then◌else◌, arith, inl, inr, Bool-cases, sym, ap, ◌∙◌,
}
use firecracker_lab.Agent.{
  Request, status, vm_restore, start_tcp_vsock_proxy, stop_tcp_vsock_proxy, Response, ack,
  status_response, error_response, unset,
}
use firecracker_lab.Guest.Machine.{Mapping, Kernel, Machine, Reply, done, bail, next, pure}
use firecracker_lab.Guest.Proxies.{contains_key, remove_key, start, stop}
use firecracker_lab.Guest.Proxies.Synced.{
  listening, IsSynced, Started, Stopped, start-Started, stop-Stopped, start_outcome-IsSynced,
  stop_outcome-IsSynced,
}
use firecracker_lab.Guest.Dispatch.Kept.{Kept, Keeps, handle_vm_restore-Keeps}
use firecracker_lab.Guest.Dispatch.{
  parse_port, acked, ack_or_error, handle_vm_restore, handle_start_proxy, handle_stop_proxy,
  dispatch,
}

abbrev pub Trace : Type 0
Trace = List (Request × Response)

-- Whether the latest acknowledged request about the port, if there is one, has started its proxy.
abbrev pub proxied : ℕ → Trace → Bool
proxied port [] = false
proxied port ((start_tcp_vsock_proxy p _ _, ack) ∷ t) = p == port || proxied port t
proxied port ((stop_tcp_vsock_proxy p, ack) ∷ t) =
    let before = proxied port t in if p == port then false else before
proxied port (_ ∷ t) = proxied port t

-- From a machine without proxies, requests whose answers are in the trace, the latest first; a
-- request that dispatch fails on has no answer.
pub data Serves (kernel : Kernel) : Trace → Machine → Type 0 where
  booted : (m : Machine) → m.proxies ≡ [] → listening m.asked ≡ [] → Serves kernel [] m
  replied :
      {t : Trace} {m m' : Machine} {resp : Response} (req : Request)
      → Serves kernel t m
      → dispatch kernel (some req) m ≡ (done resp, m')
      → Serves kernel ((req, resp) ∷ t) m'
  failed :
      {t : Trace} {m m' : Machine} {e : List ℕ} (req : Option Request)
      → Serves kernel t m
      → dispatch kernel req m ≡ (bail e, m')
      → Serves kernel t m'

-- The proxies of the machine are those that the trace tells of.
pub record Follows (t : Trace) (m : Machine) : Type 0 where
  pub synced : IsSynced m
  pub agrees : (port : ℕ) → contains_key port m.proxies ≡ proxied port t

contains_key-remove_key :
    (p port : ℕ) (ps : List Mapping)
    → contains_key port (remove_key p ps) ≡ (if p == port then false else contains_key port ps)
unfolding contains_key remove_key
contains_key-remove_key p port [] = ground arith
contains_key-remove_key p port (q ∷ ps) = ground (arith, contains_key-remove_key p port ps)

-- What a request has done, by what it was answered: an acknowledged start or stop has done its
-- part, and nothing else has changed the proxies.
abbrev Answered : Request → Machine → Reply Response × Machine → Type 0
Answered (start_tcp_vsock_proxy p c v) m (done ack, m') =
    (p < 2 ^ 16) × Started p c v m (done tt, m')
Answered (stop_tcp_vsock_proxy p) m (done ack, m') = Stopped p m (done tt, m')
Answered _ m (_, m') = Kept m m'

module _ (kernel : Kernel) where
  acked_start :
      (p c v : ℕ) (m : Machine) (o : Reply (Unit {0}) × Machine)
      → p < 2 ^ 16
      → Started p c v m o
      → Answered (start_tcp_vsock_proxy p c v) m (acked o)
  unfolding acked Kept
  acked_start p c v m (done _, m') h s = (h, s)
  acked_start p c v m (bail e, m') h s = s

  acked_stop :
      (p : ℕ) (m : Machine) (o : Reply (Unit {0}) × Machine)
      → Stopped p m o
      → Answered (stop_tcp_vsock_proxy p) m (acked o)
  unfolding acked Kept
  acked_stop p m (done _, m') s = s
  acked_stop p m (bail e, m') s =
      (ap (λ n. n.proxies) (s.1), ap (λ n. listening n.asked) (s.1), ap (λ n. n.stats) (s.1))

  restored :
      (t : ℕ) (m : Machine) (o : Reply (Unit {0}) × Machine)
      → Kept m o.1
      → Answered (vm_restore t) m (next (λ _. pure ack) o)
  restored t m (done _, m') h = h
  restored t m (bail e, m') h = h

  dispatch-Answered : (req : Request) (m : Machine) → Answered req m (dispatch kernel (some req) m)
  unfolding dispatch ack_or_error handle_start_proxy handle_stop_proxy parse_port acked Kept Keeps
  dispatch-Answered status m = (refl, refl, refl)
  dispatch-Answered (vm_restore t) m =
      restored t m (handle_vm_restore kernel t m) (handle_vm_restore-Keeps kernel t m)
  dispatch-Answered (start_tcp_vsock_proxy p c v) m = elim (Bool-cases (ltb p (2 ^ 16))) [
    | inl fits ↦
        rw fits
          (acked_start p c v m (start kernel p c v m) (ground arith) (start-Started kernel p c v m))
    | inr large ↦ rw large (refl, refl, refl)
  ]
  dispatch-Answered (stop_tcp_vsock_proxy p) m = elim (Bool-cases (ltb p (2 ^ 16))) [
    | inl fits ↦ rw fits (acked_stop p m (stop kernel p m) (stop-Stopped kernel p m))
    | inr large ↦ rw large (refl, refl, refl)
  ]

bailed : (e : List ℕ) (req : Request) (m m' : Machine) → Answered req m (bail e, m') → Kept m m'
bailed e status m m' h = h
bailed e (vm_restore _) m m' h = h
bailed e (start_tcp_vsock_proxy _ _ _) m m' h = h
bailed e (stop_tcp_vsock_proxy _) m m' h = h

settled :
    {t t' : Trace} (m m' : Machine)
    → ((port : ℕ) → proxied port t' ≡ proxied port t)
    → Kept m m'
    → Follows t m
    → Follows t' m'
unfolding Kept
settled m m' told (kept, same, _) f = record {
  synced = record {
    threads = rw (kept, same, f.synced.threads);
    distinct = rw kept f.synced.distinct;
    small = rw kept f.synced.small;
  };
  agrees = λ port. rw (kept, told port) (f.agrees port);
}

-- An answer that keeps the trace and the machine together.
follow :
    (req : Request) (t : Trace) (m m' : Machine) (resp : Response)
    → Answered req m (done resp, m')
    → Follows t m
    → Follows ((req, resp) ∷ t) m'
unfolding Kept contains_key
follow status t m m' resp h f = settled m m' (λ _. refl) h f
follow (vm_restore _) t m m' resp h f = settled m m' (λ _. refl) h f
follow (start_tcp_vsock_proxy p c v) t m m' ack (small, h) f = record {
  synced = start_outcome-IsSynced p c v m (done tt, m') small h f.synced;
  agrees = λ port. rw (h.1) (ap (λ b. p == port || b) (f.agrees port));
}
follow (start_tcp_vsock_proxy p c v) t m m' (error_response e) h f = settled m m' (λ _. refl) h f
follow (start_tcp_vsock_proxy p c v) t m m' (status_response s) h f = settled m m' (λ _. refl) h f
follow (start_tcp_vsock_proxy p c v) t m m' unset h f = settled m m' (λ _. refl) h f
follow (stop_tcp_vsock_proxy p) t m m' ack h f = record {
  synced = stop_outcome-IsSynced p m (done tt, m') h f.synced;
  agrees = λ port. rw (h.1, contains_key-remove_key, f.agrees port) refl;
}
follow (stop_tcp_vsock_proxy p) t m m' (error_response e) h f = settled m m' (λ _. refl) h f
follow (stop_tcp_vsock_proxy p) t m m' (status_response s) h f = settled m m' (λ _. refl) h f
follow (stop_tcp_vsock_proxy p) t m m' unset h f = settled m m' (λ _. refl) h f

-- At any time the entries of the registry are the listener threads that run, on distinct ports of
-- 16 bits, and a port has a proxy exactly if the latest acknowledged request about it was a start.
pub Serves-Follows : {kernel : Kernel} {t : Trace} {m : Machine} → Serves kernel t m → Follows t m
unfolding contains_key dispatch Kept
Serves-Follows (booted m empty quiet) = record {
  synced = record { threads = empty ∙ sym quiet; distinct = rw empty tt; small = rw empty tt };
  agrees = λ port. rw empty refl;
}
Serves-Follows {kernel} (replied {t} {m} {m'} {resp} req s e) =
    follow req t m m' resp (rw (← e) (dispatch-Answered kernel req m)) (Serves-Follows s)
Serves-Follows {kernel} (failed {m} {m'} {e = reason} (some req) s e) =
    settled m m' (λ _. refl) (bailed reason req m m' (rw (← e) (dispatch-Answered kernel req m)))
      (Serves-Follows s)
Serves-Follows {kernel} (failed {m} {m'} none s e) =
    settled m m' (λ _. refl)
      (
        ap (λ o. o.1.proxies) (sym e),
        ap (λ o. listening o.1.asked) (sym e),
        ap (λ o. o.1.stats) (sym e),
      )
      (Serves-Follows s)

-- The part of an answer that is about the samples.
Answered-stats :
    (req : Request) (m : Machine) (o : Reply Response × Machine)
    → Answered req m o
    → o.1.stats ≡ m.stats
unfolding Kept
Answered-stats status m (done r, m') h = h.2
Answered-stats status m (bail e, m') h = h.2
Answered-stats (vm_restore _) m (done r, m') h = h.2
Answered-stats (vm_restore _) m (bail e, m') h = h.2
Answered-stats (start_tcp_vsock_proxy _ _ _) m (done ack, m') h = h.1.3
Answered-stats (start_tcp_vsock_proxy _ _ _) m (done (status_response _), m') h = h.2
Answered-stats (start_tcp_vsock_proxy _ _ _) m (done (error_response _), m') h = h.2
Answered-stats (start_tcp_vsock_proxy _ _ _) m (done unset, m') h = h.2
Answered-stats (start_tcp_vsock_proxy _ _ _) m (bail e, m') h = h.2
Answered-stats (stop_tcp_vsock_proxy _) m (done ack, m') h = h.3
Answered-stats (stop_tcp_vsock_proxy _) m (done (status_response _), m') h = h.2
Answered-stats (stop_tcp_vsock_proxy _) m (done (error_response _), m') h = h.2
Answered-stats (stop_tcp_vsock_proxy _) m (done unset, m') h = h.2
Answered-stats (stop_tcp_vsock_proxy _) m (bail e, m') h = h.2

-- No request changes the samples or the status.
pub dispatch-stats :
    (kernel : Kernel) (req : Option Request) (m : Machine)
    → (dispatch kernel req m).1.stats ≡ m.stats
unfolding dispatch
dispatch-stats kernel none m = refl
dispatch-stats kernel (some req) m =
    Answered-stats req m (dispatch kernel (some req) m) (dispatch-Answered kernel req m)
