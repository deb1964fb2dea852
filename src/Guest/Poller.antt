-- ===== src/Guest/Poller.antt =====
-- The descriptors that the main loop waits for (guest-agent/src/scheduler/epoll.rs), and their
-- tags (boot/signals.rs).
pub mod Interest
use firecracker_lab.Prelude.{
  ℕ, Bool, true, false, Option, none, some, List, [], ◌∷◌, ◌==◌, nat_eq, map, if◌then◌else◌,
}
use firecracker_lab.Guest.Machine.{
  SignalSource, signal, vsock_listen, pty_vsock_listen, timer, Errno, exist, noent, epoll_add,
  epoll_modify, epoll_delete, Kernel, Machine, Reply, done, Action, pure, sys, sys_answer, failing,
  ◌>>=◌, ◌>>◌,
}

-- `source as u64`
unfoldable pub as_u64 : SignalSource → ℕ
as_u64 signal = 1
as_u64 vsock_listen = 2
as_u64 pty_vsock_listen = 3
as_u64 timer = 4

unfoldable pub from_u64 : ℕ → Option SignalSource
from_u64 v =
    if v == 1
    then some signal
    else if v == 2
    then some vsock_listen
    else if v == 3
    then some pty_vsock_listen
    else if v == 4
    then some timer
    else none

-- The first entry of the descriptor has its tag set; without one, an entry is pushed.
unfoldable pub set_tag : SignalSource → ℕ → List (SignalSource × ℕ) → List (SignalSource × ℕ)
set_tag tag fd [] = (tag, fd) ∷ []
set_tag tag fd ((t, raw) ∷ l) =
    let rest = set_tag tag fd l in if raw == fd then (tag, raw) ∷ l else (t, raw) ∷ rest

-- `retain(|(_, r)| *r != raw)`
unfoldable pub retain_others : ℕ → List (SignalSource × ℕ) → List (SignalSource × ℕ)
retain_others fd [] = []
retain_others fd ((t, raw) ∷ l) =
    let rest = retain_others fd l in if raw == fd then rest else (t, raw) ∷ rest

unfoldable pub registering : (List (SignalSource × ℕ) → List (SignalSource × ℕ)) → Action (Unit {0})
registering f m = (done tt, record m { registered = f m.registered })

-- What `get_events` gives for the data of the events.
unfoldable pub get_events : List ℕ → List (Option SignalSource)
get_events = map from_u64

module _ (kernel : Kernel) where
  -- From the answer to `epoll::add` on.
  unfoldable pub or_modify : SignalSource → ℕ → Option Errno → Action (Unit {0})
  or_modify tag fd none = pure tt
  or_modify tag fd (some exist) = sys kernel (failing kernel []) (epoll_modify fd (as_u64 tag))
  or_modify tag fd (some e) = λ m. (failing kernel [] e, m)

  unfoldable pub add_epoll : SignalSource → ℕ → Action (Unit {0})
  unfolding or_modify registering
  add_epoll tag fd = do
    answer ← sys_answer kernel (epoll_add fd (as_u64 tag))
    or_modify tag fd answer
    registering (set_tag tag fd)

  unfoldable pub add_all : List (SignalSource × ℕ) → Action (Unit {0})
  add_all [] = pure tt
  add_all ((tag, fd) ∷ specs) = do add_epoll tag fd; add_all specs

  unfoldable pub unless_noent : Errno → Reply (Unit {0})
  unless_noent noent = done tt
  unless_noent e = failing kernel [] e

  unfoldable pub remove_epoll : ℕ → Action (Unit {0})
  unfolding unless_noent registering
  remove_epoll fd = do sys kernel unless_noent (epoll_delete fd); registering (retain_others fd)

  delete_each : List (SignalSource × ℕ) → Action (Unit {0})
  delete_each [] = pure tt
  delete_each ((tag, fd) ∷ l) = do sys kernel (λ _. done tt) (epoll_delete fd); delete_each l

  unfoldable pub purge_all : Action (Unit {0})
  unfolding delete_each registering
  purge_all = do
    registered ← λ m. (done m.registered, m)
    delete_each registered
    registering (λ _. [])
