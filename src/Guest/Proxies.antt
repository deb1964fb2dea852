-- ===== src/Guest/Proxies.antt =====
-- The registry of proxies (guest-agent/src/transport/tcp_vsock_proxy.rs).
pub mod Synced
use firecracker_lab.Prelude.{
  Text, codes, ℕ, Bool, true, false, not, List, [], ◌∷◌, ◌++◌, ◌==◌, nat_eq, if◌then◌else◌, ◌||◌,
}
use firecracker_lab.Prelude.Decimal.{digits}
use firecracker_lab.Guest.Machine.{
  Mapping, bind, set_nonblocking, drop_listener, join_listener, spawn_listener, Kernel, Machine,
  Reply, done, bail, Action, gets, ensure, does, sys, failing, ◌>>=◌, ◌>>◌,
}

abbrev pub mapping : ℕ → ℕ → ℕ → Mapping
mapping port c v = record { tcp_port = port; cid = c; vsock_port = v }

unfoldable pub contains_key : ℕ → List Mapping → Bool
contains_key port [] = false
contains_key port (p ∷ ps) = p.tcp_port == port || contains_key port ps

unfoldable pub remove_key : ℕ → List Mapping → List Mapping
remove_key port [] = []
remove_key port (p ∷ ps) =
    let rest = remove_key port ps in if p.tcp_port == port then rest else p ∷ rest

set_proxies : List Mapping → Action (Unit {0})
set_proxies ps m = (done tt, record m { proxies = ps })

-- A listener that start gives up is closed.
unfoldable pub closing : ℕ → Reply (Unit {0}) × Machine → Reply (Unit {0}) × Machine
closing port (done _, m) = (done tt, m)
closing port (bail e, m) = (bail e, (does (drop_listener port) m).1)

module _ (kernel : Kernel) where
  -- ProxyRegistry::start
  unfoldable pub start : ℕ → ℕ → ℕ → Action (Unit {0})
  unfolding closing set_proxies
  start tcp_port cid vsock_port = do
    proxies ← gets (λ m. m.proxies)
    ensure (not (contains_key tcp_port proxies))
        (codes "proxy already running on tcp port " ++ digits tcp_port)
    sys kernel (failing kernel (codes "failed to bind tcp port " ++ digits tcp_port ++ codes ": "))
        (bind tcp_port)
    λ m. closing tcp_port (sys kernel (failing kernel []) (set_nonblocking tcp_port) m)
    does (spawn_listener (mapping tcp_port cid vsock_port))
    set_proxies (mapping tcp_port cid vsock_port ∷ proxies)

  -- ProxyRegistry::stop
  unfoldable pub stop : ℕ → Action (Unit {0})
  unfolding set_proxies
  stop tcp_port = do
    proxies ← gets (λ m. m.proxies)
    ensure (contains_key tcp_port proxies)
        (codes "no proxy running on tcp port " ++ digits tcp_port)
    set_proxies (remove_key tcp_port proxies)
    does (join_listener tcp_port)
