-- ===== src/Guest/Proxies/Synced.antt =====
-- The registry and the listener threads (tcp_vsock_proxy.rs) keep in step.
use firecracker_lab.Prelude.{
  ℕ, ◌<◌, ◌^◌, false, true, List, [], ◌∷◌, ◌≡◌, ◌≢◌, ◌==◌, nat_eq, arith, Bool-cases, Option-cases,
  none, inl, inr, refl,
}
use firecracker_lab.Prelude.Lists.{All}
use firecracker_lab.Guest.Machine.{
  Mapping, Asked, bind, set_nonblocking, join_listener, spawn_listener, Kernel, Machine, Reply,
  done, bail, sys, failing,
}
use firecracker_lab.Guest.Proxies.{
  mapping, contains_key, remove_key, set_proxies, closing, start, stop,
}

-- The threads that were started and not joined since.
abbrev pub listening : Asked → List Mapping
listening [] = []
listening ((spawn_listener p, _) ∷ l) = p ∷ listening l
listening ((join_listener port, _) ∷ l) = remove_key port (listening l)
listening (_ ∷ l) = listening l

abbrev pub IsDistinct : List Mapping → Type 0
IsDistinct [] = Unit
IsDistinct (p ∷ ps) = All (λ q. q.tcp_port ≢ p.tcp_port) ps × IsDistinct ps

-- The entries of the registry are the threads that run, one to a port of 16 bits.
pub record IsSynced (m : Machine) : Type 0 where
  pub threads : m.proxies ≡ listening m.asked
  pub distinct : IsDistinct m.proxies
  pub small : All (λ p. p.tcp_port < 2 ^ 16) m.proxies

fresh :
    (port : ℕ) (ps : List Mapping) → contains_key port ps ≡ false → All (λ q. q.tcp_port ≢ port) ps
unfolding contains_key
fresh port [] h = tt
fresh port (p ∷ ps) h = (ground arith, fresh port ps (ground arith))

remove_key-All {ℓ} :
    (P : Mapping → Type ℓ) (port : ℕ) (ps : List Mapping) → All P ps → All P (remove_key port ps)
unfolding remove_key
remove_key-All P port [] h = tt
remove_key-All P port (p ∷ ps) (hp, h) = elim (Bool-cases (p.tcp_port == port)) [
  | inl same ↦ rw same (remove_key-All P port ps h)
  | inr else' ↦ rw else' ((hp, remove_key-All P port ps h))
]

remove_key-IsDistinct :
    (port : ℕ) (ps : List Mapping) → IsDistinct ps → IsDistinct (remove_key port ps)
unfolding remove_key
remove_key-IsDistinct port [] h = tt
remove_key-IsDistinct port (p ∷ ps) (hp, h) = elim (Bool-cases (p.tcp_port == port)) [
  | inl same ↦ rw same (remove_key-IsDistinct port ps h)
  | inr else' ↦ rw else' ((remove_key-All _ port ps hp, remove_key-IsDistinct port ps h))
]

-- How start ends.
abbrev pub Started : ℕ → ℕ → ℕ → Machine → Reply (Unit {0}) × Machine → Type 0
Started port c v m (done _, m') =
    (contains_key port m.proxies ≡ false)
    × (m'.proxies ≡ mapping port c v ∷ m.proxies)
    × (listening m'.asked ≡ mapping port c v ∷ listening m.asked)
    × (m'.stats ≡ m.stats)
Started port c v m (bail e, m') =
    (m'.proxies ≡ m.proxies) × (listening m'.asked ≡ listening m.asked) × (m'.stats ≡ m.stats)

abbrev pub Stopped : ℕ → Machine → Reply (Unit {0}) × Machine → Type 0
Stopped port m (done _, m') =
    (contains_key port m.proxies ≡ true)
    × (m'.proxies ≡ remove_key port m.proxies)
    × (listening m'.asked ≡ remove_key port (listening m.asked))
    × (m'.stats ≡ m.stats)
Stopped port m (bail e, m') = (contains_key port m.proxies ≡ false) × (m' ≡ m)

module _ (kernel : Kernel) where
  -- A start that succeeds was for a port without a proxy, and has added a proxy and its thread; one
  -- that fails, at whatever call, has changed neither the proxies nor the threads.
  pub start-Started : (port c v : ℕ) (m : Machine) → Started port c v m (start kernel port c v m)
  unfolding start sys failing closing set_proxies
  start-Started port c v m = elim (Bool-cases (contains_key port m.proxies)) [
    | inl taken ↦ rw taken (refl, refl, refl)
    | inr free ↦ elim (Option-cases (kernel.answer m.asked (bind port))) [
      | inl bound ↦
          elim (Option-cases (kernel.answer ((bind port, none) ∷ m.asked) (set_nonblocking port))) [
            | inl set ↦ rw (free, bound, set) (free, refl, refl, refl)
            | inr (e, failed) ↦ rw (free, bound, failed) (refl, refl, refl)
          ]
      | inr (e, failed) ↦ rw (free, failed) (refl, refl, refl)
    ]
  ]

  -- A stop fails exactly for a port without a proxy, and then changes nothing; otherwise it has
  -- removed the proxy and joined its thread.
  pub stop-Stopped : (port : ℕ) (m : Machine) → Stopped port m (stop kernel port m)
  unfolding stop set_proxies
  stop-Stopped port m = elim (Bool-cases (contains_key port m.proxies)) [
    | inl there ↦ rw there (there, refl, refl, refl)
    | inr gone ↦ rw gone (gone, refl)
  ]

pub start_outcome-IsSynced :
    (port c v : ℕ) (m : Machine) (o : Reply (Unit {0}) × Machine)
    → port < 2 ^ 16
    → Started port c v m o
    → IsSynced m
    → IsSynced o.1
start_outcome-IsSynced port c v m (done _, m') small (free, added, spawned, _) s = record {
  threads = rw (added, spawned, s.threads);
  distinct = rw added (fresh port m.proxies free, s.distinct);
  small = rw added (small, s.small);
}
start_outcome-IsSynced port c v m (bail e, m') small (kept, same, _) s = record {
  threads = rw (kept, same, s.threads);
  distinct = rw kept s.distinct;
  small = rw kept s.small;
}

pub stop_outcome-IsSynced :
    (port : ℕ) (m : Machine) (o : Reply (Unit {0}) × Machine)
    → Stopped port m o
    → IsSynced m
    → IsSynced o.1
stop_outcome-IsSynced port m (done _, m') (_, removed, joined, _) s = record {
  threads = rw (removed, joined, s.threads);
  distinct = rw removed (remove_key-IsDistinct port m.proxies s.distinct);
  small = rw removed (remove_key-All _ port m.proxies s.small);
}
stop_outcome-IsSynced port m (bail e, m') (_, same) s = rw same s
