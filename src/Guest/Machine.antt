-- ===== src/Guest/Machine.antt =====
-- The state of the guest agent, and what it asks of the guest's kernel (rustix, libc and std of
-- guest-agent/src), which is a parameter.
use firecracker_lab.Prelude.{Text, ℕ, ℤ, Bool, true, false, Option, none, some, List, ◌∷◌, ◌++◌}

-- TcpVsockProxyMapping
pub record Mapping : Type 0 where
  pub tcp_port : ℕ
  pub cid : ℕ
  pub vsock_port : ℕ

-- `Errno`, as far as the agent tells its values apart.
pub data Errno : Type 0 where
  busy exist noent : Errno
  other : ℕ → Errno

-- `spawn_listener` starts the thread that runs `run_listener`, `join_listener` stops it and waits
-- for its end, `drop_listener` closes a listener that no thread has.
pub data Syscall : Type 0 where
  -- source, target, type
  mount : Text → Text → Text → Syscall
  mkdir : Text → Syscall
  clock_settime : ℤ → Syscall
  bind set_nonblocking drop_listener join_listener : ℕ → Syscall
  spawn_listener : Mapping → Syscall
  -- the descriptor and the tag
  epoll_add epoll_modify : ℕ → ℕ → Syscall
  epoll_delete : ℕ → Syscall

-- What was asked, and how it failed if it did; the latest first.
abbrev pub Asked : Type 0
Asked = List (Syscall × Option Errno)

-- The answer to a call may depend on all that was asked before it. `display` is the text of an
-- error.
pub record Kernel : Type 0 where
  pub answer : Asked → Syscall → Option Errno
  pub display : Errno → Text

-- The fields of `Stats`, all of them unsigned: status has 8 bits, the others have 64.
pub record Stats : Type 0 where
  pub status : ℕ
  pub cpu_pct : ℕ
  pub mem_available_bytes : ℕ
  pub last_beat : ℕ
  pub prev_cpu_total : ℕ
  pub prev_cpu_idle : ℕ

pub data SignalSource : Type 0 where
  signal vsock_listen pty_vsock_listen timer : SignalSource

-- `proxies` is the map of ProxyRegistry, whose key is the TCP port of the mapping; `registered`
-- is that of Poller.
pub record Machine : Type 0 where
  pub proxies : List Mapping
  pub registered : List (SignalSource × ℕ)
  pub stats : Stats
  pub asked : Asked

-- `anyhow::Result`, with the text of the error.
pub data Reply {ℓ} (A : Type ℓ) : Type ℓ where
  done : A → Reply A
  bail : Text → Reply A

abbrev pub Action : Type 0 → Type 0
Action A = Machine → Reply A × Machine

module _ {A : Type 0} where
  abbrev pub pure : A → Action A
  pure a m = (done a, m)

  abbrev pub raise : Text → Action A
  raise e m = (bail e, m)

  abbrev pub gets : (Machine → A) → Action A
  gets f m = (done (f m), m)

-- `if !test { bail!(e) }`
abbrev pub ensure : Bool → Text → Action (Unit {0})
ensure true e = pure tt
ensure false e = raise e

abbrev pub next : {A B : Type 0} → (A → Action B) → Reply A × Machine → Reply B × Machine
next f (done a, m) = f a m
next f (bail e, m) = (bail e, m)

infixl 5 ◌>>=◌ ◌>>◌
abbrev pub ◌>>=◌ : {A B : Type 0} → Action A → (A → Action B) → Action B
◌>>=◌ s f m = next f (s m)

abbrev pub ◌>>◌ : {A B : Type 0} → Action A → Action B → Action B
s >> k = s >>= λ _. k

-- What an answer is taken for, if `on` says what an error is taken for.
abbrev pub answered : (Errno → Reply (Unit {0})) → Option Errno → Reply (Unit {0})
answered on none = done tt
answered on (some e) = on e

-- What cannot fail, or fails without a trace.
abbrev pub does : Syscall → Action (Unit {0})
does c m = (done tt, record m { asked = (c, none) ∷ m.asked })

module _ (kernel : Kernel) where
  unfoldable pub sys : (Errno → Reply (Unit {0})) → Syscall → Action (Unit {0})
  sys on c m = (
    answered on (kernel.answer m.asked c),
    record m { asked = (c, kernel.answer m.asked c) ∷ m.asked },
  )

  -- The answer as a value, as in a `match` on it.
  unfoldable pub sys_answer : Syscall → Action (Option Errno)
  sys_answer c m =
      (done (kernel.answer m.asked c), record m { asked = (c, kernel.answer m.asked c) ∷ m.asked })

  -- `map_err(|e| anyhow!("{context}{e}"))`, and `?` where the context is empty
  unfoldable pub failing : Text → Errno → Reply (Unit {0})
  failing context e = bail (context ++ kernel.display e)
