-- ===== src/Vsock.antt =====
-- The handshake with Firecracker's vsock socket (vm/vsock.go).
pub mod Laws
pub mod Unrecorded
use firecracker_lab.Prelude.{
  Text, codes, ℕ, zero, suc, ◌+◌, ◌/◌, Bool, true, false, Option, none, some, [], ◌∷◌, ◌++◌, ltb,
  if◌then◌else◌,
}
use firecracker_lab.Prelude.Decimal.{digits}
use firecracker_lab.Strings.{has_prefix, trim_space, read_line}
use firecracker_lab.World.{
  dial, write, receive, close, Host, Error, message, wrap, Result, ok, err, World, Action, ⊤, pure,
  raise, attempt, wrapping, gets, call, nap, ask, ◌>>=◌, ◌>>◌,
}

-- `vsockConn`: the socket, and what the bufio.Reader holds from the handshake.
pub record Conn : Type 0 where
  pub sock : Text
  pub buffered : Text

unfoldable pub connect_line : ℕ → Text
connect_line port = codes "CONNECT " ++ (digits port ++ (0x0a ∷ []))

pub rejected : ℕ → Text → Error
rejected port reply =
    message (codes "vsock CONNECT " ++ (digits port ++ (codes " rejected: " ++ reply)))

-- What the reply line decides.
answer : Text → ℕ → Option (Text × Text) → Result Conn
unfolding rejected
answer sock port none = err (wrap (codes "read CONNECT reply") (message (codes "EOF")))
answer sock port (some (line, rest)) =
    let reply = trim_space line in
    if has_prefix reply (codes "OK")
    then ok (record { sock = sock; buffered = rest })
    else err (rejected port reply)

-- Each round sleeps 100 ms, so that this many rounds reach the deadline.
unfoldable pub rounds_for : ℕ → ℕ
rounds_for timeout = timeout / 100 + 2

module _ (host : Host) where
  -- `conn.Close(); return nil, err`; the error of Close is dropped.
  or_close_outcome : Text → Result Conn × World → Result Conn × World
  or_close_outcome sock (ok c, w) = (ok c, w)
  or_close_outcome sock (err e, w) = (err e, (call host (close sock) w).1)

  or_close : Text → Action Conn → Action Conn
  unfolding or_close_outcome
  or_close sock m w = or_close_outcome sock (m w)

  -- The reply arrives, or the read fails.
  handshake : Text → ℕ → Action Conn
  unfolding answer
  handshake sock port = do
    wrapping (codes "send CONNECT") (call host (write sock (connect_line port)))
    stream ← wrapping (codes "read CONNECT reply") (ask host (receive sock))
    λ w. (answer sock port (read_line stream), w)

  -- `DialVsock`, at the socket of a VM.
  unfoldable pub dial_vsock : Text → ℕ → Action Conn
  unfolding or_close handshake
  dial_vsock sock port = do
    wrapping (codes "connect to vsock") (call host (dial sock))
    or_close sock (handshake sock port)

  -- `time.Now().After(deadline)`
  is_after : ℕ → World → Bool
  is_after deadline w = ltb deadline (host.now w.log)

  timed_out : {A : Type 0} → ℕ → Error → Action A
  timed_out port last = raise (wrap (codes "timeout waiting for vsock port " ++ digits port) last)

  -- What follows a dial: its connection, the timeout with the last error, or one more round.
  after_dial : ℕ → Action Conn → Result Conn → Bool → Action Conn
  unfolding timed_out
  after_dial port again (ok conn) late = pure conn
  after_dial port again (err last) true = timed_out port last
  after_dial port again (err last) false = do nap 100; again

  -- The loop of `DialVsockRetry`, with a bound on its rounds.
  unfoldable pub retry_loop : ℕ → Text → ℕ → ℕ → Action Conn
  unfolding is_after timed_out after_dial
  retry_loop zero sock port deadline = timed_out port (message (codes "no rounds left"))
  retry_loop (suc rounds) sock port deadline =
      let again : Action Conn = retry_loop rounds sock port deadline in
      do
        tried ← attempt (dial_vsock sock port)
        late ← gets (is_after deadline)
        after_dial port again tried late

  unfoldable pub dial_vsock_retry : Text → ℕ → ℕ → Action Conn
  unfolding rounds_for
  dial_vsock_retry sock port timeout = do
    start ← gets (λ w. host.now w.log)
    retry_loop (rounds_for timeout) sock port (start + timeout)
