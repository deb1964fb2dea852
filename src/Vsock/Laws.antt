-- ===== src/Vsock/Laws.antt =====
-- What the handshake leaves, and that the retries end.
use native.Mathlib.Nat.{le_trans}
use firecracker_lab.Prelude.{
  Text, codes, ℕ, zero, suc, ◌+◌, ◌*◌, ◌/◌, ◌≤◌, ◌<◌, ◌≡◌, refl, ◌⊎◌, true, false, Option, none,
  some, ◌∷◌, inl, inr, arith, Bool-cases,
}
use firecracker_lab.Strings.{has_prefix, trim_space, read_line}
use firecracker_lab.World.{
  dial, write, receive, close, sleep, Host, History, IsHonestClock, Result, ok, err, World, Action,
  call, call-cases, ask-cases, logged,
}
use firecracker_lab.World.Clock.{
  IsForward, call-IsForward, ask-IsForward, still-IsForward, >>=-IsForward, wrapping-IsForward,
}
use firecracker_lab.Vsock.{
  Conn, connect_line, answer, or_close, or_close_outcome, handshake, dial_vsock, retry_loop,
  dial_vsock_retry, rounds_for, is_after, after_dial,
}

rounds_for-eq : (timeout : ℕ) → rounds_for timeout ≡ suc (timeout / 100 + 1)
unfolding rounds_for
rounds_for-eq timeout = omega arith

rounds_for-suc : (more timeout : ℕ) → rounds_for timeout + more ≡ suc (timeout / 100 + 1 + more)
unfolding rounds_for
rounds_for-suc more timeout = omega arith

module _ (host : Host) where
  -- How a dial ends. An accepted connection has answered a line that begins with OK, and keeps
  -- what arrived behind that line; one that is refused at any later step than the dial is closed.
  abbrev pub Dialled : Text → World → Result Conn × World → Type 0
  Dialled sock w (ok conn, w') =
      (h : History) × (line : Text) × (read_line (host.output h (receive sock))
        ≡ some (line, conn.buffered))
      × (has_prefix (trim_space line) (codes "OK") ≡ true)
      × (conn.sock ≡ sock)
      × (w'.log ≡ receive sock ∷ h)
  Dialled sock w (err e, w') =
      (w'.log ≡ dial sock ∷ w.log) ⊎ ((h : History) × (w'.log ≡ close sock ∷ h))

  abbrev Answered : Text → History → Result Conn → Type 0
  Answered sock h (ok conn) =
      (line : Text) × (read_line (host.output h (receive sock)) ≡ some (line, conn.buffered))
      × (has_prefix (trim_space line) (codes "OK") ≡ true)
      × (conn.sock ≡ sock)
  Answered sock h (err e) = Unit

  answer-Answered :
      (sock : Text) (port : ℕ) (h : History) (read : Option (Text × Text))
      → read_line (host.output h (receive sock)) ≡ read
      → Answered sock h (answer sock port read)
  unfolding answer
  answer-Answered sock port h none e = tt
  answer-Answered sock port h (some (line, rest)) e =
      elim (Bool-cases (has_prefix (trim_space line) (codes "OK"))) [
        | inl good ↦ rw good (line, e, good, refl)
        | inr bad ↦ rw bad tt
      ]

  closed :
      (sock : Text) (w v : World) (h : History) (r : Result Conn)
      → v.log ≡ receive sock ∷ h
      → Answered sock h r
      → Dialled sock w (or_close_outcome host sock (r, v))
  unfolding or_close_outcome call
  closed sock w v h (ok conn) e (line, read, good, at) = (h, line, read, good, at, e)
  closed sock w v h (err x) e a = inr (v.log, refl)

  handshake-Dialled :
      (sock : Text) (port : ℕ) (w v : World)
      → Dialled sock w (or_close_outcome host sock (handshake host sock port v))
  unfolding or_close_outcome handshake
  handshake-Dialled sock port w v = elim (call-cases host (write sock (connect_line port)) v) [
    | inl e ↦ rw e (inr (write sock (connect_line port) ∷ v.log, unfold call in refl))
    | inr e ↦ rw e (
        let u = logged (write sock (connect_line port)) v in
        elim (ask-cases host (receive sock) u) [
          | inl e' ↦ rw e' (inr (receive sock ∷ u.log, unfold call in refl))
          | inr e' ↦ rw e' (
              closed sock w (logged (receive sock) u) u.log _ refl
                (answer-Answered sock port u.log _ refl))
        ])
  ]

  -- A dial succeeds only if the first line that arrives begins with OK, and then keeps every byte
  -- behind that line for the session; where it fails after the connection was made, the
  -- connection is closed last.
  pub dial_vsock-Dialled :
      (sock : Text) (port : ℕ) (w : World) → Dialled sock w (dial_vsock host sock port w)
  unfolding dial_vsock or_close
  dial_vsock-Dialled sock port w = elim (call-cases host (dial sock) w) [
    | inl e ↦ rw e (inl refl)
    | inr e ↦ rw e (handshake-Dialled sock port w (logged (dial sock) w))
  ]

module _ (host : Host) (clock : IsHonestClock host) where
  or_close_forward :
      (sock : Text) (t : ℕ) (o : Result Conn × World)
      → t ≤ host.now o.1.log
      → t ≤ host.now (or_close_outcome host sock o).1.log
  unfolding or_close_outcome
  or_close_forward sock t (ok c, w) h = h
  or_close_forward sock t (err e, w) h =
      le_trans h ((call-IsForward host clock (close sock)).ends_after w)

  handshake-IsForward : (sock : Text) (port : ℕ) → IsForward host (handshake host sock port)
  unfolding handshake
  handshake-IsForward sock port =
      >>=-IsForward host _ _
        (wrapping-IsForward host _ _ (call-IsForward host clock (write sock (connect_line port))))
        λ _.
          >>=-IsForward host _ _
            (wrapping-IsForward host _ _ (ask-IsForward host clock (receive sock)))
            λ stream. still-IsForward host (λ _. answer sock port (read_line stream))

  dial_vsock-IsForward : (sock : Text) (port : ℕ) → IsForward host (dial_vsock host sock port)
  unfolding dial_vsock or_close
  dial_vsock-IsForward sock port =
      >>=-IsForward host _ _ (wrapping-IsForward host _ _ (call-IsForward host clock (dial sock)))
        λ _. record {
          ends_after = λ w.
              or_close_forward sock (host.now w.log) (handshake host sock port w)
                ((handshake-IsForward sock port).ends_after w);
        }

  -- A round that begins at the outcome `o` of its dial.
  abbrev round : ℕ → ℕ → Action Conn → Result Conn × World → Result Conn × World
  round port deadline again o = after_dial host port again o.0 (is_after host deadline o.1) o.1

  -- Two loops agree in a round if they agree wherever the round goes on to the next one.
  round_cong :
      (port deadline : ℕ) (f g : Action Conn) (o : Result Conn × World)
      → (host.now o.1.log ≤ deadline
          → (v : World) → host.now o.1.log + 100 ≤ host.now v.log
          → f v ≡ g v)
      → round port deadline f o ≡ round port deadline g o
  unfolding after_dial
  round_cong port deadline f g (ok conn, w) h = refl
  round_cong port deadline f g (err last, w) h = elim (Bool-cases (is_after host deadline w)) [
    | inl late ↦ rw late
    | inr more ↦ rw more (h (not_after w more) (logged (sleep 100) w) (clock.slept w.log 100))
  ]
    where
      not_after : (w : World) → is_after host deadline w ≡ false → host.now w.log ≤ deadline
      not_after w e = unfold is_after in ground arith

  -- Two loops that both have rounds enough to reach the deadline agree.
  retry_loop-eq :
      (a b : ℕ) (sock : Text) (port deadline : ℕ) (w : World)
      → deadline < host.now w.log + 100 * a
      → deadline < host.now w.log + 100 * b
      → retry_loop host (suc a) sock port deadline w ≡ retry_loop host (suc b) sock port deadline w
  unfolding retry_loop
  retry_loop-eq zero b sock port deadline w ha hb =
      round_cong port deadline (retry_loop host zero sock port deadline)
        (retry_loop host b sock port deadline) (dial_vsock host sock port w)
        λ early. absurd (omega (arith, (dial_vsock-IsForward sock port).ends_after w))
  retry_loop-eq (suc a) zero sock port deadline w ha hb =
      round_cong port deadline (retry_loop host (suc a) sock port deadline)
        (retry_loop host zero sock port deadline) (dial_vsock host sock port w)
        λ early. absurd (omega (arith, (dial_vsock-IsForward sock port).ends_after w))
  retry_loop-eq (suc a) (suc b) sock port deadline w ha hb =
      round_cong port deadline (retry_loop host (suc a) sock port deadline)
        (retry_loop host (suc b) sock port deadline) (dial_vsock host sock port w)
        λ early v slept.
          let forward = (dial_vsock-IsForward sock port).ends_after w in
          retry_loop-eq a b sock port deadline v (omega arith) (omega arith)

  -- `DialVsockRetry` ends on a clock that goes forward: the bound on its rounds is never reached,
  -- since any larger bound gives the same outcome.
  pub retry_loop-enough :
      (sock : Text) (port timeout more : ℕ) (w : World)
      → retry_loop host (rounds_for timeout + more) sock port (host.now w.log + timeout) w
        ≡ dial_vsock_retry host sock port timeout w
  unfolding dial_vsock_retry
  retry_loop-enough sock port timeout more w =
      rw (rounds_for-suc more timeout, rounds_for-eq timeout)
        (retry_loop-eq (timeout / 100 + 1 + more) (timeout / 100 + 1) sock port _ w (omega arith)
          (omega arith))
