-- ===== src/Runner/Session.antt =====
-- AttachConsole, AttachSession and ctrlBracketReader (vm/vm.go). What the two goroutines of a
-- session copy is no call here; what the reader passes on to the first one is `copied`.
pub mod Chunks
use firecracker_lab.Prelude.{
  Text, codes, ℕ, Bool, true, false, ◌||◌, List, [], ◌∷◌, ◌++◌, ◌==◌, nat_eq, if◌then◌else◌,
}
use firecracker_lab.Vsock.{Conn, dial_vsock_retry}
use firecracker_lab.Agent.{guest_pty_port}
use firecracker_lab.World.{
  make_raw, restore_terminal, close, Host, Action, ⊤, pure, wrapping, deferring, call, ◌>>=◌, ◌>>◌,
}
use firecracker_lab.Runner.{Runner, vsock_path}

-- ctrl+]
abbrev pub ctrl_bracket : ℕ
ctrl_bracket = 0x1d

-- What a Read that got these bytes returns: the bytes that it passes on, and whether it has called
-- detach and ended the stream.
pub record Passed : Type 0 where
  pub bytes : Text
  pub detached : Bool

pass_on : ℕ → Passed → Passed
pass_on c p = record p { bytes = c ∷ p.bytes }

unfoldable pub read : Text → Passed
unfolding pass_on
read [] = record { bytes = []; detached = false }
read (c ∷ s) =
    let rest = read s in
    if c == ctrl_bracket then record { bytes = []; detached = true } else pass_on c rest

-- Behind one Read, the copy goes on until the stream has ended.
unfoldable pub joined : Passed → Passed → Passed
joined p q = if p.detached then p else record { bytes = p.bytes ++ q.bytes; detached = q.detached }

-- `io.Copy` from the reader, when its Reads get these chunks.
unfoldable pub copied : List Text → Passed
copied [] = record { bytes = []; detached = false }
copied (chunk ∷ chunks) = joined (read chunk) (copied chunks)

module _ (host : Host) where
  -- The terminal is restored and the connection closed however the session ends.
  unfoldable pub attach_session : Conn → Action ⊤
  attach_session conn = deferring (call host (close conn.sock)) do
    wrapping (codes "raw mode") (call host make_raw)
    deferring (call host restore_terminal) (pure tt)

  unfoldable pub attach_console : Runner → Text → Action ⊤
  attach_console r id = do
    conn ←
        wrapping (codes "connect to guest shell")
          (dial_vsock_retry host (vsock_path r id) guest_pty_port 5000)
    attach_session conn
