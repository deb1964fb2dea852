-- ===== src/Vsock/Unrecorded.antt =====
-- A dial does not touch the state database.
use firecracker_lab.Prelude.{Text, ℕ, ◌≡◌, refl, ◌∙◌}
use firecracker_lab.World.{Host, World, Result, ok, err, call}
use firecracker_lab.World.Keeps.{Keeps, keeping}
use firecracker_lab.Vsock.{Conn, dial_vsock, handshake, or_close, or_close_outcome}

module _ (host : Host) where
  handshake-Keeps : (sock : Text) (port : ℕ) → Keeps (handshake host sock port)
  unfolding handshake
  handshake-Keeps sock port = search keeping depth 12

  or_close_same :
      (sock : Text) (o : Result Conn × World) → (or_close_outcome host sock o).1.db ≡ o.1.db
  unfolding or_close_outcome call
  or_close_same sock (ok c, w) = refl
  or_close_same sock (err e, w) = refl

  or_close-Keeps : (sock : Text) (port : ℕ) → Keeps (or_close host sock (handshake host sock port))
  unfolding or_close
  or_close-Keeps sock port = record {
    same_db = λ w.
        or_close_same sock (handshake host sock port w) ∙ (handshake-Keeps sock port).same_db w;
  }

  pub dial_vsock-Keeps : (sock : Text) (port : ℕ) → Keeps (dial_vsock host sock port)
  unfolding dial_vsock
  dial_vsock-Keeps sock port = search (keeping, or_close-Keeps) depth 12
