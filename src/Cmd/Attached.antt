-- ===== src/Cmd/Attached.antt =====
-- cmd/console.go and cmd/vsock.go.
use firecracker_lab.Prelude.{Text, ℕ}
use firecracker_lab.Vsock.{dial_vsock}
use firecracker_lab.Runner.{vsock_path}
use firecracker_lab.Runner.Session.{attach_console, attach_session}
use firecracker_lab.World.{Host, Action, ⊤, ◌>>=◌, ◌>>◌}
use firecracker_lab.Cmd.{Config, load, require_vm, plain_runner}

abbrev pub default_vsock_port : ℕ
default_vsock_port = 1234

module _ (host : Host) (cfg : Config) where
  -- `labctl console`
  unfoldable pub console : Text → Action ⊤
  console id = do load host; require_vm host id; attach_console host (plain_runner cfg) id

  -- `labctl vsock`
  unfoldable pub vsock : Text → ℕ → Action ⊤
  vsock id port = do
    load host
    require_vm host id
    conn ← dial_vsock host (vsock_path (plain_runner cfg) id) port
    attach_session host conn
