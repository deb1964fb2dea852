-- ===== src/Cmd.antt =====
-- What the commands of labctl share (cmd/root.go, and the first lines of every command in cmd/).
-- The flags and arguments, which cobra parses, are parameters; what is printed is left out.
pub mod Vms
pub mod Ports
pub mod Images
pub mod Listing
pub mod Defaults
pub mod Tree
pub mod Attached
pub mod Setup
pub mod Lookup
pub mod Reachable
use firecracker_lab.Prelude.{Text, codes, ℤ, pos, Option, none, some, List, [], ◌∷◌, ◌++◌}
use firecracker_lab.FilePath.{join}
use firecracker_lab.State.Vms.{Vm, get}
use firecracker_lab.World.{sql, open_db, Host, message, Action, ⊤, pure, raise, call, ◌>>=◌, ◌>>◌}
use firecracker_lab.Runner.{Runner}

pub record Config : Type 0 where
  pub data_dir : Text
  pub source_dir : Text
  pub fc_bin : Text

-- The Runner that `run` and `restore` build.
unfoldable pub new_runner : Config → Text → ℤ → ℤ → Runner
new_runner cfg jailer_bin uid gid = record {
  data_dir = cfg.data_dir;
  source_dir = cfg.source_dir;
  jailer_bin = jailer_bin;
  firecracker_bin = cfg.fc_bin;
  uid = uid;
  gid = gid;
  net = none;
  supervisor = none;
  forwarder = none;
}

-- The Runner of a command for a VM that exists: `&vm.Runner{DataDir: ..., FirecrackerBin: ...}`.
unfoldable pub plain_runner : Config → Runner
unfolding new_runner
plain_runner cfg = record (new_runner cfg [] (pos 0) (pos 0)) { source_dir = [] }

-- `filepath.Join(cfg.DataDir, "snapshots", name)`
unfoldable pub snapshot_dir : Config → Text → Text
snapshot_dir cfg name = join (cfg.data_dir ∷ codes "snapshots" ∷ name ∷ [])

-- `if v == nil { return fmt.Errorf("unknown VM: %s", id) }`
unfoldable pub known_vm : Text → Option Vm → Action Vm
known_vm id none = raise (message (codes "unknown VM: " ++ id))
known_vm id (some v) = pure v

module _ (host : Host) where
  -- `state.Load`: opens the database and creates the tables that are missing.
  unfoldable pub load : Action ⊤
  load = call host (sql open_db)

  -- The VM of an id that a command is given.
  unfoldable pub require_vm : Text → Action Vm
  require_vm id = get host id >>= known_vm id
