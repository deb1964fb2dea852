-- ===== src/Cmd/Reachable.antt =====
-- Sequences of commands.
pub mod Ledger
pub mod Refined
pub mod Interleaved
use firecracker_lab.Prelude.{Text, ℤ, Bool}
use firecracker_lab.Agent.{Codec}
use firecracker_lab.OciImage.Build.{Builder, ImageConfig}
use firecracker_lab.World.{History, Host, World, Action, ⊤}
use firecracker_lab.Cmd.{Config}
use firecracker_lab.Cmd.Vms.{run, restore, destroy, snapshot, snapshot_delete}
use firecracker_lab.Cmd.Ports.{add, rm, reload}
use firecracker_lab.Cmd.Images.{import_image, upgrade, build_image, delete}

-- The commands of labctl that the development models, with their flags and arguments.
pub data Command : Type 0 where
  run_command : ℤ → ℤ → ℤ → ℤ → ℤ → Bool → Text → Text → Command
  restore_command : Text → ℤ → ℤ → Bool → Text → Command
  destroy_command : Text → Command
  snapshot_command : Text → Text → Command
  snapshot_delete_command : Text → Command
  ports_add_command ports_rm_command : Text → Text → Command
  ports_reload_command : Text → Command
  image_import_command : Text → Text → Command
  image_upgrade_command : Text → Text → Text → Command
  -- with what the registry says of images
  image_build_command : (History → ImageConfig) → Builder → Text → Text → Text → Command
  image_delete_command : Text → Bool → Command

module _ (host : Host) (codec : Codec) (cfg : Config) where
  unfoldable pub execute : Command → Action ⊤
  execute (run_command vcpus mem_mib count uid gid attach jailer_bin image) =
      run host codec cfg vcpus mem_mib count uid gid attach jailer_bin image
  execute (restore_command name uid gid attach jailer_bin) =
      restore host codec cfg name uid gid attach jailer_bin
  execute (destroy_command id) = destroy host codec cfg id
  execute (snapshot_command id name) = snapshot host codec cfg id name
  execute (snapshot_delete_command name) = snapshot_delete host codec cfg name
  execute (ports_add_command id arg) = add host codec cfg id arg
  execute (ports_rm_command id arg) = rm host codec cfg id arg
  execute (ports_reload_command id) = reload host codec cfg id
  execute (image_import_command name src) = import_image host cfg name src
  execute (image_upgrade_command name binary init_path) = upgrade host name binary init_path
  execute (image_build_command config_of b output size ref) =
      build_image host config_of b output size ref
  execute (image_delete_command name force) = delete host name force

-- The worlds that commands reach, one after the other, each with its own host and configuration,
-- whether they succeed or fail.
pub data Reaches : World → World → Type 0 where
  here : {w : World} → Reaches w w
  then_run :
      {w v : World} (host : Host) (codec : Codec) (cfg : Config) (c : Command)
      → Reaches w v
      → Reaches w (execute host codec cfg c v).1
