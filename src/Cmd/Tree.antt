-- ===== src/Cmd/Tree.antt =====
-- The commands of labctl with their flags (cmd/root.go and the constructors in cmd/). What cobra
-- does with them is not code of the repository, but the help flag that it adds to every command.
pub mod WellFormed
use firecracker_lab.Prelude.{
  Text, codes, ℕ, ℤ, pos, Bool, true, false, not, ◌&&◌, ◌||◌, Option, none, some, List, [], ◌∷◌,
  ◌++◌, ◌==◌, nat_eq, text_eq, if◌then◌else◌,
}
use firecracker_lab.Cmd.Attached.{default_vsock_port}
use firecracker_lab.Cmd.Defaults.{
  env_or, default_data_dir, default_source_dir, default_firecracker_bin, default_jailer_bin,
  default_jailer_uid, default_jailer_gid,
}

pub data Value : Type 0 where
  text : Text → Value
  int : ℤ → Value
  uint32 : ℕ → Value
  bool : Bool → Value

-- `shorthand` is a byte.
pub record Flag : Type 0 where
  pub name : Text
  pub shorthand : Option ℕ
  pub default : Value

-- The name, `cobra.ExactArgs` if it is given, the flags and the subcommands.
mutual
  pub data CobraCommand : Type 0 where
    command : Text → Option ℕ → List Flag → Commands → CobraCommand

  pub data Commands : Type 0 where
    nil : Commands
    cons : CobraCommand → Commands → Commands

abbrev pub flag : Text → Value → Flag
flag name default = record { name = name; shorthand = none; default = default }

abbrev pub flag_p : Text → ℕ → Value → Flag
flag_p name c default = record { name = name; shorthand = some c; default = default }

abbrev commands : List CobraCommand → Commands
commands [] = nil
commands (c ∷ cs) = cons c (commands cs)

module _ (getenv : Text → Text) where
  unfoldable pub jailer_flags : List Flag
  jailer_flags =
      flag (codes "uid") (int default_jailer_uid)
      ∷ flag (codes "gid") (int default_jailer_gid)
      ∷ flag_p (codes "attach-console") b'a' (bool false)
      ∷ flag (codes "jailer") (text (default_jailer_bin getenv))
      ∷ []

  unfoldable pub new_run_cmd : CobraCommand
  new_run_cmd =
      command (codes "run") none
        (flag (codes "vcpus") (int (pos 1))
            ∷ flag (codes "mem") (int (pos 256))
            ∷ flag (codes "count") (int (pos 1))
            ∷ jailer_flags
          ++ flag (codes "image") (text []) ∷ [])
        nil

  unfoldable pub new_restore_cmd : CobraCommand
  new_restore_cmd = command (codes "restore") (some 1) jailer_flags nil

  unfoldable pub new_setup_cmd : CobraCommand
  new_setup_cmd =
      command (codes "setup") none
        (flag (codes "uid") (int (pos 123))
          ∷ flag (codes "gid") (int (pos 123))
          ∷ flag (codes "wan") (text [])
          ∷ [])
        nil

  unfoldable pub new_destroy_cmd : CobraCommand
  new_destroy_cmd = command (codes "destroy") (some 1) [] nil

  unfoldable pub new_list_cmd : CobraCommand
  new_list_cmd = command (codes "list") none [] nil

  unfoldable pub new_console_cmd : CobraCommand
  new_console_cmd = command (codes "console") (some 1) [] nil

  unfoldable pub new_vsock_cmd : CobraCommand
  new_vsock_cmd =
      command (codes "vsock") (some 1) (flag (codes "port") (uint32 default_vsock_port) ∷ []) nil

  abbrev agent_flags : List Flag
  agent_flags =
      flag (codes "guest-agent-binary")
        (text (env_or getenv (codes "LABCTL_GUEST_AGENT_BINARY") []))
      ∷ flag (codes "init-path")
          (text (env_or getenv (codes "LABCTL_IMAGE_INIT_PATH") (codes "/bin/guest-agent")))
      ∷ []

  unfoldable pub new_image_import_cmd : CobraCommand
  new_image_import_cmd = command (codes "import") (some 1) (flag (codes "name") (text []) ∷ []) nil

  unfoldable pub new_image_build_cmd : CobraCommand
  new_image_build_cmd =
      command (codes "build") (some 1)
        (flag (codes "platform")
              (text (env_or getenv (codes "LABCTL_IMAGE_PLATFORM") (codes "linux/amd64")))
            ∷ agent_flags
          ++ flag_p (codes "output") b'o' (text [])
            ∷ flag (codes "size") (text (env_or getenv (codes "LABCTL_IMAGE_SIZE") (codes "2048M")))
            ∷ flag (codes "local") (bool false)
            ∷ [])
        nil

  unfoldable pub new_image_list_cmd : CobraCommand
  new_image_list_cmd = command (codes "list") none [] nil

  unfoldable pub new_image_delete_cmd : CobraCommand
  new_image_delete_cmd =
      command (codes "delete") (some 1) (flag (codes "force") (bool false) ∷ []) nil

  unfoldable pub new_image_upgrade_cmd : CobraCommand
  new_image_upgrade_cmd = command (codes "upgrade") (some 1) agent_flags nil

  unfoldable pub new_image_cmd : CobraCommand
  new_image_cmd = command (codes "image") none [] (
      commands (
        new_image_import_cmd ∷ new_image_build_cmd ∷ new_image_list_cmd ∷ new_image_delete_cmd
        ∷ new_image_upgrade_cmd ∷ []))

  unfoldable pub new_snapshot_list_cmd : CobraCommand
  new_snapshot_list_cmd = command (codes "list") none [] nil

  unfoldable pub new_snapshot_delete_cmd : CobraCommand
  new_snapshot_delete_cmd = command (codes "delete") (some 1) [] nil

  unfoldable pub new_snapshot_cmd : CobraCommand
  new_snapshot_cmd =
      command (codes "snapshot") (some 1) (flag (codes "name") (text []) ∷ [])
        (commands (new_snapshot_list_cmd ∷ new_snapshot_delete_cmd ∷ []))

  unfoldable pub new_ports_cmd : CobraCommand
  new_ports_cmd = command (codes "ports") none [] (
      commands (
        command (codes "add") (some 2) [] nil
        ∷ command (codes "rm") (some 2) [] nil
        ∷ command (codes "list") (some 1) [] nil
        ∷ command (codes "reload") (some 1) [] nil
        ∷ []))

  unfoldable pub new_migrate_unit_column_cmd : CobraCommand
  new_migrate_unit_column_cmd = command (codes "migrate-unit-column") none [] nil

  unfoldable pub new_migrate_ports_column_cmd : CobraCommand
  new_migrate_ports_column_cmd = command (codes "migrate-ports-column") none [] nil

  -- The flags that every command has.
  unfoldable pub persistent_flags : List Flag
  persistent_flags =
      flag (codes "data-dir") (text (default_data_dir getenv))
      ∷ flag (codes "source-dir") (text (default_source_dir getenv))
      ∷ flag (codes "firecracker") (text (default_firecracker_bin getenv))
      ∷ []

  unfoldable pub root_cmd : CobraCommand
  root_cmd = command (codes "labctl") none [] (
      commands (
        new_setup_cmd ∷ new_run_cmd ∷ new_destroy_cmd ∷ new_list_cmd ∷ new_console_cmd
        ∷ new_vsock_cmd ∷ new_image_cmd ∷ new_snapshot_cmd ∷ new_restore_cmd
        ∷ new_migrate_unit_column_cmd ∷ new_migrate_ports_column_cmd ∷ new_ports_cmd ∷ []))
