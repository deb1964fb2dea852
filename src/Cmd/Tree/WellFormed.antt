-- ===== src/Cmd/Tree/WellFormed.antt =====
-- What cobra and pflag panic on: a flag or a shorthand that a command has twice, its inherited
-- flags included (cmd/root.go). Two subcommands of one name would hide each other.
use firecracker_lab.Prelude.{
  Text, codes, ℕ, Bool, true, false, not, ◌&&◌, ◌||◌, Option, none, some, List, [], ◌∷◌, ◌++◌, ◌==◌,
  ◌≡◌, refl, nat_eq, text_eq, text_dec, ℕ_discrete, if◌then◌else◌,
}
use firecracker_lab.Cmd.Tree.{
  Value, bool, Flag, flag_p, CobraCommand, command, Commands, nil, cons, persistent_flags, root_cmd,
  new_run_cmd, new_restore_cmd, new_setup_cmd, jailer_flags, new_destroy_cmd, new_list_cmd,
  new_console_cmd, new_vsock_cmd, new_image_cmd, new_image_import_cmd, new_image_build_cmd,
  new_image_list_cmd, new_image_delete_cmd, new_image_upgrade_cmd, new_snapshot_cmd,
  new_snapshot_list_cmd, new_snapshot_delete_cmd, new_ports_cmd, new_migrate_unit_column_cmd,
  new_migrate_ports_column_cmd,
}

-- The flag that cobra adds to every command.
abbrev pub help_flag : Flag
help_flag = flag_p (codes "help") b'h' (bool false)

abbrev pub has_text : Text → List Text → Bool
has_text t [] = false
has_text t (u ∷ us) = u == t || has_text t us

-- No text twice.
abbrev pub all_distinct : List Text → Bool
all_distinct [] = true
all_distinct (t ∷ ts) = not (has_text t ts) && all_distinct ts

abbrev flag_names : List Flag → List Text
flag_names [] = []
flag_names (f ∷ fs) = f.name ∷ flag_names fs

abbrev with_shorthand : Option ℕ → List Text → List Text
with_shorthand none cs = cs
with_shorthand (some c) cs = (c ∷ []) ∷ cs

abbrev shorthands : List Flag → List Text
shorthands [] = []
shorthands (f ∷ fs) = with_shorthand f.shorthand (shorthands fs)

abbrev command_names : Commands → List Text
command_names nil = []
command_names (cons (command name _ _ _) cs) = name ∷ command_names cs

-- Every command of the tree has distinct flags, with those that it inherits, and distinct
-- subcommands.
abbrev mutual
  pub is_well_formed : List Flag → CobraCommand → Bool
  is_well_formed inherited (command name args flags children) =
      all_distinct (flag_names (flags ++ inherited))
      && all_distinct (shorthands (flags ++ inherited))
      && all_distinct (command_names children)
      && are_well_formed inherited children

  pub are_well_formed : List Flag → Commands → Bool
  are_well_formed inherited nil = true
  are_well_formed inherited (cons c cs) = is_well_formed inherited c && are_well_formed inherited cs

-- The default of a flag of a command.
abbrev default_in : Text → List Flag → Option Value
default_in name [] = none
default_in name (f ∷ fs) =
    let rest = default_in name fs in if f.name == name then some f.default else rest

abbrev pub default_of : Text → CobraCommand → Option Value
default_of name (command _ _ flags _) = default_in name flags

module _ (getenv : Text → Text) where
  -- Whatever the environment is, no command of labctl has a flag or a shorthand twice, with the
  -- persistent flags and the help flag, and no two subcommands of a command have the same name.
  pub root_cmd-is_well_formed :
      is_well_formed (help_flag ∷ persistent_flags getenv) (root_cmd getenv) ≡ true
  unfolding root_cmd persistent_flags new_run_cmd new_restore_cmd new_setup_cmd jailer_flags
      new_destroy_cmd new_list_cmd new_console_cmd new_vsock_cmd new_image_cmd new_image_import_cmd
      new_image_build_cmd new_image_list_cmd new_image_delete_cmd new_image_upgrade_cmd
      new_snapshot_cmd new_snapshot_list_cmd new_snapshot_delete_cmd new_ports_cmd
      new_migrate_unit_column_cmd new_migrate_ports_column_cmd text_dec ℕ_discrete
  root_cmd-is_well_formed = refl

  -- The user that setup makes by default is the one that run and restore use by default.
  pub default_uid :
      (default_of (codes "uid") (new_setup_cmd getenv)
        ≡ default_of (codes "uid") (new_run_cmd getenv))
      × (default_of (codes "uid") (new_run_cmd getenv)
          ≡ default_of (codes "uid") (new_restore_cmd getenv))
      × (default_of (codes "gid") (new_setup_cmd getenv)
          ≡ default_of (codes "gid") (new_run_cmd getenv))
      × (default_of (codes "gid") (new_run_cmd getenv)
          ≡ default_of (codes "gid") (new_restore_cmd getenv))
  unfolding new_setup_cmd new_run_cmd new_restore_cmd jailer_flags text_dec ℕ_discrete
  default_uid = (refl, refl, refl, refl)
