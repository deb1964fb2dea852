-- ===== src/Cmd/Defaults.antt =====
-- The defaults of the flags, from the environment (cmd/root.go). The environment is a parameter.
use firecracker_lab.Prelude.{Text, codes, ℤ, pos}
use firecracker_lab.OciImage.Build.{or_default}
use firecracker_lab.Cmd.{Config}

abbrev pub default_jailer_uid : ℤ
default_jailer_uid = pos 123

abbrev pub default_jailer_gid : ℤ
default_jailer_gid = pos 123

module _ (getenv : Text → Text) where
  unfoldable pub env_or : Text → Text → Text
  unfolding or_default
  env_or name fallback = or_default (getenv name) fallback

  unfoldable pub default_data_dir : Text
  default_data_dir = env_or (codes "LABCTL_DATA_DIR") (codes "/var/lib/labctl")

  unfoldable pub default_source_dir : Text
  default_source_dir = env_or (codes "LABCTL_SOURCE_DIR") (codes ".")

  unfoldable pub default_firecracker_bin : Text
  default_firecracker_bin = env_or (codes "LABCTL_FIRECRACKER_BIN") (codes "firecracker")

  unfoldable pub default_jailer_bin : Text
  default_jailer_bin = env_or (codes "LABCTL_JAILER_BIN") (codes "jailer")

  -- The Config of a command without the persistent flags.
  unfoldable pub default_config : Config
  default_config = record {
    data_dir = default_data_dir;
    source_dir = default_source_dir;
    fc_bin = default_firecracker_bin;
  }
