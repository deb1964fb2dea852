-- ===== src/OciImage/Build/Placed.antt =====
-- Where the guest agent is placed in a rootfs (ociimage/ociimage.go, ociimage/inject.go).
use firecracker_lab.Prelude.{Text, List, ◌∷◌, ◌++◌, ◌≡◌}
use firecracker_lab.Prelude.Lists.{All}
use firecracker_lab.FilePath.{slash, clean, join_slash}
use firecracker_lab.FilePath.Rooted.{IsName, join-clean}
use firecracker_lab.OciImage.Build.{agent_path}

-- Whatever the init path is, the guest agent is placed at the root directory or below it, for a
-- root that is an absolute path: its path is the components of the root, and behind them only names
-- that are neither empty, nor a dot, nor two dots, and have no slash.
pub agent_path-names :
    (root init : Text)
    → (dirs : List Text) × (names : List Text) × All IsName names
      × (clean (slash ∷ root) ≡ slash ∷ join_slash dirs)
      × (agent_path (slash ∷ root) init ≡ slash ∷ join_slash (dirs ++ names))
unfolding agent_path
agent_path-names root init = join-clean root init
