-- ===== src/OciImage/Ext4.antt =====
-- PackExt4 (ociimage/ext4.go).
use firecracker_lab.Prelude.{Text, codes, List, [], ◌∷◌, ◌++◌}
use firecracker_lab.OciImage.Build.{or_default}
use firecracker_lab.World.{
  exec, stat, look_path, Host, message, Result, ok, err, Action, ⊤, pure, raise, attempt, wrapping,
  call, ◌>>=◌, ◌>>◌,
}

pub record PackExt4Options : Type 0 where
  pub rootfs_dir : Text
  pub out_path : Text
  pub size : Text
  pub mkfs_bin : Text

unfoldable pub mkfs_bin : PackExt4Options → Text
unfolding or_default
mkfs_bin o = or_default o.mkfs_bin (codes "mkfs.ext4")

unfoldable pub mkfs_args : PackExt4Options → List Text
unfolding mkfs_bin
mkfs_args o =
    mkfs_bin o
    ∷ codes "-F"
    ∷ codes "-d"
    ∷ o.rootfs_dir
    ∷ codes "-b"
    ∷ codes "4096"
    ∷ o.out_path
    ∷ o.size
    ∷ []

-- A path that can be looked at exists.
unfoldable pub must_be_absent : Text → Result ⊤ → Action ⊤
must_be_absent path (ok _) = raise (message (codes "output path already exists: " ++ path))
must_be_absent path (err e) = pure tt

module _ (host : Host) where
  unfoldable pub pack_ext4 : PackExt4Options → Action ⊤
  unfolding must_be_absent
  pack_ext4 o = do
    found ← attempt (call host (stat o.out_path))
    must_be_absent o.out_path found
    wrapping (mkfs_bin o ++ codes " not found on PATH") (call host (look_path (mkfs_bin o)))
    wrapping (mkfs_bin o) (call host (exec (mkfs_args o)))
