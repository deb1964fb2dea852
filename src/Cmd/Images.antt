-- ===== src/Cmd/Images.antt =====
-- cmd/image.go and cmd/image_build.go: `labctl image import`, `list`, `delete`, `upgrade` and `build`.
pub mod Resolved
pub mod Ext4
pub mod Imported
pub mod Packed
pub mod Unrecorded
use firecracker_lab.Prelude.{
  Text, codes, ℕ, Bool, not, ◌&&◌, Option, none, some, List, [], ◌∷◌, ◌++◌, ltb, if◌then◌else◌,
}
use firecracker_lab.FilePath.{join}
use firecracker_lab.OciImage.Build.{Builder, ImageConfig, build}
use firecracker_lab.OciImage.Ext4.{PackExt4Options, pack_ext4}
use firecracker_lab.OciImage.Inject.{inject_guest_agent}
use firecracker_lab.State.Vms
use firecracker_lab.State.Images
use firecracker_lab.World.Rows.{Image}
use firecracker_lab.World.{
  History, mkdir_all, remove_all, open_file, truncate, close, copy_data, sync_file, Host, message,
  Action, ⊤, pure, raise, gets, call, wrapping, deferring, ◌>>=◌, ◌>>◌,
}
use firecracker_lab.Cmd.{Config, load}
use firecracker_lab.Cmd.Images.Ext4.{check_ext4}

-- `if img == nil`
unfoldable pub known_image : Text → Option Image → Action Image
known_image name none = raise (message (codes "unknown image: " ++ name))
known_image name (some img) = pure img

-- `if existing != nil`
unfoldable pub unregistered : Text → Option Image → Action ⊤
unregistered name none = pure tt
unregistered name (some img) =
    raise (message (codes "image is already registered: " ++ (name ++ codes " at " ++ img.path)))

-- A flag that may not be empty.
unfoldable pub flag_given : Text → Text → Action ⊤
flag_given flag [] = raise (message (flag ++ codes " is required"))
flag_given flag (c ∷ s) = pure tt

unfoldable pub images_dir : Config → Text
images_dir cfg = join (cfg.data_dir ∷ codes "images" ∷ [])

unfoldable pub image_path : Config → Text → Text
unfolding images_dir
image_path cfg name = join (images_dir cfg ∷ (name ++ codes ".ext4") ∷ [])

module _ (host : Host) where
  -- The number of bytes that were copied; both files are closed whatever happens.
  unfoldable pub copy_file : Text → Text → Action ℕ
  copy_file src dst = do
    call host (open_file src)
    deferring (call host (close src)) do
      call host (truncate dst)
      deferring (call host (close dst)) do
        copied ← gets (λ w. host.size w.log (copy_data src dst))
        call host (copy_data src dst)
        call host (sync_file dst)
        pure copied

  -- `labctl image import`
  unfoldable pub import_image : Config → Text → Text → Action ⊤
  import_image cfg name src = do
    flag_given (codes "--name") name
    check_ext4 host src
    load host
    existing ← Images.get_by_name host name
    unregistered name existing
    wrapping (codes "mkdir images dir") (call host (mkdir_all (images_dir cfg)))
    copied ← wrapping (codes "copy image") (copy_file src (image_path cfg name))
    Images.insert host name (image_path cfg name) copied
    pure tt

  -- `labctl image list`: the images that it prints.
  unfoldable pub list : Action (List Image)
  list = do load host; Images.list host

  -- `labctl image upgrade`
  unfoldable pub upgrade : Text → Text → Text → Action ⊤
  upgrade name binary init_path = do
    flag_given (codes "--guest-agent-binary") binary
    load host
    img ← Images.get_by_name host name >>= known_image name
    wrapping (codes "inject guest agent") (inject_guest_agent host img.path binary init_path)

  -- `labctl image build`; what the registry says of an image is a parameter.
  unfoldable pub build_image : (History → ImageConfig) → Builder → Text → Text → Text → Action ⊤
  build_image config_of b output size ref = do
    flag_given (codes "--guest-agent-binary") b.guest_agent_binary
    flag_given (codes "-o/--output") output
    result ← wrapping (codes "build image") (build host config_of b ref)
    deferring (call host (remove_all result.rootfs_dir)) (
        wrapping (codes "pack ext4") (
          pack_ext4 host (record {
            rootfs_dir = result.rootfs_dir;
            out_path = output;
            size = size;
            mkfs_bin = [];
          })))

  -- `labctl image delete`; the image's file is left.
  unfoldable pub delete : Text → Bool → Action ⊤
  delete name force = do
    load host
    img ← Images.get_by_name host name >>= known_image name
    in_use ← Vms.count_vms_using_image host img.id
    if ltb 0 in_use && not force
        then raise (message (codes "image is referenced: " ++ name))
        else Images.delete host img.id
