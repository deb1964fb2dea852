-- ===== src/Runner/Chroot.antt =====
-- The chroot of a VM (vm/vm.go: setupChroot, setupRestoreChroot, reflinkCopy), on Linux.
pub mod Unrecorded
use firecracker_lab.Prelude.{Text, codes, ℤ, Bool, true, false, List, [], ◌∷◌, ◌++◌, if◌then◌else◌}
use firecracker_lab.FilePath.{join}
use firecracker_lab.State.Vms.{Vm}
use firecracker_lab.World.{
  mkdir_all, chown, link, exec, Host, Error, wrap, Result, ok, err, World, Action, ⊤, pure, raise,
  attempt, wrapping, gets, call, for_each, ◌>>=◌, ◌>>◌,
}
use firecracker_lab.Runner.{Runner, root_dir}

abbrev kernel_name : Text
kernel_name = codes "vmlinux.bin"

abbrev pub rootfs_name : Text
rootfs_name = codes "rootfs.ext4"

-- The files of a snapshot, in a chroot and in a snapshot directory.
abbrev pub snapshot_files : List Text
snapshot_files = codes "snapshot.bin" ∷ codes "mem.bin" ∷ rootfs_name ∷ []

unfoldable pub run_dir : Runner → Text → Text
run_dir r id = join (root_dir r id ∷ codes "run" ∷ [])

unfoldable pub in_root : Runner → Text → Text → Text
in_root r id name = join (root_dir r id ∷ name ∷ [])

unfoldable pub copy_args : Text → Text → List Text
copy_args src dst = codes "cp" ∷ codes "--reflink=always" ∷ src ∷ dst ∷ []

module _ (host : Host) where
  unfoldable pub reflink_copy : Text → Text → Action ⊤
  reflink_copy src dst =
      wrapping (codes "reflink copy failed") (call host (exec (copy_args src dst)))

  unfoldable pub chown_to : Runner → Text → Action ⊤
  chown_to r path = wrapping (codes "chown " ++ path) (call host (chown path r.uid r.gid))

  -- The error of `os.Link` counts unless the file is there already.
  after_link : Bool → Result ⊤ → Action ⊤
  after_link exists (ok _) = pure tt
  after_link true (err e) = pure tt
  after_link false (err e) = raise (wrap (codes "link kernel") e)

  unfoldable pub link_kernel : Text → Text → Action ⊤
  unfolding after_link
  link_kernel src dst = do
    exists ← gets (λ w. host.is_exist w.log (link src dst))
    linked ← attempt (call host (link src dst))
    after_link exists linked

  unfoldable pub make_dirs : Runner → Text → Action ⊤
  make_dirs r id = do
    wrapping (codes "mkdir") (call host (mkdir_all (run_dir r id)))
    for_each (root_dir r id ∷ run_dir r id ∷ []) (chown_to r)

  unfoldable pub setup_chroot : Runner → Vm → Text → Action ⊤
  unfolding make_dirs
  setup_chroot r vm image = do
    make_dirs r vm.id
    link_kernel (join (r.source_dir ∷ kernel_name ∷ [])) (in_root r vm.id kernel_name)
    chown_to r (in_root r vm.id kernel_name)
    reflink_copy image (in_root r vm.id rootfs_name)
    chown_to r (in_root r vm.id rootfs_name)

  -- One round of the loop over `snapshotFiles` in `setupRestoreChroot`.
  copy_in : Runner → Text → Text → Text → Action ⊤
  copy_in r id dir name = do
    wrapping (codes "copy into chroot: " ++ name)
        (reflink_copy (join (dir ∷ name ∷ [])) (in_root r id name))
    chown_to r (in_root r id name)

  unfoldable pub setup_restore_chroot : Runner → Vm → Text → Action ⊤
  unfolding make_dirs copy_in
  setup_restore_chroot r vm dir = do
    make_dirs r vm.id
    for_each snapshot_files (copy_in r vm.id dir)

  -- One round of the loop over `snapshotFiles` in `Snapshot`.
  unfoldable pub copy_out : Runner → Text → Text → Text → Action ⊤
  copy_out r id dir name =
      wrapping (codes "copy out of chroot: " ++ name)
        (reflink_copy (in_root r id name) (join (dir ∷ name ∷ [])))
