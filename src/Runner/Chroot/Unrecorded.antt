-- ===== src/Runner/Chroot/Unrecorded.antt =====
-- Setting a chroot up does not touch the state database.
use firecracker_lab.Prelude.{Text, Bool, true, false}
use firecracker_lab.State.Vms.{Vm}
use firecracker_lab.World.{Host, ⊤, Result, ok, err}
use firecracker_lab.World.Keeps.{Keeps, keeping}
use firecracker_lab.Runner.{Runner}
use firecracker_lab.Runner.Chroot.{
  reflink_copy, chown_to, after_link, link_kernel, make_dirs, setup_chroot, copy_in,
  setup_restore_chroot, copy_out,
}

module _ (host : Host) where
  reflink_copy-Keeps : (src dst : Text) → Keeps (reflink_copy host src dst)
  unfolding reflink_copy
  reflink_copy-Keeps src dst = search keeping

  chown_to-Keeps : (r : Runner) (path : Text) → Keeps (chown_to host r path)
  unfolding chown_to
  chown_to-Keeps r path = search keeping

  after_link-Keeps : (exists : Bool) (linked : Result ⊤) → Keeps (after_link host exists linked)
  unfolding after_link
  after_link-Keeps exists (ok a) = search keeping
  after_link-Keeps true (err e) = search keeping
  after_link-Keeps false (err e) = search keeping

  link_kernel-Keeps : (src dst : Text) → Keeps (link_kernel host src dst)
  unfolding link_kernel
  link_kernel-Keeps src dst = search (keeping, after_link-Keeps) depth 8

  make_dirs-Keeps : (r : Runner) (id : Text) → Keeps (make_dirs host r id)
  unfolding make_dirs
  make_dirs-Keeps r id = search (keeping, chown_to-Keeps) depth 8

  pub setup_chroot-Keeps :
      (r : Runner) (vm : Vm) (image : Text) → Keeps (setup_chroot host r vm image)
  unfolding setup_chroot
  setup_chroot-Keeps r vm image =
      search (keeping, chown_to-Keeps, link_kernel-Keeps, reflink_copy-Keeps, make_dirs-Keeps) depth
        14

  copy_in-Keeps : (r : Runner) (id dir name : Text) → Keeps (copy_in host r id dir name)
  unfolding copy_in
  copy_in-Keeps r id dir name = search (keeping, chown_to-Keeps, reflink_copy-Keeps) depth 8

  pub setup_restore_chroot-Keeps :
      (r : Runner) (vm : Vm) (dir : Text) → Keeps (setup_restore_chroot host r vm dir)
  unfolding setup_restore_chroot
  setup_restore_chroot-Keeps r vm dir = search (keeping, copy_in-Keeps, make_dirs-Keeps) depth 8

  pub copy_out-Keeps : (r : Runner) (id dir name : Text) → Keeps (copy_out host r id dir name)
  unfolding copy_out
  copy_out-Keeps r id dir name = search (keeping, reflink_copy-Keeps) depth 8
