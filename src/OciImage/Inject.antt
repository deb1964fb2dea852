-- ===== src/OciImage/Inject.antt =====
-- InjectGuestAgent (ociimage/inject.go). The log is left out, and with it an error of umount.
pub mod Unmounted
use firecracker_lab.Prelude.{Text, codes, Bool, true, false, List, [], ◌∷◌, ◌++◌, if◌then◌else◌}
use firecracker_lab.FilePath.{dir}
use firecracker_lab.OciImage.Build.{
  or_default, default_init_path, agent_path, required, check_binary, copy_executable,
}
use firecracker_lab.World.{
  exec, mkdir_all, stat, mkdir_temp, remove_file, look_path, Host, Error, failed, message, wrap,
  Result, ok, err, World, Action, ⊤, pure, raise, attempt, wrapping, gets, deferring, call, ask,
  ◌>>=◌, ◌>>◌,
}

unfoldable pub mount_args : Text → Text → List Text
mount_args image root = codes "mount" ∷ codes "-o" ∷ codes "loop" ∷ image ∷ root ∷ []

unfoldable pub umount_args : Text → List Text
umount_args root = codes "umount" ∷ root ∷ []

-- `if err := os.Remove(dst); err != nil && !os.IsNotExist(err)`
unfoldable pub after_remove : Text → Bool → Result ⊤ → Action ⊤
after_remove dst absent (ok _) = pure tt
after_remove dst true (err e) = pure tt
after_remove dst false (err e) = raise (wrap (codes "remove existing " ++ dst) e)

module _ (host : Host) where
  unfoldable pub remove_existing : Text → Action ⊤
  unfolding after_remove
  remove_existing dst = do
    absent ← gets (λ w. host.is_not_exist w.log (remove_file dst))
    removed ← attempt (call host (remove_file dst))
    after_remove dst absent removed

  -- What is done in the mounted image.
  unfoldable pub write_agent : Text → Text → Action ⊤
  write_agent binary dst = do
    wrapping (codes "mkdir " ++ dir dst) (call host (mkdir_all (dir dst)))
    remove_existing dst
    wrapping (codes "write guest agent") (copy_executable host (codes "copy") binary dst)

  unfoldable pub inject_guest_agent : Text → Text → Text → Action ⊤
  inject_guest_agent image binary path = do
    required (codes "ImagePath") image
    required (codes "GuestAgentBinary") binary
    check_binary host binary
    wrapping (codes "stat image " ++ image) (call host (stat image))
    wrapping (codes "mount not found on PATH") (call host (look_path (codes "mount")))
    wrapping (codes "umount not found on PATH") (call host (look_path (codes "umount")))
    root ←
        wrapping (codes "mkdir temp mount dir")
          (ask host (mkdir_temp (codes "labctl-image-upgrade-*")))
    deferring (call host (remove_file root)) do
      wrapping (codes "mount " ++ image) (call host (exec (mount_args image root)))
      deferring (call host (exec (umount_args root)))
          (write_agent binary (agent_path root (or_default path default_init_path)))
