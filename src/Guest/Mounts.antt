-- ===== src/Guest/Mounts.antt =====
-- Mounting the system paths and setting the clock (guest-agent/src/boot/mount.rs, time.rs).

pub mod Again
use firecracker_lab.Prelude.{
  Text, codes, ℕ, ℤ, pos, negsuc, ◌-◌, ◌%◌, ◌^◌, ltb, Bool, true, false, List, [], ◌∷◌, ◌++◌,
  if◌then◌else◌,
}
use firecracker_lab.Guest.Machine.{
  Errno, busy, exist, mount, mkdir, clock_settime, Kernel, Reply, done, Action, pure, sys, failing,
  ◌>>=◌, ◌>>◌,
}

pub record MountSpec : Type 0 where
  pub source : Text
  pub target : Text
  pub fstype : Text
  pub create_target_dir : Bool

-- `MountConfig::default()`
unfoldable pub default_config : List MountSpec
default_config =
    record {
      source = codes "proc";
      target = codes "/proc";
      fstype = codes "proc";
      create_target_dir = false;
    }
    ∷ record {
      source = codes "sysfs";
      target = codes "/sys";
      fstype = codes "sysfs";
      create_target_dir = false;
    }
    ∷ record {
      source = codes "devpts";
      target = codes "/dev/pts";
      fstype = codes "devpts";
      create_target_dir = true;
    }
    ∷ []

-- `secs as i64`
unfoldable pub as_i64 : ℕ → ℤ
as_i64 n = if ltb (n % 2 ^ 64) (2 ^ 63) then pos (n % 2 ^ 64) else negsuc (2 ^ 64 - n % 2 ^ 64 - 1)

module _ (kernel : Kernel) where
  unfoldable pub unless_busy : Text → Errno → Reply (Unit {0})
  unless_busy context busy = done tt
  unless_busy context e = failing kernel context e

  unfoldable pub unless_exist : Text → Errno → Reply (Unit {0})
  unless_exist context exist = done tt
  unless_exist context e = failing kernel context e

  unfoldable pub mount_fs : Text → Text → Text → Action (Unit {0})
  unfolding unless_busy
  mount_fs source target fstype =
      sys kernel
        (unless_busy (codes "failed to mount " ++ fstype ++ codes " at " ++ target ++ codes ": "))
        (mount source target fstype)

  unfoldable pub make_dir : Text → Action (Unit {0})
  unfolding unless_exist
  make_dir path =
      sys kernel (unless_exist (codes "failed to create " ++ path ++ codes ": ")) (mkdir path)

  unfoldable pub make_target : Bool → Text → Action (Unit {0})
  make_target create target = if create then make_dir target else pure tt

  -- One round of the loop.
  unfoldable pub mount_spec : MountSpec → Action (Unit {0})
  unfolding make_target
  mount_spec spec = do
    make_target spec.create_target_dir spec.target
    mount_fs spec.source spec.target spec.fstype

  unfoldable pub mount_system_paths : List MountSpec → Action (Unit {0})
  unfolding mount_spec
  mount_system_paths [] = pure tt
  mount_system_paths (spec ∷ specs) = do mount_spec spec; mount_system_paths specs

  unfoldable pub restore_time : ℕ → Action (Unit {0})
  unfolding as_i64
  restore_time secs =
      sys kernel (failing kernel (codes "failed to set clock: ")) (clock_settime (as_i64 secs))
