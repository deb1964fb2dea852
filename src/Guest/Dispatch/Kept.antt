-- ===== src/Guest/Dispatch/Kept.antt =====
-- What leaves the proxies, their threads and the samples alone (dispatch.rs, handle_vm_restore).
use firecracker_lab.Prelude.{ℕ, Bool, true, false, List, [], ◌∷◌, ◌≡◌, refl, ◌∙◌}
use firecracker_lab.Guest.Machine.{Machine, Kernel, Reply, done, bail, Action, pure, next, sys}
use firecracker_lab.Guest.Mounts.{
  MountSpec, mount_fs, make_dir, make_target, mount_spec, mount_system_paths, default_config,
  restore_time,
}
use firecracker_lab.Guest.Proxies.Synced.{listening}
use firecracker_lab.Guest.Dispatch.{handle_vm_restore}

unfoldable pub Kept : Machine → Machine → Type 0
Kept m m' =
    (m'.proxies ≡ m.proxies) × (listening m'.asked ≡ listening m.asked) × (m'.stats ≡ m.stats)

unfoldable pub Keeps : {A : Type 0} → Action A → Type 0
Keeps s = (m : Machine) → Kept m (s m).1

Kept-trans : (l m n : Machine) → Kept l m → Kept m n → Kept l n
unfolding Kept
Kept-trans l m n (p, q, i) (r, s, j) = (r ∙ p, s ∙ q, j ∙ i)

next-Kept :
    {A B : Type 0} (f : A → Action B) (m : Machine) (o : Reply A × Machine)
    → Kept m o.1
    → ((a : A) → Keeps (f a))
    → Kept m (next f o).1
unfolding Keeps
next-Kept f m (done a, n) h k = Kept-trans m n _ h (k a n)
next-Kept f m (bail e, n) h k = h

bind-Keeps :
    {A B : Type 0} (s : Action A) (f : A → Action B)
    → Keeps s
    → ((a : A) → Keeps (f a))
    → Keeps (λ m. next f (s m))
unfolding Keeps
bind-Keeps s f h k m = next-Kept f m (s m) (h m) k

module _ (kernel : Kernel) where
  make_dir-Keeps : (path : List ℕ) → Keeps (make_dir kernel path)
  unfolding make_dir sys Keeps Kept
  make_dir-Keeps path m = (refl, refl, refl)

  mount_fs-Keeps : (s t f : List ℕ) → Keeps (mount_fs kernel s t f)
  unfolding mount_fs sys Keeps Kept
  mount_fs-Keeps s t f m = (refl, refl, refl)

  restore_time-Keeps : (t : ℕ) → Keeps (restore_time kernel t)
  unfolding restore_time sys Keeps Kept
  restore_time-Keeps t m = (refl, refl, refl)

  pure-Keeps : Keeps (pure tt)
  unfolding Keeps Kept
  pure-Keeps m = (refl, refl, refl)

  created-Keeps : (b : Bool) (path : List ℕ) → Keeps (make_target kernel b path)
  unfolding make_target
  created-Keeps true path = make_dir-Keeps path
  created-Keeps false path = pure-Keeps

  mount_spec-Keeps : (spec : MountSpec) → Keeps (mount_spec kernel spec)
  unfolding mount_spec
  mount_spec-Keeps spec =
      bind-Keeps _ _ (created-Keeps spec.create_target_dir spec.target)
        λ _. mount_fs-Keeps spec.source spec.target spec.fstype

  pub mount_system_paths-Keeps : (specs : List MountSpec) → Keeps (mount_system_paths kernel specs)
  unfolding mount_system_paths
  mount_system_paths-Keeps [] = pure-Keeps
  mount_system_paths-Keeps (spec ∷ specs) =
      bind-Keeps _ _ (mount_spec-Keeps spec) λ _. mount_system_paths-Keeps specs

  pub handle_vm_restore-Keeps : (t : ℕ) → Keeps (handle_vm_restore kernel t)
  unfolding handle_vm_restore
  handle_vm_restore-Keeps t =
      bind-Keeps _ _ (mount_system_paths-Keeps default_config) λ _. restore_time-Keeps t
