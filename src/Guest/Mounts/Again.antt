-- ===== src/Guest/Mounts/Again.antt =====
-- Mounting the system paths again (boot/mount.rs), as after the restore of a snapshot.
use mathlib.Core.List.{append_assoc}
use firecracker_lab.Prelude.{
  Text, Bool, true, false, Option, none, some, List, [], ◌∷◌, ◌++◌, ◌≡◌, refl, sym, ◌⊎◌, inl, inr,
}
use firecracker_lab.Guest.Machine.{
  Errno, busy, exist, noent, other, Syscall, Asked, Kernel, Machine, Reply, done, bail, Action,
  next, answered, sys, failing, mount, mkdir,
}
use firecracker_lab.Guest.Mounts.{
  MountSpec, unless_busy, unless_exist, mount_fs, make_dir, make_target, mount_spec,
  mount_system_paths,
}

-- Whether a mount or a mkdir has left its target in place.
abbrev pub in_place : Syscall → Option Errno → Bool
in_place (mount _ _ _) none = true
in_place (mount _ _ _) (some busy) = true
in_place (mkdir _) none = true
in_place (mkdir _) (some exist) = true
in_place _ _ = false

-- The call was made before and has left its target in place.
abbrev pub Was : Syscall → Asked → Type 0
Was c [] = ⊥
Was c ((d, a) ∷ l) = ((d ≡ c) × (in_place c a ≡ true)) ⊎ Was c l

-- What is in place stays so: a kernel answers such a call with success, EBUSY or EEXIST.
abbrev pub IsSticky : Kernel → Type 0
IsSticky kernel = (l : Asked) (c : Syscall) → Was c l → in_place c (kernel.answer l c) ≡ true

abbrev pub IsDone {ℓ} : {A : Type ℓ} → Reply A × Machine → Type 0
IsDone (done a, m) = Unit
IsDone (bail e, m) = ⊥

Was-append : (c : Syscall) (k l : Asked) → Was c l → Was c (k ++ l)
Was-append c [] l h = h
Was-append c (x ∷ k) l h = inr (Was-append c k l h)

-- What a spec needs to be in place.
abbrev WasSpec : MountSpec → Asked → Type 0
WasSpec spec l =
    (spec.create_target_dir ≡ true → Was (mkdir spec.target) l)
    × Was (mount spec.source spec.target spec.fstype) l

abbrev WereAll : List MountSpec → Asked → Type 0
WereAll [] l = Unit
WereAll (spec ∷ specs) l = WasSpec spec l × WereAll specs l

module _ (kernel : Kernel) where
  busy-IsDone :
      (e : Text) (s t f : Text) (a : Option Errno) (m : Machine)
      → (in_place (mount s t f) a ≡ true → IsDone (answered (unless_busy kernel e) a, m))
        × (IsDone (answered (unless_busy kernel e) a, m) → in_place (mount s t f) a ≡ true)
  unfolding unless_busy failing
  busy-IsDone e s t f none m = (λ _. tt, λ _. refl)
  busy-IsDone e s t f (some busy) m = (λ _. tt, λ _. refl)
  busy-IsDone e s t f (some exist) m = (λ h. cc, λ h. absurd h)
  busy-IsDone e s t f (some noent) m = (λ h. cc, λ h. absurd h)
  busy-IsDone e s t f (some (other n)) m = (λ h. cc, λ h. absurd h)

  exist-IsDone :
      (e p : Text) (a : Option Errno) (m : Machine)
      → (in_place (mkdir p) a ≡ true → IsDone (answered (unless_exist kernel e) a, m))
        × (IsDone (answered (unless_exist kernel e) a, m) → in_place (mkdir p) a ≡ true)
  unfolding unless_exist failing
  exist-IsDone e p none m = (λ _. tt, λ _. refl)
  exist-IsDone e p (some exist) m = (λ _. tt, λ _. refl)
  exist-IsDone e p (some busy) m = (λ h. cc, λ h. absurd h)
  exist-IsDone e p (some noent) m = (λ h. cc, λ h. absurd h)
  exist-IsDone e p (some (other n)) m = (λ h. cc, λ h. absurd h)

-- The later of two histories.
abbrev pub Grows : Asked → Asked → Type 0
Grows l l' = (k : Asked) × (l' ≡ k ++ l)

Grows-trans : (j k l : Asked) → Grows j k → Grows k l → Grows j l
Grows-trans j k l (a, e) (b, f) = (b ++ a, rw (f, e) (sym (append_assoc b a j)))

Was-Grows : (c : Syscall) (k l : Asked) → Grows k l → Was c k → Was c l
Was-Grows c k l (j, e) h = rw e (Was-append c j k h)

WasSpec-Grows : (spec : MountSpec) (k l : Asked) → Grows k l → WasSpec spec k → WasSpec spec l
WasSpec-Grows spec k l g (made, mounted) =
    (λ h. Was-Grows _ k l g (made h), Was-Grows _ k l g mounted)

WereAll-Grows :
    (specs : List MountSpec) (k l : Asked) → Grows k l → WereAll specs k → WereAll specs l
WereAll-Grows [] k l g h = tt
WereAll-Grows (spec ∷ specs) k l g (h, hs) =
    (WasSpec-Grows spec k l g h, WereAll-Grows specs k l g hs)

module _ {A B : Type 0} (f : Action B) where
  next-IsDone : (o : Reply A × Machine) → IsDone o → IsDone (f o.1) → IsDone (next (λ _. f) o)
  next-IsDone (done a, m) h k = k
  next-IsDone (bail e, m) h k = h

  IsDone-next :
      (o : Reply A × Machine)
      → IsDone (next (λ _. f) o)
      → IsDone o × IsDone (f o.1) × (next (λ _. f) o ≡ f o.1)
  IsDone-next (done a, m) h = (tt, h, refl)
  IsDone-next (bail e, m) h = absurd h

  next-Grows :
      (l : Asked) (o : Reply A × Machine)
      → Grows l o.1.asked
      → ((m : Machine) → Grows m.asked (f m).1.asked)
      → Grows l (next (λ _. f) o).1.asked
  next-Grows l (done a, m) g h = Grows-trans l m.asked _ g (h m)
  next-Grows l (bail e, m) g h = g

module _ (kernel : Kernel) where
  make_target-Grows :
      (b : Bool) (p : Text) (m : Machine) → Grows m.asked (make_target kernel b p m).1.asked
  unfolding make_target make_dir sys
  make_target-Grows true p m = ((mkdir p, kernel.answer m.asked (mkdir p)) ∷ [], refl)
  make_target-Grows false p m = ([], refl)

  mount_fs-Grows : (s t f : Text) (m : Machine) → Grows m.asked (mount_fs kernel s t f m).1.asked
  unfolding mount_fs sys
  mount_fs-Grows s t f m = ((mount s t f, kernel.answer m.asked (mount s t f)) ∷ [], refl)

  mount_spec-Grows :
      (spec : MountSpec) (m : Machine) → Grows m.asked (mount_spec kernel spec m).1.asked
  unfolding mount_spec
  mount_spec-Grows spec m =
      next-Grows (mount_fs kernel spec.source spec.target spec.fstype) m.asked
        (make_target kernel spec.create_target_dir spec.target m)
        (make_target-Grows spec.create_target_dir spec.target m)
        (mount_fs-Grows spec.source spec.target spec.fstype)

  mount_system_paths-Grows :
      (specs : List MountSpec) (m : Machine)
      → Grows m.asked (mount_system_paths kernel specs m).1.asked
  unfolding mount_system_paths
  mount_system_paths-Grows [] m = ([], refl)
  mount_system_paths-Grows (spec ∷ specs) m =
      next-Grows (mount_system_paths kernel specs) m.asked (mount_spec kernel spec m)
        (mount_spec-Grows spec m) (mount_system_paths-Grows specs)

  made :
      (b : Bool) (p : Text) (m : Machine)
      → IsDone (make_target kernel b p m)
      → b ≡ true
      → Was (mkdir p) (make_target kernel b p m).1.asked
  unfolding make_target make_dir sys
  made true p m h e = inl (refl, (exist-IsDone kernel _ p (kernel.answer m.asked (mkdir p)) _).1 h)
  made false p m h e = absurd cc

  mounted :
      (s t f : Text) (m : Machine)
      → IsDone (mount_fs kernel s t f m)
      → Was (mount s t f) (mount_fs kernel s t f m).1.asked
  unfolding mount_fs sys
  mounted s t f m h =
      inl (refl, (busy-IsDone kernel _ s t f (kernel.answer m.asked (mount s t f)) _).1 h)

  made_again :
      (b : Bool) (p : Text) (m : Machine)
      → IsSticky kernel
      → (b ≡ true → Was (mkdir p) m.asked)
      → IsDone (make_target kernel b p m)
  unfolding make_target make_dir sys
  made_again true p m st h =
      (exist-IsDone kernel _ p (kernel.answer m.asked (mkdir p)) _).0 (st _ _ (h refl))
  made_again false p m st h = tt

  mounted_again :
      (s t f : Text) (m : Machine)
      → IsSticky kernel
      → Was (mount s t f) m.asked
      → IsDone (mount_fs kernel s t f m)
  unfolding mount_fs sys
  mounted_again s t f m st h =
      (busy-IsDone kernel _ s t f (kernel.answer m.asked (mount s t f)) _).0 (st _ _ h)

  spec_done :
      (spec : MountSpec) (m : Machine)
      → IsDone (mount_spec kernel spec m)
      → WasSpec spec (mount_spec kernel spec m).1.asked
  unfolding mount_spec
  spec_done spec m h =
      let make = make_target kernel spec.create_target_dir spec.target m in
      let mount' = mount_fs kernel spec.source spec.target spec.fstype in
      let (first, second, same) = IsDone-next mount' make h in
      rw same (
        λ e.
            Was-Grows _ _ _ (mount_fs-Grows spec.source spec.target spec.fstype make.1)
              (made spec.create_target_dir spec.target m first e),
        mounted spec.source spec.target spec.fstype make.1 second,
      )

  spec_again :
      (spec : MountSpec) (m : Machine)
      → IsSticky kernel
      → WasSpec spec m.asked
      → IsDone (mount_spec kernel spec m)
  unfolding mount_spec
  spec_again spec m st (h, k) =
      let make = make_target kernel spec.create_target_dir spec.target m in
      next-IsDone (mount_fs kernel spec.source spec.target spec.fstype) make
        (made_again spec.create_target_dir spec.target m st h)
        (mounted_again spec.source spec.target spec.fstype make.1 st
          (Was-Grows _ _ _ (make_target-Grows spec.create_target_dir spec.target m) k))

  all_done :
      (specs : List MountSpec) (m : Machine)
      → IsDone (mount_system_paths kernel specs m)
      → WereAll specs (mount_system_paths kernel specs m).1.asked
  unfolding mount_system_paths
  all_done [] m h = tt
  all_done (spec ∷ specs) m h =
      let (first, second, same) =
        IsDone-next (mount_system_paths kernel specs) (mount_spec kernel spec m) h in
      rw same (
        WasSpec-Grows spec _ _ (mount_system_paths-Grows specs (mount_spec kernel spec m).1)
            (spec_done spec m first),
        all_done specs (mount_spec kernel spec m).1 second,
      )

  all_again :
      (specs : List MountSpec) (m : Machine)
      → IsSticky kernel
      → WereAll specs m.asked
      → IsDone (mount_system_paths kernel specs m)
  unfolding mount_system_paths
  all_again [] m st h = tt
  all_again (spec ∷ specs) m st (h, hs) =
      next-IsDone (mount_system_paths kernel specs) (mount_spec kernel spec m)
        (spec_again spec m st h)
        (all_again specs (mount_spec kernel spec m).1 st
          (WereAll-Grows specs _ _ (mount_spec-Grows spec m) hs))

  -- On a kernel where what was mounted or created stays in place, mounting the system paths
  -- succeeds again after it has succeeded once, whatever was asked of the kernel since.
  pub mount_system_paths-again :
      (specs : List MountSpec) (m n : Machine)
      → IsSticky kernel
      → IsDone (mount_system_paths kernel specs m)
      → Grows (mount_system_paths kernel specs m).1.asked n.asked
      → IsDone (mount_system_paths kernel specs n)
  mount_system_paths-again specs m n st h g =
      all_again specs n st (WereAll-Grows specs _ _ g (all_done specs m h))
