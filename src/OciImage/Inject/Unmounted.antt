-- ===== src/OciImage/Inject/Unmounted.antt =====
-- That InjectGuestAgent undoes its mount.
use firecracker_lab.Prelude.{
  Text, codes, ◌≡◌, refl, ◌∙◌, Bool, true, false, List, [], ◌∷◌, ◌++◌, inl, inr, Bool-cases,
  text_dec, ℕ_discrete,
}
use firecracker_lab.World.{
  Call, exec, mkdir_temp, stat, look_path, remove_file, History, Host, Result, ok, err, World,
  Action, ⊤, call, ask, wrapping, deferring, continue, ◌>>=◌, logged,
}
use firecracker_lab.World.Emits.{Emits, emitting, call-Emits, ask-Emits, wrapping-Emits}
use firecracker_lab.OciImage.Resources.{
  IsCommandFree, mounts, mounted_by, drop_first_head, mounts-Grows,
}
use firecracker_lab.OciImage.Build.{
  check_binary, copy_executable, agent_path, required, or_default, default_init_path,
}
use firecracker_lab.OciImage.Inject.{
  mount_args, umount_args, after_remove, remove_existing, write_agent, inject_guest_agent,
}

-- Unmounting does not fail.
pub record IsUnmounting (host : Host) : Type 0 where
  pub unmounts : (h : History) (root : Text) → host.fails h (exec (umount_args root)) ≡ false

module _ (host : Host) where
  -- The action leaves the mounts as they were, error or not.
  pub record IsBalanced {A : Type 0} (m : Action A) : Type 0 where
    pub balanced : (w : World) → mounts host (m w).1.log ≡ mounts host w.log

  Emits-IsBalanced : {A : Type 0} (m : Action A) → Emits IsCommandFree m → IsBalanced m
  Emits-IsBalanced m free = record {
    balanced = λ w. mounts-Grows host w.log (m w).1.log (free.grows w);
  }

  continue_balanced :
      {A B : Type 0} (f : A → Action B) (o : Result A × World)
      → ((a : A) → IsBalanced (f a))
      → mounts host (continue f o).1.log ≡ mounts host o.1.log
  continue_balanced f (ok a, w) h = (h a).balanced w
  continue_balanced f (err e, w) h = refl

  >>=-IsBalanced :
      {A B : Type 0} (m : Action A) (f : A → Action B)
      → IsBalanced m
      → ((a : A) → IsBalanced (f a))
      → IsBalanced (m >>= f)
  >>=-IsBalanced m f h k = record { balanced = λ w. continue_balanced f (m w) k ∙ h.balanced w }

  deferring-IsBalanced :
      {A : Type 0} (cleanup : Action ⊤) (m : Action A)
      → IsBalanced cleanup
      → IsBalanced m
      → IsBalanced (deferring cleanup m)
  deferring-IsBalanced cleanup m h k = record { balanced = λ w. h.balanced (m w).1 ∙ k.balanced w }

  copy_executable-Emits :
      (context src dst : Text) → Emits IsCommandFree (copy_executable host context src dst)
  unfolding copy_executable
  copy_executable-Emits context src dst = search (emitting, tt) depth 14

  after_remove-Emits :
      (dst : Text) (absent : Bool) (r : Result ⊤) → Emits IsCommandFree (after_remove dst absent r)
  unfolding after_remove
  after_remove-Emits dst absent (ok a) = search emitting
  after_remove-Emits dst true (err e) = search emitting
  after_remove-Emits dst false (err e) = search emitting

  remove_existing-Emits : (dst : Text) → Emits IsCommandFree (remove_existing host dst)
  unfolding remove_existing
  remove_existing-Emits dst = search (emitting, after_remove-Emits, tt) depth 8

  write_agent-Emits : (binary dst : Text) → Emits IsCommandFree (write_agent host binary dst)
  unfolding write_agent
  write_agent-Emits binary dst =
      search (emitting, remove_existing-Emits, copy_executable-Emits, tt) depth 8

  required-Emits : (what s : Text) → Emits IsCommandFree (required what s)
  unfolding required
  required-Emits what [] = search emitting
  required-Emits what (c ∷ s) = search emitting

  check_binary-Emits : (path : Text) → Emits IsCommandFree (check_binary host path)
  unfolding check_binary
  check_binary-Emits path = search (emitting, tt) depth 8

  -- A call that runs no command.
  call-IsBalanced :
      (context : Text) (c : Call) → IsCommandFree c → IsBalanced (wrapping context (call host c))
  call-IsBalanced context c free =
      Emits-IsBalanced (wrapping context (call host c))
        (wrapping-Emits context _ (call-Emits host c free))

  ask-IsBalanced :
      (context : Text) (c : Call) → IsCommandFree c → IsBalanced (wrapping context (ask host c))
  ask-IsBalanced context c free =
      Emits-IsBalanced (wrapping context (ask host c))
        (wrapping-Emits context _ (ask-Emits host c free))

  -- What a mount and a umount that succeed do.
  mount_adds :
      (image root : Text) (roots : List Text)
      → mounted_by (mount_args image root) roots ≡ root ∷ roots
  unfolding mounted_by mount_args text_dec ℕ_discrete
  mount_adds image root roots = refl

  umount_drops :
      (root : Text) (roots : List Text) → mounted_by (umount_args root) (root ∷ roots) ≡ roots
  unfolding mounted_by umount_args text_dec ℕ_discrete
  umount_drops root roots = drop_first_head root roots

  module _ (unmounting : IsUnmounting host) where
    umount_after :
        (root : Text) (roots : List Text) (w : World)
        → mounts host w.log ≡ root ∷ roots
        → mounts host (call host (exec (umount_args root)) w).1.log ≡ roots
    unfolding mounts call
    umount_after root roots w e = rw (unmounting.unmounts w.log root, e) (umount_drops root roots)

    -- What is mounted for the time of an action.
    mounted_for-IsBalanced :
        (context image root : Text) (m : Action ⊤)
        → IsBalanced m
        → IsBalanced (
            wrapping context (call host (exec (mount_args image root))) >>= λ _.
            deferring (call host (exec (umount_args root))) m)
    unfolding call
    mounted_for-IsBalanced context image root m h = record {
      balanced = λ w.
          let c = exec (mount_args image root) in
          elim (Bool-cases (host.fails w.log c)) [
            | inl fails ↦ rw fails (unfold mounts in rw fails refl)
            | inr works ↦ rw works (
                umount_after root (mounts host w.log) (m (logged c w)).1 (
                  h.balanced (logged c w)
                  ∙ unfold mounts in rw works (mount_adds image root (mounts host w.log))))
          ];
    }

    -- On a host where umount does not fail, InjectGuestAgent leaves the mounts as they were, at
    -- whatever step it fails.
    pub inject_guest_agent-IsBalanced :
        (image binary path : Text) → IsBalanced (inject_guest_agent host image binary path)
    unfolding inject_guest_agent
    inject_guest_agent-IsBalanced image binary path =
        >>=-IsBalanced (required (codes "ImagePath") image) _
          (Emits-IsBalanced _ (required-Emits (codes "ImagePath") image))
          λ _.
            >>=-IsBalanced (required (codes "GuestAgentBinary") binary) _
              (Emits-IsBalanced _ (required-Emits (codes "GuestAgentBinary") binary))
              λ _.
                >>=-IsBalanced (check_binary host binary) _
                  (Emits-IsBalanced _ (check_binary-Emits binary))
                  λ _.
                    >>=-IsBalanced _ _
                      (call-IsBalanced (codes "stat image " ++ image) (stat image) tt)
                      λ _.
                        >>=-IsBalanced _ _ (call-IsBalanced _ (look_path (codes "mount")) tt) λ _.
                          >>=-IsBalanced _ _ (call-IsBalanced _ (look_path (codes "umount")) tt)
                            λ _.
                              >>=-IsBalanced _ _
                                (ask-IsBalanced _ (mkdir_temp (codes "labctl-image-upgrade-*")) tt)
                                λ root.
                                  deferring-IsBalanced (call host (remove_file root)) _
                                    (Emits-IsBalanced (call host (remove_file root))
                                      (call-Emits host (remove_file root) tt))
                                    (mounted_for-IsBalanced (codes "mount " ++ image) image root
                                      (write_agent host binary
                                        (agent_path root (or_default path default_init_path)))
                                      (Emits-IsBalanced _ (
                                        write_agent-Emits binary
                                          (agent_path root (or_default path default_init_path)))))
