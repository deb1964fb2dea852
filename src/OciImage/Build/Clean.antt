-- ===== src/OciImage/Build/Clean.antt =====
-- That Build leaves no temporary directory behind when it fails.
use firecracker_lab.Prelude.{
  Text, codes, ◌≡◌, refl, ◌∙◌, ap, Bool, true, false, Option, none, some, List, [], ◌∷◌, inl, inr,
  Bool-cases,
}
use firecracker_lab.World.{
  remove_all, mkdir_temp, History, Host, Result, ok, err, World, Action, ⊤, call, ask, wrapping,
  gets, config_file, ◌>>=◌,
}
use firecracker_lab.World.Emits.{Emits, emitting, gets-Emits, call-Emits, wrapping-Emits}
use firecracker_lab.World.Ends.{Ends, after}
use firecracker_lab.OciImage.{Platform, parse_platform}
use firecracker_lab.OciImage.Resources.{IsTempFree, temp_dirs, drop_first_head, temp_dirs-Grows}
use firecracker_lab.OciImage.Build.{
  Builder, BuildResult, ImageConfig, check_binary, copy_executable, install_guest_agent,
  write_image_config, exported, export, init_path, platform_name, cleared_outcome, or_cleared,
  required, known_platform, fetch, fill, build,
}

-- `os.RemoveAll` does not fail.
pub record IsRemoving (host : Host) : Type 0 where
  pub removes : (h : History) (p : Text) → host.fails h (remove_all p) ≡ false

module _ (host : Host) where
  required-Emits : (what s : Text) → Emits IsTempFree (required what s)
  unfolding required
  required-Emits what [] = search emitting
  required-Emits what (c ∷ s) = search emitting

  known_platform-Emits :
      (name : Text) (p : Option Platform) → Emits IsTempFree (known_platform name p)
  unfolding known_platform
  known_platform-Emits name none = search emitting
  known_platform-Emits name (some p) = search emitting

  fetch-Emits :
      (b : Builder) (ref : Text) (p : Platform) (local : Bool)
      → Emits IsTempFree (fetch host b ref p local)
  unfolding fetch
  fetch-Emits b ref p true = search (emitting, tt) depth 8
  fetch-Emits b ref p false = search (emitting, tt) depth 8

  check_binary-Emits : (path : Text) → Emits IsTempFree (check_binary host path)
  unfolding check_binary
  check_binary-Emits path = search (emitting, tt) depth 8

  copy_executable-Emits :
      (context src dst : Text) → Emits IsTempFree (copy_executable host context src dst)
  unfolding copy_executable
  copy_executable-Emits context src dst = search (emitting, tt) depth 14

  install_guest_agent-Emits :
      (root src path : Text) → Emits IsTempFree (install_guest_agent host root src path)
  unfolding install_guest_agent
  install_guest_agent-Emits root src path =
      search (emitting, check_binary-Emits, copy_executable-Emits) depth 8

  write_image_config-Emits :
      (root : Text) (c : ImageConfig) → Emits IsTempFree (write_image_config host root c)
  unfolding write_image_config
  write_image_config-Emits root c = search (emitting, tt) depth 8

  exported-Emits :
      (received : Result Text) (sent : Result ⊤) → Emits IsTempFree (exported received sent)
  unfolding exported
  exported-Emits (err e) sent = search emitting
  exported-Emits (ok out) (err e) = search emitting
  exported-Emits (ok out) (ok a) = search emitting

  export-Emits : (ref root : Text) → Emits IsTempFree (export host ref root)
  unfolding export
  export-Emits ref root = search (emitting, exported-Emits, tt) depth 8

  -- After a step in the temporary directory `root`: an error has removed it.
  abbrev Held : {A : Type 0} → Text → List Text → Result A × World → Type 0
  Held root dirs (ok a, w) = temp_dirs host w.log ≡ root ∷ dirs
  Held root dirs (err e, w) = temp_dirs host w.log ≡ dirs

  -- After Build: the directory of the result is there, and is the only one that was not before.
  abbrev pub Left : List Text → Result BuildResult × World → Type 0
  Left dirs (ok r, w) = temp_dirs host w.log ≡ r.rootfs_dir ∷ dirs
  Left dirs (err e, w) = temp_dirs host w.log ≡ dirs

  module _ (removing : IsRemoving host) where
    cleared-Held :
        {A : Type 0} (root : Text) (dirs : List Text) (o : Result A × World)
        → temp_dirs host o.1.log ≡ root ∷ dirs
        → Held root dirs (cleared_outcome host root o)
    unfolding cleared_outcome
    cleared-Held root dirs (ok a, w) e = e
    cleared-Held root dirs (err x, w) e =
        unfold temp_dirs call in rw (removing.removes w.log root, e) (drop_first_head root dirs)

    or_cleared-Held :
        {A : Type 0} (root : Text) (dirs : List Text) (m : Action A) (w : World)
        → Emits IsTempFree m
        → temp_dirs host w.log ≡ root ∷ dirs
        → Held root dirs (or_cleared host root m w)
    unfolding or_cleared
    or_cleared-Held root dirs m w free e =
        cleared-Held root dirs (m w) (temp_dirs-Grows host w.log (m w).1.log (free.grows w) ∙ e)

    -- What `os.MkdirTemp` gives back is held.
    abbrev Made : List Text → Result Text × World → Type 0
    Made dirs (ok root, w) = temp_dirs host w.log ≡ root ∷ dirs
    Made dirs (err e, w) = temp_dirs host w.log ≡ dirs

    mkdir_temp-Made :
        (context pattern : Text) (dirs : List Text) (w : World)
        → temp_dirs host w.log ≡ dirs
        → Made dirs (wrapping context (ask host (mkdir_temp pattern)) w)
    unfolding temp_dirs ask
    mkdir_temp-Made context pattern dirs w e =
        elim (Bool-cases (host.fails w.log (mkdir_temp pattern))) [
          | inl fails ↦ rw (fails, fails) e
          | inr works ↦
              rw (works, works)
                (ap (λ (ds : List Text). host.output w.log (mkdir_temp pattern) ∷ ds) e)
        ]

    module _ (config_of : History → ImageConfig) (dirs : List Text) where
      fill-Left :
          (b : Builder) (ref root : Text) (config : ImageConfig) (w : World)
          → temp_dirs host w.log ≡ root ∷ dirs
          → Ends (fill host config_of b ref root config) w (Left dirs)
      unfolding fill
      fill-Left b ref root config w e =
          after (or_cleared host root (export host ref root)) _ w (Left dirs) (Held root dirs)
            (or_cleared-Held root dirs (export host ref root) w (export-Emits ref root) e)
            (λ _ v1 e1.
              after (or_cleared host root (write_image_config host root config)) _ v1 (Left dirs)
                (Held root dirs)
                (or_cleared-Held root dirs (write_image_config host root config) v1
                  (write_image_config-Emits root config) e1)
                (λ written v2 e2.
                  after
                    (or_cleared host root
                      (install_guest_agent host root b.guest_agent_binary (init_path b)))
                    _ v2 (Left dirs) (Held root dirs)
                    (or_cleared-Held root dirs
                      (install_guest_agent host root b.guest_agent_binary (init_path b)) v2
                      (install_guest_agent-Emits root b.guest_agent_binary (init_path b)) e2)
                    (λ _ v3 e3. record { ends = e3 }) (λ _ _ e3. e3))
                (λ _ _ e2. e2))
            (λ _ _ e1. e1)

      -- A step before the directory is made.
      early :
          {A : Type 0} (m : Action A) (f : A → Action BuildResult) (w : World)
          → Emits IsTempFree m
          → temp_dirs host w.log ≡ dirs
          → ((a : A) (v : World) → temp_dirs host v.log ≡ dirs → Ends (f a) v (Left dirs))
          → Ends (m >>= f) w (Left dirs)
      early m f w free e h =
          after m f w (Left dirs) (λ o. temp_dirs host o.1.log ≡ dirs)
            (temp_dirs-Grows host w.log (m w).1.log (free.grows w) ∙ e) h (λ _ _ e'. e')

    -- On a host where RemoveAll does not fail: a Build that succeeds leaves exactly one more
    -- temporary directory, which its result names; one that fails, at whatever step, leaves none.
    pub build-Left :
        (config_of : History → ImageConfig) (b : Builder) (ref : Text) (w : World)
        → Left (temp_dirs host w.log) (build host config_of b ref w)
    unfolding build
    build-Left config_of b ref w =
        let dirs = temp_dirs host w.log in
        (early config_of dirs (required (codes "GuestAgentBinary") b.guest_agent_binary) _ w
          (required-Emits (codes "GuestAgentBinary") b.guest_agent_binary) refl
          (λ _ v1 e1.
            early config_of dirs
              (known_platform (platform_name b) (parse_platform (platform_name b))) _ v1
              (known_platform-Emits (platform_name b) (parse_platform (platform_name b))) e1
              (λ p v2 e2.
                early config_of dirs (fetch host b ref p b.local) _ v2 (fetch-Emits b ref p b.local)
                  e2
                  (λ _ v3 e3.
                    early config_of dirs (gets (λ v. config_of v.log)) _ v3
                      (gets-Emits (λ v. config_of v.log)) e3
                      (λ config v4 e4.
                        early config_of dirs _ _ v4
                          (wrapping-Emits (codes "read image config") (call host (config_file ref))
                            (call-Emits host (config_file ref) tt))
                          e4
                          (λ _ v5 e5.
                            after
                              (wrapping (codes "mkdir temp dir")
                                (ask host (mkdir_temp (codes "labctl-image-build-*"))))
                              _ v5 (Left dirs) (Made dirs)
                              (mkdir_temp-Made (codes "mkdir temp dir")
                                (codes "labctl-image-build-*") dirs v5 e5)
                              (λ root v6 e6. fill-Left config_of dirs b ref root config v6 e6)
                              (λ _ _ e6. e6))))))).ends
