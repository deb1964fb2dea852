-- ===== src/Cmd/Images/Packed.antt =====
-- What `labctl image build` leaves on the host.
use mathlib.Core.Path.{subst}
use firecracker_lab.Prelude.{Text, codes, ◌≡◌, ◌∙◌, List, [], ◌∷◌}
use firecracker_lab.World.{
  remove_all, History, Host, Result, ok, err, World, Action, ⊤, call, wrapping, wrap_outcome,
  deferring,
}
use firecracker_lab.World.Emits.{Emits, emitting}
use firecracker_lab.World.Ends.{after}
use firecracker_lab.OciImage.Resources.{IsTempFree, temp_dirs, drop_first_head, temp_dirs-Grows}
use firecracker_lab.OciImage.Build.{Builder, BuildResult, ImageConfig, build}
use firecracker_lab.OciImage.Build.Clean.{IsRemoving, Left, build-Left}
use firecracker_lab.OciImage.Ext4.{PackExt4Options, must_be_absent, pack_ext4}
use firecracker_lab.Cmd.Images.{flag_given, build_image}

flag_given-Emits : (flag s : Text) → Emits IsTempFree (flag_given flag s)
unfolding flag_given
flag_given-Emits flag [] = search emitting
flag_given-Emits flag (c ∷ s) = search emitting

must_be_absent-Emits :
    (path : Text) (found : Result ⊤) → Emits IsTempFree (must_be_absent path found)
unfolding must_be_absent
must_be_absent-Emits path (ok a) = search emitting
must_be_absent-Emits path (err e) = search emitting

module _ (host : Host) where
  pack_ext4-Emits : (o : PackExt4Options) → Emits IsTempFree (pack_ext4 host o)
  unfolding pack_ext4
  pack_ext4-Emits o = search (emitting, must_be_absent-Emits, tt) depth 10

  -- The temporary directories are those that were there before.
  abbrev pub Cleared : List Text → Result ⊤ × World → Type 0
  Cleared dirs o = temp_dirs host o.1.log ≡ dirs

  wrapped-Left :
      (context : Text) (dirs : List Text) (o : Result BuildResult × World)
      → Left host dirs o
      → Left host dirs (wrap_outcome context o)
  wrapped-Left context dirs (ok r, w) h = h
  wrapped-Left context dirs (err e, w) h = h

  module _ (removing : IsRemoving host) where
    -- What runs in the directory is followed by its removal.
    removed_after :
        (root : Text) (dirs : List Text) (m : Action ⊤) (w : World)
        → Emits IsTempFree m
        → temp_dirs host w.log ≡ root ∷ dirs
        → Cleared dirs (deferring (call host (remove_all root)) m w)
    unfolding temp_dirs call
    removed_after root dirs m w free e =
        rw
          (
            removing.removes (m w).1.log root,
            temp_dirs-Grows host w.log (m w).1.log (free.grows w),
            e,
          )
          (drop_first_head root dirs)

    -- On a host where RemoveAll does not fail, `image build` leaves the temporary directories as
    -- they were, whether it succeeds or fails, and at whatever step it fails.
    pub build_image-Cleared :
        (config_of : History → ImageConfig) (b : Builder) (output size ref : Text) (w : World)
        → Cleared (temp_dirs host w.log) (build_image host config_of b output size ref w)
    unfolding build_image
    build_image-Cleared config_of b output size ref w =
        let dirs = temp_dirs host w.log in
        let clean = λ (v : World). temp_dirs host v.log ≡ dirs in
        (after (flag_given (codes "--guest-agent-binary") b.guest_agent_binary) _ w (Cleared dirs)
          (λ o. clean o.1)
          (temp_dirs-Grows host w.log _
            ((flag_given-Emits (codes "--guest-agent-binary") b.guest_agent_binary).grows w))
          (λ _ v1 e1.
            after (flag_given (codes "-o/--output") output) _ v1 (Cleared dirs) (λ o. clean o.1)
              (temp_dirs-Grows host v1.log _
                  ((flag_given-Emits (codes "-o/--output") output).grows v1)
                ∙ e1)
              (λ _ v2 e2.
                after (wrapping (codes "build image") (build host config_of b ref)) _ v2
                  (Cleared dirs) (Left host dirs)
                  (wrapped-Left (codes "build image") dirs (build host config_of b ref v2) (
                    subst (λ ds. Left host ds (build host config_of b ref v2)) e2
                      (build-Left host removing config_of b ref v2)))
                  (λ result v3 e3. record {
                    ends =
                        removed_after result.rootfs_dir dirs
                          (wrapping (codes "pack ext4") (
                            pack_ext4 host (record {
                              rootfs_dir = result.rootfs_dir;
                              out_path = output;
                              size = size;
                              mkfs_bin = [];
                            })))
                          v3 (search (emitting, pack_ext4-Emits)) e3;
                  })
                  (λ _ _ e3. e3))
              (λ _ _ e2. e2))
          (λ _ _ e1. e1)).ends
