-- ===== src/Cmd/Images/Unrecorded.antt =====
-- The commands on images that leave the state database alone.
use firecracker_lab.Prelude.{Text, ◌≡◌, refl, ◌∙◌, Bool, true, false, Option, none, some, [], ◌∷◌}
use firecracker_lab.World.{History, Host, Result, ok, err, World, Action, ⊤, call}
use firecracker_lab.World.Rows.{Image}
use firecracker_lab.World.Keeps.{Keeps, keeping}
use firecracker_lab.OciImage.{Platform}
use firecracker_lab.OciImage.Build.{
  Builder, ImageConfig, check_binary, copy_executable, install_guest_agent, write_image_config,
  exported, export, cleared_outcome, or_cleared, required, known_platform, fetch, fill, build,
}
use firecracker_lab.OciImage.Ext4.{must_be_absent, pack_ext4}
use firecracker_lab.OciImage.Inject.{after_remove, remove_existing, write_agent, inject_guest_agent}
use firecracker_lab.Cmd.Images.{known_image, build_image, upgrade}
use firecracker_lab.Cmd.Images.Imported.{flag_given-Keeps, get_by_name-Keeps}
use firecracker_lab.Cmd.Lookup.{load-Keeps}

pub known_image-Keeps : (name : Text) (found : Option Image) → Keeps (known_image name found)
unfolding known_image
known_image-Keeps name none = search keeping
known_image-Keeps name (some img) = search keeping

required-Keeps : (what s : Text) → Keeps (required what s)
unfolding required
required-Keeps what [] = search keeping
required-Keeps what (c ∷ s) = search keeping

module _ (host : Host) where
  check_binary-Keeps : (path : Text) → Keeps (check_binary host path)
  unfolding check_binary
  check_binary-Keeps path = search keeping depth 8

  copy_executable-Keeps : (context src dst : Text) → Keeps (copy_executable host context src dst)
  unfolding copy_executable
  copy_executable-Keeps context src dst = search keeping depth 14

  after_remove-Keeps :
      (dst : Text) (absent : Bool) (r : Result ⊤) → Keeps (after_remove dst absent r)
  unfolding after_remove
  after_remove-Keeps dst absent (ok a) = search keeping
  after_remove-Keeps dst true (err e) = search keeping
  after_remove-Keeps dst false (err e) = search keeping

  write_agent-Keeps : (binary dst : Text) → Keeps (write_agent host binary dst)
  unfolding write_agent remove_existing
  write_agent-Keeps binary dst =
      search (keeping, copy_executable-Keeps, after_remove-Keeps) depth 14

  inject_guest_agent-Keeps :
      (image binary path : Text) → Keeps (inject_guest_agent host image binary path)
  unfolding inject_guest_agent
  inject_guest_agent-Keeps image binary path =
      search (keeping, required-Keeps, check_binary-Keeps, write_agent-Keeps) depth 20

  pub upgrade-Keeps : (name binary path : Text) → Keeps (upgrade host name binary path)
  unfolding upgrade
  upgrade-Keeps name binary path =
      search
        (
          keeping, flag_given-Keeps, load-Keeps, get_by_name-Keeps, known_image-Keeps,
          inject_guest_agent-Keeps,
        )
        depth 14

  known_platform-Keeps : (name : Text) (p : Option Platform) → Keeps (known_platform name p)
  unfolding known_platform
  known_platform-Keeps name none = search keeping
  known_platform-Keeps name (some p) = search keeping

  fetch-Keeps :
      (b : Builder) (ref : Text) (p : Platform) (local : Bool) → Keeps (fetch host b ref p local)
  unfolding fetch
  fetch-Keeps b ref p true = search keeping depth 8
  fetch-Keeps b ref p false = search keeping depth 8

  exported-Keeps : (received : Result Text) (sent : Result ⊤) → Keeps (exported received sent)
  unfolding exported
  exported-Keeps (err e) sent = search keeping
  exported-Keeps (ok out) (err e) = search keeping
  exported-Keeps (ok out) (ok a) = search keeping

  cleared_same :
      {A : Type 0} (root : Text) (o : Result A × World)
      → (cleared_outcome host root o).1.db ≡ o.1.db
  unfolding cleared_outcome call
  cleared_same root (ok a, w) = refl
  cleared_same root (err e, w) = refl

  must_be_absent-Keeps : (path : Text) (found : Result ⊤) → Keeps (must_be_absent path found)
  unfolding must_be_absent
  must_be_absent-Keeps path (ok a) = search keeping
  must_be_absent-Keeps path (err e) = search keeping

  or_cleared-Keeps :
      {A : Type 0} (root : Text) (m : Action A) → Keeps m → Keeps (or_cleared host root m)
  unfolding or_cleared
  or_cleared-Keeps root m h = record { same_db = λ w. cleared_same root (m w) ∙ h.same_db w }

  fill-Keeps :
      (config_of : History → ImageConfig) (b : Builder) (ref root : Text) (config : ImageConfig)
      → Keeps (fill host config_of b ref root config)
  unfolding fill export write_image_config install_guest_agent
  fill-Keeps config_of b ref root config =
      search (keeping, or_cleared-Keeps, exported-Keeps, check_binary-Keeps, copy_executable-Keeps)
        depth 14

  pub build_image-Keeps :
      (config_of : History → ImageConfig) (b : Builder) (output size ref : Text)
      → Keeps (build_image host config_of b output size ref)
  unfolding build_image build pack_ext4
  build_image-Keeps config_of b output size ref =
      search
        (
          keeping, flag_given-Keeps, required-Keeps, known_platform-Keeps, fetch-Keeps, fill-Keeps,
          must_be_absent-Keeps,
        )
        depth 24
