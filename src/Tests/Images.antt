-- ===== src/Tests/Images.antt =====
-- The theorems on images, applied to the host of the tests.
use firecracker_lab.Prelude.{codes, ◌≡◌, refl, false, [], ◌∷◌, ℕ_discrete, text_dec}
use firecracker_lab.World.{History, Host, ok, err, message, call, ask}
use firecracker_lab.State.Images.{find_name, clashes, get_by_name, insert}
use firecracker_lab.Cmd.{load}
use firecracker_lab.Cmd.Images.Ext4.{check_ext4, check_superblock, little_endian}
use firecracker_lab.OciImage.Build.{Builder, ImageConfig}
use firecracker_lab.OciImage.Build.Clean.{IsRemoving}
use firecracker_lab.OciImage.Inject.{inject_guest_agent}
use firecracker_lab.OciImage.Inject.Unmounted.{
  IsUnmounting, IsBalanced, inject_guest_agent-IsBalanced,
}
use firecracker_lab.OciImage.Resources.{temp_dirs}
use firecracker_lab.Cmd.Images.{flag_given, unregistered, copy_file, import_image, build_image}
use firecracker_lab.Cmd.Images.{image_path}
use firecracker_lab.Prelude.{ℕ, pos, false, List}
use firecracker_lab.World.Rows.{VmRow}
use firecracker_lab.World.{Result, ⊤}
use firecracker_lab.Cmd.Vms.Started.{Started}
use firecracker_lab.Cmd.Vms.{run, rounds_of}
use firecracker_lab.Cmd.Images.Resolved.{run-import_image}
use firecracker_lab.World.Rows.{Image}
use firecracker_lab.Prelude.{◌++◌}
use firecracker_lab.World.{World}
use firecracker_lab.Tests.{codec}
use firecracker_lab.Cmd.Images.Imported.{Imported}
use firecracker_lab.Cmd.Images.Packed.{Cleared, build_image-Cleared}
use firecracker_lab.Tests.{host, cfg, world}

removing : IsRemoving host
removing = record { removes = λ h p. refl }

unmounting : IsUnmounting host
unmounting = record { unmounts = λ h root. refl }

abbrev config_of : History → ImageConfig
config_of h = record {
  entrypoint = [];
  cmd = codes "/bin/sh" ∷ [];
  env = [];
  working_dir = codes "/";
  user = [];
}

abbrev builder : Builder
builder = record {
  platform = [];
  guest_agent_binary = codes "guest-agent";
  init_path = [];
  local = false;
}

build_image-Cleared_example :
    Cleared host
      (temp_dirs host world.log)
      (build_image host config_of builder (codes "out.ext4") (codes "2048M") (codes "alpine") world)
build_image-Cleared_example =
    build_image-Cleared host removing config_of builder (codes "out.ext4") (codes "2048M")
      (codes "alpine") world

inject_guest_agent-IsBalanced_example :
    IsBalanced host (inject_guest_agent host (codes "a.ext4") (codes "guest-agent") [])
inject_guest_agent-IsBalanced_example =
    inject_guest_agent-IsBalanced host unmounting (codes "a.ext4") (codes "guest-agent") []

-- A host on which every file has the magic number of ext4.
abbrev disk : Host
disk = record host { output = λ h c. 0x53 ∷ 0xEF ∷ [] }

test_import_image : (import_image disk cfg (codes "alpine") (codes "out.ext4") world).0 ≡ ok tt
unfolding import_image flag_given check_ext4 check_superblock little_endian load get_by_name
    find_name unregistered copy_file insert clashes call ask ℕ_discrete text_dec
test_import_image = refl

test_import_other :
    (import_image host cfg (codes "alpine") (codes "out.ext4") world).0
    ≡ err (message (codes "out.ext4 does not look like an ext2/3/4 image"))
unfolding import_image flag_given check_ext4 check_superblock little_endian call ask ℕ_discrete
test_import_other = refl

imported_ok :
    import_image disk cfg (codes "alpine") (codes "out.ext4") world
    ≡ (ok tt, (import_image disk cfg (codes "alpine") (codes "out.ext4") world).1)
unfolding import_image flag_given check_ext4 check_superblock little_endian load get_by_name
    find_name unregistered copy_file insert clashes call ask ℕ_discrete text_dec
imported_ok = refl

abbrev imported : World
imported = (import_image disk cfg (codes "alpine") (codes "out.ext4") world).1

abbrev StartsImported : Image → ℕ → List VmRow → Result ⊤ × World → Type 0
StartsImported = Started disk codec cfg (codes "jailer") (pos 123) (pos 123) (pos 1) (pos 256) false

run-import_image_example :
    (img : Image) × (img.path ≡ image_path cfg (codes "alpine"))
    × (imported.db.images ≡ world.db.images ++ img ∷ [])
    × StartsImported img 2 imported.db.vms (
        run disk codec cfg
          (pos 1)
          (pos 256)
          (pos 2)
          (pos 123)
          (pos 123)
          false
          (codes "jailer")
          (codes "alpine")
          imported)
    × (world.db.images ≡ []
        → StartsImported img 2 imported.db.vms (
            run disk codec cfg
              (pos 1)
              (pos 256)
              (pos 2)
              (pos 123)
              (pos 123)
              false
              (codes "jailer")
              []
              imported))
unfolding rounds_of
run-import_image_example =
    run-import_image disk codec cfg (λ h s. refl) (codes "jailer") (pos 123) (pos 123) (pos 1)
      (pos 256) false (pos 2) (codes "alpine") (codes "out.ext4") world imported imported_ok
