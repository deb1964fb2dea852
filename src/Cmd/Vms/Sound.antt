-- ===== src/Cmd/Vms/Sound.antt =====
-- The commands on VMs keep the vms table a ledger, whatever the host answers.
use firecracker_lab.Prelude.{
  Text, codes, ℕ, zero, suc, ℤ, ◌≡◌, refl, Bool, true, false, Option, none, some, List, [], ◌∷◌,
  ◌++◌, inl, inr, int_eq, if◌then◌else◌,
}
use firecracker_lab.Agent.{Codec}
use firecracker_lab.World.{
  Host, Result, ok, err, World, Action, ⊤, sql, delete_image, call-cases, wrap,
}
use firecracker_lab.World.Rows.{Image}
use firecracker_lab.World.Keeps.{Keeps, keeping, wrapping-Keeps, pure-Keeps, raise-Keeps}
use firecracker_lab.State.Vms.{Vm, or_empty, allocate_and_insert}
use firecracker_lab.State.Vms.Advances.{Advances, Advances-trans, stay-Advances}
use firecracker_lab.State.Vms.Sound.{
  Sound, Keeps-Sound, >>=-Sound, attempt-Sound, wrapping-Sound, allocate_and_insert-Sound,
  remove-Sound, kept-Advances, Becomes-Advances,
}
use firecracker_lab.State.Snapshots.{Snapshot, insert, get_by_name, row_of, delete_id}
use firecracker_lab.State.Snapshots
use firecracker_lab.State.Snapshots.Effects.{
  get_by_name-Keeps, insert-Becomes, new_snapshot, scan_row-IsInt, delete-Becomes,
}
use firecracker_lab.State.Images
use firecracker_lab.Runner.Lifecycle.Unrecorded.{
  run_vm-Keeps, restore-Keeps, destroy-Keeps, snapshot-Keeps,
}
use firecracker_lab.Cmd.{Config, new_runner, plain_runner, load}
use firecracker_lab.Cmd.Lookup.{
  load-Keeps, require_vm-Keeps, loaded, new_runner-IsReal, plain_runner-IsReal,
}
use firecracker_lab.Cmd.Vms.{
  only_image, after_restore, boot_snapshot, named, run, run_vms, resolve_image, restore, destroy,
  snapshot, snapshot_delete, rounds_of, unused_name,
}
use firecracker_lab.Cmd.Vms.Lookup.{snapshot_required, require_snapshot-Keeps}
use firecracker_lab.Cmd.Images.Imported.{get_by_name-Keeps as images_get-Keeps}
use firecracker_lab.Cmd.Images.Unrecorded.{known_image-Keeps}

module _ (host : Host) where
  images_list-Keeps : Keeps (Images.list host)
  unfolding Images.list
  images_list-Keeps = search keeping depth 8

  insert-Sound :
      (name dir : Text) (vcpus mem_mib : ℤ) (ports : List ℤ)
      → Sound (insert host name dir vcpus mem_mib (some ports))
  insert-Sound name dir vcpus mem_mib ports = record {
    advance = λ w sound.
        Becomes-Advances w.db
          (record w.db {
            snapshots =
                w.db.snapshots ++ row_of (new_snapshot host w name dir vcpus mem_mib ports) ∷ [];
          })
          (insert host name dir vcpus mem_mib (some ports) w)
          (insert-Becomes host w name dir vcpus mem_mib ports) sound (stay-Advances w.db.vms sound);
  }

  delete_snapshot-Sound : (id : Text) → Sound (Snapshots.delete host id)
  delete_snapshot-Sound id = record {
    advance = λ w sound.
        Becomes-Advances w.db (record w.db { snapshots = delete_id id w.db.snapshots })
          (Snapshots.delete host id w) (delete-Becomes host w id) sound
          (stay-Advances w.db.vms sound);
  }

  pub delete_image-Sound : (id : Text) → Sound (Images.delete host id)
  unfolding Images.delete
  delete_image-Sound id = record {
    advance = λ w sound. elim (call-cases host (sql (delete_image id)) w) [
      | inl e ↦ rw e (stay-Advances w.db.vms sound)
      | inr e ↦ rw e (stay-Advances w.db.vms sound)
    ];
  }

only_image-Keeps : (images : List Image) → Keeps (only_image images)
unfolding only_image
only_image-Keeps [] = search keeping
only_image-Keeps (img ∷ []) = search keeping
only_image-Keeps (img ∷ more ∷ rest) = search keeping

unused_name-Keeps : (name : Text) (found : Option Snapshot) → Keeps (unused_name name found)
unfolding unused_name
unused_name-Keeps name none = search keeping
unused_name-Keeps name (some s) = search keeping

pub if-Sound :
    {A : Type 0} (b : Bool) (m n : Action A) → Sound m → Sound n → Sound (if b then m else n)
if-Sound true m n h k = h
if-Sound false m n h k = k

pub ruleset sounding =
    (>>=-Sound, attempt-Sound, wrapping-Sound, if-Sound, Keeps-Sound, remove-Sound)

module _ (host : Host) (codec : Codec) (cfg : Config) where
  pub resolve_image-Keeps : (name : Text) → Keeps (resolve_image host codec cfg name)
  unfolding resolve_image
  resolve_image-Keeps [] = search (keeping, images_list-Keeps, only_image-Keeps) depth 8
  resolve_image-Keeps (c ∷ name) = search (keeping, images_get-Keeps, known_image-Keeps) depth 8

  run_vms-Sound :
      (jailer_bin : Text) (uid gid vcpus mem_mib : ℤ) (attach : Bool) (img : Image) (n : ℕ)
      → Sound
          (run_vms host codec cfg (new_runner cfg jailer_bin uid gid) vcpus mem_mib attach img n)
  unfolding run_vms or_empty
  run_vms-Sound jailer_bin uid gid vcpus mem_mib attach img zero = Keeps-Sound (search keeping)
  run_vms-Sound jailer_bin uid gid vcpus mem_mib attach img (suc n) =
      let real = new_runner-IsReal cfg jailer_bin uid gid in
      let more = run_vms-Sound jailer_bin uid gid vcpus mem_mib attach img n in
      >>=-Sound (allocate_and_insert host vcpus mem_mib img.id none) _
        (allocate_and_insert-Sound host vcpus mem_mib img.id none tt)
        λ v.
          >>=-Sound _ _
            (Keeps-Sound (
              wrapping-Keeps _ _ (
                run_vm-Keeps host codec (new_runner cfg jailer_bin uid gid) real v img.path
                  attach)))
            λ _. more

  pub run-Sound :
      (vcpus mem_mib count uid gid : ℤ) (attach : Bool) (jailer_bin image : Text)
      → Sound (run host codec cfg vcpus mem_mib count uid gid attach jailer_bin image)
  unfolding run
  run-Sound vcpus mem_mib count uid gid attach jailer_bin image =
      >>=-Sound (load host) _ (Keeps-Sound (load-Keeps host)) λ _.
        >>=-Sound (resolve_image host codec cfg image) _ (Keeps-Sound (resolve_image-Keeps image))
          λ img. run_vms-Sound jailer_bin uid gid vcpus mem_mib attach img (rounds_of count)

  after_restore-Sound : (id : Text) (r : Result ⊤) → Sound (after_restore host codec cfg id r)
  unfolding after_restore
  after_restore-Sound id (ok a) = Keeps-Sound (pure-Keeps tt)
  after_restore-Sound id (err e) =
      >>=-Sound _ _ (attempt-Sound _ (remove-Sound host id))
        λ _. Keeps-Sound (raise-Keeps (wrap (codes "restore " ++ id) e))

  boot_snapshot-Sound :
      (jailer_bin : Text) (uid gid : ℤ) (attach : Bool) (s : Snapshot) (v : Vm)
      → Sound (boot_snapshot host codec cfg (new_runner cfg jailer_bin uid gid) attach s v)
  unfolding boot_snapshot
  boot_snapshot-Sound jailer_bin uid gid attach s v =
      >>=-Sound _ _
        (attempt-Sound _ (
          Keeps-Sound (
            restore-Keeps host codec (new_runner cfg jailer_bin uid gid)
              (new_runner-IsReal cfg jailer_bin uid gid) v s.dir attach)))
        (after_restore-Sound v.id)

  pub restore-Sound :
      (name : Text) (uid gid : ℤ) (attach : Bool) (jailer_bin : Text)
      → Sound (restore host codec cfg name uid gid attach jailer_bin)
  unfolding restore or_empty
  restore-Sound name uid gid attach jailer_bin = record {
    advance = λ w sound.
        let Q : Result ⊤ × World → Type 0 = λ o. Advances w.db.vms o.1.db.vms in
        let same : (v : World) → v.db ≡ w.db → Advances w.db.vms v.db.vms =
          λ v s. kept-Advances s sound in
        (loaded host w.db w Q _ refl
          (λ _ v1 s1.
            snapshot_required host w.db v1 Q name _ s1
              (λ s v2 s2 r at. record {
                ends = Advances-trans w.db.vms v2.db.vms _ (same v2 s2) (
                    (>>=-Sound (allocate_and_insert host s.vcpus s.mem_mib [] (some s.ports)) _
                        (allocate_and_insert-Sound host s.vcpus s.mem_mib [] (some s.ports)
                          (scan_row-IsInt r s at.1))
                        (boot_snapshot-Sound jailer_bin uid gid attach s)).advance
                      v2 (same v2 s2).0);
              })
              (λ _ v s. same v s))
          (λ _ v s. same v s)).ends;
  }

  pub destroy-Sound : (id : Text) → Sound (destroy host codec cfg id)
  unfolding destroy
  destroy-Sound id = >>=-Sound _ _ (Keeps-Sound (load-Keeps host)) λ _.
      >>=-Sound _ _ (Keeps-Sound (require_vm-Keeps host id)) λ v.
        >>=-Sound _ _
          (Keeps-Sound (destroy-Keeps host codec (plain_runner cfg) (plain_runner-IsReal cfg) v))
          λ _. remove-Sound host id

  named-Keeps : (name : Text) → Keeps (named host codec cfg name)
  unfolding named
  named-Keeps [] = search keeping
  named-Keeps (c ∷ name) = search keeping

  pub snapshot-Sound : (id name : Text) → Sound (snapshot host codec cfg id name)
  unfolding snapshot
  snapshot-Sound id name = >>=-Sound _ _ (Keeps-Sound (named-Keeps name)) λ _.
      >>=-Sound _ _ (Keeps-Sound (load-Keeps host)) λ _.
        >>=-Sound _ _ (Keeps-Sound (require_vm-Keeps host id)) λ v.
          >>=-Sound _ _ (Keeps-Sound (get_by_name-Keeps host name)) λ found.
            >>=-Sound _ _ (Keeps-Sound (unused_name-Keeps name found)) λ _.
              >>=-Sound _ _
                (Keeps-Sound (
                  wrapping-Keeps _ _
                    (snapshot-Keeps host codec (plain_runner cfg) (plain_runner-IsReal cfg) v _)))
                λ _.
                  >>=-Sound _ _ (insert-Sound host name _ v.vcpus v.mem_mib v.ports)
                    λ _. remove-Sound host id

  pub snapshot_delete-Sound : (name : Text) → Sound (snapshot_delete host codec cfg name)
  unfolding snapshot_delete
  snapshot_delete-Sound name = >>=-Sound _ _ (Keeps-Sound (load-Keeps host)) λ _.
      >>=-Sound _ _ (Keeps-Sound (require_snapshot-Keeps host name))
        λ s. delete_snapshot-Sound host s.id
