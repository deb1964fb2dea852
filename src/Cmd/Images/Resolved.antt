-- ===== src/Cmd/Images/Resolved.antt =====
-- What `labctl run` boots after `labctl image import`.
use mathlib.Core.Path.{subst}
use firecracker_lab.Prelude.{
  ℕ, ℤ, Bool, Text, sym, ◌≡◌, ◌≢◌, refl, ap, ◌∙◌, none, some, List, [], ◌∷◌, ◌++◌, arith,
}
use firecracker_lab.Agent.{Codec}
use firecracker_lab.World.{
  Error, Result, err, ⊤, sql, open_db, logged, Host, IsSqlUp, ok, World, select_image_name,
  list_images, sql-ok,
}
use firecracker_lab.World.Rows.{Image, VmRow, Db}
use firecracker_lab.State.Images.{find_name, get_by_name, list}
use firecracker_lab.World.Ends.{step, Keeps-at}
use firecracker_lab.Cmd.Vms.Started.{Started, run_vms-Started}
use firecracker_lab.Cmd.Vms.Sound.{resolve_image-Keeps}
use firecracker_lab.Cmd.{Config, load, new_runner}
use firecracker_lab.Cmd.Vms.{run, run_vms, rounds_of, resolve_image, only_image}
use firecracker_lab.Cmd.Images.{known_image, import_image, image_path}
use firecracker_lab.Cmd.Images.Imported.{Imported, import_image-Imported}

-- A row behind rows with other names is the one that is found.
find_name-append :
    (img : Image) (rows : List Image)
    → find_name img.name rows ≡ none
    → find_name img.name (rows ++ img ∷ []) ≡ some img
unfolding find_name
find_name-append img [] h = ground arith
find_name-append img (r ∷ rows) h = ground (arith, find_name-append img rows)

module _ (host : Host) (codec : Codec) (cfg : Config) (up : IsSqlUp host) where
  resolve_named :
      (name : Text) (v : World) (img : Image)
      → name ≢ []
      → find_name name v.db.images ≡ some img
      → (resolve_image host codec cfg name v).0 ≡ ok img
  unfolding resolve_image get_by_name known_image
  resolve_named [] v img ne h = absurd (ne refl)
  resolve_named (c ∷ name) v img ne h = rw (sql-ok host (select_image_name (c ∷ name)) v up, h) refl

  resolve_only :
      (v : World) (img : Image)
      → v.db.images ≡ img ∷ []
      → (resolve_image host codec cfg [] v).0 ≡ ok img
  unfolding resolve_image list only_image
  resolve_only v img h = rw (sql-ok host list_images v up, h) refl

  same_image : {a b : Image} → Result.ok a ≡ ok b → a ≡ b
  same_image h = cc

  err-ne-ok : {e : Error} {a : Image} → err e ≢ ok a
  err-ne-ok h = cc

  module _ (jailer_bin : Text) (uid gid vcpus mem_mib : ℤ) (attach : Bool) where
    abbrev Starts : Image → ℕ → List VmRow → Result ⊤ × World → Type 0
    Starts = Started host codec cfg jailer_bin uid gid vcpus mem_mib attach

    -- A run whose image is known.
    run_resolved :
        (count : ℤ) (name : Text) (v : World) (img : Image)
        → ((x : World) → x.db ≡ v.db → (resolve_image host codec cfg name x).0 ≡ ok img)
        → Starts img
            (rounds_of count)
            v.db.vms
            (run host codec cfg vcpus mem_mib count uid gid attach jailer_bin name v)
    unfolding run load
    run_resolved count name v img found =
        let v1 = logged (sql open_db) v in
        let n = rounds_of count in
        let Q = Starts img n v.db.vms in
        let r = new_runner cfg jailer_bin uid gid in
        rw (sql-ok host open_db v up)
          (step (resolve_image host codec cfg name) _ v1 Q
            (λ img' v2 e.
              let same = same_image (sym (ap (λ o. o.0) e) ∙ found v1 refl) in
              let db_eq = Keeps-at (resolve_image-Keeps host codec cfg name) e in
              record {
                ends =
                    subst (λ i. Q (run_vms host codec cfg r vcpus mem_mib attach i n v2)) (sym same)
                      (subst
                        (λ (d : Db).
                          Starts img n d.vms
                            (run_vms host codec cfg r vcpus mem_mib attach img n v2))
                        db_eq
                        (run_vms-Started host codec cfg jailer_bin uid gid vcpus mem_mib attach img
                          n v2));
              })
            (λ x v2 e. absurd (err-ne-ok (sym (ap (λ o. o.0) e) ∙ found v1 refl)))).ends

    -- After an import that succeeds, on a host whose database answers, `run` with the name of the
    -- import runs its VMs from the imported copy; without a name it does so if there was no image
    -- before.
    pub run-import_image :
        (count : ℤ) (name src : Text) (w v : World)
        → import_image host cfg name src w ≡ (ok tt, v)
        → (img : Image) × (img.path ≡ image_path cfg name)
          × (v.db.images ≡ w.db.images ++ img ∷ [])
          × Starts img
              (rounds_of count)
              v.db.vms
              (run host codec cfg vcpus mem_mib count uid gid attach jailer_bin name v)
          × (w.db.images ≡ []
              → Starts img
                  (rounds_of count)
                  v.db.vms
                  (run host codec cfg vcpus mem_mib count uid gid attach jailer_bin [] v))
    run-import_image count name src w v e =
        let (key, size, ne, looks, free, same) =
          subst (Imported host cfg name src w.db w.log) e
            (import_image-Imported host cfg name src w) in
        let img : Image = record {
          id = key;
          name = name;
          path = image_path cfg name;
          size_bytes = size;
        } in
        let images : v.db.images ≡ w.db.images ++ img ∷ [] = ap (λ d. d.images) same in
        let images_of : (d : Db) → List Image = λ d. d.images in
        (
          img,
          refl,
          images,
          run_resolved count name v img (λ x s. resolve_named name x img ne (
              ap (find_name name) (ap images_of s ∙ images)
              ∙ find_name-append img w.db.images free)),
          λ empty. run_resolved count [] v img (λ x s.
              resolve_only x img
                (ap images_of s ∙ images ∙ ap (λ (rows : List Image). rows ++ img ∷ []) empty)),
        )
