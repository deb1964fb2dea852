-- ===== src/Cmd/Images/Imported.antt =====
-- What `labctl image import` has checked and recorded.
use mathlib.Core.List.{cons-ne-nil}
use mathlib.Core.Path.{subst}
use firecracker_lab.Prelude.{
  Text, codes, ℕ, ◌≡◌, ◌≢◌, refl, sym, ◌∙◌, ap, Option, none, some, [], ◌∷◌, ◌++◌, nat_eq, inl, inr,
  arith, Bool-cases,
}
use firecracker_lab.World.{
  History, mkdir_all, select_image_name, pure, Host, Result, ok, err, World, ⊤, sql, insert_image,
  call-cases, call, wrapping, ◌>>=◌,
}
use firecracker_lab.World.Rows.{Image, Db}
use firecracker_lab.World.Keeps.{Keeps, keeping}
use firecracker_lab.World.Ends.{Ends, step, kept, after, Keeps-at}
use firecracker_lab.State.Images.{find_name, clashes, insert, get_by_name}
use firecracker_lab.State.Vms.Effects.{Becomes}
use firecracker_lab.Cmd.{Config}
use firecracker_lab.Cmd.Lookup.{loaded}
use firecracker_lab.Cmd.Images.{
  flag_given, unregistered, images_dir, image_path, copy_file, import_image,
}
use firecracker_lab.Cmd.Images.Ext4.{check_ext4}
use firecracker_lab.Cmd.Images.Ext4.Checked.{
  LooksLikeExt4, Passed, check_ext4-Passed, check_ext4-Keeps,
}

module _ (host : Host) where
  copy_file-Keeps : (src dst : Text) → Keeps (copy_file host src dst)
  unfolding copy_file
  copy_file-Keeps src dst = search keeping depth 20

pub flag_given-Keeps : (flag s : Text) → Keeps (flag_given flag s)
unfolding flag_given
flag_given-Keeps flag [] = search keeping
flag_given-Keeps flag (c ∷ s) = search keeping

-- The name of the flag is not empty when the guard is passed.
flag_given-ok :
    (flag s : Text) (w v : World) (a : ⊤) → flag_given flag s w ≡ (ok a, v) → (s ≢ []) × (v ≡ w)
unfolding flag_given
flag_given-ok flag [] w v a h = absurd cc
flag_given-ok flag (c ∷ s) w v a h = (cons-ne-nil _ _, cc)

unregistered-ok :
    (name : Text) (found : Option Image) (w v : World) (a : ⊤)
    → unregistered name found w ≡ (ok a, v)
    → (found ≡ none) × (v ≡ w)
unfolding unregistered
unregistered-ok name none w v a h = (refl, cc)
unregistered-ok name (some img) w v a h = absurd cc

unregistered-Keeps : (name : Text) (found : Option Image) → Keeps (unregistered name found)
unfolding unregistered
unregistered-Keeps name none = search keeping
unregistered-Keeps name (some img) = search keeping

module _ (host : Host) where
  -- The image that is inserted.
  abbrev pub new_image : World → Text → Text → ℕ → Image
  new_image w name path size = record {
    id = host.uuid w.log;
    name = name;
    path = path;
    size_bytes = size;
  }

  insert-Becomes :
      (w : World) (name path : Text) (size : ℕ)
      → Becomes w.db
          (record w.db { images = w.db.images ++ new_image w name path size ∷ [] })
          (insert host name path size w)
  unfolding insert
  insert-Becomes w name path size = elim (call-cases host (sql (insert_image name)) w) [
    | inl e ↦ rw e refl
    | inr e ↦ rw e (elim (Bool-cases (clashes (new_image w name path size) w.db.images)) [
      | inl clash ↦ rw clash refl
      | inr fine ↦ rw fine refl
    ])
  ]

  pub get_by_name-Keeps : (name : Text) → Keeps (get_by_name host name)
  unfolding get_by_name
  get_by_name-Keeps name = search keeping depth 8

  find-ok :
      (name : Text) (w : World) (found : Option Image) (v : World)
      → get_by_name host name w ≡ (ok found, v)
      → find_name name w.db.images ≡ found
  unfolding get_by_name
  find-ok name w found v h = elim (call-cases host (sql (select_image_name name)) w) [
    | inl e ↦ absurd (ground (arith, e, h))
    | inr e ↦ ground (arith, e, h)
  ]

module _ (host : Host) (cfg : Config) (name src : Text) where
  -- What `image import` at database `db` and history `h` has done, by how it ended.
  abbrev pub Imported : Db → History → Result ⊤ × World → Type 0
  Imported db h (ok a, w) =
      (key : Text) × (size : ℕ) × (name ≢ [])
      × LooksLikeExt4 host src h
      × (find_name name db.images ≡ none)
      × (w.db ≡ record db {
        images =
            db.images
            ++ record { id = key; name = name; path = image_path cfg name; size_bytes = size } ∷ [];
      })
  Imported db h (err e, w) = w.db ≡ db

  module _ (db : Db) (h : History) where
    -- The copy and the row, when the name is free.
    recorded :
        (w : World)
        → w.db ≡ db
        → name ≢ []
        → LooksLikeExt4 host src h
        → find_name name db.images ≡ none
        → Ends
            (wrapping (codes "mkdir images dir") (call host (mkdir_all (images_dir cfg))) >>= λ _.
              (wrapping (codes "copy image") (copy_file host src (image_path cfg name))
                >>= λ copied. (insert host name (image_path cfg name) copied >>= λ _. pure tt)))
            w
            (Imported db h)
    recorded w same named looks free =
        kept (wrapping (codes "mkdir images dir") (call host (mkdir_all (images_dir cfg)))) _ w
          (Imported db h) db (search keeping) same
          (λ _ v1 s1.
            kept (wrapping (codes "copy image") (copy_file host src (image_path cfg name))) _ v1
              (Imported db h) db (search (keeping, copy_file-Keeps host)) s1
              (λ copied v2 s2.
                after (insert host name (image_path cfg name) copied) _ v2 (Imported db h)
                  (Becomes v2.db (record v2.db {
                    images =
                        v2.db.images ++ new_image host v2 name (image_path cfg name) copied ∷ [];
                  }))
                  (insert-Becomes host v2 name (image_path cfg name) copied)
                  (λ _ v3 s3. record {
                    ends = (host.uuid v2.log, copied, named, looks, free, rw (s3, s2) refl);
                  })
                  (λ _ v3 s3. s3 ∙ s2))
              (λ _ _ s. s))
          (λ _ _ s. s)

  pub import_image-Imported : (w : World) → Imported w.db w.log (import_image host cfg name src w)
  unfolding import_image
  import_image-Imported w =
      (step (flag_given (codes "--name") name) _ w (Imported w.db w.log)
        (λ _ v0 e0.
          let (named, same0) = flag_given-ok (codes "--name") name w v0 _ e0 in
          after (check_ext4 host src) _ v0 (Imported w.db w.log)
            (λ o. Passed host src v0.log o × (o.1.db ≡ v0.db))
            (check_ext4-Passed host src v0, (check_ext4-Keeps host src).same_db v0)
            (λ _ v1 p1.
              loaded host w.db v1 (Imported w.db w.log) _ (p1.1 ∙ ap (λ (v : World). v.db) same0)
                (λ _ v2 s2.
                  step (get_by_name host name) _ v2 (Imported w.db w.log)
                    (λ found v3 e3.
                      let s3 = Keeps-at (get_by_name-Keeps host name) e3 ∙ s2 in
                      step (unregistered name found) _ v3 (Imported w.db w.log)
                        (λ _ v4 e4.
                          let (free, same4) = unregistered-ok name found v3 v4 _ e4 in
                          recorded w.db w.log v4 (ap (λ (v : World). v.db) same4 ∙ s3) named
                            (subst (λ (v : World). LooksLikeExt4 host src v.log) same0 p1.0)
                            (ap (λ (d : Db). find_name name d.images) (sym s2)
                              ∙ find-ok host name v2 found v3 e3
                              ∙ free))
                        (λ _ v4 e4. Keeps-at (unregistered-Keeps name found) e4 ∙ s3))
                    (λ _ v3 e3. Keeps-at (get_by_name-Keeps host name) e3 ∙ s2))
                (λ _ _ s. s))
            (λ _ v1 p1. p1.1 ∙ ap (λ (v : World). v.db) same0))
        (λ _ v0 e0. Keeps-at (flag_given-Keeps (codes "--name") name) e0)).ends
