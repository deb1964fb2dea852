-- ===== src/State/Images.antt =====
-- The images table (state/state.go: InsertImage, GetImage, GetImageByName, scanImage, DeleteImage,
-- ListImages). A nil image, when there is no such row, is `none`.
use firecracker_lab.Prelude.{
  Text, codes, ℕ, Bool, false, ◌||◌, Option, none, some, List, [], ◌∷◌, ◌++◌, ◌==◌, text_eq,
  if◌then◌else◌,
}
use firecracker_lab.World.{
  sql, Host, Error, message, Action, ⊤, pure, raise, gets, set_db, call, ◌>>=◌, ◌>>◌,
}
use firecracker_lab.World.{insert_image, select_image, select_image_name, delete_image, list_images}
use firecracker_lab.World.Rows.{Image}

-- `SELECT ... FROM images WHERE name = ?`
unfoldable pub find_name : Text → List Image → Option Image
find_name name [] = none
find_name name (r ∷ rows) = if r.name == name then some r else find_name name rows

-- `SELECT ... FROM images WHERE id = ?`
unfoldable pub find_id : Text → List Image → Option Image
find_id id [] = none
find_id id (r ∷ rows) = if r.id == id then some r else find_id id rows

-- `DELETE FROM images WHERE id = ?`
unfoldable pub delete_id : Text → List Image → List Image
delete_id id [] = []
delete_id id (r ∷ rows) = let rest = delete_id id rows in if r.id == id then rest else r ∷ rest

-- The primary key and the UNIQUE constraint of the table.
unfoldable pub clashes : Image → List Image → Bool
clashes v [] = false
clashes v (r ∷ rows) = (r.id == v.id || r.name == v.name) || clashes v rows

unique_error : Text → Error
unique_error name = message (codes "UNIQUE constraint failed: " ++ name)

module _ (host : Host) where
  unfoldable pub insert : Text → Text → ℕ → Action Image
  unfolding unique_error
  insert name path size_bytes = do
    id ← gets (λ w. host.uuid w.log)
    let img : Image = record { id = id; name = name; path = path; size_bytes = size_bytes }
    call host (sql (insert_image name))
    db ← gets (λ w. w.db)
    if clashes img db.images
        then raise (unique_error name)
        else (set_db (record db { images = db.images ++ img ∷ [] }) >> pure img)

  unfoldable pub get : Text → Action (Option Image)
  get id = do call host (sql (select_image id)); gets (λ w. find_id id w.db.images)

  unfoldable pub get_by_name : Text → Action (Option Image)
  get_by_name name = do
    call host (sql (select_image_name name))
    gets (λ w. find_name name w.db.images)

  unfoldable pub delete : Text → Action ⊤
  delete id = do
    call host (sql (delete_image id))
    db ← gets (λ w. w.db)
    set_db (record db { images = delete_id id db.images })

  unfoldable pub list : Action (List Image)
  list = do call host (sql list_images); gets (λ w. w.db.images)
