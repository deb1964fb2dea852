-- ===== src/Cmd/Images/Ext4.antt =====
-- checkExt4 (cmd/image.go).
pub mod Checked
use firecracker_lab.Prelude.{
  Text, codes, ℕ, ◌+◌, ◌*◌, [], ◌∷◌, ◌++◌, ◌==◌, nat_eq, ltb, if◌then◌else◌,
}
use firecracker_lab.World.{
  open_file, stat, read_at, close, Host, message, Action, ⊤, pure, raise, gets, call, ask, wrapping,
  deferring, ◌>>=◌, ◌>>◌,
}

abbrev pub magic : ℕ
magic = 0xEF53

abbrev pub magic_offset : ℕ
magic_offset = 1024 + 56

abbrev pub smallest : ℕ
smallest = 1024 + 64

-- `binary.LittleEndian.Uint16` of a buffer of two bytes that was zero before the read.
unfoldable pub little_endian : Text → ℕ
little_endian [] = 0
little_endian (a ∷ []) = a
little_endian (a ∷ b ∷ rest) = a + b * 256

module _ (host : Host) where
  -- The tests of the opened file.
  unfoldable pub check_superblock : Text → Action ⊤
  unfolding little_endian
  check_superblock path = do
    folder ← gets (λ w. host.is_dir w.log (stat path))
    size ← gets (λ w. host.size w.log (stat path))
    call host (stat path)
    if folder then raise (message (path ++ codes " is a directory, not a file")) else pure tt
    if ltb size smallest
        then raise (message (path ++ codes " is too small to be a valid ext4 image"))
        else pure tt
    buf ← wrapping (codes "read superblock") (ask host (read_at path magic_offset 2))
    if little_endian buf == magic
        then pure tt
        else raise (message (path ++ codes " does not look like an ext2/3/4 image"))

  unfoldable pub check_ext4 : Text → Action ⊤
  check_ext4 path = do
    wrapping (codes "open " ++ path) (call host (open_file path))
    deferring (call host (close path)) (check_superblock path)
