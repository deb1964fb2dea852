-- ===== src/Cmd/Images/Ext4/Checked.antt =====
-- What checkExt4 (cmd/image.go) has seen of a file that passes it.
use firecracker_lab.Prelude.{
  Text, ℕ, zero, suc, ◌+◌, ◌*◌, [], ◌∙◌, ◌≡◌, ◌≤◌, refl, false, ◌∷◌, ◌==◌, nat_eq, ltb, inl, inr,
  arith, Bool-cases,
}
use firecracker_lab.World.{
  History, open_file, stat, read_at, close, Host, Result, ok, err, World, Action, ⊤, call, ask,
  after_all, logged,
}
use firecracker_lab.World.Keeps.{Keeps, keeping}
use firecracker_lab.Cmd.Images.Ext4.{
  check_ext4, check_superblock, little_endian, magic, magic_offset, smallest,
}

-- The byte at an index of a buffer, and zero behind its end.
abbrev byte_at : ℕ → Text → ℕ
byte_at n [] = 0
byte_at zero (b ∷ s) = b
byte_at (suc n) (b ∷ s) = byte_at n s

-- The number in the first two bytes, the low one first.
abbrev pub uint16_le : Text → ℕ
uint16_le s = byte_at 0 s + 256 * byte_at 1 s

little_endian-uint16_le : (s : Text) → uint16_le s ≡ little_endian s
unfolding little_endian
little_endian-uint16_le [] = refl
little_endian-uint16_le (a ∷ []) = omega arith
little_endian-uint16_le (a ∷ b ∷ s) = omega arith

-- What the host says, at history `h`, of a file that passes the check: it is no directory, it has
-- the 1024 bytes in front of the superblock and 64 more, and in the two bytes at 56 of the
-- superblock it has the number 0xef53, as the layout of ext4 asks.
pub record LooksLikeExt4 (host : Host) (path : Text) (h : History) : Type 0 where
  pub no_folder : host.is_dir (open_file path ∷ h) (stat path) ≡ false
  pub large : 1024 + 64 ≤ host.size (open_file path ∷ h) (stat path)
  pub has_magic :
      uint16_le (host.output (stat path ∷ open_file path ∷ h) (read_at path (1024 + 56) 2)) ≡ 0xEF53

module _ (host : Host) (path : Text) where
  abbrev pub Passed : History → Result ⊤ × World → Type 0
  Passed h (ok a, w) = LooksLikeExt4 host path h
  Passed h (err e, w) = Unit

  check_superblock-Passed :
      (h : History) (w : World)
      → w.log ≡ open_file path ∷ h
      → Passed h (check_superblock host path w)
  unfolding check_superblock call ask
  check_superblock-Passed h w at =
      rw at (elim (Bool-cases (host.fails (open_file path ∷ h) (stat path))) [
        | inl f ↦ rw f tt
        | inr f ↦ rw f (elim (Bool-cases (host.is_dir (open_file path ∷ h) (stat path))) [
          | inl d ↦ rw d tt
          | inr d ↦
              rw d (elim (Bool-cases (ltb (host.size (open_file path ∷ h) (stat path)) smallest)) [
                | inl s ↦ rw s tt
                | inr s ↦
                    rw s
                      (elim (Bool-cases (
                        host.fails (stat path ∷ open_file path ∷ h)
                          (read_at path magic_offset 2))) [
                            | inl r ↦ rw r tt
                            | inr r ↦
                                rw r
                                  (elim (Bool-cases (
                                    little_endian (
                                      host.output (stat path ∷ open_file path ∷ h)
                                        (read_at path magic_offset 2))
                                    == magic)) [
                                      | inl m ↦ rw m (record {
                                        no_folder = d;
                                        large = ground (arith, s);
                                        has_magic =
                                            little_endian-uint16_le (
                                              host.output (stat path ∷ open_file path ∷ h)
                                                (read_at path magic_offset 2))
                                            ∙ ground (arith, m);
                                      })
                                      | inr m ↦ rw m tt
                                    ])
                          ])
              ])
        ])
      ])

  after_all-Passed :
      (h : History) (cleanup : Action ⊤) (o : Result ⊤ × World)
      → Passed h o
      → Passed h (after_all cleanup o)
  after_all-Passed h cleanup (ok a, w) p = p
  after_all-Passed h cleanup (err e, w) p = p

  -- A file that passes the check looks like an ext4 image.
  pub check_ext4-Passed : (w : World) → Passed w.log (check_ext4 host path w)
  unfolding check_ext4 call
  check_ext4-Passed w = elim (Bool-cases (host.fails w.log (open_file path))) [
    | inl f ↦ rw f tt
    | inr f ↦ rw f (
        after_all-Passed w.log (call host (close path)) _
          (check_superblock-Passed w.log (logged (open_file path) w) refl))
  ]

module _ (host : Host) where
  check_superblock-Keeps : (path : Text) → Keeps (check_superblock host path)
  unfolding check_superblock
  check_superblock-Keeps path = search keeping depth 14

  pub check_ext4-Keeps : (path : Text) → Keeps (check_ext4 host path)
  unfolding check_ext4
  check_ext4-Keeps path = search (keeping, check_superblock-Keeps) depth 14
