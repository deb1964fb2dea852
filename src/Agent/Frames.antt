-- ===== src/Agent/Frames.antt =====
-- A frame that was written is read back.
use mathlib.Core.Path.{subst}
use firecracker_lab.Prelude.{Text, ℕ, ◌%◌, ◌^◌, ◌<◌, ◌≡◌, refl, ap, some, [], ◌∷◌, ◌++◌, arith}
use firecracker_lab.Prelude.Lists.{length, take, drop, length-append}
use firecracker_lab.World.{ok}
use firecracker_lab.Agent.{put_uint32, uint32_of, read_full, read_frame}

-- The four bytes of a 32-bit number spell it.
pub uint32_of-put_uint32 : (n : ℕ) → n < 2 ^ 32 → uint32_of (put_uint32 n) ≡ n
unfolding uint32_of put_uint32
uint32_of-put_uint32 n h = omega arith

take-append : (s t : Text) → take (length s) (s ++ t) ≡ s
take-append [] t = refl
take-append (c ∷ s) t = ap (λ (r : Text). c ∷ r) (take-append s t)

drop-append : (s t : Text) → drop (length s) (s ++ t) ≡ t
drop-append [] t = refl
drop-append (c ∷ s) t = drop-append s t

pub read_full-append : (s t : Text) → read_full (length s) (s ++ t) ≡ some (s, t)
unfolding read_full
read_full-append s t = rw (take-append, drop-append) (ground (arith, length-append s t))

length-put_uint32 : (n : ℕ) → length (put_uint32 n) ≡ 4
unfolding put_uint32
length-put_uint32 n = refl

pub read_prefix : (n : ℕ) (s : Text) → read_full 4 (put_uint32 n ++ s) ≡ some (put_uint32 n, s)
read_prefix n s =
    subst (λ k. read_full k (put_uint32 n ++ s) ≡ some (put_uint32 n, s)) (length-put_uint32 n)
      (read_full-append (put_uint32 n) s)

-- The length prefix that `writeFramed` computes for a message of fewer than 2^32 bytes, and the
-- message, are read as that message, whatever follows.
pub read_frame-put_uint32 :
    (body rest : Text)
    → length body < 2 ^ 32
    → read_frame (put_uint32 (length body % 2 ^ 32) ++ (body ++ rest)) ≡ ok body
unfolding read_frame
read_frame-put_uint32 body rest h =
    rw
      (
        read_prefix (length body % 2 ^ 32) (body ++ rest),
        uint32_of-put_uint32 (length body % 2 ^ 32) (omega arith),
        size,
        read_full-append body rest,
      )
      refl
  where
    size : length body % 2 ^ 32 ≡ length body
    size = omega arith
