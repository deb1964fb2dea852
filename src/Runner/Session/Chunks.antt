-- ===== src/Runner/Session/Chunks.antt =====
-- That a session passes on the same bytes however they arrive.
use mathlib.Core.Path.{subst}
use firecracker_lab.Prelude.{
  Text, ℕ, ◌≡◌, ◌≢◌, refl, sym, ◌∙◌, ap, true, false, inl, inr, Bool-cases, ◌==◌, List, [], ◌∷◌,
  ◌++◌, nat_eq, arith,
}
use firecracker_lab.Prelude.Lists.{All}
use firecracker_lab.Runner.Session.{Passed, read, pass_on, joined, copied}

-- The bytes of the chunks, one after the other.
abbrev pub concat : List Text → Text
concat [] = []
concat (chunk ∷ chunks) = chunk ++ concat chunks

read-append : (s t : Text) → read (s ++ t) ≡ joined (read s) (read t)
unfolding read joined pass_on
read-append [] t = refl
read-append (c ∷ s) t = ground (arith, read-append s t)

-- As one Read that gets all the bytes at once.
copied-read : (chunks : List Text) → copied chunks ≡ read (concat chunks)
unfolding copied
copied-read [] = unfold read in refl
copied-read (chunk ∷ chunks) =
    ap (joined (read chunk)) (copied-read chunks) ∙ sym (read-append chunk (concat chunks))

-- What a session has to do with the typed bytes: if no ctrl+], 29, is among them it passes all of
-- them on and stays; otherwise it passes on those before the first one, and detaches.
pub data Detaches : Text → Passed → Type 0 where
  stays :
      {typed : Text}
      → All (λ c. c ≢ 29) typed
      → Detaches typed (record { bytes = typed; detached = false })
  leaves :
      (before behind : Text)
      → All (λ c. c ≢ 29) before
      → Detaches (before ++ 29 ∷ behind) (record { bytes = before; detached = true })

one_more : (c : ℕ) (s : Text) (p : Passed) → c ≢ 29 → Detaches s p → Detaches (c ∷ s) (pass_on c p)
unfolding pass_on
one_more c s _ n (stays h) = Detaches.stays (n, h)
one_more c s _ n (leaves before behind h) = Detaches.leaves (c ∷ before) behind (n, h)

read-Detaches : (s : Text) → Detaches s (read s)
unfolding read
read-Detaches [] = Detaches.stays tt
read-Detaches (c ∷ s) = elim (Bool-cases (c == 29)) [
  | inl e ↦ rw e (
      subst (λ d. Detaches (d ∷ s) (record { bytes = []; detached = true }))
        (sym (ground (arith, e))) (Detaches.leaves [] s tt))
  | inr n ↦ rw n (one_more c s (read s) (ground (arith, n)) (read-Detaches s))
]

-- However the typed bytes arrive in chunks, the session passes on those before the first ctrl+],
-- and detaches, if there is one; and otherwise it passes on all of them and does not detach.
pub copied-Detaches : (chunks : List Text) → Detaches (concat chunks) (copied chunks)
copied-Detaches chunks = rw copied-read (read-Detaches (concat chunks))
