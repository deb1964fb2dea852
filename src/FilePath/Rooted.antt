-- ===== src/FilePath/Rooted.antt =====
-- A cleaned path that begins with a slash stays below the root: filepath.Clean("/" + p), by which
-- the guest agent is placed in a rootfs (ociimage/ociimage.go, ociimage/inject.go).
use mathlib.Core.List.{append-nil, append_assoc}
use firecracker_lab.Prelude.{
  ap, sym, ◌∙◌, text_dec, Text, true, List, [], ◌∷◌, ◌++◌, ◌==◌, nat_eq, text_eq, ◌≡◌, ◌≢◌, refl,
  ℕ_discrete, arith, inl, inr, Bool-cases,
}
use firecracker_lab.Prelude.Lists.{All, All-append}
use firecracker_lab.FilePath.{
  slash, dot, dot_dot, split_from, clean_step, clean_parts, reverse_onto, clean, join_slash, join,
}

-- A component that names an entry: it has no slash and is none of the empty text, `.` and `..`.
pub record IsName (p : Text) : Type 0 where
  pub non_empty : p ≢ []
  pub not_dot : p ≢ dot
  pub not_up : p ≢ dot_dot
  pub no_slash : All (λ c. c ≢ slash) p

split_from-All :
    (cur s : Text) → All (λ c. c ≢ slash) cur → All (λ p. All (λ c. c ≢ slash) p) (split_from cur s)
unfolding split_from
split_from-All cur [] h = (h, tt)
split_from-All cur (c ∷ s) h = elim (Bool-cases (c == slash)) [
  | inl e ↦ rw e (h, split_from-All [] s tt)
  | inr n ↦
      rw n (
        split_from-All (cur ++ c ∷ []) s
          (All-append (λ d. d ≢ slash) cur (c ∷ []) h (ground arith)))
]

clean_step-IsName :
    (seen : List Text) (p : Text)
    → All IsName seen
    → All (λ c. c ≢ slash) p
    → All IsName (clean_step true seen p)
unfolding clean_step
clean_step-IsName [] p h k = ground arith
clean_step-IsName (q ∷ seen) p h k = ground arith

clean_parts-IsName :
    (seen parts : List Text)
    → All IsName seen
    → All (λ p. All (λ c. c ≢ slash) p) parts
    → All IsName (clean_parts true seen parts)
unfolding clean_parts
clean_parts-IsName seen [] h k = h
clean_parts-IsName seen (p ∷ parts) h (k, ks) =
    clean_parts-IsName (clean_step true seen p) parts (clean_step-IsName seen p h k) ks

reverse_onto-IsName :
    (ps acc : List Text) → All IsName ps → All IsName acc → All IsName (reverse_onto ps acc)
unfolding reverse_onto
reverse_onto-IsName [] acc h k = k
reverse_onto-IsName (p ∷ ps) acc (h, hs) k = reverse_onto-IsName ps (p ∷ acc) hs (h, k)

-- `filepath.Clean("/" + s)` is a slash and names of entries with slashes between them: no `..`, no
-- `.` and no empty component is left, whatever s holds.
pub clean-IsName :
    (s : Text)
    → (names : List Text) × All IsName names × (clean (slash ∷ s) ≡ slash ∷ join_slash names)
unfolding clean
clean-IsName s =
    let parts = clean_parts true [] (split_from [] (slash ∷ s)) in
    (
      reverse_onto parts [],
      reverse_onto-IsName parts []
          (clean_parts-IsName [] (split_from [] (slash ∷ s)) tt (split_from-All [] (slash ∷ s) tt))
          tt,
      unfold ℕ_discrete in refl,
    )

split_from-append :
    (cur s t : Text) → split_from cur (s ++ slash ∷ t) ≡ split_from cur s ++ split_from [] t
unfolding split_from
split_from-append cur [] t = unfold ℕ_discrete in refl
split_from-append cur (c ∷ s) t = elim (Bool-cases (c == slash)) [
  | inl e ↦ rw (e, split_from-append [] s t) refl
  | inr n ↦ rw (n, split_from-append (cur ++ c ∷ []) s t) refl
]

clean_parts-append :
    (seen ps qs : List Text)
    → clean_parts true seen (ps ++ qs) ≡ clean_parts true (clean_parts true seen ps) qs
unfolding clean_parts
clean_parts-append seen [] qs = refl
clean_parts-append seen (p ∷ ps) qs = clean_parts-append (clean_step true seen p) ps qs

-- A component without a slash is read to its end.
split_from-no_slash : (cur s : Text) → All (λ c. c ≢ slash) s → split_from cur s ≡ (cur ++ s) ∷ []
unfolding split_from
split_from-no_slash cur [] h = ap (λ x. x ∷ []) (sym (append-nil cur))
split_from-no_slash cur (c ∷ s) (n, h) = elim (Bool-cases (c == slash)) [
  | inl e ↦ absurd (n (ground (arith, e)))
  | inr m ↦
      rw (m, split_from-no_slash (cur ++ c ∷ []) s h)
        (ap (λ x. x ∷ []) (append_assoc cur (c ∷ []) s))
]

-- A name goes in front of the components that were read before.
named_step : (seen : List Text) (p : Text) → IsName p → clean_step true seen p ≡ p ∷ seen
unfolding clean_step
named_step seen p h = ground (arith, h.non_empty, h.not_dot, h.not_up)

clean_parts-names :
    (seen names : List Text)
    → All IsName names
    → clean_parts true seen (split_from [] (join_slash names)) ≡ reverse_onto names seen
unfolding clean_parts split_from join_slash reverse_onto
clean_parts-names seen [] h = unfold text_dec in refl
clean_parts-names seen (p ∷ []) (h, hs) =
    rw (split_from-no_slash [] p h.no_slash) (named_step seen p h)
clean_parts-names seen (p ∷ q ∷ ps) (h, hs) =
    let rest = split_from [] (join_slash (q ∷ ps)) in
    ap (clean_parts true seen) (
      split_from-append [] p (join_slash (q ∷ ps))
      ∙ ap (λ (xs : List Text). xs ++ rest) (split_from-no_slash [] p h.no_slash))
    ∙ ap (λ (x : List Text). clean_parts true x rest) (named_step seen p h)
    ∙ clean_parts-names (p ∷ seen) (q ∷ ps) hs

reverse_onto-append :
    (xs ys acc : List Text) → reverse_onto (reverse_onto xs ys) acc ≡ reverse_onto ys (xs ++ acc)
unfolding reverse_onto
reverse_onto-append [] ys acc = refl
reverse_onto-append (x ∷ xs) ys acc = reverse_onto-append xs (x ∷ ys) acc

reverse_onto-acc : (ys acc : List Text) → reverse_onto ys acc ≡ reverse_onto ys [] ++ acc
unfolding reverse_onto
reverse_onto-acc [] acc = refl
reverse_onto-acc (y ∷ ys) acc =
    reverse_onto-acc ys (y ∷ acc)
    ∙ sym (append_assoc (reverse_onto ys []) (y ∷ []) acc)
    ∙ ap (λ xs. xs ++ acc) (sym (reverse_onto-acc ys (y ∷ [])))

-- The components of a rooted path, the last one first.
seen_in : Text → List Text
seen_in s = clean_parts true [] (split_from [] (slash ∷ s))

clean-seen_in : (s : Text) → clean (slash ∷ s) ≡ slash ∷ join_slash (reverse_onto (seen_in s) [])
unfolding clean seen_in
clean-seen_in s = unfold ℕ_discrete in refl

-- The empty component in front of a slash is dropped.
skip_empty :
    (seen : List Text) (t : Text)
    → clean_parts true seen (split_from [] (slash ∷ t)) ≡ clean_parts true seen (split_from [] t)
unfolding clean_parts split_from clean_step
skip_empty seen t = unfold ℕ_discrete text_dec in refl

seen_in-append :
    (r t : Text) → seen_in (r ++ slash ∷ slash ∷ t) ≡ clean_parts true (seen_in r) (split_from [] t)
unfolding seen_in
seen_in-append r t =
    ap (clean_parts true []) (split_from-append [] (slash ∷ r) (slash ∷ t))
    ∙ clean_parts-append [] (split_from [] (slash ∷ r)) (split_from [] (slash ∷ t))
    ∙ skip_empty (seen_in r) t

-- Names behind a rooted path are the components behind those of the path.
clean-names :
    (r : Text) (names : List Text)
    → All IsName names
    → clean (slash ∷ (r ++ slash ∷ slash ∷ join_slash names))
      ≡ slash ∷ join_slash (reverse_onto (seen_in r) [] ++ names)
clean-names r names h =
    clean-seen_in (r ++ slash ∷ slash ∷ join_slash names)
    ∙ ap (λ ps. slash ∷ join_slash (reverse_onto ps []))
        (seen_in-append r (join_slash names) ∙ clean_parts-names (seen_in r) names h)
    ∙ ap (λ ps. slash ∷ join_slash ps)
        (reverse_onto-append names (seen_in r) []
          ∙ reverse_onto-acc (seen_in r) (names ++ [])
          ∙ ap (λ ns. reverse_onto (seen_in r) [] ++ ns) (append-nil names))

-- `filepath.Join(root, filepath.Clean("/" + s))` of a rooted path is the path of root, with names
-- of entries behind it.
pub join-clean :
    (r s : Text)
    → (dirs : List Text) × (names : List Text) × All IsName names
      × (clean (slash ∷ r) ≡ slash ∷ join_slash dirs)
      × (join ((slash ∷ r) ∷ clean (slash ∷ s) ∷ []) ≡ slash ∷ join_slash (dirs ++ names))
join-clean r s =
    let (names, h, e) = clean-IsName s in
    (
      reverse_onto (seen_in r) [],
      names,
      h,
      clean-seen_in r,
      unfold join join_slash in rw e (clean-names r names h),
    )
