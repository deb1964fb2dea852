-- ===== src/Runner/Lifecycle/Saved.antt =====
-- That Snapshot (vm/vm.go) tears a VM down only when its files have been copied out.
use firecracker_lab.Prelude.{
  Text, codes, ◌≡◌, refl, ◌⊎◌, inl, inr, false, List, [], ◌∷◌, ◌++◌, Bool-cases,
}
use firecracker_lab.Prelude.Lists.{All}
use firecracker_lab.Agent.{Codec}
use firecracker_lab.FilePath.{join}
use firecracker_lab.State.Vms.{Vm}
use firecracker_lab.World.{
  Call, Json, History, exec, http, mkdir_all, Host, Error, Result, ok, err, World, Action, ⊤, call,
  for_each, continue, wrap_outcome, wrapping,
}
use firecracker_lab.World.Emits.{Emits, Grows, emitting, for_each-Emits, wrapping-Emits, call-Emits}
use firecracker_lab.Runner.{Runner, socket_path}
use firecracker_lab.Runner.Api.{api_put, api_patch, api_request, pause_body, create_body}
use firecracker_lab.Runner.Chroot.{snapshot_files, in_root, copy_args, copy_out, reflink_copy}
use firecracker_lab.Runner.Lifecycle.{save, tear_down, snapshot}

-- The call was made, and it did not fail.
abbrev pub Succeeded : Host → Call → History → Type 0
Succeeded host c [] = ⊥
Succeeded host c (d ∷ h) = ((d ≡ c) × (host.fails h c ≡ false)) ⊎ Succeeded host c h

-- What copies a file of the snapshot out of the chroot.
abbrev pub copy_of : Runner → Text → Text → Text → Call
copy_of r id dir name = exec (copy_args (in_root r id name) (join (dir ∷ name ∷ [])))

-- The calls of saving: requests to the socket of the VM, the directory, and the copies.
abbrev pub IsSaving : Runner → Vm → Text → Call → Type 0
IsSaving r vm dir (http sock method path body) = sock ≡ socket_path r vm.id
IsSaving r vm dir (mkdir_all path) = path ≡ dir
IsSaving r vm dir (exec args) =
    (name : Text) × (args ≡ copy_args (in_root r vm.id name) (join (dir ∷ name ∷ [])))
IsSaving r vm dir c = ⊥

Succeeded-append :
    (host : Host) (c : Call) (k h : History) → Succeeded host c h → Succeeded host c (k ++ h)
Succeeded-append host c [] h s = s
Succeeded-append host c (d ∷ k) h s = inr (Succeeded-append host c k h s)

Succeeded-Grows :
    {P : Call → Type 0} (host : Host) (c : Call) (h h' : History)
    → Grows P h h'
    → Succeeded host c h
    → Succeeded host c h'
Succeeded-Grows host c h h' g s = rw g.log_eq (Succeeded-append host c g.added h s)

-- If it succeeded, then P of the history behind it.
OnOk : {A : Type 0} → (History → Type 0) → Result A × World → Type 0
OnOk P (ok a, w) = P w.log
OnOk P (err e, w) = Unit

call-Succeeded : (host : Host) (c : Call) (w : World) → OnOk (Succeeded host c) (call host c w)
unfolding call OnOk
call-Succeeded host c w = elim (Bool-cases (host.fails w.log c)) [
  | inl failed ↦ rw failed tt
  | inr fine ↦ rw fine (inl (refl, fine))
]

wrap-OnOk :
    {A : Type 0} (P : History → Type 0) (t : Text) (o : Result A × World)
    → OnOk P o
    → OnOk P (wrap_outcome t o)
unfolding OnOk
wrap-OnOk P t (ok a, w) h = h
wrap-OnOk P t (err e, w) h = h

bind-OnOk :
    {A B : Type 0} (P : History → Type 0) (f : A → Action B) (o : Result A × World)
    → ((a : A) (w : World) → OnOk P (f a w))
    → OnOk P (continue f o)
unfolding OnOk
bind-OnOk P f (ok a, w) h = h a w
bind-OnOk P f (err e, w) h = tt

module _ {A : Type 0} (host : Host) (P : Call → Type 0) (c : A → Call) (f : A → Action ⊤) where
  abbrev AllMade : List A → History → Type 0
  AllMade xs h = All (λ x. Succeeded host (c x) h) xs

  both_made :
      (x : A) (xs : List A) (h : History) (o : Result ⊤ × World)
      → Succeeded host (c x) h
      → Grows P h o.1.log
      → OnOk (AllMade xs) o
      → OnOk (AllMade (x ∷ xs)) o
  unfolding OnOk
  both_made x xs h (ok a, w) s g k = (Succeeded-Grows host (c x) h w.log g s, k)
  both_made x xs h (err e, w) s g k = tt

  module _ (emits : (x : A) → Emits P (f x))
      (made : (x : A) (w : World) → OnOk (Succeeded host (c x)) (f x w)) where
    then_made :
        (x : A) (xs : List A) (o : Result ⊤ × World)
        → ((w : World) → OnOk (AllMade xs) (for_each xs f w))
        → OnOk (Succeeded host (c x)) o
        → OnOk (AllMade (x ∷ xs)) (continue (λ _. for_each xs f) o)
    unfolding OnOk
    then_made x xs (ok a, w) rest s =
        both_made x xs w.log (for_each xs f w) s ((for_each-Emits xs f emits).grows w) (rest w)
    then_made x xs (err e, w) rest s = tt

    -- A loop that succeeds has made the calls of all its rounds.
    for_each-AllMade : (xs : List A) (w : World) → OnOk (AllMade xs) (for_each xs f w)
    unfolding for_each
    for_each-AllMade [] w = unfold OnOk in tt
    for_each-AllMade (x ∷ xs) w = then_made x xs (f x w) (for_each-AllMade xs) (made x w)

module _ (host : Host) (codec : Codec) (r : Runner) (vm : Vm) (dir : Text) where
  copy_out-Emits : (name : Text) → Emits (IsSaving r vm dir) (copy_out host r vm.id dir name)
  unfolding copy_out reflink_copy
  copy_out-Emits name =
      wrapping-Emits _ _
        (wrapping-Emits _ _ (call-Emits host (copy_of r vm.id dir name) (name, refl)))

  copy_out-made :
      (name : Text) (w : World)
      → OnOk (Succeeded host (copy_of r vm.id dir name)) (copy_out host r vm.id dir name w)
  unfolding copy_out reflink_copy
  copy_out-made name w =
      wrap-OnOk _ _ _ (wrap-OnOk _ _ _ (call-Succeeded host (copy_of r vm.id dir name) w))

  api-Emits :
      (method path : Text) (body : Json)
      → Emits (IsSaving r vm dir) (api_request host (socket_path r vm.id) method path body)
  unfolding api_request
  api-Emits method path body = search emitting depth 10

  save-Emits : Emits (IsSaving r vm dir) (save host codec r vm dir)
  unfolding save api_put api_patch
  save-Emits = search (emitting, api-Emits, copy_out-Emits) depth 16

  save-made :
      (w : World)
      → OnOk
          (λ h. All (λ name. Succeeded host (copy_of r vm.id dir name) h) snapshot_files)
          (save host codec r vm dir w)
  unfolding save
  save-made w =
      bind-OnOk {A = ⊤} _ _ (api_patch host (socket_path r vm.id) (codes "/vm") pause_body w)
        λ _ w1.
          bind-OnOk {A = ⊤} _ _
            (api_put host (socket_path r vm.id) (codes "/snapshot/create") create_body w1)
            λ _ w2.
              bind-OnOk {A = ⊤} _ _
                (wrapping (codes "mkdir snapshot dir") (call host (mkdir_all dir)) w2)
                λ _ w3.
                  for_each-AllMade host (IsSaving r vm dir) (copy_of r vm.id dir)
                    (copy_out host r vm.id dir) copy_out-Emits copy_out-made snapshot_files w3

  -- How a snapshot has gone from w, if it is `o`: by calls that only save, to a world x, and there it
  -- has ended with an error, or has copied every file and then torn the VM down.
  abbrev pub SavedFirst : World → Result ⊤ × World → Type 0
  SavedFirst w o =
      (x : World) × Grows (IsSaving r vm dir) w.log x.log
      × (((e : Error) × (o ≡ (err e, x)))
          ⊎ (All (λ name. Succeeded host (copy_of r vm.id dir name) x.log) snapshot_files
              × (o ≡ tear_down host codec r vm x)))

  saved_first :
      (w : World) (o : Result ⊤ × World)
      → Grows (IsSaving r vm dir) w.log o.1.log
      → OnOk (λ h. All (λ name. Succeeded host (copy_of r vm.id dir name) h) snapshot_files) o
      → SavedFirst w (continue (λ _. tear_down host codec r vm) o)
  unfolding OnOk
  saved_first w (ok _, x) g made = (x, g, inr (made, refl))
  saved_first w (err e, x) g made = (x, g, inl (e, refl))

  -- A snapshot tears the VM down only after every file of it has been copied out without an error:
  -- until then, and in all if it fails before, it has only made requests to the socket of the VM,
  -- made the directory of the snapshot and copied files to it.
  pub snapshot-SavedFirst : (w : World) → SavedFirst w (snapshot host codec r vm dir w)
  unfolding snapshot
  snapshot-SavedFirst w =
      saved_first w (save host codec r vm dir w) (save-Emits.grows w) (save-made w)
