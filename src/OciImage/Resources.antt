-- ===== src/OciImage/Resources.antt =====
-- What a history of calls has left on the host: temporary directories and mounts.
use firecracker_lab.Prelude.{
  Text, codes, arith, List, [], ◌∷◌, ◌++◌, ◌==◌, text_eq, ◌≡◌, refl, ◌∙◌, ap, if◌then◌else◌,
}
use firecracker_lab.Prelude.Lists.{All}
use firecracker_lab.World.{Call, History, Host, exec, exec_input, remove_all, mkdir_temp, sql}
use firecracker_lab.World.Emits.{Grows}

-- Without the first occurrence of a path.
unfoldable pub drop_first : Text → List Text → List Text
drop_first p [] = []
drop_first p (q ∷ qs) = let rest = drop_first p qs in if q == p then qs else q ∷ rest

-- The directories that `os.MkdirTemp` has made and `os.RemoveAll` has not removed, the latest first.
unfoldable pub temp_dirs : Host → History → List Text
temp_dirs host [] = []
temp_dirs host (mkdir_temp p ∷ h) =
    let rest = temp_dirs host h in
    if host.fails h (mkdir_temp p) then rest else host.output h (mkdir_temp p) ∷ rest
temp_dirs host (remove_all p ∷ h) =
    let rest = temp_dirs host h in if host.fails h (remove_all p) then rest else drop_first p rest
temp_dirs host (c ∷ h) = temp_dirs host h

-- What a command that succeeds does to the mounts.
unfoldable pub mounted_by : List Text → List Text → List Text
mounted_by (program ∷ root ∷ []) mounts =
    if program == codes "umount" then drop_first root mounts else mounts
mounted_by (program ∷ flag ∷ kind ∷ image ∷ root ∷ []) mounts =
    if program == codes "mount" then root ∷ mounts else mounts
mounted_by args mounts = mounts

-- The directories on which an image is mounted, the latest first.
unfoldable pub mounts : Host → History → List Text
mounts host [] = []
mounts host (exec args ∷ h) =
    let rest = mounts host h in if host.fails h (exec args) then rest else mounted_by args rest
mounts host (c ∷ h) = mounts host h

-- A call that neither makes a temporary directory nor removes a tree.
abbrev pub IsTempFree : Call → Type 0
IsTempFree (mkdir_temp p) = ⊥
IsTempFree (remove_all p) = ⊥
IsTempFree c = Unit

-- A call that runs no command.
abbrev pub IsCommandFree : Call → Type 0
IsCommandFree (exec args) = ⊥
IsCommandFree (exec_input args s) = ⊥
IsCommandFree c = Unit

temp_dirs_free :
    (host : Host) (added h : History)
    → All IsTempFree added
    → temp_dirs host (added ++ h) ≡ temp_dirs host h
unfolding temp_dirs
temp_dirs_free host [] h all = refl
temp_dirs_free host (mkdir_temp p ∷ added) h (free, all) = absurd free
temp_dirs_free host (remove_all p ∷ added) h (free, all) = absurd free
temp_dirs_free host (sql x ∷ added) h (free, all) = temp_dirs_free host added h all
temp_dirs_free host (c ∷ added) h (free, all) = temp_dirs_free host added h all

mounts_free :
    (host : Host) (added h : History)
    → All IsCommandFree added
    → mounts host (added ++ h) ≡ mounts host h
unfolding mounts
mounts_free host [] h all = refl
mounts_free host (exec args ∷ added) h (free, all) = absurd free
mounts_free host (exec_input args s ∷ added) h (free, all) = absurd free
mounts_free host (sql x ∷ added) h (free, all) = mounts_free host added h all
mounts_free host (c ∷ added) h (free, all) = mounts_free host added h all

pub temp_dirs-Grows :
    (host : Host) (h h' : History) → Grows IsTempFree h h' → temp_dirs host h' ≡ temp_dirs host h
temp_dirs-Grows host h h' g = ap (temp_dirs host) g.log_eq ∙ temp_dirs_free host g.added h g.allowed

pub mounts-Grows :
    (host : Host) (h h' : History) → Grows IsCommandFree h h' → mounts host h' ≡ mounts host h
mounts-Grows host h h' g = ap (mounts host) g.log_eq ∙ mounts_free host g.added h g.allowed

pub drop_first_head : (p : Text) (ps : List Text) → drop_first p (p ∷ ps) ≡ ps
unfolding drop_first
drop_first_head p ps = ground arith
