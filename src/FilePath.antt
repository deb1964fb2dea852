-- ===== src/FilePath.antt =====
-- path/filepath as the program uses it on Linux: Join, Base and Clean.
pub mod Rooted
use firecracker_lab.Prelude.{
  Text, codes, ℕ, Bool, true, false, Option, none, some, List, [], ◌∷◌, ◌++◌, ◌==◌, nat_eq, text_eq,
  if◌then◌else◌, ◌≡◌, refl, text_dec, ℕ_discrete,
}

abbrev pub slash : ℕ
slash = b'/'

-- `strings.Split(s, "/")`, with the component that is being read.
pub split_from : Text → Text → List Text
split_from cur [] = cur ∷ []
split_from cur (c ∷ s) =
    let rest = split_from (if c == slash then [] else cur ++ c ∷ []) s in
    if c == slash then cur ∷ rest else rest

-- `strings.Join(parts, "/")`
unfoldable pub join_slash : List Text → Text
join_slash [] = []
join_slash (p ∷ []) = p
join_slash (p ∷ q ∷ ps) = p ++ (slash ∷ join_slash (q ∷ ps))

abbrev pub dot : Text
dot = codes "."

abbrev pub dot_dot : Text
dot_dot = codes ".."

-- `..` takes the last component away; at the root it is dropped, and elsewhere it is kept. The
-- components so far are in reverse order.
step_up : Bool → List Text → List Text
step_up true [] = []
step_up false [] = dot_dot ∷ []
step_up rooted (p ∷ ps) = if p == dot_dot then dot_dot ∷ p ∷ ps else ps

pub clean_step : Bool → List Text → Text → List Text
unfolding step_up
clean_step rooted seen part =
    if part == []
    then seen
    else if part == dot
    then seen
    else if part == dot_dot
    then step_up rooted seen
    else part ∷ seen

pub clean_parts : Bool → List Text → List Text → List Text
unfolding clean_step
clean_parts rooted seen [] = seen
clean_parts rooted seen (p ∷ ps) = clean_parts rooted (clean_step rooted seen p) ps

unfoldable pub reverse_onto : List Text → List Text → List Text
reverse_onto [] acc = acc
reverse_onto (p ∷ ps) acc = reverse_onto ps (p ∷ acc)

pub is_rooted : Text → Bool
is_rooted [] = false
is_rooted (c ∷ s) = c == slash

or_dot : Text → Text
or_dot [] = dot
or_dot (c ∷ s) = c ∷ s

-- `filepath.Clean`
unfoldable pub clean : Text → Text
unfolding split_from clean_parts join_slash reverse_onto is_rooted or_dot
clean s =
    let rooted = is_rooted s in
    let path = join_slash (reverse_onto (clean_parts rooted [] (split_from [] s)) []) in
    if rooted then slash ∷ path else or_dot path

-- `filepath.Join`: empty parts at the front are dropped.
unfoldable pub join : List Text → Text
unfolding clean
join [] = []
join ([] ∷ ps) = join ps
join ((c ∷ s) ∷ ps) = clean (join_slash ((c ∷ s) ∷ ps))

-- Up to the last slash, with it.
upto_slash : Text → Text
upto_slash [] = []
upto_slash (c ∷ s) = elim (upto_slash s) [
  | [] ↦ if c == slash then c ∷ [] else []
  | d ∷ rest ↦ c ∷ d ∷ rest
]

-- `filepath.Dir`
unfoldable pub dir : Text → Text
unfolding upto_slash
dir s = clean (upto_slash s)

last_part : Text → List Text → Text
last_part found [] = found
last_part found ([] ∷ ps) = last_part found ps
last_part found ((c ∷ s) ∷ ps) = last_part (c ∷ s) ps

base_of : Bool → Text → Text
base_of true [] = slash ∷ []
base_of false [] = dot
base_of rooted (c ∷ s) = c ∷ s

-- `filepath.Base`
unfoldable pub base : Text → Text
unfolding last_part split_from base_of is_rooted
base s = base_of (is_rooted s) (last_part [] (split_from [] s))

test_clean :
    (clean (codes "/../a/./b//c/../d/") ≡ codes "/a/b/d")
    × (clean (codes "a/../../b") ≡ codes "../b")
    × (clean [] ≡ codes ".")
    × (clean (codes "/..") ≡ codes "/")
unfolding clean text_dec ℕ_discrete
test_clean = (refl, refl, refl, refl)

test_dir :
    (dir (codes "/a/b/c") ≡ codes "/a/b")
    × (dir (codes "/c") ≡ codes "/")
    × (dir (codes "c") ≡ codes ".")
unfolding dir clean text_dec ℕ_discrete
test_dir = (refl, refl, refl)

test_join-base :
    (join ([] ∷ codes "/d" ∷ codes "vms" ∷ codes "x" ∷ []) ≡ codes "/d/vms/x")
    × (base (codes "./release/firecracker-v1/") ≡ codes "firecracker-v1")
    × (base (codes "//") ≡ codes "/")
unfolding join base text_dec ℕ_discrete
test_join-base = (refl, refl, refl)
