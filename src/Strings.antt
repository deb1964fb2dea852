-- ===== src/Strings.antt =====
-- Package strings, as far as the program uses it.
use firecracker_lab.Prelude.{
  Text, codes, ℕ, Bool, true, false, ◌||◌, Option, none, some, List, [], ◌∷◌, ◌==◌, nat_eq,
  if◌then◌else◌, ◌≡◌, refl, ℕ_discrete,
}

-- `strings.HasPrefix(s, prefix)`
unfoldable pub has_prefix : Text → Text → Bool
has_prefix s [] = true
has_prefix [] (p ∷ ps) = false
has_prefix (c ∷ s) (p ∷ ps) = if c == p then has_prefix s ps else false

-- The ASCII white space of `unicode.IsSpace`.
unfoldable pub is_space : ℕ → Bool
is_space c = c == 0x20 || c == 0x09 || c == 0x0a || c == 0x0b || c == 0x0c || c == 0x0d

trim_left : Text → Text
trim_left [] = []
trim_left (c ∷ s) = if is_space c then trim_left s else c ∷ s

-- White space alone is dropped, and kept before other bytes.
keep : ℕ → Text → Text
keep c [] = if is_space c then [] else c ∷ []
keep c (d ∷ s) = c ∷ d ∷ s

trim_right : Text → Text
trim_right [] = []
trim_right (c ∷ s) = keep c (trim_right s)

-- `strings.TrimSpace`
unfoldable pub trim_space : Text → Text
unfolding trim_left trim_right keep is_space
trim_space s = trim_right (trim_left s)

consed : ℕ → Option (Text × Text) → Option (Text × Text)
consed c none = none
consed c (some (line, rest)) = some (c ∷ line, rest)

-- What `ReadString('\n')` of a bufio.Reader returns, and what stays in its buffer; `none` is the
-- end of the stream before a newline.
unfoldable pub read_line : Text → Option (Text × Text)
unfolding consed
read_line [] = none
read_line (c ∷ s) =
    let rest = consed c (read_line s) in if c == 0x0a then some (c ∷ [], s) else rest

start_word : ℕ → Text × List Text → Text × List Text
start_word c (word, words) = (c ∷ word, words)

end_word : Text × List Text → List Text
end_word ([], words) = words
end_word (c ∷ word, words) = (c ∷ word) ∷ words

-- The word that the text begins with, and the words behind it.
words_from : Text → Text × List Text
unfolding start_word end_word is_space
words_from [] = ([], [])
words_from (c ∷ s) =
    let rest = words_from s in if is_space c then ([], end_word rest) else start_word c rest

-- `strings.Fields`
unfoldable pub fields : Text → List Text
unfolding words_from end_word
fields s = end_word (words_from s)

in_first : ℕ → List Text → List Text
in_first c [] = (c ∷ []) ∷ []
in_first c (part ∷ parts) = (c ∷ part) ∷ parts

-- `strings.Split` at a byte
unfoldable pub split_on : ℕ → Text → List Text
unfolding in_first
split_on sep [] = [] ∷ []
split_on sep (c ∷ s) = let rest = split_on sep s in if c == sep then [] ∷ rest else in_first c rest

test_fields : fields (codes " a  bc ") ≡ codes "a" ∷ codes "bc" ∷ []
unfolding fields ℕ_discrete
test_fields = refl

test_trim : trim_space (codes " OK 5 ") ≡ codes "OK 5"
unfolding trim_space ℕ_discrete
test_trim = refl
