-- ===== src/Guest/Stats.antt =====
-- The samples of the agent (guest-agent/src/stats.rs, proc_stats.rs). An addition or a product of
-- u64 wraps around, as in a release build.
pub mod Share
use firecracker_lab.Prelude.{
  Text, codes, ℕ, ◌+◌, ◌-◌, ◌*◌, ◌/◌, ◌%◌, ◌^◌, Bool, true, false, ◌&&◌, Option, none, some, List,
  [], ◌∷◌, ◌++◌, ◌==◌, nat_eq, ltb, leb, ◌≡◌, refl, ℕ_discrete, if◌then◌else◌,
}
use firecracker_lab.Prelude.Lists.{length, drop}
use firecracker_lab.Strings.{has_prefix, fields, trim_space, split_on}
use firecracker_lab.Guest.Machine.{Stats}

-- The value of digits behind `acc`, if there is nothing else.
unfoldable pub all_digits : ℕ → Text → Option ℕ
all_digits acc [] = some acc
all_digits acc (c ∷ s) =
    let rest = all_digits (acc * 10 + (c - b'0')) s in
    if leb b'0' c && leb c b'9' then rest else none

fitting : Option ℕ → Option ℕ
fitting none = none
fitting (some n) = if ltb n (2 ^ 64) then some n else none

unsigned : Text → Option ℕ
unfolding fitting
unsigned [] = none
unsigned (c ∷ s) = fitting (all_digits 0 (c ∷ s))

-- `parse::<u64>()`, which takes a plus sign.
unfoldable pub parse_u64 : Text → Option ℕ
unfolding unsigned
parse_u64 [] = none
parse_u64 (c ∷ s) = if c == b'+' then unsigned s else unsigned (c ∷ s)

kept : Option ℕ → List ℕ → List ℕ
kept none ns = ns
kept (some n) ns = n ∷ ns

-- `filter_map(|f| f.parse().ok())`
unfoldable pub parsed : List Text → List ℕ
unfolding kept
parsed [] = []
parsed (f ∷ fs) = kept (parse_u64 f) (parsed fs)

unfoldable pub sum_u64 : ℕ → List ℕ → ℕ
sum_u64 acc [] = acc
sum_u64 acc (n ∷ ns) = sum_u64 ((acc + n) % 2 ^ 64) ns

iowait : List ℕ → ℕ
iowait [] = 0
iowait (n ∷ ns) = n

-- The sum of the fields, and idle with iowait; `none` for a line of fewer than four numbers.
unfoldable pub cpu_ticks : List ℕ → Option (ℕ × ℕ)
unfolding iowait
cpu_ticks (a ∷ b ∷ c ∷ idle ∷ ns) =
    some (sum_u64 0 (a ∷ b ∷ c ∷ idle ∷ ns), (idle + iowait ns) % 2 ^ 64)
cpu_ticks _ = none

-- `lines().next()`
first_line : Text → Text
first_line [] = []
first_line (c ∷ s) = let rest = first_line s in if c == 0x0a then [] else c ∷ rest

-- Of the contents of /proc/stat; an empty file has no fields either.
unfoldable pub read_cpu_ticks : Text → Option (ℕ × ℕ)
unfolding first_line
read_cpu_ticks contents = cpu_ticks (parsed (drop 1 (fields (first_line contents))))

-- Whether a text is ` kB` any number of times.
is_units : Text → Bool
is_units [] = true
is_units (a ∷ b ∷ c ∷ s) = (a == b' ') && (b == b'k') && (c == b'B') && is_units s
is_units _ = false

-- `trim_end_matches(" kB")`
unfoldable pub trim_units : Text → Text
unfolding is_units
trim_units [] = []
trim_units (c ∷ s) = let rest = trim_units s in if is_units (c ∷ s) then [] else c ∷ rest

in_bytes : Option ℕ → Option ℕ
in_bytes none = none
in_bytes (some kb) = some (kb * 1024 % 2 ^ 64)

unfoldable pub mem_available : List Text → Option ℕ
unfolding in_bytes
mem_available [] = none
mem_available (line ∷ lines) =
    let rest = mem_available lines in
    if has_prefix line (codes "MemAvailable:")
    then in_bytes (parse_u64 (trim_space (trim_units (trim_space (drop 13 line)))))
    else rest

-- Of the contents of /proc/meminfo; the empty line behind the last newline has no effect.
unfoldable pub read_mem_available_bytes : Text → Option ℕ
unfolding mem_available
read_mem_available_bytes contents = mem_available (split_on 0x0a contents)

-- `Stats::new()`
unfoldable pub new : Stats
new = record {
  status = 0;
  cpu_pct = 0;
  mem_available_bytes = 0;
  last_beat = 0;
  prev_cpu_total = 0;
  prev_cpu_idle = 0;
}

-- `beat()` at the given Unix time.
unfoldable pub beat : ℕ → Stats → Stats
beat now s = record s { last_beat = now }

-- The percentage of `total_delta` ticks that were not idle.
unfoldable pub busy_pct : ℕ → ℕ → ℕ
busy_pct total_delta idle_delta = 100 * (total_delta - idle_delta) % 2 ^ 64 / total_delta

unfoldable pub ticked : Option (ℕ × ℕ) → Stats → Stats
ticked none s = s
ticked (some (total, idle)) s = record s {
  prev_cpu_total = total;
  prev_cpu_idle = idle;
  cpu_pct =
      if ltb 0 (total - s.prev_cpu_total)
      then busy_pct (total - s.prev_cpu_total) (idle - s.prev_cpu_idle)
      else s.cpu_pct;
}

available : Option ℕ → Stats → Stats
available none s = s
available (some bytes) s = record s { mem_available_bytes = bytes }

-- A file that cannot be read is `none`.
contents_of : {A : Type 0} → (Text → Option A) → Option Text → Option A
contents_of f none = none
contents_of f (some contents) = f contents

-- `sample()`, at the given time, with the contents of /proc/stat and /proc/meminfo.
unfoldable pub sample : ℕ → Option Text → Option Text → Stats → Stats
unfolding contents_of available
sample now stat meminfo s =
    available (contents_of read_mem_available_bytes meminfo)
      (ticked (contents_of read_cpu_ticks stat) (beat now s))

test_ticks : read_cpu_ticks (codes "cpu  10 0 20 60 5 0\ncpu0 1 2 3 4\n") ≡ some (95, 65)
unfolding read_cpu_ticks ℕ_discrete fields cpu_ticks parsed parse_u64 all_digits sum_u64
test_ticks = refl

test_meminfo :
    read_mem_available_bytes (codes "MemFree: 1 kB\nMemAvailable:     204 kB\n") ≡ some 208896
unfolding read_mem_available_bytes split_on has_prefix trim_units trim_space parse_u64 all_digits
    ℕ_discrete
test_meminfo = refl
