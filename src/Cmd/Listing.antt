-- ===== src/Cmd/Listing.antt =====
-- cmd/list.go: `labctl list`, as the rows that it prints.
pub mod Bytes
pub mod Complete
use firecracker_lab.Prelude.{
  Text, codes, ℕ, zero, suc, ◌+◌, ◌*◌, ◌/◌, ◌%◌, ◌^◌, Bool, true, false, Option, none, some, List,
  [], ◌∷◌, ◌++◌, ◌==◌, nat_eq, ltb, if◌then◌else◌,
}
use firecracker_lab.Prelude.Decimal.{digits}
use firecracker_lab.Agent.{
  Codec, HealthStatus, healthy, degraded, unrecognized, StatusResponse, query_status,
}
use firecracker_lab.State.Vms.{Vm}
use firecracker_lab.State.Vms
use firecracker_lab.State.Snapshots
use firecracker_lab.State.Snapshots.{Snapshot}
use firecracker_lab.World.{
  Host, Result, ok, err, Action, ⊤, message, raise, pure, attempt, ◌>>=◌, ◌>>◌,
}
use firecracker_lab.Runner.{vsock_path}
use firecracker_lab.Runner.Lifecycle.{is_alive}
use firecracker_lab.Cmd.{Config, load, plain_runner}

-- n / d, rounded to the nearest number, and half to the even one.
unfoldable pub round_div : ℕ → ℕ → ℕ
round_div n d =
    if ltb (n % d * 2) d
    then n / d
    else if ltb d (n % d * 2)
    then n / d + 1
    else if n / d % 2 == 0
    then n / d
    else n / d + 1

-- `float64(b)` of a uint64: 53 significant bits, so at most the last 11 bits are rounded away.
float64_within : ℕ → ℕ → ℕ → ℕ
float64_within zero step b = round_div b step * step
float64_within (suc fuel) step b =
    let rest = float64_within fuel (step * 2) b in
    if ltb (b / step) (2 ^ 53) then round_div b step * step else rest

unfoldable pub float64_of : ℕ → ℕ
unfolding float64_within
float64_of b = float64_within 11 1 b

with_one_decimal : ℕ → Text
with_one_decimal tenths = digits (tenths / 10) ++ (b'.' ∷ digits (tenths % 10))

-- `fmt.Sprintf("%.1f", float64(b)/float64(div))` for a power of two.
unfoldable pub ratio : ℕ → ℕ → Text
unfolding with_one_decimal
ratio b div = with_one_decimal (round_div (float64_of b * 10) div)

-- The loop of formatBytes from n, div and exp on, with a bound on its rounds.
scale_loop : ℕ → ℕ → ℕ → ℕ → ℕ × ℕ
scale_loop zero n div exp = (div, exp)
scale_loop (suc rounds) n div exp =
    let rest = scale_loop rounds (n / 1024) (div * 1024 % 2 ^ 64) (exp + 1) in
    if ltb n 1024 then (div, exp) else rest

-- `"KMGTPE"[exp]`; beyond the last letter the program panics.
unfoldable pub letter : ℕ → Text → Option ℕ
letter exp [] = none
letter zero (c ∷ s) = some c
letter (suc exp) (c ∷ s) = letter exp s

abbrev pub unit_letters : Text
unit_letters = codes "KMGTPE"

with_unit : Text → Option ℕ → Option Text
with_unit number none = none
with_unit number (some c) = some (number ++ (c ∷ codes "iB"))

scaled : ℕ → ℕ × ℕ → Option Text
unfolding with_unit
scaled b (div, exp) = with_unit (ratio b div) (letter exp unit_letters)

-- `none` is the panic.
unfoldable pub format_bytes : ℕ → Option Text
unfolding scale_loop scaled
format_bytes b =
    if ltb b 1024 then some (digits b ++ codes "B") else scaled b (scale_loop 64 (b / 1024) 1024 0)

-- The last three columns of a line.
pub record Health : Type 0 where
  pub status : Text
  pub cpu : Text
  pub mem : Text

-- A nil StatusResponse has the zero values of its fields, and zero is HEALTHY.
abbrev pub nil_status : StatusResponse
nil_status = record { health = healthy; cpu_pct = 0; mem_available_bytes = 0; last_beat = 0 }

status_name : HealthStatus → Text
status_name healthy = codes "running (healthy)"
status_name degraded = codes "running (degraded)"
status_name (unrecognized n) = codes "running"

shown_as : StatusResponse → Option Text → Option Health
unfolding status_name
shown_as st none = none
shown_as st (some mem) =
    some
      (record { status = status_name st.health; cpu = digits st.cpu_pct ++ codes "%"; mem = mem })

-- The field of the memory is a uint64.
unfoldable pub health_of : StatusResponse → Option Health
unfolding shown_as
health_of st = shown_as st (format_bytes (st.mem_available_bytes % 2 ^ 64))

abbrev no_health : Text → Health
no_health status = record { status = status; cpu = codes "-"; mem = codes "-" }

-- `guestStatus`, from the outcome of `r.Status`; `none` is the panic of formatBytes.
unfoldable pub described : Result (Option StatusResponse) → Option Health
described (err e) = some (no_health (codes "unknown (agent unreachable)"))
described (ok none) = health_of nil_status
described (ok (some st)) = health_of st

pub record Line : Type 0 where
  pub vm : Vm
  pub health : Health

-- A panic ends the command, as an error does.
unfoldable pub or_panic : Option Health → Action Health
or_panic none = raise (message (codes "runtime error: index out of range"))
or_panic (some health) = pure health

module _ (host : Host) (codec : Codec) (cfg : Config) where
  unfoldable pub guest_status : Text → Action Health
  guest_status id = do
    answer ← attempt (query_status host codec (vsock_path (plain_runner cfg) id))
    or_panic (described answer)

  unfoldable pub line_of : Vm → Action Line
  line_of v = do
    alive ← is_alive host codec (plain_runner cfg) v
    health ← if alive then guest_status v.id else pure (no_health (codes "stopped"))
    pure (record { vm = v; health = health })

  unfoldable pub lines_of : List Vm → Action (List Line)
  lines_of [] = pure []
  lines_of (v ∷ vs) = do line ← line_of v; rest ← lines_of vs; pure (line ∷ rest)

  -- `labctl list`: the lines that it prints.
  unfoldable pub list_vms : Action (List Line)
  list_vms = do load host; vms ← Vms.list host; lines_of vms

  -- `labctl snapshot list`: the snapshots of which it prints a line each.
  unfoldable pub list_snapshots : Action (List Snapshot)
  list_snapshots = do load host; Snapshots.list host
