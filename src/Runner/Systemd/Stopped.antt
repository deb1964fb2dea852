-- ===== src/Runner/Systemd/Stopped.antt =====
-- When stopping a unit fails.
use firecracker_lab.Prelude.{Text, codes, Bool, not, ◌&&◌, ◌||◌, ◌≡◌, ◌==◌, text_eq, arith}
use firecracker_lab.Strings.{trim_space}
use firecracker_lab.World.{exec, Host, World, logged, call, ask}
use firecracker_lab.Runner.Api.{run}
use firecracker_lab.Runner.Systemd.{
  stop_unit, after_stop, is_known_unit, known_of, succeeded, stop_args, load_state_args,
}

module _ (host : Host) (unit : Text) (w : World) where
  -- The world behind `systemctl stop`.
  abbrev pub stopped : World
  stopped = logged (exec (stop_args unit)) w

  -- What systemd says of the unit then.
  abbrev pub is_known : Bool
  is_known =
      not (host.fails stopped.log (exec (load_state_args unit)))
      && not
          (trim_space (host.output stopped.log (exec (load_state_args unit))) == codes "not-found")

  -- Stopping a unit succeeds exactly if `systemctl stop` succeeds, or systemd does not know the
  -- unit: its load state cannot be read, or is not-found.
  pub stop_unit-succeeded :
      succeeded (stop_unit host unit w).0
      ≡ (not (host.fails w.log (exec (stop_args unit))) || not is_known)
  unfolding stop_unit after_stop is_known_unit known_of succeeded run call ask
  stop_unit-succeeded = ground arith
