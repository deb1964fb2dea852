-- ===== src/Cmd/Ports/Reads.antt =====
-- What a VM reads as after `labctl ports add` and `labctl ports rm`.
use mathlib.Core.Path.{subst}
use firecracker_lab.Prelude.{
  Text, ℤ, ◌≡◌, refl, ◌∙◌, ap, Bool, true, false, not, some, List, [], ◌∷◌, ◌++◌, int_eq, arith,
}
use firecracker_lab.Prelude.Lists.{All, All-append}
use firecracker_lab.Agent.{Codec}
use firecracker_lab.World.{Host, IsSqlUp, ok, World}
use firecracker_lab.World.Rows.{VmRow}
use firecracker_lab.State.Ports.RoundTrip.{IsInt}
use firecracker_lab.State.Vms.{Vm, get, find_vm, scan_vm, scan_found}
use firecracker_lab.State.Vms.Reads.{get-scan_found, found_again}
use firecracker_lab.State.Vms.Sound.{scan_vm-IsInt}
use firecracker_lab.Cmd.{Config}
use firecracker_lab.Cmd.Ports.{add, rm, atoi, contains, without}
use firecracker_lab.Cmd.Ports.Recorded.{Changed, Stored, add-Changed, rm-without}
use firecracker_lab.Cmd.Ports.Range.{atoi-IsInt, without-All}

contains-without : (port : ℤ) (ports : List ℤ) → contains port (without port ports) ≡ false
unfolding contains without
contains-without port [] = refl
contains-without port (p ∷ ports) = ground (arith, contains-without port ports)

contains-append : (port : ℤ) (ports : List ℤ) → contains port (ports ++ port ∷ []) ≡ true
unfolding contains
contains-append port [] = ground arith
contains-append port (p ∷ ports) = ground (arith, contains-append port ports)

pub found_row : (r : VmRow) (u : Vm) → scan_vm r ≡ ok u → scan_found (some r) ≡ ok (some u)
unfolding scan_found
found_row r u h = rw (scan_found, h) refl

-- A change of the ports of one VM, as `Get` sees it before and after.
abbrev pub Reread : Host → Text → Text → Bool → (ℤ → List ℤ → List ℤ) → World → World → Type 0
Reread host id arg present change w v =
    (port : ℤ) × (u : Vm) × (atoi arg ≡ some port)
    × ((get host id w).0 ≡ ok (some u))
    × (contains port u.ports ≡ present)
    × (contains port (change port u.ports) ≡ not present)
    × ((get host id v).0 ≡ ok (some (record u { ports = change port u.ports })))

module _ (host : Host) (id arg : Text) (up : IsSqlUp host) where
  Stored-Reread :
      (present : Bool) (change : ℤ → List ℤ → List ℤ) (w v : World)
      → ((port : ℤ) (ports : List ℤ) → IsInt port → All IsInt ports → All IsInt (change port ports))
      → ((port : ℤ) (ports : List ℤ) → contains port (change port ports) ≡ not present)
      → Stored id arg present change w.db v
      → Reread host id arg present change w v
  Stored-Reread present change w v fits turns (port, r, u, parsed, (found, scanned), guard, same) =
      let read : scan_found (some r) ≡ ok (some u) = found_row r u scanned in
      (
        port,
        u,
        parsed,
        get-scan_found host w up id ∙ ap scan_found found ∙ read,
        guard,
        turns port u.ports,
        get-scan_found host v up id
            ∙ ap (λ d. scan_found (find_vm id d.vms)) same
            ∙ found_again id w.db.vms (some r) (change port u.ports) found
                (fits port u.ports (atoi-IsInt arg port parsed) (scan_vm-IsInt r u scanned)) read,
      )

  module _ (codec : Codec) (cfg : Config) (w v : World) where
    -- After a `ports add` that succeeds, on a host whose database answers, the VM reads as before,
    -- except that the port, which its ports did not contain, stands behind them,
    -- and is contained in them now.
    pub add-Reread :
        add host codec cfg id arg w ≡ (ok tt, v)
        → Reread host id arg false (λ port ports. ports ++ port ∷ []) w v
    add-Reread e =
        Stored-Reread false (λ port ports. ports ++ port ∷ []) w v
          (λ port ports h k. All-append IsInt ports (port ∷ []) k (h, tt)) contains-append
          (subst (Changed id arg false (λ port ports. ports ++ port ∷ []) w.db) e
            (add-Changed host codec cfg id arg w))

    -- After a `ports rm` that succeeds, on a host whose database answers, the VM reads as before,
    -- except that every occurrence of the port, which its ports contained, is gone.
    pub rm-Reread : rm host codec cfg id arg w ≡ (ok tt, v) → Reread host id arg true without w v
    rm-Reread e =
        Stored-Reread true without w v (λ port ports h k. without-All port ports k) contains-without
          (subst (Changed id arg true without w.db) e (rm-without host codec cfg id arg w))
