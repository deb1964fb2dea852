-- ===== src/State/Vms/Sound.antt =====
-- Actions under which the vms table stays a ledger and its registry takes steps.
use mathlib.Core.Path.{subst}
use firecracker_lab.Prelude.{Text, ℤ, ◌≡◌, refl, sym, ap, Option, none, some, List, arith}
use firecracker_lab.Prelude.Lists.{All}
use firecracker_lab.World.{
  Host, Result, ok, err, World, Action, continue, ◌>>=◌, attempt, wrapping, wrap_outcome,
}
use firecracker_lab.World.Rows.{Db}
use firecracker_lab.World.Keeps.{Keeps}
use firecracker_lab.State.Ports.{unmarshal_ports}
use firecracker_lab.State.Ports.RoundTrip.{IsInt}
use firecracker_lab.State.Ports.Range.{unmarshal_ports-AllFit}
use firecracker_lab.World.Rows.{VmRow}
use firecracker_lab.State.Vms.{
  Vm, or_empty, allocate_and_insert, remove, remove_vm, scan_vm, unmarshal_row, scan_text,
}
use firecracker_lab.State.Vms.Ledger.{IsLedger}
use firecracker_lab.State.Vms.Allocate.{allocate_and_insert-Allocated}
use firecracker_lab.State.Vms.Advances.{
  Advances, same-Advances, Advances-trans, remove_vm-Advances, Allocated-Advances,
}
use firecracker_lab.State.Vms.Effects.{Becomes, remove-Becomes}

-- From a ledger, the action leads to a ledger, by steps of the registry.
pub record Sound {A : Type 0} (m : Action A) : Type 0 where
  pub advance : (w : World) → IsLedger w.db.vms → Advances w.db.vms (m w).1.db.vms

-- A database that was kept.
pub kept-Advances : {db now : Db} → now ≡ db → IsLedger db.vms → Advances db.vms now.vms
kept-Advances {db} {now} e sound = same-Advances db.vms now.vms (ap (λ (d : Db). d.vms) e) sound

-- An outcome of an action that has changed the database into `now`, or not at all.
pub Becomes-Advances :
    {A : Type 0} (db now : Db) (o : Result A × World)
    → Becomes db now o
    → IsLedger db.vms
    → Advances db.vms now.vms
    → Advances db.vms o.1.db.vms
Becomes-Advances db now (ok a, w) e h k = subst (λ d. Advances db.vms d.vms) (sym e) k
Becomes-Advances db now (err x, w) e h k = kept-Advances e h

pub Keeps-Sound : {A : Type 0} {m : Action A} → Keeps m → Sound m
Keeps-Sound keeps = record { advance = λ w sound. kept-Advances (keeps.same_db w) sound }

continue-Sound :
    {A B : Type 0} (f : A → Action B) (rows : List VmRow) (o : Result A × World)
    → ((a : A) → Sound (f a))
    → Advances rows o.1.db.vms
    → Advances rows (continue f o).1.db.vms
continue-Sound f rows (ok a, w) h k =
    Advances-trans rows w.db.vms (f a w).1.db.vms k ((h a).advance w k.0)
continue-Sound f rows (err e, w) h k = k

pub >>=-Sound :
    {A B : Type 0} (m : Action A) (f : A → Action B)
    → Sound m
    → ((a : A) → Sound (f a))
    → Sound (m >>= f)
>>=-Sound m f h k = record {
  advance = λ w sound. continue-Sound f w.db.vms (m w) k (h.advance w sound);
}

pub attempt-Sound : {A : Type 0} (m : Action A) → Sound m → Sound (attempt m)
attempt-Sound m h = record { advance = h.advance }

wrap-Sound :
    {A : Type 0} (t : Text) (rows : List VmRow) (o : Result A × World)
    → Advances rows o.1.db.vms
    → Advances rows (wrap_outcome t o).1.db.vms
wrap-Sound t rows (ok a, w) h = h
wrap-Sound t rows (err e, w) h = h

pub wrapping-Sound : {A : Type 0} (t : Text) (m : Action A) → Sound m → Sound (wrapping t m)
wrapping-Sound t m h = record {
  advance = λ w sound. wrap-Sound t w.db.vms (m w) (h.advance w sound);
}

module _ (host : Host) where
  pub allocate_and_insert-Sound :
      (vcpus mem_mib : ℤ) (image : Text) (ports : Option (List ℤ))
      → All IsInt (or_empty ports)
      → Sound (allocate_and_insert host vcpus mem_mib image ports)
  allocate_and_insert-Sound vcpus mem_mib image ports fits = record {
    advance = λ w sound.
        Allocated-Advances vcpus mem_mib image ports w.db
          (allocate_and_insert host vcpus mem_mib image ports w)
          (allocate_and_insert-Allocated vcpus mem_mib image ports host w) fits sound;
  }

  pub remove-Sound : (id : Text) → Sound (remove host id)
  remove-Sound id = record {
    advance = λ w sound.
        Becomes-Advances w.db (record w.db { vms = remove_vm id w.db.vms }) (remove host id w)
          (remove-Becomes host w id) sound (remove_vm-Advances id w.db.vms sound);
  }

unmarshal_row-IsInt :
    (r : VmRow) (unit : Text) (parsed : Option (List ℤ)) (u : Vm)
    → unmarshal_ports r.ports ≡ parsed
    → unmarshal_row r unit parsed ≡ ok u
    → All IsInt u.ports
unfolding unmarshal_row
unmarshal_row-IsInt r unit none u e h = absurd cc
unmarshal_row-IsInt r unit (some ports) u e h =
    subst (λ ps. All IsInt ps) (ground (arith, h)) (unmarshal_ports-AllFit r.ports ports e)

scan_text-IsInt :
    (r : VmRow) (unit : Result Text) (u : Vm)
    → (elim unit [ err e ↦ err e | ok t ↦ unmarshal_row r t (unmarshal_ports r.ports) ]) ≡ ok u
    → All IsInt u.ports
scan_text-IsInt r (err e) u h = absurd cc
scan_text-IsInt r (ok t) u h = unmarshal_row-IsInt r t (unmarshal_ports r.ports) u refl h

-- The ports of a VM that was read are integers of 64 bits.
pub scan_vm-IsInt : (r : VmRow) (u : Vm) → scan_vm r ≡ ok u → All IsInt u.ports
unfolding scan_vm
scan_vm-IsInt r u h = scan_text-IsInt r (scan_text r.unit) u h
