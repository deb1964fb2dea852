-- ===== src/Cmd/Vms/Emptied.antt =====
-- That VMs can be destroyed.
use mathlib.Core.Path.{subst}
use firecracker_lab.Prelude.{Text, ◌≡◌, ◌≢◌, sym, ◌∙◌, ap, Option, some, List, [], ◌∷◌, arith}
use firecracker_lab.Agent.{Codec}
use firecracker_lab.World.{
  Host, Error, Result, ok, err, World, ⊤, sql, open_db, delete_vm, for_each, logged, sql-ok,
}
use firecracker_lab.World.Rows.{VmRow}
use firecracker_lab.World.Ends.{after}
use firecracker_lab.World.Total.{IsTotal, IsOk, IsUp, >>=-IsTotal, call-IsTotal}
use firecracker_lab.State.Vms.{Vm, find_vm, scan_vm, scan_found, get, remove, remove_vm}
use firecracker_lab.State.Vms.Effects.{remove_vm-head}
use firecracker_lab.State.Vms.Ledger.{IsLedger}
use firecracker_lab.State.Vms.Reads.{vm_of, scan_vm-ok, get-scan_found}
use firecracker_lab.Runner.Lifecycle
use firecracker_lab.Runner.Lifecycle.Total.{destroy-IsTotal}
use firecracker_lab.Cmd.{Config, plain_runner, known_vm, require_vm, load}
use firecracker_lab.Cmd.Lookup.{plain_runner-IsReal}
use firecracker_lab.Cmd.Vms.{destroy}
use firecracker_lab.Cmd.Vms.Destroyed.{Destroyed, destroy-Destroyed}

module _ (host : Host) where
  find_vm-head : (r : VmRow) (rows : List VmRow) → find_vm r.id (r ∷ rows) ≡ some r
  unfolding find_vm
  find_vm-head r rows = ground arith

  found-ok : (r : VmRow) (u : Vm) → scan_vm r ≡ ok u → scan_found (some r) ≡ ok (some u)
  unfolding scan_found
  found-ok r u h = ground (arith, h)

  ok_injective : {a b : Option Vm} → Result.ok a ≡ ok b → a ≡ b
  ok_injective h = cc

  err-ne-ok : {e : Error} {a : Option Vm} → err e ≢ ok a
  err-ne-ok h = cc

module _ (host : Host) (codec : Codec) (cfg : Config) (up : IsUp host) where
  -- The VM of a row that can be read is found.
  require_vm-IsOk :
      (id : Text) (u : Vm) (w : World)
      → scan_found (find_vm id w.db.vms) ≡ ok (some u)
      → IsOk (require_vm host id w)
  unfolding require_vm
  require_vm-IsOk id u w h =
      (after (get host id) (known_vm id) w IsOk (λ o. o.0 ≡ ok (some u))
        (get-scan_found host w (λ k s. up k (sql s)) id ∙ h)
        (λ found v e. record {
          ends =
              subst (λ x. IsOk (known_vm id x v)) (ok_injective host (sym e))
                (unfold known_vm in tt);
        })
        (λ e v p. absurd (err-ne-ok host p))).ends

  remove-IsTotal : (id : Text) → IsTotal (remove host id)
  unfolding remove
  remove-IsTotal id =
      >>=-IsTotal _ _ (call-IsTotal host (sql (delete_vm id)) (λ h. up h (sql (delete_vm id))))
        (λ _. record { total = λ w. tt })

  -- Destroying a VM that can be read gives no error.
  destroy-IsOk :
      (id : Text) (u : Vm) (w : World)
      → scan_found (find_vm id w.db.vms) ≡ ok (some u)
      → IsOk (destroy host codec cfg id w)
  unfolding destroy load
  destroy-IsOk id u w h = rw (sql-ok host open_db w (λ k s. up k (sql s))) (
      (after (require_vm host id) _ (logged (sql open_db) w) IsOk IsOk
        (require_vm-IsOk id u (logged (sql open_db) w) h)
        (λ v x p. record {
          ends =
              (>>=-IsTotal (Lifecycle.destroy host codec (plain_runner cfg) v) (λ _. remove host id)
                  (destroy-IsTotal host up codec (plain_runner cfg) (plain_runner-IsReal cfg) v)
                  (λ _. remove-IsTotal id)).total
                x;
        })
        (λ e x p. absurd p)).ends)

  -- The outcome is no error, and the vms table is empty.
  abbrev pub Emptied : Result ⊤ × World → Type 0
  Emptied (ok a, w) = w.db.vms ≡ []
  Emptied (err e, w) = ⊥

  -- One destroy takes the first row away.
  abbrev Shortened : List VmRow → Result ⊤ × World → Type 0
  Shortened rows (ok a, w) = w.db.vms ≡ rows
  Shortened rows (err e, w) = ⊥

  shorten :
      (r : VmRow) (rows : List VmRow) (w : World) (o : Result ⊤ × World)
      → w.db.vms ≡ r ∷ rows
      → IsLedger (r ∷ rows)
      → IsOk o
      → Destroyed host codec cfg r.id w.db o
      → Shortened rows o
  shorten r rows w (ok a, v) e sound p (row, u, x, y, at, torn, s) =
      ap (λ d. d.vms) s ∙ ap (remove_vm r.id) e ∙ remove_vm-head r rows sound
  shorten r rows w (err x, v) e sound p h = p

  destroy-Shortened :
      (r : VmRow) (rows : List VmRow) (w : World)
      → w.db.vms ≡ r ∷ rows
      → IsLedger (r ∷ rows)
      → Shortened rows (destroy host codec cfg r.id w)
  destroy-Shortened r rows w e sound =
      shorten r rows w (destroy host codec cfg r.id w) e sound
        (destroy-IsOk r.id (vm_of r sound.0) w (
          ap (λ rs. scan_found (find_vm r.id rs)) e
          ∙ ap scan_found (find_vm-head host r rows)
          ∙ found-ok host r (vm_of r sound.0) (scan_vm-ok r sound.0)))
        (destroy-Destroyed host codec cfg r.id w)

  -- On a host where no call fails, the VMs of a ledger can be destroyed one after the other: every
  -- destroy succeeds, and in the end the vms table is empty.
  pub destroy-Emptied :
      (rows : List VmRow) (w : World)
      → w.db.vms ≡ rows
      → IsLedger rows
      → Emptied (for_each rows (λ r. destroy host codec cfg r.id) w)
  unfolding for_each
  destroy-Emptied [] w e sound = e
  destroy-Emptied (r ∷ rows) w e (row, fresh, sound) =
      (after (destroy host codec cfg r.id) _ w Emptied (Shortened rows)
        (destroy-Shortened r rows w e (row, fresh, sound))
        (λ _ v e1. record { ends = destroy-Emptied rows v e1 sound }) (λ _ _ p. p)).ends
