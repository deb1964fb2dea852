-- ===== src/Cmd/Vms/Destroyed.antt =====
-- What `labctl destroy` does to the state database.
use mathlib.Core.Path.{subst}
use firecracker_lab.Prelude.{Text, ◌≡◌, refl, ◌∙◌}
use firecracker_lab.Agent.{Codec}
use firecracker_lab.World.{Host, Result, ok, err, World, ⊤}
use firecracker_lab.World.Rows.{VmRow, Db}
use firecracker_lab.World.Ends.{step, last, Keeps-at}
use firecracker_lab.State.Vms.{Vm, remove_vm, remove}
use firecracker_lab.State.Vms.Effects.{Becomes, remove-Becomes}
use firecracker_lab.Runner.Lifecycle
use firecracker_lab.Runner.Lifecycle.Unrecorded.{destroy-Keeps}
use firecracker_lab.Cmd.{Config, plain_runner}
use firecracker_lab.Cmd.Lookup.{IsRowOf, loaded, required, plain_runner-IsReal}
use firecracker_lab.Cmd.Vms.{destroy}

module _ (host : Host) (codec : Codec) (cfg : Config) (id : Text) where
  -- What `destroy` at database `db` has done, by how it ended.
  abbrev pub Destroyed : Db → Result ⊤ × World → Type 0
  Destroyed db (ok a, w) =
      (r : VmRow) × (u : Vm) × (x : World) × (y : World) × IsRowOf id db.vms r u
      × (Lifecycle.destroy host codec (plain_runner cfg) u x ≡ (ok tt, y))
      × (w.db ≡ record db { vms = remove_vm id db.vms })
  Destroyed db (err e, w) = w.db ≡ db

  -- A `destroy` that succeeds has torn down the VM whose row was found, and then has deleted the
  -- rows with that id and changed nothing else; one that fails, at whatever step, leaves the
  -- database as it was.
  pub destroy-Destroyed : (w : World) → Destroyed w.db (destroy host codec cfg id w)
  unfolding destroy
  destroy-Destroyed w =
      (loaded host w.db w (Destroyed w.db) _ refl
        (λ _ v1 s1.
          required host w.db v1 (Destroyed w.db) id _ s1
            (λ u v2 s2 r at.
              step (Lifecycle.destroy host codec (plain_runner cfg) u) _ v2 (Destroyed w.db)
                (λ _ y e.
                  let s3 : y.db ≡ w.db =
                    Keeps-at
                      (destroy-Keeps host codec (plain_runner cfg) (plain_runner-IsReal cfg) u) e
                    ∙ s2 in
                  last (remove host id) y (Destroyed w.db)
                    (Becomes w.db (record w.db { vms = remove_vm id w.db.vms }))
                    (subst
                      (λ d. Becomes d (record d { vms = remove_vm id d.vms }) (remove host id y)) s3
                      (remove-Becomes host y id))
                    (λ _ v s. (r, u, v2, y, at, e, s)) (λ _ v s. s))
                (λ _ v e.
                  Keeps-at (destroy-Keeps host codec (plain_runner cfg) (plain_runner-IsReal cfg) u)
                    e
                  ∙ s2))
            (λ _ v s. s))
        (λ _ v s. s)).ends
