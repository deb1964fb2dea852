-- ===== src/Cmd/Reachable/Ledger.antt =====
-- Whatever the host answers, no command breaks the ledger of the vms table.
use mathlib.Core.Path.{subst}
use firecracker_lab.Prelude.{
  Text, ℤ, sym, ap, Bool, true, false, List, [], ◌∷◌, ◌++◌, inl, inr, int_eq,
}
use firecracker_lab.Prelude.Lists.{All, All-append}
use firecracker_lab.Agent.{Codec}
use firecracker_lab.Agent.Unrecorded.{start_proxy-Keeps, stop_proxy-Keeps}
use firecracker_lab.World.{History, Host, Result, ok, err, World, ⊤}
use firecracker_lab.World.Rows.{Db}
use firecracker_lab.World.Keeps.{Keeps, keeping, raise-Keeps, >>=-Keeps}
use firecracker_lab.State.Ports.RoundTrip.{IsInt}
use firecracker_lab.State.Vms.Ledger.{IsLedger}
use firecracker_lab.State.Vms.Advances.{Advances, same-Advances, write_ports-Advances}
use firecracker_lab.State.Vms.Sound.{kept-Advances, Sound, Keeps-Sound, >>=-Sound, scan_vm-IsInt}
use firecracker_lab.Runner.Lifecycle.Unrecorded.{restart_port_forwards-Keeps}
use firecracker_lab.Cmd.{Config, plain_runner}
use firecracker_lab.Cmd.Lookup.{load-Keeps, require_vm-Keeps, plain_runner-IsReal}
use firecracker_lab.Cmd.Ports.{add, rm, reload, without}
use firecracker_lab.Cmd.Ports.Recorded.{Stored, Changed, add-Changed, rm-without}
use firecracker_lab.Cmd.Images.{delete, import_image}
use firecracker_lab.Cmd.Images.Imported.{get_by_name-Keeps, Imported, import_image-Imported}
use firecracker_lab.Cmd.Images.Unrecorded.{known_image-Keeps, upgrade-Keeps, build_image-Keeps}
use firecracker_lab.Cmd.Reachable.{Command, execute, Reaches}
use firecracker_lab.Cmd.Vms.Sound.{
  run-Sound, restore-Sound, destroy-Sound, snapshot-Sound, snapshot_delete-Sound,
  delete_image-Sound, if-Sound,
}
use firecracker_lab.State.Vms.Effects.{count_vms_using_image-Keeps}
use firecracker_lab.Cmd.Ports.Range.{atoi-IsInt, without-All}

module _ (host : Host) where
  delete-Sound : (name : Text) (force : Bool) → Sound (delete host name force)
  unfolding delete
  delete-Sound name force = >>=-Sound _ _ (Keeps-Sound (load-Keeps host)) λ _.
      >>=-Sound _ _
        (Keeps-Sound (>>=-Keeps _ _ (get_by_name-Keeps host name) (known_image-Keeps name)))
        λ img.
          >>=-Sound _ _ (Keeps-Sound (count_vms_using_image-Keeps host img.id))
            λ n. if-Sound _ _ _ (Keeps-Sound (raise-Keeps _)) (delete_image-Sound host img.id)

module _ (host : Host) (codec : Codec) (cfg : Config) where
  reload-Keeps : (id : Text) → Keeps (reload host codec cfg id)
  unfolding reload
  reload-Keeps id =
      search
        (
          keeping,
          load-Keeps,
          require_vm-Keeps,
          restart_port_forwards-Keeps host codec (plain_runner cfg) (plain_runner-IsReal cfg),
          start_proxy-Keeps,
          stop_proxy-Keeps,
        )
        depth 14

-- A change of the ports of a VM is a step, if it keeps the ports in the range of an int.
Stored-Advances :
    (id arg : Text) (present : Bool) (change : ℤ → List ℤ → List ℤ) (db : Db) (w : World)
    → ((port : ℤ) (ports : List ℤ) → IsInt port → All IsInt ports → All IsInt (change port ports))
    → Stored id arg present change db w
    → IsLedger db.vms
    → Advances db.vms w.db.vms
Stored-Advances id arg present change db w fits (port, r, u, parsed, at, guard, s) sound =
    subst (λ d. Advances db.vms d.vms) (sym s)
      (write_ports-Advances id (change port u.ports) db.vms r u at.0 at.1
        (fits port u.ports (atoi-IsInt arg port parsed) (scan_vm-IsInt r u at.1)) sound)

Changed-Advances :
    (id arg : Text) (present : Bool) (change : ℤ → List ℤ → List ℤ) (db : Db) (o : Result ⊤ × World)
    → ((port : ℤ) (ports : List ℤ) → IsInt port → All IsInt ports → All IsInt (change port ports))
    → Changed id arg present change db o
    → IsLedger db.vms
    → Advances db.vms o.1.db.vms
Changed-Advances id arg present change db (ok a, w) fits stored sound =
    Stored-Advances id arg present change db w fits stored sound
Changed-Advances id arg present change db (err e, w) fits (inl s) sound = kept-Advances s sound
Changed-Advances id arg present change db (err e, w) fits (inr stored) sound =
    Stored-Advances id arg present change db w fits stored sound

-- An import does not touch the vms table.
Imported-Advances :
    (host : Host) (cfg : Config) (name src : Text) (db : Db) (h : History) (o : Result ⊤ × World)
    → Imported host cfg name src db h o
    → IsLedger db.vms
    → Advances db.vms o.1.db.vms
Imported-Advances host cfg name src db h (ok a, w) (key, size, named, looks, free, s) sound =
    same-Advances db.vms w.db.vms (ap (λ (d : Db). d.vms) s) sound
Imported-Advances host cfg name src db h (err e, w) s sound = kept-Advances s sound

-- Every command, whatever its outcome.
pub execute-Advances :
    (host : Host) (codec : Codec) (cfg : Config) (c : Command) (w : World)
    → IsLedger w.db.vms
    → Advances w.db.vms (execute host codec cfg c w).1.db.vms
unfolding execute
execute-Advances host codec cfg
      (Command.run_command vcpus mem_mib count uid gid attach jailer_bin image) w =
    (run-Sound host codec cfg vcpus mem_mib count uid gid attach jailer_bin image).advance w
execute-Advances host codec cfg (Command.restore_command name uid gid attach jailer_bin) w =
    (restore-Sound host codec cfg name uid gid attach jailer_bin).advance w
execute-Advances host codec cfg (Command.destroy_command id) w =
    (destroy-Sound host codec cfg id).advance w
execute-Advances host codec cfg (Command.snapshot_command id name) w =
    (snapshot-Sound host codec cfg id name).advance w
execute-Advances host codec cfg (Command.snapshot_delete_command name) w =
    (snapshot_delete-Sound host codec cfg name).advance w
execute-Advances host codec cfg (Command.ports_add_command id arg) w =
    Changed-Advances id arg false (λ port ports. ports ++ port ∷ []) w.db
      (add host codec cfg id arg w) (λ port ports h k. All-append IsInt ports (port ∷ []) k (h, tt))
      (add-Changed host codec cfg id arg w)
execute-Advances host codec cfg (Command.ports_rm_command id arg) w =
    Changed-Advances id arg true without w.db (rm host codec cfg id arg w)
      (λ port ports h k. without-All port ports k) (rm-without host codec cfg id arg w)
execute-Advances host codec cfg (Command.ports_reload_command id) w =
    (Keeps-Sound (reload-Keeps host codec cfg id)).advance w
execute-Advances host codec cfg (Command.image_import_command name src) w =
    Imported-Advances host cfg name src w.db w.log (import_image host cfg name src w)
      (import_image-Imported host cfg name src w)
execute-Advances host codec cfg (Command.image_upgrade_command name binary init_path) w =
    (Keeps-Sound (upgrade-Keeps host name binary init_path)).advance w
execute-Advances host codec cfg (Command.image_build_command config_of b output size ref) w =
    (Keeps-Sound (build_image-Keeps host config_of b output size ref)).advance w
execute-Advances host codec cfg (Command.image_delete_command name force) w =
    (delete-Sound host name force).advance w

-- In every world that commands reach from one whose vms table is a ledger, in particular from an
-- empty table, it is one: each row belongs to a slot below 1000, has that slot's id, tap, address,
-- cid and unit, and ports that can be read back, and no two rows have the same tap. Hosts,
-- configurations and outcomes of the commands are arbitrary.
pub Reaches-IsLedger : {w v : World} → Reaches w v → IsLedger w.db.vms → IsLedger v.db.vms
Reaches-IsLedger Reaches.here sound = sound
Reaches-IsLedger (Reaches.then_run {v} host codec cfg c reached) sound =
    (execute-Advances host codec cfg c v (Reaches-IsLedger reached sound)).0
