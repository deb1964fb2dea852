-- ===== src/Cmd/Vms.antt =====
-- cmd/run.go, cmd/restore.go, cmd/destroy.go and cmd/snapshot.go.
pub mod Lookup
pub mod Destroyed
pub mod Restored
pub mod Snapshotted
pub mod Reads
pub mod Moved
pub mod Sound
pub mod Emptied
pub mod Started
use firecracker_lab.Prelude.{
  Text, codes, ℕ, zero, suc, ℤ, pos, negsuc, Bool, true, false, Option, none, some, List, [], ◌∷◌,
  ◌++◌,
}
use firecracker_lab.Agent.{Codec}
use firecracker_lab.State.Vms.{Vm}
use firecracker_lab.State.Vms
use firecracker_lab.State.Images
use firecracker_lab.State.Snapshots.{Snapshot}
use firecracker_lab.State.Snapshots
use firecracker_lab.World.Rows.{Image}
use firecracker_lab.World.{
  Host, Error, message, wrap, Result, ok, err, World, Action, ⊤, pure, raise, attempt, wrapping,
  ◌>>=◌, ◌>>◌,
}
use firecracker_lab.Runner.{Runner}
use firecracker_lab.Runner.Lifecycle
use firecracker_lab.Cmd.Images.{known_image}
use firecracker_lab.Cmd.{Config, new_runner, plain_runner, snapshot_dir, load, require_vm}

-- The image to use when none is named.
unfoldable pub only_image : List Image → Action Image
only_image [] = raise (message (codes "no images registered"))
only_image (img ∷ []) = pure img
only_image (img ∷ more ∷ rest) = raise (message (codes "--image is required"))

-- `if snap == nil`
unfoldable pub known_snapshot : Text → Option Snapshot → Action Snapshot
known_snapshot name none = raise (message (codes "unknown snapshot: " ++ name))
known_snapshot name (some snap) = pure snap

-- `if existing != nil`
unfoldable pub unused_name : Text → Option Snapshot → Action ⊤
unused_name name none = pure tt
unused_name name (some snap) = raise (message (codes "snapshot already exists: " ++ name))

-- `for range flagCount`: a count below one is no round.
unfoldable pub rounds_of : ℤ → ℕ
rounds_of (pos n) = n
rounds_of (negsuc n) = 0

module _ (host : Host) (codec : Codec) (cfg : Config) where
  unfoldable pub resolve_image : Text → Action Image
  unfolding only_image
  resolve_image [] = Images.list host >>= only_image
  resolve_image (c ∷ name) = Images.get_by_name host (c ∷ name) >>= known_image (c ∷ name)

  -- The loop of `run`. A VM that fails to run ends it, and its row stays in the table.
  unfoldable pub run_vms : Runner → ℤ → ℤ → Bool → Image → ℕ → Action ⊤
  run_vms r vcpus mem_mib attach img zero = pure tt
  run_vms r vcpus mem_mib attach img (suc n) = do
    v ← Vms.allocate_and_insert host vcpus mem_mib img.id none
    wrapping (codes "run " ++ v.id) (Lifecycle.run_vm host codec r v img.path attach)
    run_vms r vcpus mem_mib attach img n

  -- `labctl run`
  unfoldable pub run : ℤ → ℤ → ℤ → ℤ → ℤ → Bool → Text → Text → Action ⊤
  run vcpus mem_mib count uid gid attach jailer_bin image = do
    load host
    img ← resolve_image image
    run_vms (new_runner cfg jailer_bin uid gid) vcpus mem_mib attach img (rounds_of count)

  -- What follows `r.Restore`: on an error the row is removed, and an error of that is dropped.
  after_restore : Text → Result ⊤ → Action ⊤
  after_restore id (ok _) = pure tt
  after_restore id (err e) = do
    attempt (Vms.remove host id)
    raise (wrap (codes "restore " ++ id) e)

  boot_snapshot : Runner → Bool → Snapshot → Vm → Action ⊤
  unfolding after_restore
  boot_snapshot r attach snap v = do
    restored ← attempt (Lifecycle.restore host codec r v snap.dir attach)
    after_restore v.id restored

  -- `labctl restore`
  unfoldable pub restore : Text → ℤ → ℤ → Bool → Text → Action ⊤
  unfolding boot_snapshot
  restore name uid gid attach jailer_bin = do
    load host
    snap ← Snapshots.get_by_name host name >>= known_snapshot name
    v ← Vms.allocate_and_insert host snap.vcpus snap.mem_mib [] (some snap.ports)
    boot_snapshot (new_runner cfg jailer_bin uid gid) attach snap v

  -- `labctl destroy`
  unfoldable pub destroy : Text → Action ⊤
  destroy id = do
    load host
    v ← require_vm host id
    Lifecycle.destroy host codec (plain_runner cfg) v
    Vms.remove host id

  named : Text → Action ⊤
  named [] = raise (message (codes "--name is required"))
  named (c ∷ name) = pure tt

  -- `labctl snapshot`
  unfoldable pub snapshot : Text → Text → Action ⊤
  unfolding named
  snapshot id name = do
    named name
    load host
    v ← require_vm host id
    existing ← Snapshots.get_by_name host name
    unused_name name existing
    wrapping (codes "snapshot " ++ id)
        (Lifecycle.snapshot host codec (plain_runner cfg) v (snapshot_dir cfg name))
    Snapshots.insert host name (snapshot_dir cfg name) v.vcpus v.mem_mib (some v.ports)
    Vms.remove host id

  -- `labctl snapshot delete`
  unfoldable pub snapshot_delete : Text → Action ⊤
  snapshot_delete name = do
    load host
    snap ← Snapshots.get_by_name host name >>= known_snapshot name
    Snapshots.delete host snap.id
