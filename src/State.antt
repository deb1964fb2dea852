-- ===== src/State.antt =====
-- Package state (state/state.go): the ledger of VMs, images and snapshots in SQLite.
pub mod Names
pub mod Migrations
pub mod Ports
pub mod Vms
pub mod Images
pub mod Snapshots
