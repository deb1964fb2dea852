-- ===== src/World/Rows.antt =====
-- The tables of the state database (state/state.go, `schema`). The columns status, pid and
-- created_at and the table jobs are never read or written by the program, and are left out.
use firecracker_lab.Prelude.{Text, ℕ, ℤ, Option, List}

pub record VmRow : Type 0 where
  pub id : Text
  pub tap : Text
  pub ip : Text
  pub cid : ℕ
  pub vcpus : ℤ
  pub mem_mib : ℤ
  pub image_id : Option Text
  pub unit : Option Text
  pub ports : Text

pub record Image : Type 0 where
  pub id : Text
  pub name : Text
  pub path : Text
  pub size_bytes : ℕ

pub record SnapshotRow : Type 0 where
  pub id : Text
  pub name : Text
  pub dir : Text
  pub vcpus : ℤ
  pub mem_mib : ℤ
  pub ports : Text

pub record Db : Type 0 where
  pub vms : List VmRow
  pub images : List Image
  pub snapshots : List SnapshotRow
