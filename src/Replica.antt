-- ===== src/Replica.antt =====
-- pkg/replica/replica.go: a replica, the chain of disks that hold a volume's snapshots and its head.
-- This file has the state; the children have the operations on the maps of disks, the files, the
-- creation and the removal of disks.
--
-- A disk record is a pointer that the map of disks and the slice of active disks share: the records
-- are in a store, a function from pointers, where `fresh` is the next free one. The files of the
-- directory are the state of another process: its calls are the interface of Replica.Files.
pub mod Maps
pub mod Files
pub mod Create
pub mod Remove
pub mod Unmap
pub mod Undos
pub mod Rollback
pub mod Chain
pub mod Snapshots
pub mod Walks
pub mod Removal
pub mod Lifecycle
pub mod Server
pub mod Revert
pub mod States
use longhorn_engine.Prelude.{
  ℕ, ◌+◌, ◌-◌, String, Bool, true, false, Option, none, some, List, [], ◌∷◌, length, get_elem?,
  if◌then◌else◌, ◌==◌, str_eq,
}
use longhorn_engine.Prelude.Dict
use longhorn_engine.Prelude.Dict.{Dict}
use longhorn_engine.DiffDisk.{DiffDisk}

-- `disk`
pub record Disk : Type 0 where
  pub name : String
  pub parent : String
  pub removed : Bool
  pub user_created : Bool
  pub created : String
  pub labels : Dict String

-- `Info`. Of the backing file only the path is kept.
pub record Info : Type 0 where
  pub size : ℕ
  pub head : String
  pub dirty : Bool
  pub rebuilding : Bool
  pub error : String
  pub parent : String
  pub sector_size : ℕ
  pub backing_file_path : String
  pub backing_file : Option String

-- `Replica`, without its lock and its revision counter. The inner maps of `disk_children_map` are
-- lists of names. Index 0 of `active_disk_data` is nil, or an empty disk before a backing file.
pub record Replica (F : Type 0) : Type 0 where
  pub volume : DiffDisk F
  pub info : Info
  pub disks : ℕ → Disk
  pub fresh : ℕ
  pub disk_data : Dict ℕ
  pub disk_children_map : Dict (List String)
  pub active_disk_data : List (Option ℕ)
  pub read_only : Bool
  pub unmap_mark_disk_chain_removed : Bool
  pub snapshot_max_count : ℕ
  pub snapshot_max_size : ℕ

-- The record under a name of the map.
abbrev pub disk_of : {F : Type 0} → String → Replica F → Option Disk
disk_of name r = elim (Dict.get name r.disk_data) [ none ↦ none | some p ↦ some (r.disks p) ]

-- Changing the record behind a pointer.
abbrev pub with_disk : {F : Type 0} → ℕ → Disk → Replica F → Replica F
with_disk p d r = record r { disks = λ q. if p == q then d else r.disks q }
