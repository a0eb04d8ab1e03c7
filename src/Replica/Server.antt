-- ===== src/Replica/Server.antt =====
-- pkg/replica/server.go: the server of a replica, which is open while it has one, and its operations.
-- Each holds the server's lock. The directory is an absolute path. `New` of pkg/replica/replica.go and
-- the file of the volume's metadata are arguments.
use longhorn_engine.Prelude.{
  ℕ, String, Bool, true, false, not, Option, none, some, List, [], ◌&&◌, ◌||◌, ltb, if◌then◌else◌,
  str_eq,
}
use longhorn_engine.Prelude.Dict.{Dict}
use longhorn_engine.Prelude.Int.{ℤ, pos}
use longhorn_engine.Types.{ReplicaError, plain}
use longhorn_engine.Types.Errors.{Texts}
use longhorn_engine.DiffDisk.{DiffFile, Checked, ok, fail}
use longhorn_engine.Replica.{Info, Replica}
use longhorn_engine.Replica.Files.{Files}
use longhorn_engine.Replica.Create
use longhorn_engine.Replica.Create.{DiskRequest}
use longhorn_engine.Replica.Remove
use longhorn_engine.Replica.Remove.{RemoveAction}
use longhorn_engine.Replica.Lifecycle
use longhorn_engine.Replica.Unmap

-- `types.ReplicaState`
pub data State : Type 0 where
  initial : State
  opened : State
  closed : State
  dirty : State
  rebuilding : State
  errored : State

-- What the file of the volume's metadata is to `ReadInfo` and `checkValidVolumeMetaData`.
pub data VolumeFile : Type 0 where
  no_file : VolumeFile
  empty_file : VolumeFile
  unreadable : ReplicaError → VolumeFile
  holds : Info → VolumeFile

-- `BackingFile`, of which the server reads the sector size.
pub record BackingFile : Type 0 where
  pub path : String
  pub sector_size : ℕ

-- The arguments of `New` that the server keeps.
pub record Settings : Type 0 where
  pub backing : Option BackingFile
  pub revision_counter_disabled : Bool
  pub unmap_mark_disk_chain_removed : Bool
  pub snapshot_max_count : ℕ
  pub snapshot_max_size : ℕ

-- `Server`
pub record Server (F : Type 0) : Type 0 where
  pub replica : Option (Replica F)
  pub sector_size : ℕ
  pub settings : Settings

-- `NewServer`
unfoldable pub new_server : {F : Type 0} → ℕ → Settings → Server F
new_server sector_size settings = record {
  replica = none;
  sector_size = sector_size;
  settings = settings;
}

-- `getSectorSize`
unfoldable pub get_sector_size : {F : Type 0} → Server F → ℕ
get_sector_size s = elim s.settings.backing [
  | none ↦ s.sector_size
  | some b ↦ if ltb 0 b.sector_size then b.sector_size else s.sector_size
]

-- The zero `Info`.
abbrev pub zero_info : Info
zero_info = record {
  size = 0;
  head = "";
  dirty = false;
  rebuilding = false;
  error = "";
  parent = "";
  sector_size = 0;
  backing_file_path = "";
  backing_file = none;
}

-- The state of an open replica.
unfoldable pub state_of : Info → State
state_of i =
    if not (str_eq i.error "")
    then errored
    else if i.rebuilding
    then rebuilding
    else if i.dirty
    then dirty
    else opened

module _ {W F : Type 0} (fs : Files W F) (io : DiffFile F) (t : Texts)
    (volume_file : W → VolumeFile) (make : ℕ → ℕ → Settings → W → W × Checked (Replica F)) where
  -- `Status`
  unfoldable pub status : Server F → W → State × Info
  unfolding state_of
  status s w = elim s.replica [
    | some r ↦ (state_of r.info, r.info)
    | none ↦ elim (volume_file w) [
      | no_file ↦ (initial, zero_info)
      | empty_file ↦ (initial, zero_info)
      | unreadable e ↦ (errored, zero_info)
      | holds i ↦ (closed, i)
    ]
  ]

  abbrev is_initial : State → Bool
  is_initial initial = true
  is_initial st = false

  abbrev can_rebuild : State → Bool
  can_rebuild opened = true
  can_rebuild dirty = true
  can_rebuild st = false

  abbrev is_rebuilding : State → Bool
  is_rebuilding rebuilding = true
  is_rebuilding st = false

  -- `Create`
  unfoldable pub create : ℕ → Server F → W → W × Option ReplicaError
  unfolding status get_sector_size
  create size s w =
      if not (is_initial (status s w).0)
      then (w, none)
      else let (w₁, made) = make size (get_sector_size s) s.settings w in
        elim made [ fail e ↦ (w₁, some e) | ok r ↦ Lifecycle.close fs t r w₁ ]

  -- `Open`
  unfoldable pub open_server : Server F → W → (Server F × W) × Option ReplicaError
  unfolding status get_sector_size
  open_server s w = elim s.replica [
    | some r ↦ ((s, w), some (plain "replica is already open"))
    | none ↦
        let (w₁, made) = make (status s w).1.size (get_sector_size s) s.settings w in
        elim made [
          | fail e ↦ ((s, w₁), some e)
          | ok r ↦ ((record s { replica = some r }, w₁), none)
        ]
  ]

  -- `New` with a replica's own settings, as its `Reload` calls it.
  abbrev own_settings : Server F → Replica F → Settings
  own_settings s r = record s.settings {
    unmap_mark_disk_chain_removed = r.unmap_mark_disk_chain_removed;
    snapshot_max_count = r.snapshot_max_count;
    snapshot_max_size = r.snapshot_max_size;
  }

  unfoldable pub reload_replica : Server F → Replica F → W → W × Checked (Replica F)
  reload_replica s r w =
      Lifecycle.reload_with (λ size sector w'. make size sector (own_settings s r) w') r w

  -- `Reload`, which drops what the old replica's `Close` returns.
  unfoldable pub reload : Server F → W → (Server F × W) × Option ReplicaError
  unfolding reload_replica
  reload s w = elim s.replica [
    | none ↦ ((s, w), none)
    | some r ↦
        let (w₁, made) = reload_replica s r w in
        elim made [
          | fail e ↦ ((s, w₁), some e)
          | ok r' ↦ ((record s { replica = some r' }, (Lifecycle.close fs t r w₁).0), none)
        ]
  ]

  -- `SetRebuilding`
  unfoldable pub set_rebuilding : Bool → Server F → W → (Server F × W) × Option ReplicaError
  unfolding status
  set_rebuilding on s w =
      let st = (status s w).0 in
      if (on && not (can_rebuild st)) || (not on && not (is_rebuilding st))
      then ((s, w), some (plain "cannot set rebuilding"))
      else elim s.replica [
        | none ↦ ((s, w), none)  -- not reached: no such state
        | some r ↦
            let ((r', w'), e) = Lifecycle.set_rebuilding fs t on r w in
            ((record s { replica = some r' }, w'), e)
      ]

  -- `Revert`. `none` is a panic.
  unfoldable pub revert :
      String → String → Server F → W → Option ((Server F × W) × Option ReplicaError)
  unfolding reload_replica
  revert name created s w = elim s.replica [
    | none ↦ some ((s, w), none)
    | some r ↦ elim (Lifecycle.revert_disk fs t (reload_replica s) name created r w) [
      | none ↦ none
      | some (w', made, some x) ↦ some ((s, w'), some x)
      | some (w', made, none) ↦ some ((record s { replica = made }, w'), none)
    ]
  ]

  -- An operation of the open replica; a closed server does nothing. `none` is a panic.
  unfoldable pub on_replica :
      (Replica F → W → Option ((Replica F × W) × Option ReplicaError))
      → Server F
      → W
      → Option ((Server F × W) × Option ReplicaError)
  on_replica f s w = elim s.replica [
    | none ↦ some ((s, w), none)
    | some r ↦ elim (f r w) [
      | none ↦ none
      | some ((r', w'), e) ↦ some ((record s { replica = some r' }, w'), e)
    ]
  ]

  -- `Snapshot`, `Expand`, `RemoveDiffDisk`, `ReplaceDisk` and `MarkDiskAsRemoved`
  unfoldable pub snapshot :
      String
      → Bool
      → String
      → Dict String
      → Server F
      → W
      → Option ((Server F × W) × Option ReplicaError)
  unfolding on_replica
  snapshot name user_created created labels =
      on_replica (Create.snapshot fs t name user_created created labels)

  unfoldable pub expand : DiskRequest → Server F → W → Option ((Server F × W) × Option ReplicaError)
  unfolding on_replica
  expand request = on_replica (Create.expand fs t request)

  unfoldable pub remove_diff_disk :
      String → Bool → Server F → W → Option ((Server F × W) × Option ReplicaError)
  unfolding on_replica
  remove_diff_disk name force = on_replica (Remove.remove_diff_disk fs io t name force)

  unfoldable pub replace_disk :
      String → String → Server F → W → Option ((Server F × W) × Option ReplicaError)
  unfolding on_replica
  replace_disk target source = on_replica (Remove.replace_disk fs io t target source)

  unfoldable pub mark_disk_as_removed :
      String → Server F → W → Option ((Server F × W) × Option ReplicaError)
  unfolding on_replica
  mark_disk_as_removed name = on_replica (λ r w. some (Remove.mark_disk fs io t name r w))

  -- `PrepareRemoveDisk`
  unfoldable pub prepare_remove_disk : String → Server F → Checked (List RemoveAction)
  prepare_remove_disk name s = elim s.replica [
    | none ↦ ok []
    | some r ↦ Remove.prepare_remove_disk name r
  ]

  -- `SetUnmapMarkDiskChainRemoved`, `SetSnapshotMaxCount` and `SetSnapshotMaxSize`
  unfoldable pub set_unmap_mark : Bool → Server F → Server F
  set_unmap_mark enabled s = record s {
    settings = record s.settings { unmap_mark_disk_chain_removed = enabled };
    replica = elim s.replica [
      | none ↦ none
      | some r ↦ some (record r { unmap_mark_disk_chain_removed = enabled })
    ];
  }

  unfoldable pub set_snapshot_max_count : ℕ → Server F → Server F
  set_snapshot_max_count count s = record s {
    settings = record s.settings { snapshot_max_count = count };
    replica = elim s.replica [
      | none ↦ none
      | some r ↦ some (record r { snapshot_max_count = count })
    ];
  }

  unfoldable pub set_snapshot_max_size : ℕ → Server F → Server F
  set_snapshot_max_size size s = record s {
    settings = record s.settings { snapshot_max_size = size };
    replica = elim s.replica [
      | none ↦ none
      | some r ↦ some (record r { snapshot_max_size = size })
    ];
  }

  -- `Close`
  unfoldable pub close : Server F → W → (Server F × W) × Option ReplicaError
  close s w = elim s.replica [
    | none ↦ ((s, w), none)
    | some r ↦
        let (w', e) = Lifecycle.close fs t r w in
        elim e [ some x ↦ ((s, w'), some x) | none ↦ ((record s { replica = none }, w'), none) ]
  ]

  -- `Delete`
  unfoldable pub delete : Server F → W → (Server F × W) × Option ReplicaError
  delete s w = elim s.replica [
    | none ↦ ((s, w), none)
    | some r ↦
        let (w', e) = Lifecycle.close fs t r w in
        elim e [
          | some x ↦ ((s, w'), some x)
          | none ↦ ((record s { replica = none }, Lifecycle.delete fs t r w'), none)
        ]
  ]

  -- `UnmapAt`
  unfoldable pub unmap_at : ℕ → ℕ → Server F → W → Option ((Server F × W) × ℤ × Option ReplicaError)
  unmap_at len off s w = elim s.replica [
    | none ↦ some ((s, w), pos 0, some (plain "replica no longer exist"))
    | some r ↦ elim (Unmap.unmap_at fs io t len off r w) [
      | none ↦ none
      | some ((r', w'), n, e) ↦ some ((record s { replica = some r' }, w'), n, e)
    ]
  ]

  -- `PingResponse`
  unfoldable pub ping_response : Server F → W → Option ReplicaError
  unfolding status
  ping_response s w = elim (status s w).0 [
    | errored ↦ some (plain "ping failure due to an error")
    | opened ↦ none
    | dirty ↦ none
    | rebuilding ↦ none
    | initial ↦ some (plain "ping failure: replica state")
    | closed ↦ some (plain "ping failure: replica state")
  ]
