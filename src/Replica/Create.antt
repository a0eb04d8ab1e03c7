-- ===== src/Replica/Create.antt =====
-- pkg/replica/replica.go: `createDisk`, which makes a snapshot of the head, and `Snapshot`, `Expand`
-- and the counts of snapshots that stand around it. `none` in place of a result is a panic.
use longhorn_engine.Prelude.{
  ℕ, ◌+◌, ◌%◌, String, Bool, true, not, Option, none, some, List, [], ◌∷◌, ◌++◌, ◌||◌, ◌&&◌, ◌==◌,
  leb, ltb, if◌then◌else◌, str_eq,
}
use longhorn_engine.Prelude.Dict
use longhorn_engine.Prelude.Dict.{Dict}
use longhorn_engine.Types.{ReplicaError, plain}
use longhorn_engine.Types.Errors.{Texts, function_error_with_rollback, wrap_error}
use longhorn_engine.DiffDisk
use longhorn_engine.DiffDisk.{DiffDisk}
use longhorn_engine.Controller.Io.{volume_sector_size}
use longhorn_engine.Replica.{Disk, Info, Replica, with_disk}
use longhorn_engine.Replica.Maps.{add_child_disk, update_child_disk}
use longhorn_engine.Replica.Files.{
  Files, volume_meta, disk_meta, Undo, undo_maps, undo_meta, undo_all, encode_to_file,
  create_new_head, link_disk, NewHead, rm_disk, meta_name, volume_meta_data, snapshot_disk_name,
}

-- Whether a disk is no snapshot: removed, the disk of a name, or the head.
abbrev pub no_snapshot : String → String → Disk → Bool
no_snapshot backing head d = d.removed || (str_eq d.name backing || str_eq d.name head)

-- The loop of `getSnapshotCountUsage`.
unfoldable pub count_from : String → String → (ℕ → Disk) → Dict ℕ → ℕ
count_from backing head disks [] = 0
count_from backing head disks ((name, p) ∷ es) =
    let rest = count_from backing head disks es in
    if no_snapshot backing head (disks p) then rest else rest + 1

-- `getSnapshotCountUsage`: the name to leave out is that of index 0 of the active disks.
unfoldable pub snapshot_count_usage : {F : Type 0} → Replica F → ℕ
unfolding count_from
snapshot_count_usage r =
    let backing : String = elim r.active_disk_data [
      | [] ↦ ""
      | (none ∷ ps) ↦ ""
      | (some p ∷ ps) ↦ (r.disks p).name
    ] in
    count_from backing r.info.head r.disks r.disk_data

-- The record of the last active disk, which is renamed to the snapshot.
abbrev pub last_pointer : List (Option ℕ) → Option ℕ
last_pointer [] = none
last_pointer (p ∷ []) = p
last_pointer (p ∷ ps) = last_pointer ps

-- The arguments of `createDisk`.
pub record DiskRequest : Type 0 where
  pub name : String
  pub user_created : Bool
  pub created : String
  pub labels : Dict String
  pub size : ℕ

module _ {W F : Type 0} (fs : Files W F) (t : Texts) where
  -- The deferred function on an error: the rollbacks run in the order of their list.
  unfoldable pub create_failed :
      List (Undo F) → ReplicaError → Replica F × W → (Replica F × W) × Option ReplicaError
  unfolding undo_all
  create_failed undos e s =
      let (s', e') = undo_all fs t undos none s in
      (s', wrap_error t (function_error_with_rollback t (some e) e') "failed to create new disk")

  -- The new `info` of a disk with its head, its snapshot and its size.
  abbrev pub next_info : Info → NewHead fs t → String → ℕ → Info
  next_info i h snapshot size = record i {
    head = h.disk.name;
    dirty = true;
    parent = snapshot;
    size = size;
  }

  -- The maps with the new head.
  unfoldable pub enter_head : NewHead fs t → Replica F → Replica F
  enter_head h r = record r {
    disks = λ q. if r.fresh == q then h.disk else r.disks q;
    fresh = r.fresh + 1;
    disk_data = Dict.put h.disk.name r.fresh r.disk_data;
  }

  -- The end without an error: the old head leaves the map, the new one becomes the head.
  unfoldable pub finish_head : NewHead fs t → ℕ → Info → Replica F → Replica F
  finish_head h p i r = record r {
    disk_data = Dict.delete r.info.head r.disk_data;
    info = i;
    volume = record r.volume { files = r.volume.files ++ (some h.file ∷ []) };
    active_disk_data = r.active_disk_data ++ (some p ∷ []);
  }

  -- The old head under the name of the snapshot, the record of which it keeps, with its marks.
  unfoldable pub enter_snapshot : NewHead fs t → DiskRequest → String → ℕ → Replica F → Replica F
  unfolding add_child_disk
  enter_snapshot h q snapshot p r =
      with_disk p
        (record (r.disks p) {
          user_created = q.user_created;
          created = q.created;
          labels = q.labels;
        })
        (record r {
          disk_children_map = add_child_disk snapshot h.disk.name r.disk_children_map;
          disk_data = Dict.put snapshot p r.disk_data;
        })

  -- The renaming of the old head, in the children of its parent and in the last active record.
  unfoldable pub rename_head : String → Replica F → Option (Replica F)
  unfolding update_child_disk
  rename_head snapshot r = elim (update_child_disk r.info.head snapshot r) [
    | none ↦ none
    | some r' ↦ elim (last_pointer r'.active_disk_data) [
      | none ↦ none
      | some p ↦ some (with_disk p (record (r'.disks p) { name = snapshot }) r')
    ]
  ]

  -- The part of `createDisk` after the volume's metadata is written.
  unfoldable pub create_maps :
      NewHead fs t
      → DiskRequest
      → String
      → List (Undo F)
      → Replica F
      → W
      → Option ((Replica F × W) × Option ReplicaError)
  unfolding enter_head enter_snapshot rename_head finish_head encode_to_file create_failed
  create_maps h q snapshot undos r w =
      let p = r.fresh in
      let i = next_info r.info h snapshot q.size in
      let r₁ = enter_head h r in
      if str_eq snapshot ""
      then some ((finish_head h p i r₁, w), none)
      else elim (Dict.get r.info.head r₁.disk_data) [
        | none ↦ none
        | some old ↦
            let r₂ = enter_snapshot h q snapshot old r₁ in
            let undos' = undos ++ (undo_maps h.disk.name snapshot ∷ []) in
            let (w', undo, e) =
              encode_to_file fs t r₂.read_only (disk_meta (r₂.disks old)) (meta_name snapshot) w in
            elim e [
              | some x ↦ some (create_failed undos' x (r₂, w'))
              | none ↦ elim (rename_head snapshot r₂) [
                | none ↦ none
                | some r₃ ↦ some ((finish_head h p i r₃, w'), none)
              ]
            ]
      ]

  -- The steps of `createDisk` on the files, up to the volume's metadata.
  unfoldable pub create_files :
      DiskRequest → String → Replica F → W → Option ((Replica F × W) × Option ReplicaError)
  unfolding create_new_head link_disk encode_to_file create_maps create_failed
  create_files q snapshot r w =
      elim (create_new_head fs t r.read_only r.info.head snapshot q.created q.size w) [
        | none ↦ none
        | some (w₁, none, none) ↦ none
        | some (w₁, none, some e) ↦ some (create_failed [] e (r, w₁))
        | some (w₁, some h, e₁) ↦
            let (w₂, undo₂, e₂) = link_disk fs t r.info.head snapshot w₁ in
            elim e₂ [
              | some e ↦ some (create_failed (h.rollback ∷ []) e (r, w₂))
              | none ↦
                  let (w₃, undo₃, e₃) =
                    encode_to_file fs t r.read_only
                      (volume_meta (next_info r.info h snapshot q.size)) volume_meta_data w₂ in
                  elim e₃ [
                    | some e ↦ some (create_failed (h.rollback ∷ undo₂ ∷ []) e (r, w₃))
                    | none ↦
                        create_maps h q snapshot (h.rollback ∷ undo₂ ∷ undo_meta undo₃ ∷ []) r w₃
                  ]
            ]
      ]

  -- `createDisk`. Without an error the files of the old head are removed.
  unfoldable pub create_disk :
      DiskRequest → Replica F → W → Option ((Replica F × W) × Option ReplicaError)
  unfolding create_files rm_disk snapshot_count_usage
  create_disk q r w =
      let old_head = r.info.head in
      let snapshot = if str_eq old_head "" then "" else snapshot_disk_name q.name in
      if r.read_only
      then some ((r, w), some (plain "cannot create disk on read-only replica"))
      else if leb r.snapshot_max_count (snapshot_count_usage r)
      then some ((r, w), some (plain "too many active disks"))
      else if not (str_eq snapshot "") && Dict.has snapshot r.disk_data
      then some ((r, w), some (plain "snapshot is already existing"))
      else elim (create_files q snapshot r w) [
        | none ↦ none
        | some (s, some e) ↦ some (s, some e)
        | some ((r', w'), none) ↦ some ((r', (rm_disk fs t old_head w').0), none)
      ]

  -- `Snapshot`
  unfoldable pub snapshot :
      String
      → Bool
      → String
      → Dict String
      → Replica F
      → W
      → Option ((Replica F × W) × Option ReplicaError)
  snapshot name user_created created labels r w =
      create_disk
        (record {
          name = name;
          user_created = user_created;
          created = created;
          labels = labels;
          size = r.info.size;
        })
        r w

  -- `Expand`; `request` is the disk request that the expansion's name, labels and time make. A panic
  -- of the disk's own `Expand` is one here.
  unfoldable pub expand :
      DiskRequest → Replica F → W → Option ((Replica F × W) × Option ReplicaError)
  expand request r w =
      let size = request.size in
      if not (size % volume_sector_size == 0)
      then some ((r, w), some (plain "not multiple of volume sector size"))
      else if ltb size r.info.size
      then some ((r, w), some (plain "cannot expand replica to a smaller size"))
      else if r.info.size == size
      then some ((r, w), none)
      else elim (create_disk request r w) [
        | none ↦ none
        | some (s, some e) ↦ some (s, some e)
        | some ((r', w'), none) ↦ elim (DiffDisk.expand size r'.volume) [
          | DiffDisk.panic ↦ none
          | DiffDisk.done v _ ↦ some ((record r' { volume = v }, w'), none)
        ]
      ]
