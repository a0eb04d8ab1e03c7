-- ===== src/Replica/Remove.antt =====
-- pkg/replica/replica.go: the removal and the replacement of disks. The children of a disk are a list
-- in the order in which `range` meets them. `none` in place of a result is a panic.
use longhorn_engine.Prelude.{
  ℕ, zero, suc, ◌-◌, String, Bool, false, not, Option, none, some, List, [], ◌∷◌, ◌&&◌, ◌==◌,
  length, set, ltb, if◌then◌else◌, str_eq,
}
use longhorn_engine.Prelude.Dict
use longhorn_engine.Prelude.Dict.{Dict}
use longhorn_engine.Types.{ReplicaError, plain}
use longhorn_engine.Types.Errors.{Texts}
use longhorn_engine.DiffDisk.{DiffFile, Checked, ok, fail, panic, done, remove_index, file_at}
use longhorn_engine.Replica.{Disk, Replica, disk_of, with_disk}
use longhorn_engine.Replica.Maps.{update_child_disk, find_disk}
use longhorn_engine.Replica.Files.{
  Files, disk_meta, encode_to_file, rm_disk, meta_name, snapshot_disk_name, mark_disk_as_removed,
}

-- `append(s[:i], s[i+1:]...)`
abbrev pub drop_at {ℓ} : {A : Type ℓ} → List A → ℕ → List A
drop_at [] i = []
drop_at (x ∷ xs) zero = xs
drop_at (x ∷ xs) (suc i) = x ∷ drop_at xs i

-- The child that is left in the variable of `for child = range children {}`.
unfoldable pub last_child : List String → String
last_child [] = ""
last_child (c ∷ []) = c
last_child (c ∷ cs) = last_child cs

-- The records of `PrepareRemoveAction`.
pub data RemoveAction : Type 0 where
  op_coalesce : String → String → RemoveAction
  op_remove : String → RemoveAction
  op_replace : String → String → RemoveAction
  op_prune : String → String → RemoveAction

-- `processPrepareRemoveDisks`
unfoldable pub process_prepare_remove_disks :
    {F : Type 0} → String → Replica F → Checked (List RemoveAction)
process_prepare_remove_disks name r =
    if not (Dict.has name r.disk_data)
    then fail (plain "wrong disk doesn't exist")
    else elim (Dict.get name r.disk_children_map) [
      | none ↦ ok (op_remove name ∷ [])
      | some [] ↦ ok []
      | some (child ∷ []) ↦ ok (
          if str_eq child r.info.head
          then op_prune name child ∷ []
          else op_coalesce name child ∷ op_replace name child ∷ [])
      | some (c ∷ d ∷ cs) ↦ ok []
    ]

-- The disk that a request names: itself or its snapshot's disk.
unfoldable pub resolve : {F : Type 0} → String → Replica F → Option String
resolve name r =
    if Dict.has name r.disk_data
    then some name
    else if Dict.has (snapshot_disk_name name) r.disk_data
    then some (snapshot_disk_name name)
    else none

-- `PrepareRemoveDisk`; a disk that is not there needs nothing.
unfoldable pub prepare_remove_disk : {F : Type 0} → String → Replica F → Checked (List RemoveAction)
unfolding resolve process_prepare_remove_disks
prepare_remove_disk name r = elim (resolve name r) [
  | none ↦ ok []
  | some disk ↦
      if str_eq disk r.info.head
      then fail (plain "cannot delete the active differencing disk")
      else elim (disk_of disk r) [
        | none ↦ ok []
        | some d ↦
            if not d.removed
            then fail (plain "disk hasn't been marked as removed")
            else process_prepare_remove_disks disk r
      ]
]

module _ {W F : Type 0} (fs : Files W F) (io : DiffFile F) (t : Texts) where
  -- `updateParentDisk`
  unfoldable pub update_parent_disk :
      String → String → Replica F → W → Option ((Replica F × W) × Option ReplicaError)
  unfolding encode_to_file
  update_parent_disk name old_parent r w = elim (Dict.get name r.disk_data) [
    | none ↦ none
    | some p ↦
        let parent : Option String =
          if str_eq old_parent ""
          then some ""
          else elim (disk_of old_parent r) [ none ↦ none | some d ↦ some d.parent ] in
        elim parent [
          | none ↦ none
          | some q ↦
              let d : Disk = record (r.disks p) { parent = q } in
              let (w', tmp, e) =
                encode_to_file fs t r.read_only (disk_meta d) (meta_name d.name) w in
              some ((with_disk p d r, w'), e)
        ]
  ]

  -- The end of `removeDiskNode`, on the live chain.
  unfoldable pub remove_active :
      String → Replica F → W → Option ((Replica F × W) × Option ReplicaError)
  unfolding find_disk
  remove_active name r w =
      let index = find_disk name r in
      if index == 0 then some ((r, w), none) else elim (remove_index io index r.volume) [
        | panic ↦ none
        | done v (some e) ↦ some ((record r { volume = v }, w), some e)
        | done v none ↦
            let parent : Option String =
              if length r.active_disk_data - 2 == index
              then elim (disk_of r.info.head r) [ none ↦ none | some d ↦ some d.parent ]
              else some r.info.parent in
            elim parent [
              | none ↦ none
              | some q ↦ some (
                (
                  record r {
                    volume = v;
                    info = record r.info { parent = q };
                    active_disk_data = drop_at r.active_disk_data index;
                  },
                  w,
                ),
                none,
              )
            ]
      ]

  -- `removeDiskNode`
  unfoldable pub remove_disk_node :
      String → Bool → Replica F → W → Option ((Replica F × W) × Option ReplicaError)
  unfolding update_child_disk update_parent_disk remove_active last_child
  remove_disk_node name force r w = elim (Dict.get name r.disk_children_map) [
    | none ↦ elim (update_child_disk name "" r) [
      | none ↦ none
      | some r' ↦ some ((record r' { disk_data = Dict.delete name r'.disk_data }, w), none)
    ]
    | some children ↦
        if ltb 1 (length children) && not force
        then some ((r, w), some (plain "cannot remove snapshot with children"))
        else let child = last_child children in
          elim (update_child_disk name child r) [
            | none ↦ none
            | some r₁ ↦ elim (update_parent_disk child name r₁ w) [
              | none ↦ none
              | some ((r₂, w₂), some e) ↦ some ((r₂, w₂), some e)
              | some ((r₂, w₂), none) ↦
                  remove_active name
                    (record r₂ {
                      disk_data = Dict.delete name r₂.disk_data;
                      disk_children_map = Dict.delete name r₂.disk_children_map;
                    })
                    w₂
            ]
          ]
  ]

  -- `RemoveDiffDisk`
  unfoldable pub remove_diff_disk :
      String → Bool → Replica F → W → Option ((Replica F × W) × Option ReplicaError)
  unfolding remove_disk_node rm_disk
  remove_diff_disk name force r w =
      if str_eq name r.info.head
      then some ((r, w), some (plain "cannot delete the active differencing disk"))
      else elim (remove_disk_node name force r w) [
        | none ↦ none
        | some (s, some e) ↦ some (s, some e)
        | some ((r', w'), none) ↦ let (w'', e) = rm_disk fs t name w' in some ((r', w''), e)
      ]

  -- `MarkDiskAsRemoved`
  unfoldable pub mark_disk : String → Replica F → W → (Replica F × W) × Option ReplicaError
  unfolding resolve mark_disk_as_removed
  mark_disk name r w = elim (resolve name r) [
    | none ↦ ((r, w), none)
    | some disk ↦
        if str_eq disk r.info.head
        then ((r, w), some (plain "cannot mark the active differencing disk as removed"))
        else mark_disk_as_removed fs t disk r w
  ]

  -- `hardlinkDisk`
  unfoldable pub hardlink_disk : String → String → W → W × Option ReplicaError
  hardlink_disk target source w = elim (fs.stat source w) [
    | none ↦ (w, some (plain "cannot find source of replacing"))
    | some _ ↦
        let (w₁, e₁) = elim (fs.stat target w) as (λ x. W × Option ReplicaError) [
          | none ↦ (w, none)
          | some _ ↦ fs.remove target w
        ] in
        elim e₁ [ some e ↦ (w₁, some e) | none ↦ fs.link source target w₁ ]
  ]

  -- The end of `ReplaceDisk`: the file of the target is opened anew.
  unfoldable pub reopen : String → Replica F → W → Option ((Replica F × W) × Option ReplicaError)
  unfolding find_disk
  reopen target r w =
      let index = find_disk target r in
      if index == 0 then some ((r, w), none) else elim (file_at r.volume.files index) [
        | none ↦ none
        | some f ↦ elim (io.close f) [
          | some e ↦ some ((r, w), some e)
          | none ↦
              let (w', opened) = fs.open_file target false w in
              elim opened [
                | fail e ↦ some ((r, w'), some e)
                | ok g ↦ some (
                  (
                    record r {
                      volume = record r.volume { files = set r.volume.files index (some g) };
                    },
                    w',
                  ),
                  none,
                )
              ]
        ]
      ]

  -- `ReplaceDisk`
  unfoldable pub replace_disk :
      String → String → Replica F → W → Option ((Replica F × W) × Option ReplicaError)
  unfolding hardlink_disk remove_disk_node rm_disk reopen
  replace_disk target source r w =
      if str_eq target r.info.head
      then some ((r, w), some (plain "cannot replace the active differencing disk"))
      else let (w₁, e₁) = hardlink_disk target source w in
        elim e₁ [
          | some e ↦ some ((r, w₁), some e)
          | none ↦ elim (remove_disk_node source false r w₁) [
            | none ↦ none
            | some (s, some e) ↦ some (s, some e)
            | some ((r₂, w₂), none) ↦
                let (w₃, e₃) = rm_disk fs t source w₂ in
                elim e₃ [ some e ↦ some ((r₂, w₃), some e) | none ↦ reopen target r₂ w₃ ]
          ]
        ]
