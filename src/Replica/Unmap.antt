-- ===== src/Replica/Unmap.antt =====
-- pkg/replica/replica.go: `UnmapAt`, without its revision counter.
use longhorn_engine.Prelude.{
  ℕ, zero, suc, ◌-◌, String, true, false, Option, none, some, List, [], ◌∷◌, ◌++◌, length,
  get_elem?, ltb, if◌then◌else◌,
}
use longhorn_engine.Prelude.Int.{ℤ, pos}
use longhorn_engine.Prelude.Dict
use longhorn_engine.Types.{ReplicaError, plain}
use longhorn_engine.Types.Errors.{Texts}
use longhorn_engine.DiffDisk.{DiffFile, panic, done}
use longhorn_engine.DiffDisk.Unmap
use longhorn_engine.Replica.{Replica}
use longhorn_engine.Replica.Files.{Files, mark_disk_as_removed}

-- The last index that the loop looks at.
abbrev pub last_snapshot_index : {F : Type 0} → Replica F → ℕ
last_snapshot_index r = elim r.info.backing_file [ none ↦ 1 | some p ↦ 2 ]

module _ {W F : Type 0} (fs : Files W F) (io : DiffFile F) (t : Texts) where
  -- The loop over the active disks below the head: `i` is the index of the next disk. It stops at a
  -- disk with more than one child, and passes over a disk that is not removed.
  unfoldable pub unmappable_from :
      ℕ → List String → Replica F → W → Option ((Replica F × W) × List String × Option ReplicaError)
  unfolding mark_disk_as_removed
  unmappable_from zero paths r w = some ((r, w), paths, none)
  unmappable_from (suc i) paths r w =
      if ltb (suc i) (last_snapshot_index r)
      then some ((r, w), paths, none)
      else elim (get_elem? r.active_disk_data (suc i)) [
        | none ↦ none
        | some none ↦ none
        | some (some p) ↦
            let name = (r.disks p).name in
            let children : ℕ = elim (Dict.get name r.disk_children_map) [
              | none ↦ 0
              | some ns ↦ length ns
            ] in
            elim (ltb 1 children) [
              | true ↦ some ((r, w), paths, none)
              | false ↦
                  let ((r', w'), e) =
                    (if r.unmap_mark_disk_chain_removed
                      then mark_disk_as_removed fs t name r w
                      else ((r, w), none)) in
                  elim e [
                    | some x ↦ some ((r', w'), paths, some x)
                    | none ↦
                        unmappable_from i
                          (if (r'.disks p).removed then paths ++ (name ∷ []) else paths) r' w'
                  ]
            ]
      ]

  -- `UnmapAt`
  unfoldable pub unmap_at :
      ℕ → ℕ → Replica F → W → Option ((Replica F × W) × ℤ × Option ReplicaError)
  unfolding unmappable_from
  unmap_at len off r w =
      if r.read_only
      then some ((r, w), pos 0, some (plain "can not unmap on read-only replica"))
      else elim (get_elem? r.active_disk_data (length r.active_disk_data - 1)) [
        | none ↦ none
        | some none ↦ none
        | some (some p) ↦
            elim (unmappable_from (length r.active_disk_data - 2) ((r.disks p).name ∷ []) r w) [
              | none ↦ none
              | some (s, paths, some e) ↦ some (s, pos 0, some e)
              | some ((r', w'), paths, none) ↦ elim (Unmap.unmap_at io paths len off r'.volume) [
                | panic ↦ none
                | done v (n, some e) ↦ some (
                  (record r' { volume = v; info = record r'.info { dirty = true } }, w'),
                  pos 0,
                  some e,
                )
                | done v (n, none) ↦ some (
                  (record r' { volume = v; info = record r'.info { dirty = true } }, w'),
                  n,
                  none,
                )
              ]
            ]
      ]
