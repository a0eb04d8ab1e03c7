-- ===== src/Replica/Files.antt =====
-- pkg/replica/replica.go: the files of a replica's directory, and the functions that change them
-- with a way back: `encodeToFile`, `rmDisk`, `createNewHead`, `linkDisk` and `markDiskAsRemoved`.
--
-- A rollback function is a value of `Undo`, and `undo` runs it. Names are relative to the directory,
-- as `diskPath` reads them.
use Prim.Native.String.{◌++◌ as str_append}
use longhorn_engine.Prelude.{
  ℕ, ◌+◌, String, Bool, true, false, Option, none, some, List, [], ◌∷◌, if◌then◌else◌, str_eq,
}
use longhorn_engine.Prelude.Dict
use longhorn_engine.Types.{ReplicaError, plain}
use longhorn_engine.Types.Errors.{Texts, function_error_with_rollback, combine_errors}
use longhorn_engine.DiffDisk.{Checked, ok, fail}
use longhorn_engine.Replica.{Disk, Info, Replica, with_disk}

-- What a metadata file holds, as JSON.
pub data Content : Type 0 where
  volume_meta : Info → Content
  disk_meta : Disk → Content

-- The calls of `os`, `syscall` and sparse-tools on the directory, whose state is a value of `W`.
pub record Files (W F : Type 0) : Type 0 where
  -- none if `os.Stat` fails, and whether the file is a directory
  pub stat : String → W → Option Bool
  pub remove_all : String → W → W × Option ReplicaError
  pub remove : String → W → W × Option ReplicaError
  pub link : String → String → W → W × Option ReplicaError
  pub truncate : String → ℕ → W → W × Option ReplicaError
  -- `os.Create` of the file, the encoder with the file's `Close`, and `os.Rename`
  pub create : String → W → W × Option ReplicaError
  pub encode : String → Content → W → W × Option ReplicaError
  pub rename : String → String → W → W × Option ReplicaError
  -- `openFile`, which truncates if asked to
  pub open_file : String → Bool → W → W × Checked F
  -- the index in the name of a head, as `diskPattern` captures it, and the name of an index
  pub head_index : String → Option ℕ
  pub head_name : ℕ → String

-- The suffixes of pkg/util/disk and the names of the metadata.
abbrev pub meta_name : String → String
meta_name n = str_append n ".meta"

abbrev pub checksum_name : String → String
checksum_name n = str_append n ".checksum"

abbrev pub tmp_name : String → String
tmp_name n = str_append n ".tmp"

abbrev pub volume_meta_data : String
volume_meta_data = "volume.meta"

-- `GenerateSnapshotDiskName`
abbrev pub snapshot_disk_name : String → String
snapshot_disk_name n = str_append "volume-snap-" (str_append n ".img")

-- A rollback function.
pub data Undo (F : Type 0) : Type 0 where
  nothing : Undo F
  remove_tmp : String → Undo F
  undo_head : F → Undo F → String → Undo F
  undo_link : String → Undo F
  undo_meta : Undo F → Undo F
  undo_maps : String → String → Undo F

module _ {W F : Type 0} (fs : Files W F) (t : Texts) where
  -- `rmDisk`: the last error of the three removals.
  unfoldable pub rm_disk : String → W → W × Option ReplicaError
  rm_disk name w =
      if str_eq name ""
      then (w, none)
      else let (w₁, e₁) = fs.remove_all name w in
        let (w₂, e₂) = fs.remove_all (meta_name name) w₁ in
        let (w₃, e₃) = fs.remove_all (checksum_name name) w₂ in
        let last : Option ReplicaError = elim e₂ [ none ↦ e₁ | some x ↦ some x ] in
        (w₃, elim e₃ [ none ↦ last | some x ↦ some x ])

  -- A failed step of `encodeToFile`: the temporary file is removed.
  unfoldable pub encode_failed : String → ReplicaError → W → W × Undo F × Option ReplicaError
  encode_failed file e w =
      let (w', e') = fs.remove_all (tmp_name file) w in
      (w', nothing, function_error_with_rollback t (some e) e')

  -- `encodeToFile`
  unfoldable pub encode_to_file : Bool → Content → String → W → W × Undo F × Option ReplicaError
  unfolding encode_failed
  encode_to_file read_only obj file w =
      if read_only
      then (w, nothing, none)
      else let (w₁, e₁) = fs.create (tmp_name file) w in
        elim e₁ [
          | some e ↦ encode_failed file e w₁
          | none ↦
              let (w₂, e₂) = fs.encode (tmp_name file) obj w₁ in
              elim e₂ [
                | some e ↦ encode_failed file e w₂
                | none ↦
                    let (w₃, e₃) = fs.rename (tmp_name file) file w₂ in
                    elim e₃ [
                      | some e ↦ encode_failed file e w₃
                      | none ↦ (w₃, remove_tmp file, none)
                    ]
              ]
        ]

  -- `nextFile`
  unfoldable pub next_file : String → Checked String
  next_file parent = if str_eq parent "" then ok (fs.head_name 0) else elim (fs.head_index parent) [
    | none ↦ fail (plain "invalid name does not match pattern")
    | some i ↦ ok (fs.head_name (i + 1))
  ]

  -- Running a rollback function. `undo_meta` writes the replica's old `info` again.
  unfoldable pub undo : Undo F → Replica F × W → (Replica F × W) × Option ReplicaError
  undo nothing (r, w) = ((r, w), none)
  undo (remove_tmp file) (r, w) = let (w', e) = fs.remove_all (tmp_name file) w in ((r, w'), e)
  undo (undo_head f nothing name) (r, w) = let (w', e) = rm_disk name w in ((r, w'), e)
  undo (undo_head f sub name) (r, w) =
      let ((r₁, w₁), e₁) = undo sub (r, w) in
      let (w₂, e₂) = rm_disk name w₁ in ((r₁, w₂), combine_errors t (e₁ ∷ e₂ ∷ []))
  undo (undo_link name) (r, w) = let (w', e) = rm_disk name w in ((r, w'), e)
  undo (undo_meta sub) (r, w) =
      let (w₁, tmp, e₁) = encode_to_file r.read_only (volume_meta r.info) volume_meta_data w in
      let ((r₂, w₂), e₂) = undo sub (r, w₁) in ((r₂, w₂), combine_errors t (e₂ ∷ e₁ ∷ []))
  undo (undo_maps head snapshot) (r, w) = (
    (
      record r {
        disk_data = Dict.delete snapshot (Dict.delete head r.disk_data);
        disk_children_map = Dict.delete snapshot r.disk_children_map;
      },
      w,
    ),
    none,
  )

  -- The rollbacks in their order, with the combined error.
  unfoldable pub undo_all :
      List (Undo F) → Option ReplicaError → Replica F × W → (Replica F × W) × Option ReplicaError
  unfolding undo
  undo_all [] e s = (s, e)
  undo_all (nothing ∷ us) e s = undo_all us e s
  undo_all (u ∷ us) e s = let (s', e') = undo u s in undo_all us (combine_errors t (e ∷ e' ∷ [])) s'

  -- What `createNewHead` returns beside an error.
  pub record NewHead : Type 0 where
    pub file : F
    pub disk : Disk
    pub rollback : Undo F

  -- The metadata of `createNewHead` cannot be written: the deferred function removes the head's files.
  unfoldable pub head_failed : String → ReplicaError → W → W × Option NewHead × Option ReplicaError
  unfolding rm_disk
  head_failed name e w =
      let (w', e') = rm_disk name w in (w', none, function_error_with_rollback t (some e) e')

  -- `createNewHead`. Its file handle is closed by the rollback. `none` is a panic: after a failed
  -- `Truncate` the named result `f` is nil, and the deferred function calls its `Close`.
  unfoldable pub create_new_head :
      Bool → String → String → String → ℕ → W → Option (W × Option NewHead × Option ReplicaError)
  unfolding next_file encode_to_file head_failed
  create_new_head read_only old_head parent created size w = elim (next_file old_head) [
    | fail e ↦ some (w, none, some e)
    | ok name ↦ elim (fs.stat name w) [
      | some is_dir ↦ some (w, none, some (plain "already exists"))
      | none ↦
          let (w₁, opened) = fs.open_file name true w in
          elim opened [
            | fail e ↦ some (w₁, none, some e)
            | ok f ↦
                let (w₂, e₂) = fs.truncate name size w₁ in
                elim e₂ [
                  | some e ↦ none
                  | none ↦
                      let d : Disk = record {
                        name = name;
                        parent = parent;
                        removed = false;
                        user_created = false;
                        created = created;
                        labels = [];
                      } in
                      let (w₃, sub, e₃) =
                        encode_to_file read_only (disk_meta d) (meta_name name) w₂ in
                      elim e₃ [
                        | some e ↦ some (head_failed name e w₃)
                        | none ↦ some (
                          w₃,
                          some (record { file = f; disk = d; rollback = undo_head f sub name }),
                          none,
                        )
                      ]
                ]
          ]
    ]
  ]

  -- `linkDisk`: the three clean-ups, then the two links; a failed link removes what there is.
  unfoldable pub link_disk : String → String → W → W × Undo F × Option ReplicaError
  unfolding rm_disk
  link_disk old_name new_name w =
      if str_eq old_name ""
      then (w, nothing, none)
      else let (w₁, e₁) = fs.remove_all (meta_name new_name) w in
        elim e₁ [
          | some e ↦ (w₁, nothing, some e)
          | none ↦
              let (w₂, e₂) = fs.remove_all (checksum_name new_name) w₁ in
              elim e₂ [
                | some e ↦ (w₂, nothing, some e)
                | none ↦
                    let (w₃, e₃) = fs.remove_all new_name w₂ in
                    elim e₃ [
                      | some e ↦ (w₃, nothing, some e)
                      | none ↦
                          let (w₄, e₄) = fs.link old_name new_name w₃ in
                          elim e₄ [
                            | some e ↦
                                let (w', e') = rm_disk new_name w₄ in
                                (w', nothing, function_error_with_rollback t (some e) e')
                            | none ↦
                                let (w₅, e₅) =
                                  fs.link (meta_name old_name) (meta_name new_name) w₄ in
                                elim e₅ [
                                  | some e ↦
                                      let (w', e') = rm_disk new_name w₅ in
                                      (w', nothing, function_error_with_rollback t (some e) e')
                                  | none ↦ (w₅, undo_link new_name, none)
                                ]
                          ]
                    ]
              ]
        ]

  -- `markDiskAsRemoved`
  unfoldable pub mark_disk_as_removed :
      String → Replica F → W → (Replica F × W) × Option ReplicaError
  unfolding encode_to_file
  mark_disk_as_removed name r w = elim (Dict.get name r.disk_data) [
    | none ↦ ((r, w), some (plain "cannot find disk"))
    | some p ↦ elim (fs.stat name w) [
      | none ↦ ((r, w), some (plain "cannot find disk file"))
      | some true ↦ ((r, w), some (plain "cannot find disk file"))
      | some false ↦ elim (fs.stat (meta_name name) w) [
        | none ↦ ((r, w), some (plain "cannot find disk metafile"))
        | some true ↦ ((r, w), some (plain "cannot find disk metafile"))
        | some false ↦
            let d : Disk = record (r.disks p) { removed = true } in
            let (w', tmp, e) = encode_to_file r.read_only (disk_meta d) (meta_name name) w in
            ((with_disk p d r, w'), e)
      ]
    ]
  ]
