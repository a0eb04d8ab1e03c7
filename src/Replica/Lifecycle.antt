-- ===== src/Replica/Lifecycle.antt =====
-- pkg/replica/replica.go: the volume's metadata, the opening of the live chain, `Close`, `Delete` and
-- `revertDisk`. `New`, which reads the metadata of a directory, is an argument of what calls it.
use longhorn_engine.Prelude.{
  ℕ, ◌+◌, ◌==◌, String, Bool, true, false, Option, none, some, List, [], ◌∷◌, ◌++◌, length, ltb,
  if◌then◌else◌, str_eq,
}
use longhorn_engine.Prelude.Dict
use longhorn_engine.Prelude.Dict.{Dict}
use longhorn_engine.Types.{ReplicaError, plain}
use longhorn_engine.Types.Errors.{Texts}
use longhorn_engine.DiffDisk.{Checked, ok, fail}
use longhorn_engine.Replica.{Disk, Replica}
use longhorn_engine.Replica.Maps.{ends, missing, endless, chain}
use longhorn_engine.Replica.Files.{
  Files, volume_meta, encode_to_file, create_new_head, NewHead, rm_disk, volume_meta_data,
}

abbrev pub maximum_chain_length : ℕ
maximum_chain_length = 250

abbrev pub revision_counter_file : String
revision_counter_file = "revision.counter"

module _ {W F : Type 0} (fs : Files W F) (t : Texts) where
  -- `writeVolumeMetaData`
  unfoldable pub write_volume_meta_data : Bool → Bool → Replica F → W → W × Option ReplicaError
  unfolding encode_to_file
  write_volume_meta_data dirty rebuilding r w =
      let i = record r.info { dirty = dirty; rebuilding = rebuilding } in
      let (w', u, e) = encode_to_file fs t r.read_only (volume_meta i) volume_meta_data w in (w', e)

  -- `SetRebuilding`
  unfoldable pub set_rebuilding : Bool → Replica F → W → (Replica F × W) × Option ReplicaError
  unfolding write_volume_meta_data
  set_rebuilding rebuilding r w =
      let (w', e) = write_volume_meta_data true rebuilding r w in
      elim e [
        | some x ↦ ((r, w'), some x)
        | none ↦ ((record r { info = record r.info { rebuilding = rebuilding } }, w'), none)
      ]

  -- `Close`; the errors of the files' own `Close` are dropped there.
  unfoldable pub close : Replica F → W → W × Option ReplicaError
  unfolding write_volume_meta_data
  close r w = write_volume_meta_data false r.info.rebuilding r w

  -- The loop of `Delete`, in the order of `range`.
  unfoldable pub delete_disks : String → Dict ℕ → W → W
  unfolding rm_disk
  delete_disks backing [] w = w
  delete_disks backing ((name, p) ∷ es) w =
      delete_disks backing es (if str_eq name backing then w else (rm_disk fs t name w).0)

  -- `Delete`, which only logs what fails.
  unfoldable pub delete : Replica F → W → W
  unfolding delete_disks
  delete r w =
      let w₁ = delete_disks r.info.backing_file_path r.disk_data w in
      (fs.remove revision_counter_file (fs.remove volume_meta_data w₁).0).0

  -- The loop of `openLiveChain`, over the chain from its end.
  unfoldable pub open_from : List String → Replica F → W → (Replica F × W) × Option ReplicaError
  open_from [] r w = ((r, w), none)
  open_from (name ∷ names) r w =
      let ((r₁, w₁), e₁) = open_from names r w in
      elim e₁ [
        | some x ↦ ((r₁, w₁), some x)
        | none ↦
            let (w₂, opened) = fs.open_file name false w₁ in
            elim opened [
              | fail x ↦ ((r₁, w₂), some x)
              | ok f ↦ (
                (
                  record r₁ {
                    volume = record r₁.volume { files = r₁.volume.files ++ (some f ∷ []) };
                    active_disk_data = r₁.active_disk_data ++ (Dict.get name r₁.disk_data ∷ []);
                  },
                  w₂,
                ),
                none,
              )
            ]
      ]

  -- `openLiveChain`. `none` is a chain that does not end.
  unfoldable pub open_live_chain : Replica F → W → Option ((Replica F × W) × Option ReplicaError)
  unfolding open_from chain
  open_live_chain r w = elim (chain r) [
    | endless ↦ none
    | missing n ↦ some ((r, w), some (plain "failed to find metadata"))
    | ends names ↦
        if ltb maximum_chain_length (length names)
        then some ((r, w), some (plain "live chain is too long"))
        else some (open_from names r w)
  ]

  -- The end of `revertDisk`, once the new head is there.
  unfoldable pub revert_to :
      (Replica F → W → W × Checked (Replica F))
      → NewHead fs t
      → Replica F
      → W
      → W × Option (Replica F) × Option ReplicaError
  unfolding encode_to_file rm_disk
  revert_to reload h r w =
      let i = record r.info { head = h.disk.name; dirty = true; parent = h.disk.parent } in
      let (w₁, u₁, e₁) = encode_to_file fs t r.read_only (volume_meta i) volume_meta_data w in
      elim e₁ [
        | some x ↦
            let (w₂, u₂, e₂) =
              encode_to_file fs t r.read_only (volume_meta r.info) volume_meta_data w₁ in
            (w₂, none, e₂)
        | none ↦
            let (w₂, e₂) = rm_disk fs t r.info.head w₁ in
            elim e₂ [
              | some x ↦ (w₂, none, some x)
              | none ↦
                  let (w₃, made) = reload r w₂ in
                  elim made [ fail x ↦ (w₃, none, some x) | ok r' ↦ (w₃, some r', none) ]
            ]
      ]

  -- `revertDisk`: the new replica, none for nil, and the error. In the failure of the first write of
  -- the metadata, `err` is the result of the second. `none` is a panic of `createNewHead`.
  unfoldable pub revert_disk :
      (Replica F → W → W × Checked (Replica F))
      → String
      → String
      → Replica F
      → W
      → Option (W × Option (Replica F) × Option ReplicaError)
  unfolding create_new_head revert_to
  revert_disk reload parent created r w = elim (fs.stat parent w) [
    | none ↦ some (w, none, some (plain "no such file"))
    | some is_dir ↦ elim (Dict.get parent r.disk_data) [
      | none ↦ some (w, none, some (plain "cannot revert to disk file, not in the disk chain"))
      | some p ↦
          if (r.disks p).removed
          then some (w, none, some (plain "cannot revert to disk file, marked as removed"))
          else elim (create_new_head fs t r.read_only r.info.head parent created r.info.size w) [
            | none ↦ none
            | some (w₁, none, e) ↦ some (w₁, none, e)
            | some (w₁, some h, e) ↦ some (revert_to reload h r w₁)
          ]
    ]
  ]

-- `Reload`, with `New` as an argument.
abbrev pub reload_with :
    {W F : Type 0} → (ℕ → ℕ → W → W × Checked (Replica F)) → Replica F → W → W × Checked (Replica F)
reload_with make r w =
    let (w', made) = make r.info.size r.info.sector_size w in
    elim made [
      | fail e ↦ (w', fail e)
      | ok r' ↦ (w', ok (record r' { info = record r'.info { dirty = r.info.dirty } }))
    ]

-- `insertBackingFile`, with the file and the record that the backing file has.
unfoldable pub insert_backing_file : {F : Type 0} → F → Replica F → Replica F
insert_backing_file f r = elim r.info.backing_file [
  | none ↦ r
  | some path ↦
      let base : Disk = record {
        name = "";
        parent = "";
        removed = false;
        user_created = false;
        created = "";
        labels = [];
      } in
      record r {
        disks = λ q.
            if q == r.fresh
            then base
            else if q == r.fresh + 1
            then record base { name = path }
            else r.disks q;
        fresh = r.fresh + 2;
        active_disk_data = elim r.active_disk_data [
          | [] ↦ some r.fresh ∷ some (r.fresh + 1) ∷ []
          | (p ∷ ps) ↦ some r.fresh ∷ some (r.fresh + 1) ∷ ps
        ];
        volume = record r.volume {
          files = elim r.volume.files [ [] ↦ none ∷ some f ∷ [] | (g ∷ gs) ↦ none ∷ some f ∷ gs ];
        };
        disk_data = Dict.put path (r.fresh + 1) r.disk_data;
      }
]
