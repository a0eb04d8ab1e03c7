-- ===== src/Replica/Chain.antt =====
-- pkg/replica/replica.go: the chain of parents after `createDisk`.
use longhorn_engine.Prelude.{
  ℕ, zero, suc, ◌+◌, String, Option, Bool, false, none, some, List, [], ◌∷◌, ◌++◌, ◌==◌, length,
  length-append, if◌then◌else◌, str_eq, str_eq_iff, ◌≡◌, ◌≢◌, refl, ap, ◌∙◌, arith, Bool-cases,
  Option-cases, inl, inr,
}
use longhorn_engine.Prelude.Dict
use longhorn_engine.Prelude.Dict.{Dict, IsMap}
use longhorn_engine.Types.{ReplicaError}
use longhorn_engine.Types.Errors.{Texts, wrap_error, function_error_with_rollback}
use longhorn_engine.DiffDisk.{ok}
use longhorn_engine.Replica.{Disk, Replica, with_disk, disk_of}
use longhorn_engine.Replica.Maps.{
  add_child_disk, update_child_disk, has_name, Walk, ends, missing, endless, before, chain_from,
}
use longhorn_engine.Replica.Files.{
  Files, disk_meta, NewHead, encode_to_file, head_failed, create_new_head, link_disk, next_file,
  meta_name, snapshot_disk_name, volume_meta, volume_meta_data, Undo, undo_meta, undo_maps,
}
use longhorn_engine.Replica.Create.{
  DiskRequest, create_failed, create_maps, create_files, create_disk, enter_head, enter_snapshot,
  finish_head, next_info, rename_head, last_pointer,
}
use longhorn_engine.Replica.Undos.{Checked-cases, create_new_head-on_files}

pub before-ends :
    (c : String) (names : List String) (w : Walk)
    → before c w ≡ ends names
    → (ns : List String) × (w ≡ ends ns) × (names ≡ c ∷ ns)
before-ends c names (ends ns) h = (ns, refl, ground (arith, h))
before-ends c names (missing n) h = absurd (ground (arith, h))
before-ends c names endless h = absurd (ground (arith, h))

module _ {F : Type 0} where
  -- A walk meets the parents of the records in the map.
  pub chain_frame :
      (n : ℕ) (cur away : String) (names : List String) (r s : Replica F)
      → ((x : String) (p : ℕ)
          → Dict.get x r.disk_data ≡ some p
          → x ≢ away
          → (d : Disk) × (disk_of x s ≡ some d) × (d.parent ≡ (r.disks p).parent))
      → has_name away names ≡ false
      → chain_from n cur r ≡ ends names
      → chain_from n cur s ≡ ends names
  unfolding chain_from has_name
  chain_frame zero cur away names r s same out h = h
  chain_frame (suc n) cur away names r s same out h = elim (Bool-cases (str_eq cur "")) [
    | inl over ↦ ground (arith, over, h)
    | inr going ↦ elim (Option-cases (Dict.get cur r.disk_data)) [
      | inl gone ↦ absurd (ground (arith, h, going, gone))
      | inr (p, here) ↦
          let walked : before cur (chain_from n (r.disks p).parent r) ≡ ends names =
            ground (arith, h, going, here) in
          let (ns, rest, split) = before-ends cur names _ walked in
          let apart : str_eq cur away ≡ false = ground (arith, out, split) in
          let outside : has_name away ns ≡ false = ground (arith, out, split, apart) in
          let (d, there, parent) =
            same cur p here (λ e. absurd (ground (arith, apart, str_eq_iff cur away, e))) in
          let next = chain_frame n (r.disks p).parent away ns r s same outside rest in
          rw (going, chain_from) (rw there (rw parent (rw next (rw split refl))))
    ]
  ]

  pub only_children :
      (a b : String) (r r' : Replica F)
      → update_child_disk a b r ≡ some r'
      → r' ≡ record r { disk_children_map = r'.disk_children_map }
  unfolding update_child_disk
  only_children a b r r' h = elim (Option-cases (disk_of a r)) [
    | inl gone ↦ absurd (ground (arith, h, gone))
    | inr (d, here) ↦ ground (arith, h, here)
  ]

  parent-with_disk :
      (p j : ℕ) (d : Disk) (r : Replica F)
      → d.parent ≡ (r.disks p).parent
      → ((with_disk p d r).disks j).parent ≡ (r.disks j).parent
  parent-with_disk p j d r e = ground (arith, e)

module _ {W F : Type 0} (fs : Files W F) (t : Texts) where
  -- What a successful `createDisk` leaves of the records.
  pub record Created (q : DiskRequest) (r r' : Replica F) : Type 0 where
    pub name : String
    pub old : ℕ
    pub next : next_file fs t r.info.head ≡ ok name
    pub there : Dict.get r.info.head (Dict.put name r.fresh r.disk_data) ≡ some old
    pub head : r'.info.head ≡ name
    pub parent : r'.info.parent ≡ snapshot_disk_name q.name
    pub disk_data :
        r'.disk_data
        ≡ Dict.delete r.info.head
            (Dict.put (snapshot_disk_name q.name) old (Dict.put name r.fresh r.disk_data))
    pub parents :
        (p : ℕ)
        → (r'.disks p).parent
          ≡ (if r.fresh == p then snapshot_disk_name q.name else (r.disks p).parent)
    pub active_disk_data : r'.active_disk_data ≡ r.active_disk_data ++ (some r.fresh ∷ [])
    pub fresh : r'.fresh ≡ r.fresh + 1
    pub files : length r'.volume.files ≡ length r.volume.files + 1

  failed-never_nil :
      (us : List (Undo F)) (x : ReplicaError) (s s' : Replica F × W)
      → some (create_failed fs t us x s) ≢ some (s', none)
  unfolding create_failed wrap_error function_error_with_rollback
  failed-never_nil us x s s' h = ground (arith, h)

  rename_head_lem :
      (snap : String) (r r' : Replica F)
      → rename_head fs t snap r ≡ some r'
      → (r'.disk_data ≡ r.disk_data)
        × (r'.info ≡ r.info)
        × ((p : ℕ) → (r'.disks p).parent ≡ (r.disks p).parent)
        × (r'.active_disk_data ≡ r.active_disk_data)
        × (r'.volume ≡ r.volume)
        × (r'.fresh ≡ r.fresh)
  unfolding rename_head update_child_disk
  rename_head_lem snap r r' h = elim (Option-cases (update_child_disk r.info.head snap r)) [
    | inl gone ↦ absurd (ground (arith, h, gone))
    | inr (r₁, here) ↦ elim (Option-cases (last_pointer r₁.active_disk_data)) [
      | inl gone ↦ absurd (ground (arith, h, here, gone))
      | inr (p, last) ↦
          let back : r' ≡ with_disk p (record (r₁.disks p) { name = snap }) r₁ =
            ground (arith, h, here, last) in
          let d : Disk = record (r₁.disks p) { name = snap } in
          let from = only_children r.info.head snap r r₁ here in
          (
            ap (λ z. z.disk_data) back ∙ ap (λ z. z.disk_data) from,
            ap (λ z. z.info) back ∙ ap (λ z. z.info) from,
            λ j.
                ap (λ z. (z.disks j).parent) back
                ∙ parent-with_disk p j d r₁ refl
                ∙ ap (λ z. (z.disks j).parent) from,
            ap (λ z. z.active_disk_data) back ∙ ap (λ z. z.active_disk_data) from,
            ap (λ z. z.volume) back ∙ ap (λ z. z.volume) from,
            ap (λ z. z.fresh) back ∙ ap (λ z. z.fresh) from,
          )
    ]
  ]

  create_maps-Created :
      (h : NewHead fs t) (q : DiskRequest) (snap : String) (us : List (Undo F)) (r r' : Replica F)
      (w w' : W)
      → snap ≡ snapshot_disk_name q.name
      → str_eq snap "" ≡ false
      → next_file fs t r.info.head ≡ ok h.disk.name
      → h.disk.parent ≡ snap
      → create_maps fs t h q snap us r w ≡ some ((r', w'), none)
      → Created q r r'
  unfolding create_maps create_failed enter_head enter_snapshot add_child_disk finish_head
  create_maps-Created h q snap us r r' w w' named full next above run =
      let p = r.fresh in
      let r₁ = enter_head fs t h r in
      elim (Option-cases (Dict.get r.info.head r₁.disk_data)) [
        | inl gone ↦ absurd (ground (arith, run, full, gone))
        | inr (old, here) ↦
            let r₂ = enter_snapshot fs t h q snap old r₁ in
            let marked : Disk = record (r₁.disks old) {
              user_created = q.user_created;
              created = q.created;
              labels = q.labels;
            } in
            let (w₁, u, failed) =
              encode_to_file fs t r₂.read_only (disk_meta (r₂.disks old)) (meta_name snap) w in
            elim (Option-cases failed) [
              | inr (x, bad) ↦ absurd (
                  failed-never_nil (us ++ (undo_maps h.disk.name snap ∷ [])) x (r₂, w₁) (r', w')
                    (ground (arith, run, full, here, bad)))
              | inl fine ↦ elim (Option-cases (rename_head fs t snap r₂)) [
                | inl gone ↦ absurd (ground (arith, run, full, here, fine, gone))
                | inr (r₃, there) ↦
                    let (data_same, info_same, parents, active, volume, taken) =
                      rename_head_lem snap r₂ r₃ there in
                    let back : r' ≡ finish_head fs t h p (next_info fs t r.info h snap q.size) r₃ =
                      ground (arith, run, full, here, fine, there) in
                    record {
                      name = h.disk.name;
                      old = old;
                      next = next;
                      there = here;
                      head = ap (λ z. z.info.head) back;
                      parent = ap (λ z. z.info.parent) back ∙ named;
                      disk_data =
                          ap (λ z. z.disk_data) back ∙ rw (info_same, data_same, named) refl;
                      parents = λ j.
                          ap (λ z. (z.disks j).parent) back
                          ∙ parents j
                          ∙ parent-with_disk old j marked r₁ refl
                          ∙ ground (arith, above, named);
                      active_disk_data =
                          ap (λ z. z.active_disk_data) back ∙ ap (λ a. a ++ (some p ∷ [])) active;
                      fresh = ap (λ z. z.fresh) back ∙ taken;
                      files =
                          ap (λ z. length z.volume.files) back
                          ∙ rw volume (length-append r.volume.files (some h.file ∷ []));
                    }
              ]
            ]
      ]

  created_parent :
      (o : Bool) (a b c : String) (n : ℕ) (w w' : W) (h : NewHead fs t) (x : Option ReplicaError)
      → create_new_head fs t o a b c n w ≡ some (w', some h, x)
      → h.disk.parent ≡ b
  unfolding create_new_head head_failed
  created_parent o a b c n w w' h x e = elim (Checked-cases (next_file fs t a)) [
    | inl (y, bad) ↦ ground (arith, e, bad)
    | inr (name, good) ↦ ground (arith, e, good)
  ]

  create_files-Created :
      (q : DiskRequest) (snap : String) (r r' : Replica F) (w w' : W)
      → snap ≡ snapshot_disk_name q.name
      → str_eq snap "" ≡ false
      → create_files fs t q snap r w ≡ some ((r', w'), none)
      → Created q r r'
  unfolding create_files
  create_files-Created q snap r r' w w' named full run =
      elim (Option-cases (create_new_head fs t r.read_only r.info.head snap q.created q.size w)) [
        | inl gone ↦ absurd (ground (arith, run, gone))
        | inr ((w₁, none, none), bad) ↦ absurd (ground (arith, run, bad))
        | inr ((w₁, none, some x), bad) ↦
            absurd (failed-never_nil [] x (r, w₁) (r', w') (ground (arith, run, bad)))
        | inr ((w₁, some h, e₁), here) ↦
            let (quiet, next) =
              create_new_head-on_files fs t r.read_only r.info.head snap q.created q.size w w₁ h e₁
                here in
            let above =
              created_parent r.read_only r.info.head snap q.created q.size w w₁ h e₁ here in
            let (w₂, undo₂, e₂) = link_disk fs t r.info.head snap w₁ in
            let i = volume_meta (next_info fs t r.info h snap q.size) in
            let (w₃, undo₃, e₃) = encode_to_file fs t r.read_only i volume_meta_data w₂ in
            elim (Option-cases e₂) [
              | inr (x, bad) ↦ absurd (
                  failed-never_nil (h.rollback ∷ []) x (r, w₂) (r', w')
                    (ground (arith, run, here, bad)))
              | inl fine ↦ elim (Option-cases e₃) [
                | inr (x, bad) ↦ absurd (
                    failed-never_nil (h.rollback ∷ undo₂ ∷ []) x (r, w₃) (r', w')
                      (ground (arith, run, here, fine, bad)))
                | inl good ↦
                    create_maps-Created h q snap (h.rollback ∷ undo₂ ∷ undo_meta undo₃ ∷ []) r r' w₃
                      w' named full next above (ground (arith, run, here, fine, good))
              ]
            ]
      ]

  pub create_disk-Created :
      (q : DiskRequest) (r r' : Replica F) (w w' : W)
      → r.info.head ≢ ""
      → snapshot_disk_name q.name ≢ ""
      → create_disk fs t q r w ≡ some ((r', w'), none)
      → Created q r r' × (Dict.has (snapshot_disk_name q.name) r.disk_data ≡ false)
  unfolding create_disk
  create_disk-Created q r r' w w' headed named run =
      let snap = snapshot_disk_name q.name in
      let there : str_eq r.info.head "" ≡ false = ground (arith, str_eq_iff r.info.head "") in
      let full : str_eq snap "" ≡ false = ground (arith, str_eq_iff snap "") in
      elim (Option-cases (create_files fs t q snap r w)) [
        | inl gone ↦ absurd (ground (arith, run, there, gone))
        | inr (((r₁, w₁), ended), files) ↦
            let fresh : Dict.has snap r.disk_data ≡ false = ground (arith, run, there, full) in
            let good : ended ≡ none = ground (arith, run, there, full, files, fresh) in
            let same : r₁ ≡ r' = ground (arith, run, there, full, files, fresh, good) in
            (
              create_files-Created q snap r r' w w₁ refl full (ground (arith, files, good, same)),
              fresh,
            )
      ]
