-- ===== src/Replica/Rollback.antt =====
-- pkg/replica/replica.go: the way back of `createDisk`.
use longhorn_engine.Prelude.{
  ℕ, zero, suc, length, String, false, not, none, some, List, [], ◌∷◌, ◌&&◌, leb, str_eq,
  str_eq_iff, ◌≡◌, ◌≢◌, refl, ap, ◌∙◌, arith, Bool-cases, Option-cases, inl, inr, ◌⊎◌, ◌<◌, sym,
}
use longhorn_engine.Prelude.Dict
use longhorn_engine.Prelude.Dict.{Dict}
use longhorn_engine.Types.{ReplicaError}
use longhorn_engine.Types.Errors.{Texts}
use longhorn_engine.DiffDisk.{ok}
use longhorn_engine.Replica.{Disk, Replica}
use longhorn_engine.Replica.Maps.{add_child_disk, chain_from, chain}
use longhorn_engine.Replica.Files.{
  Files, disk_meta, volume_meta, Undo, undo_meta, NewHead, encode_to_file, create_new_head,
  link_disk, next_file, meta_name, volume_meta_data, snapshot_disk_name,
}
use longhorn_engine.Replica.Undos.{
  on_files, encode_to_file-on_files, link_disk-on_files, create_new_head-on_files, AllOnFiles,
  undo_all-on_files, without, undo_all-maps,
}
use longhorn_engine.Replica.Create.{
  DiskRequest, create_failed, create_maps, create_files, create_disk, enter_head, enter_snapshot,
  next_info, rename_head, snapshot_count_usage,
}

-- The record of a disk with the marks of a request for a snapshot.
abbrev pub marked : DiskRequest → Disk → Disk
marked q d = record d { user_created = q.user_created; created = q.created; labels = q.labels }

-- A replica is as it was but for new records and the marks of the head's record.
pub record Unchanged {F : Type 0} (q : DiskRequest) (r s : Replica F) : Type 0 where
  pub rest : s ≡ record r { disks = s.disks; fresh = s.fresh }
  pub disks :
      (p : ℕ)
      → p < r.fresh
      → (s.disks p ≡ r.disks p)
        ⊎ ((Dict.get r.info.head r.disk_data ≡ some p) × (s.disks p ≡ marked q (r.disks p)))

module _ {W F : Type 0} (fs : Files W F) (t : Texts) where
  delete-put :
      {V : Type 0} (k : String) (v : V) (m : Dict V)
      → Dict.has k m ≡ false
      → Dict.delete k (Dict.put k v m) ≡ m
  unfolding Dict.delete Dict.put Dict.has
  delete-put k v [] h = ground (arith, str_eq_iff k k)
  delete-put k v (e ∷ m) h = ground (arith, str_eq_iff k k, delete-put k v m)

  delete-put_twice :
      {V : Type 0} (k j : String) (v u : V) (m : Dict V)
      → str_eq k j ≡ false
      → Dict.has k m ≡ false
      → Dict.has j m ≡ false
      → Dict.delete j (Dict.delete k (Dict.put j u (Dict.put k v m))) ≡ m
  unfolding Dict.delete Dict.put Dict.has
  delete-put_twice k j v u [] d h g =
      ground (arith, str_eq_iff k k, str_eq_iff j j, str_eq_iff k j, str_eq_iff j k)
  delete-put_twice k j v u (e ∷ m) d h g = ground (
    arith,
    str_eq_iff k k,
    str_eq_iff j j,
    str_eq_iff k j,
    str_eq_iff j k,
    delete-put_twice k j v u m,
  )

  -- A request that takes free names: neither the next head nor the snapshot is in the maps.
  pub record IsFresh (q : DiskRequest) (r : Replica F) : Type 0 where
    pub head :
        (name : String) → next_file fs t r.info.head ≡ ok name → Dict.has name r.disk_data ≡ false
    pub apart : next_file fs t r.info.head ≢ ok (snapshot_disk_name q.name)
    pub childless : Dict.has (snapshot_disk_name q.name) r.disk_children_map ≡ false

  -- The records after the snapshot is entered: only that of the head is another.
  enter_snapshot-disks :
      (h : NewHead fs t) (q : DiskRequest) (snap : String) (old j : ℕ) (r : Replica F)
      → j < r.fresh
      → Dict.get r.info.head (enter_head fs t h r).disk_data ≡ some old
      → let s = enter_snapshot fs t h q snap old (enter_head fs t h r) in
        (s.disks j ≡ r.disks j)
        ⊎ ((Dict.get r.info.head r.disk_data ≡ some j) × (s.disks j ≡ marked q (r.disks j)))
  unfolding enter_head enter_snapshot
  enter_snapshot-disks h q snap old j r k here =
      ground (arith, here, Dict.get-put h.disk.name r.info.head r.fresh r.disk_data)

  create_maps-Unchanged :
      (h : NewHead fs t) (q : DiskRequest) (snap : String) (us : List (Undo F)) (r r' : Replica F)
      (w w' : W) (e : ReplicaError)
      → AllOnFiles fs t us
      → Dict.has h.disk.name r.disk_data ≡ false
      → (str_eq snap "" ≡ false → Dict.has snap r.disk_data ≡ false)
      → str_eq h.disk.name snap ≡ false
      → Dict.has snap r.disk_children_map ≡ false
      → create_maps fs t h q snap us r w ≡ some ((r', w'), some e)
      → Unchanged q r r'
  unfolding create_maps create_failed enter_head enter_snapshot add_child_disk
  create_maps-Unchanged h q snap us r r' w w' e all a b c d run =
      let p = r.fresh in
      let r₁ = enter_head fs t h r in
      elim (Bool-cases (str_eq snap "")) [
        | inl same ↦ ground (arith, run, same)
        | inr named ↦ elim (Option-cases (Dict.get r.info.head r₁.disk_data)) [
          | inl gone ↦ ground (arith, run, named, gone)
          | inr (old, here) ↦
              let r₂ = enter_snapshot fs t h q snap old r₁ in
              let (w₁, u, failed) =
                encode_to_file fs t r₂.read_only (disk_meta (r₂.disks old)) (meta_name snap) w in
              elim (Option-cases failed) [
                | inl fine ↦ elim (Option-cases (rename_head fs t snap r₂)) [
                  | inl gone ↦ ground (arith, run, named, here, fine, gone)
                  | inr (r₃, there) ↦ ground (arith, run, named, here, fine, there)
                ]
                | inr (x, bad) ↦
                    let m = undo_all-maps fs t us h.disk.name snap none r₂ w₁ all in
                    let back : r' ≡ without fs t h.disk.name snap r₂ =
                      ground (arith, run, named, here, bad, m) in
                    let data_back =
                      delete-put_twice h.disk.name snap p old r.disk_data c a (b named) in
                    let map_back = delete-put snap _ r.disk_children_map d in
                    let bare = without fs t h.disk.name snap r₂ in
                    record {
                      rest =
                          back
                          ∙ ap (λ z. record bare { disk_data = z }) data_back
                          ∙ ap (λ z. record bare { disk_data = r.disk_data; disk_children_map = z })
                              map_back
                          ∙ ap (λ z. record r { disks = z.disks; fresh = z.fresh }) (sym back);
                      disks = λ j k. elim (enter_snapshot-disks h q snap old j r k here) [
                        | inl same ↦ inl (ap (λ z. z.disks j) back ∙ same)
                        | inr (at, moved) ↦ inr (at, ap (λ z. z.disks j) back ∙ moved)
                      ];
                    }
              ]
        ]
      ]

  same_memory : (q : DiskRequest) (r s : Replica F) → s ≡ r → Unchanged q r s
  same_memory q r s e = record {
    rest = e ∙ ap (λ z. record r { disks = z.disks; fresh = z.fresh }) (sym e);
    disks = λ p k. inl (ap (λ z. z.disks p) e);
  }

  failed-Unchanged :
      (q : DiskRequest) (us : List (Undo F)) (x e : ReplicaError) (r r' : Replica F) (w w' : W)
      → AllOnFiles fs t us
      → some (create_failed fs t us x (r, w)) ≡ some ((r', w'), some e)
      → Unchanged q r r'
  unfolding create_failed
  failed-Unchanged q us x e r r' w w' all run =
      let m = undo_all-on_files fs t us none r w all in same_memory q r r' (ground (arith, run, m))

  create_files-Unchanged :
      (q : DiskRequest) (snap : String) (r r' : Replica F) (w w' : W) (e : ReplicaError)
      → snap ≡ snapshot_disk_name q.name
      → IsFresh q r
      → (str_eq snap "" ≡ false → Dict.has snap r.disk_data ≡ false)
      → create_files fs t q snap r w ≡ some ((r', w'), some e)
      → Unchanged q r r'
  unfolding create_files on_files
  create_files-Unchanged q snap r r' w w' e named free b run =
      elim (Option-cases (create_new_head fs t r.read_only r.info.head snap q.created q.size w)) [
        | inl gone ↦ absurd (ground (arith, run, gone))
        | inr ((w₁, none, none), bad) ↦ absurd (ground (arith, run, bad))
        | inr ((w₁, none, some x), bad) ↦
            failed-Unchanged q [] x e r r' w₁ w' tt (ground (arith, run, bad))
        | inr ((w₁, some h, e₁), here) ↦
            let (quiet, name) =
              create_new_head-on_files fs t r.read_only r.info.head snap q.created q.size w w₁ h e₁
                here in
            let (w₂, undo₂, e₂) = link_disk fs t r.info.head snap w₁ in
            let linked = link_disk-on_files fs t r.info.head snap w₁ in
            let i = volume_meta (next_info fs t r.info h snap q.size) in
            let (w₃, undo₃, e₃) = encode_to_file fs t r.read_only i volume_meta_data w₂ in
            let stored = encode_to_file-on_files fs t r.read_only i volume_meta_data w₂ in
            let other : str_eq h.disk.name snap ≡ false =
              elim (Bool-cases (str_eq h.disk.name snap)) [
                | inl same ↦
                    absurd
                      (free.apart (name ∙ ap ok ((str_eq_iff h.disk.name snap).0 same ∙ named)))
                | inr k ↦ k
              ] in
            elim (Option-cases e₂) [
              | inr (x, bad) ↦
                  failed-Unchanged q (h.rollback ∷ []) x e r r' w₂ w' (quiet, tt)
                    (ground (arith, run, here, bad))
              | inl fine ↦ elim (Option-cases e₃) [
                | inr (x, bad) ↦
                    failed-Unchanged q (h.rollback ∷ undo₂ ∷ []) x e r r' w₃ w'
                      (quiet, (linked, tt)) (ground (arith, run, here, fine, bad))
                | inl good ↦
                    create_maps-Unchanged h q snap (h.rollback ∷ undo₂ ∷ undo_meta undo₃ ∷ []) r r'
                      w₃ w' e (quiet, (linked, (stored, tt))) (free.head h.disk.name name) b other
                      (ap (λ z. Dict.has z r.disk_children_map) named ∙ free.childless)
                      (ground (arith, run, here, fine, good))
              ]
            ]
      ]

  failed_disk-Unchanged :
      (q : DiskRequest) (r r' : Replica F) (w w' : W) (e : ReplicaError)
      → r.info.head ≢ ""
      → IsFresh q r
      → create_disk fs t q r w ≡ some ((r', w'), some e)
      → Unchanged q r r'
  unfolding create_disk
  failed_disk-Unchanged q r r' w w' e headed free run =
      let snap = snapshot_disk_name q.name in
      let there : str_eq r.info.head "" ≡ false = ground (arith, str_eq_iff r.info.head "") in
      elim (Option-cases (create_files fs t q snap r w)) [
        | inl gone ↦ ground (arith, run, there, gone)
        | inr (((r₁, w₁), ended), some_run) ↦ elim (Bool-cases r.read_only) [
          | inl a ↦ same_memory q r r' (ground (arith, run, a))
          | inr writable ↦ elim (Bool-cases (leb r.snapshot_max_count (snapshot_count_usage r))) [
            | inl b ↦ same_memory q r r' (ground (arith, run, writable, b))
            | inr few ↦ elim (Bool-cases (not (str_eq snap "") && Dict.has snap r.disk_data)) [
              | inl c ↦ same_memory q r r' (ground (arith, run, writable, few, there, c))
              | inr fresh ↦
                  create_files-Unchanged q snap r r' w w' e refl free
                    (λ h. ground (arith, fresh, h))
                    (ground (arith, run, writable, few, there, fresh, some_run))
            ]
          ]
        ]
      ]

  chain_from-Unchanged :
      (q : DiskRequest) (n : ℕ) (cur : String) (r s : Replica F)
      → Unchanged q r s
      → ((x : String) (p : ℕ) → Dict.get x r.disk_data ≡ some p → p < r.fresh)
      → chain_from n cur s ≡ chain_from n cur r
  unfolding chain_from
  chain_from-Unchanged q zero cur r s u below = refl
  chain_from-Unchanged q (suc n) cur r s u below =
      let found = ap (λ z. Dict.get cur z.disk_data) u.rest in
      elim (Option-cases (Dict.get cur r.disk_data)) [
        | inl gone ↦ ground (arith, found, gone)
        | inr (p, here) ↦
            let parent : (s.disks p).parent ≡ (r.disks p).parent =
              elim (u.disks p (below cur p here)) [
                | inl same ↦ ap (λ z. z.parent) same
                | inr (at, moved) ↦ ap (λ z. z.parent) moved
              ] in
            let next = chain_from-Unchanged q n (r.disks p).parent r s u below in
            let step = ap (λ z. chain_from n z s) parent ∙ next in ground (arith, found, here, step)
      ]

  -- A `createDisk` that returns an error leaves the replica in memory as it was, but for newly
  -- allocated records and the user mark, the time and the labels of the head's record, which may be
  -- those of the request: the info, the files, the maps and the active disks are the same, and so
  -- are the name, the parent and the removal of each disk and the chain from the head. The condition is
  -- a replica with a head and allocated records, the name of the next head and of the snapshot being
  -- new to its maps.
  pub create_disk-Unchanged :
      (q : DiskRequest) (r r' : Replica F) (w w' : W) (e : ReplicaError)
      → r.info.head ≢ ""
      → IsFresh q r
      → ((x : String) (p : ℕ) → Dict.get x r.disk_data ≡ some p → p < r.fresh)
      → create_disk fs t q r w ≡ some ((r', w'), some e)
      → Unchanged q r r' × (chain r' ≡ chain r)
  unfolding chain
  create_disk-Unchanged q r r' w w' e headed free below run =
      let u = failed_disk-Unchanged q r r' w w' e headed free run in
      let size = ap (λ z. length z.disk_data) u.rest in
      let head = ap (λ z. z.info.head) u.rest in
      (
        u,
        ap (λ z. chain_from z r'.info.head r') size
            ∙ ap (λ z. chain_from (length r.disk_data) z r') head
            ∙ chain_from-Unchanged q (length r.disk_data) r.info.head r r' u below,
      )
