-- ===== src/Replica/Removal.antt =====
-- pkg/replica/replica.go: the chain of disks after `RemoveDiffDisk`.
use longhorn_engine.Prelude.{
  ℕ, suc, ◌≤◌, String, Bool, true, false, none, some, List, [], ◌∷◌, ◌==◌, length, if◌then◌else◌,
  str_eq, str_eq_iff, ◌≡◌, ◌≢◌, refl, sym, ap, ◌∙◌, arith, Bool-cases, Option-cases, inl, inr,
}
use longhorn_engine.Prelude.Dict
use longhorn_engine.Prelude.Dict.{Dict, IsMap}
use longhorn_engine.Types.Errors.{Texts}
use longhorn_engine.DiffDisk.{DiffFile}
use longhorn_engine.Replica.{Disk, Replica, disk_of, with_disk}
use longhorn_engine.Replica.Maps.{has_name, remove_name, ends, chain_from, chain, update_child_disk}
use longhorn_engine.Replica.Files.{Files}
use longhorn_engine.Replica.Remove.{
  remove_diff_disk, remove_disk_node, remove_active, update_parent_disk, last_child,
}
use longhorn_engine.Replica.Chain.{only_children}
use longhorn_engine.Replica.Walks.{
  Linked, chain_from-Linked, Linked-chain_from, Linked-unique, Linked-from,
}

-- A disk with one child, which is the only disk on it and the only one with its record.
pub record OnlyChild {F : Type 0} (name child : String) (p : ℕ) (r : Replica F) : Type 0 where
  pub here : Dict.get child r.disk_data ≡ some p
  pub parent : (r.disks p).parent ≡ name
  pub only :
      (x : String) (q : ℕ) → Dict.get x r.disk_data ≡ some q → (r.disks q).parent ≡ name → x ≡ child
  pub alone : (x : String) → Dict.get x r.disk_data ≡ some p → x ≡ child

module _ {F : Type 0} where
  -- What a removal leaves of the records: the child stands on what the removed disk stood on.
  pub record Removed (name : String) (p : ℕ) (d : Disk) (r r' : Replica F) : Type 0 where
    pub disk_data : r'.disk_data ≡ Dict.delete name r.disk_data
    pub parents : (q : ℕ) → (r'.disks q).parent ≡ (if p == q then d.parent else (r.disks q).parent)
    pub head : r'.info.head ≡ r.info.head

  get-Removed :
      (name x : String) (p : ℕ) (d : Disk) (r r' : Replica F)
      → IsMap r.disk_data
      → Removed name p d r r'
      → x ≢ name
      → Dict.get x r'.disk_data ≡ Dict.get x r.disk_data
  get-Removed name x p d r r' u m away =
      ap (Dict.get x) m.disk_data
      ∙ ground (arith, Dict.get-delete name x r.disk_data u, str_eq_iff name x, away)

  -- A walk that meets neither the removed disk nor its child is the same.
  Linked-frame :
      (name child cur : String) (p : ℕ) (d : Disk) (xs : List String) (r r' : Replica F)
      → IsMap r.disk_data
      → OnlyChild name child p r
      → Removed name p d r r'
      → has_name name xs ≡ false
      → has_name child xs ≡ false
      → Linked r cur xs
      → Linked r' cur xs
  unfolding has_name
  Linked-frame name child cur p d [] r r' u o m a b h = h
  Linked-frame name child cur p d (x ∷ xs) r r' u o m a b (same, full, q, here, linked) =
      let away : x ≢ name = λ e. absurd (ground (arith, a, str_eq_iff x name, e)) in
      let apart : x ≢ child = λ e. absurd (ground (arith, b, str_eq_iff x child, e)) in
      let other : (p == q) ≡ false = elim (Bool-cases (p == q)) [
        | inl e ↦ absurd (apart (o.alone x (ground (arith, here, e))))
        | inr k ↦ k
      ] in
      let stays : (r'.disks q).parent ≡ (r.disks q).parent = ground (arith, m.parents q, other) in
      (
        same,
        full,
        q,
        get-Removed name x p d r r' u m away ∙ here,
        rw stays (
            Linked-frame name child (r.disks q).parent p d xs r r' u o m (ground (arith, a))
              (ground (arith, b)) linked),
      )

  -- No name stands twice on a walk.
  Linked-once :
      (cur x : String) (xs : List String) (r : Replica F)
      → Linked r cur (x ∷ xs)
      → has_name x xs ≡ false
  Linked-once cur x xs r (same, full, q, here, linked) = elim (Bool-cases (has_name x xs)) [
    | inr k ↦ k
    | inl again ↦
        let (ys, there, few) = Linked-from x (r.disks q).parent xs r linked again in
        let whole : ys ≡ x ∷ xs =
          Linked-unique x ys (x ∷ xs) r there (refl, full, q, here, linked) in
        absurd (omega (arith, few, ap length whole))
  ]

  -- The walk below the child of the removed disk.
  below_child :
      (name child : String) (p : ℕ) (d : Disk) (xs : List String) (r r' : Replica F)
      → IsMap r.disk_data
      → OnlyChild name child p r
      → disk_of name r ≡ some d
      → Removed name p d r r'
      → name ≢ ""
      → has_name child xs ≡ false
      → Linked r name xs
      → Linked r' d.parent (remove_name name xs)
  unfolding remove_name has_name
  below_child name child p d [] r r' u o at m full b h = absurd (full h)
  below_child name child p d (x ∷ xs) r r' u o at m full b (same, proper, q, here, linked) =
      let found : str_eq x name ≡ true = (str_eq_iff x name).1 (sym same) in
      let record_at : r.disks q ≡ d = ground (arith, here, at, sym same) in
      let once = Linked-once name x xs r (same, proper, q, here, linked) in
      let moved : Linked r d.parent xs = rw (sym record_at) linked in
      rw found (
        Linked-frame name child d.parent p d xs r r' u o m (rw same once) (ground (arith, b)) moved)

  Linked-Removed :
      (name child cur : String) (p : ℕ) (d : Disk) (xs : List String) (r r' : Replica F)
      → IsMap r.disk_data
      → OnlyChild name child p r
      → disk_of name r ≡ some d
      → Removed name p d r r'
      → name ≢ ""
      → cur ≢ name
      → Linked r cur xs
      → Linked r' cur (remove_name name xs)
  unfolding remove_name has_name
  Linked-Removed name child cur p d [] r r' u o at m proper away h = h
  Linked-Removed name child cur p d (x ∷ xs) r r' u o at m proper away
        (same, full, q, here, linked) =
      let apart : str_eq x name ≡ false = ground (arith, away, same, str_eq_iff x name) in
      let kept = get-Removed name x p d r r' u m (λ e. away (same ∙ e)) ∙ here in
      elim (Bool-cases (str_eq (r.disks q).parent name)) [
        | inl next ↦
            let one : x ≡ child = o.only x q here ((str_eq_iff (r.disks q).parent name).0 next) in
            let place : p ≡ q =
              ground (arith, sym here ∙ ap (λ z. Dict.get z r.disk_data) one ∙ o.here) in
            let moves : (r'.disks q).parent ≡ d.parent = ground (arith, m.parents q, place) in
            let start : Linked r name xs =
              rw (sym ((str_eq_iff (r.disks q).parent name).0 next)) linked in
            let once = Linked-once x x xs r (refl, full, q, here, linked) in
            rw apart (
              same,
              full,
              q,
              kept,
              rw moves
                  (below_child name child p d xs r r' u o at m proper (rw (sym one) once) start),
            )
        | inr further ↦
            let other : (p == q) ≡ false = elim (Bool-cases (p == q)) [
              | inl e ↦
                  absurd (ground (arith, further, o.parent, str_eq_iff (r.disks p).parent name, e))
              | inr k ↦ k
            ] in
            let stays : (r'.disks q).parent ≡ (r.disks q).parent =
              ground (arith, m.parents q, other) in
            let rest =
              Linked-Removed name child (r.disks q).parent p d xs r r' u o at m proper
                (λ e. absurd (ground (arith, further, str_eq_iff (r.disks q).parent name, e)))
                linked in
            rw apart (same, full, q, kept, rw stays rest)
      ]

Linked-get :
    {F : Type 0} (x : String) (ys : List String) (r : Replica F)
    → x ≢ ""
    → Linked r x ys
    → (p : ℕ) × (Dict.get x r.disk_data ≡ some p)
Linked-get x [] r full h = absurd (full h)
Linked-get x (y ∷ ys) r full (same, proper, p, here, linked) = (p, rw same here)

length-remove_name :
    (x : String) (xs : List String)
    → has_name x xs ≡ true
    → suc (length (remove_name x xs)) ≡ length xs
unfolding has_name remove_name
length-remove_name x [] h = absurd (ground (arith, h))
length-remove_name x (y ∷ ys) h = ground (arith, length-remove_name x ys)

length-delete_has :
    (k : String) (m : Dict ℕ) → Dict.has k m ≡ true → suc (length (Dict.delete k m)) ≡ length m
unfolding Dict.delete Dict.has
length-delete_has k [] h = absurd (ground (arith, h))
length-delete_has k (e ∷ m) h = ground (arith, length-delete_has k m)

child_parent :
    {F : Type 0} (p q : ℕ) (d : Disk) (r : Replica F)
    → ((with_disk p (record (r.disks p) { parent = d.parent }) r).disks q).parent
      ≡ (if p == q then d.parent else (r.disks q).parent)
child_parent p q d r = ground arith

module _ {W F : Type 0} (fs : Files W F) (io : DiffFile F) (t : Texts) where
  remove_active-keeps :
      (name : String) (r r' : Replica F) (w w' : W)
      → remove_active fs io t name r w ≡ some ((r', w'), none)
      → (r'.disk_data ≡ r.disk_data) × (r'.disks ≡ r.disks) × (r'.info.head ≡ r.info.head)
  unfolding remove_active
  remove_active-keeps name r r' w w' h = ground (arith, h)

  update_parent-keeps :
      (child name : String) (p : ℕ) (d : Disk) (r r' : Replica F) (w w' : W)
      → name ≢ ""
      → Dict.get child r.disk_data ≡ some p
      → disk_of name r ≡ some d
      → update_parent_disk fs io t child name r w ≡ some ((r', w'), none)
      → r' ≡ with_disk p (record (r.disks p) { parent = d.parent }) r
  unfolding update_parent_disk
  update_parent-keeps child name p d r r' w w' full here at h =
      ground (arith, h, here, at, str_eq_iff name "", full)

  remove_disk_node-Removed :
      (name child : String) (force : Bool) (p : ℕ) (d : Disk) (r r' : Replica F) (w w' : W)
      → name ≢ ""
      → Dict.get name r.disk_children_map ≡ some (child ∷ [])
      → Dict.get child r.disk_data ≡ some p
      → disk_of name r ≡ some d
      → remove_disk_node fs io t name force r w ≡ some ((r', w'), none)
      → Removed name p d r r'
  unfolding remove_disk_node last_child
  remove_disk_node-Removed name child force p d r r' w w' full one here at h =
      elim (Option-cases (update_child_disk name child r)) [
        | inl gone ↦ absurd (ground (arith, h, one, gone))
        | inr (r₁, first) ↦
            let from = only_children name child r r₁ first in
            elim (Option-cases (update_parent_disk fs io t child name r₁ w)) [
              | inl gone ↦ absurd (ground (arith, h, one, first, gone))
              | inr (((r₂, w₂), e), second) ↦ elim (Option-cases e) [
                | inr (x, bad) ↦ absurd (ground (arith, h, one, first, second, bad))
                | inl fine ↦
                    let r₃ = record r₂ {
                      disk_data = Dict.delete name r₂.disk_data;
                      disk_children_map = Dict.delete name r₂.disk_children_map;
                    } in
                    let last : remove_active fs io t name r₃ w₂ ≡ some ((r', w'), none) =
                      ground (arith, h, one, first, second, fine) in
                    let (a, b, c) = remove_active-keeps name r₃ r' w₂ w' last in
                    let here₁ = ap (λ z. Dict.get child z.disk_data) from ∙ here in
                    let at₁ = ap (disk_of name) from ∙ at in
                    let moved =
                      update_parent-keeps child name p d r₁ r₂ w w₂ full here₁ at₁
                        (ground (arith, second, fine)) in
                    record {
                      disk_data =
                          a
                          ∙ ap (λ z. Dict.delete name z.disk_data) moved
                          ∙ ap (λ z. Dict.delete name z.disk_data) from;
                      parents = λ q.
                          ap (λ f. (f q).parent) b
                          ∙ ap (λ z. (z.disks q).parent) moved
                          ∙ child_parent p q d r₁
                          ∙ ap (λ z. if p == q then d.parent else (z.disks q).parent) from;
                      head = c ∙ ap (λ z. z.info.head) moved ∙ ap (λ z. z.info.head) from;
                    }
              ]
            ]
      ]

  -- A successful `RemoveDiffDisk` of a disk with one child takes exactly that disk out of the chain: the
  -- walk from the head then ends with the other disks in their order. The disk is a record of the walk,
  -- its child the only disk on it, and no record has two names.
  pub remove_diff_disk-chain :
      (name child : String) (force : Bool) (p : ℕ) (names : List String) (r r' : Replica F)
      (w w' : W)
      → name ≢ ""
      → IsMap r.disk_data
      → Dict.get name r.disk_children_map ≡ some (child ∷ [])
      → OnlyChild name child p r
      → chain r ≡ ends names
      → has_name name names ≡ true
      → remove_diff_disk fs io t name force r w ≡ some ((r', w'), none)
      → chain r' ≡ ends (remove_name name names)
  unfolding remove_diff_disk chain
  remove_diff_disk-chain name child force p names r r' w w' full u one o walk on h =
      let not_head : str_eq name r.info.head ≡ false = ground (arith, h) in
      let (linked, few) = chain_from-Linked (length r.disk_data) r.info.head names r walk in
      let (ys, there, fewer) = Linked-from name r.info.head names r linked on in
      let (i, record_there) = Linked-get name ys r full there in
      let d = r.disks i in
      let at : disk_of name r ≡ some d = ground (arith, record_there) in
      let held : Dict.has name r.disk_data ≡ true =
        ground (arith, Dict.has-eq-get name r.disk_data, record_there) in
      elim (Option-cases (remove_disk_node fs io t name force r w)) [
        | inl gone ↦ absurd (ground (arith, h, not_head, gone))
        | inr (((r₁, w₁), e), node) ↦ elim (Option-cases e) [
          | inr (x, bad) ↦ absurd (ground (arith, h, not_head, node, bad))
          | inl fine ↦
              let same : r₁ ≡ r' = ground (arith, h, not_head, node, fine) in
              let m =
                remove_disk_node-Removed name child force p d r r₁ w w₁ full one o.here at
                  (ground (arith, node, fine)) in
              let away : r.info.head ≢ name =
                λ k. absurd (ground (arith, not_head, str_eq_iff name r.info.head, sym k)) in
              let after =
                Linked-Removed name child r.info.head p d names r r₁ u o at m full away linked in
              let enough : length (remove_name name names) ≤ length r₁.disk_data = omega (
                arith,
                few,
                length-remove_name name names on,
                length-delete_has name r.disk_data held,
                ap length m.disk_data,
              ) in
              rw (sym same) (
                ap (λ z. chain_from (length r₁.disk_data) z r₁) m.head
                ∙ Linked-chain_from (length r₁.disk_data) r.info.head (remove_name name names) r₁
                    after enough)
        ]
      ]
