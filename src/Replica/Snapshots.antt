-- ===== src/Replica/Snapshots.antt =====
-- pkg/replica/replica.go: a snapshot in the chain of disks, as `createDisk` makes it.
use longhorn_engine.Prelude.{
  ℕ, zero, suc, ◌<◌, String, true, false, none, some, List, [], ◌∷◌, length, if◌then◌else◌, str_eq,
  str_eq_iff, ◌≡◌, ◌≢◌, refl, sym, ap, ◌∙◌, arith, Bool-cases, Option-cases, inl, inr,
}
use longhorn_engine.Prelude.Dict
use longhorn_engine.Prelude.Dict.{Dict, IsMap}
use longhorn_engine.Types.Errors.{Texts}
use longhorn_engine.DiffDisk.{ok}
use longhorn_engine.Replica.{Replica}
use longhorn_engine.Replica.Maps.{has_name, ends, before, chain_from, chain}
use longhorn_engine.Replica.Files.{Files, next_file, snapshot_disk_name}
use longhorn_engine.Replica.Create.{DiskRequest, create_disk}
use longhorn_engine.Replica.Rollback.{IsFresh}
use longhorn_engine.Replica.Chain.{chain_frame, before-ends, create_disk-Created}

-- A replica whose walk along the parents ends: the disks below the head.
pub record IsChained {F : Type 0} (r : Replica F) (below : List String) : Type 0 where
  pub named : r.info.head ≢ ""
  pub maps : IsMap r.disk_data
  pub allocated : (x : String) (p : ℕ) → Dict.get x r.disk_data ≡ some p → p < r.fresh
  pub walk : chain r ≡ ends (r.info.head ∷ below)
  pub once : has_name r.info.head below ≡ false

length-put_new :
    (k : String) (v : ℕ) (m : Dict ℕ)
    → Dict.has k m ≡ false
    → length (Dict.put k v m) ≡ suc (length m)
unfolding Dict.put Dict.has
length-put_new k v [] h = refl
length-put_new k v (e ∷ m) h = ground (arith, length-put_new k v m)

length-delete_one :
    (k : String) (v : ℕ) (m : Dict ℕ)
    → Dict.get k m ≡ some v
    → suc (length (Dict.delete k m)) ≡ length m
unfolding Dict.delete Dict.get
length-delete_one k v [] h = absurd (ground (arith, h))
length-delete_one k v (e ∷ m) h = ground (arith, length-delete_one k v m)

-- Looking up a name in the maps after a snapshot.
get-created :
    (hd snap name x : String) (old p : ℕ) (m : Dict ℕ)
    → IsMap m
    → Dict.get x (Dict.delete hd (Dict.put snap old (Dict.put name p m))) ≡ (
        if str_eq hd x
        then none
        else if str_eq snap x
        then some old
        else if str_eq name x
        then some p
        else Dict.get x m)
get-created hd snap name x old p m u =
    let u₁ = Dict.put-IsMap name p m u in
    let u₂ = Dict.put-IsMap snap old (Dict.put name p m) u₁ in
    rw (Dict.get-delete hd x (Dict.put snap old (Dict.put name p m)) u₂)
      (rw (Dict.get-put snap x old (Dict.put name p m)) (rw (Dict.get-put name x p m) refl))

module _ {F : Type 0} where
  -- The names of a walk have records.
  walk_in_map :
      (n : ℕ) (cur away : String) (names : List String) (r : Replica F)
      → Dict.has away r.disk_data ≡ false
      → chain_from n cur r ≡ ends names
      → has_name away names ≡ false
  unfolding chain_from has_name
  walk_in_map zero cur away names r out h = ground (arith, h)
  walk_in_map (suc n) cur away names r out h = elim (Bool-cases (str_eq cur "")) [
    | inl over ↦ ground (arith, over, h)
    | inr going ↦ elim (Option-cases (Dict.get cur r.disk_data)) [
      | inl gone ↦ absurd (ground (arith, h, going, gone))
      | inr (p, here) ↦
          let walked : before cur (chain_from n (r.disks p).parent r) ≡ ends names =
            ground (arith, h, going, here) in
          let (ns, rest, split) = before-ends cur names _ walked in
          let later = walk_in_map n (r.disks p).parent away ns r out rest in
          let apart : str_eq cur away ≡ false =
            ground (arith, out, here, str_eq_iff cur away, Dict.has-eq-get away r.disk_data) in
          rw split (rw apart later)
    ]
  ]

  -- The first step of a walk.
  chain_step :
      (n : ℕ) (cur : String) (p : ℕ) (r : Replica F)
      → cur ≢ ""
      → Dict.get cur r.disk_data ≡ some p
      → chain_from (suc n) cur r ≡ before cur (chain_from n (r.disks p).parent r)
  unfolding chain_from
  chain_step n cur p r full here = ground (arith, here, str_eq_iff cur "")

  head_has :
      (below : List String) (r : Replica F)
      → IsChained r below
      → Dict.has r.info.head r.disk_data ≡ true
  unfolding chain has_name
  head_has below r v = elim (Bool-cases (Dict.has r.info.head r.disk_data)) [
    | inl there ↦ there
    | inr gone ↦
        let out =
          walk_in_map (length r.disk_data) r.info.head r.info.head (r.info.head ∷ below) r gone
            v.walk in
        absurd (ground (arith, out, str_eq_iff r.info.head r.info.head))
  ]

  -- The disks below the head, as the walk meets them.
  walk_below :
      (below : List String) (p : ℕ) (r : Replica F)
      → IsChained r below
      → Dict.get r.info.head r.disk_data ≡ some p
      → (m : ℕ) × (length r.disk_data ≡ suc m) × (chain_from m (r.disks p).parent r ≡ ends below)
  unfolding chain
  walk_below below p r v here =
      let m = length (Dict.delete r.info.head r.disk_data) in
      let size : length r.disk_data ≡ suc m =
        sym (length-delete_one r.info.head p r.disk_data here) in
      let first = chain_step m r.info.head p r v.named here in
      let walked : before r.info.head (chain_from m (r.disks p).parent r)
          ≡ ends (r.info.head ∷ below) =
        sym first ∙ ap (λ n. chain_from n r.info.head r) (sym size) ∙ v.walk in
      let (ns, rest, split) = before-ends r.info.head (r.info.head ∷ below) _ walked in
      (m, size, rest ∙ ground (arith, split))

module _ {W F : Type 0} (fs : Files W F) (t : Texts) where
  -- A successful `createDisk` of free names keeps a replica well chained: the new head stands on the new
  -- snapshot, which stands on the disks that were below the old head, and the old head's name is gone.
  pub create_disk-IsChained :
      (q : DiskRequest) (below : List String) (r r' : Replica F) (w w' : W)
      → snapshot_disk_name q.name ≢ ""
      → IsFresh fs t q r
      → (next_file fs t r.info.head ≢ ok "")
      → IsChained r below
      → create_disk fs t q r w ≡ some ((r', w'), none)
      → IsChained r' (snapshot_disk_name q.name ∷ below)
        × (Dict.get r.info.head r'.disk_data ≡ none)
        × (next_file fs t r.info.head ≡ ok r'.info.head)
  unfolding chain has_name
  create_disk-IsChained q below r r' w w' full free proper v run =
      let snap = snapshot_disk_name q.name in
      let (c, new) = create_disk-Created fs t q r r' w w' v.named full run in
      let unused = free.head c.name c.next in
      let hd = r.info.head in
      let dd = r.disk_data in
      let present = head_has below r v in
      let apart : str_eq c.name hd ≡ false = elim (Bool-cases (str_eq c.name hd)) [
        | inl same ↦ absurd (ground (arith, present, unused, (str_eq_iff c.name hd).0 same))
        | inr k ↦ k
      ] in
      let here : Dict.get hd dd ≡ some c.old =
        ground (arith, Dict.get-put c.name hd r.fresh dd, c.there, apart) in
      let other : str_eq c.name snap ≡ false = elim (Bool-cases (str_eq c.name snap)) [
        | inl same ↦ absurd (free.apart (c.next ∙ ap ok ((str_eq_iff c.name snap).0 same)))
        | inr k ↦ k
      ] in
      let base : str_eq hd snap ≡ false = elim (Bool-cases (str_eq hd snap)) [
        | inl same ↦ absurd (ground (arith, present, new, (str_eq_iff hd snap).0 same))
        | inr k ↦ k
      ] in
      let look : (x : String)
          → Dict.get x r'.disk_data ≡ (
              if str_eq hd x
              then none
              else if str_eq snap x
              then some c.old
              else if str_eq c.name x
              then some r.fresh
              else Dict.get x dd) =
        λ x. ap (Dict.get x) c.disk_data ∙ get-created hd snap c.name x c.old r.fresh dd v.maps in
      let (m, size, rest) = walk_below below c.old r v here in
      let outside : has_name c.name (snap ∷ below) ≡ false = ground (
        arith,
        other,
        str_eq_iff snap c.name,
        str_eq_iff c.name snap,
        walk_in_map m (r.disks c.old).parent c.name below r unused rest,
      ) in
      let dd₁ = Dict.put c.name r.fresh dd in
      let dd₂ = Dict.put snap c.old dd₁ in
      let still : Dict.get hd dd₂ ≡ some c.old = ground (
        arith,
        Dict.get-put snap hd c.old dd₁,
        str_eq_iff hd snap,
        str_eq_iff snap hd,
        c.there,
        base,
      ) in
      let untaken : Dict.has snap dd₁ ≡ false =
        ground (arith, Dict.has-put c.name snap r.fresh dd, other, new) in
      let grown : length r'.disk_data ≡ suc (suc m) = omega (
        arith,
        ap length c.disk_data,
        length-delete_one hd c.old dd₂ still,
        size,
        length-put_new c.name r.fresh dd unused,
        length-put_new snap c.old dd₁ untaken,
      ) in
      let older = v.allocated hd c.old here in
      let top_parent : (r'.disks r.fresh).parent ≡ snap = ground (arith, c.parents r.fresh) in
      let middle_parent : (r'.disks c.old).parent ≡ (r.disks c.old).parent =
        ground (arith, c.parents c.old, older) in
      let top =
        chain_step (suc m) c.name r.fresh r' (λ e. proper (c.next ∙ ap ok e))
          (ground (
            arith,
            look c.name,
            str_eq_iff hd c.name,
            str_eq_iff c.name hd,
            apart,
            other,
            str_eq_iff snap c.name,
            str_eq_iff c.name snap,
            str_eq_iff c.name c.name,
          ))
        ∙ ap (λ z. before c.name (chain_from (suc m) z r')) top_parent in
      let middle =
        chain_step m snap c.old r' full (ground (arith, look snap, base, str_eq_iff snap snap))
        ∙ ap (λ z. before snap (chain_from m z r')) middle_parent in
      let bottom =
        chain_frame m (r.disks c.old).parent hd below r r'
          (λ x p h away. (
            r'.disks p,
            ground (
              arith,
              look x,
              h,
              away,
              str_eq_iff hd x,
              str_eq_iff snap x,
              str_eq_iff c.name x,
              Dict.has-eq-get x dd,
              unused,
              new,
            ),
            ground (arith, c.parents p, v.allocated x p h),
          ))
          v.once rest in
      (
        record {
          named = λ e. proper (c.next ∙ ap ok (sym c.head ∙ e));
          maps =
              let u₁ = Dict.put-IsMap c.name r.fresh dd v.maps in
              let u₂ = Dict.put-IsMap snap c.old (Dict.put c.name r.fresh dd) u₁ in
              rw c.disk_data
                (Dict.delete-IsMap hd (Dict.put snap c.old (Dict.put c.name r.fresh dd)) u₂);
          allocated = λ x p h. ground (arith, c.fresh, look x, h, older, v.allocated x p);
          walk =
              ap (λ z. chain_from (length r'.disk_data) z r') c.head
              ∙ ap (λ z. chain_from z c.name r') grown
              ∙ top
              ∙ ap (before c.name) (middle ∙ ap (before snap) bottom)
              ∙ ap (λ z. ends (z ∷ snap ∷ below)) (sym c.head);
          once = ap (λ z. has_name z (snap ∷ below)) c.head ∙ outside;
        },
        ground (arith, look hd, str_eq_iff hd hd),
        c.next ∙ ap ok (sym c.head),
      )
