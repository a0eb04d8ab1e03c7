-- ===== src/Replica/Maps.antt =====
-- pkg/replica/replica.go: `addChildDisk`, `rmChildDisk`, `updateChildDisk`, `findDisk`, and the walks
-- along the parents, `Chain` and `DisplayChain`.
use longhorn_engine.Prelude.{
  ℕ, zero, suc, ◌+◌, String, Bool, true, false, not, Option, none, some, List, [], ◌∷◌, length,
  if◌then◌else◌, str_eq,
}
use longhorn_engine.Prelude.Dict
use longhorn_engine.Prelude.Dict.{Dict}
use longhorn_engine.Replica.{Disk, Replica, disk_of}

-- A set of names: `m[k] = true`, `delete(m, k)` and the test.
unfoldable pub has_name : String → List String → Bool
has_name k [] = false
has_name k (n ∷ ns) = if str_eq n k then true else has_name k ns

unfoldable pub add_name : String → List String → List String
add_name k [] = k ∷ []
add_name k (n ∷ ns) = if str_eq n k then n ∷ ns else n ∷ add_name k ns

unfoldable pub remove_name : String → List String → List String
remove_name k [] = []
remove_name k (n ∷ ns) = if str_eq n k then ns else n ∷ remove_name k ns

-- `addChildDisk`
unfoldable pub add_child_disk : String → String → Dict (List String) → Dict (List String)
unfolding add_name
add_child_disk parent child m =
    let children : List String = elim (Dict.get parent m) [ none ↦ [] | some ns ↦ ns ] in
    Dict.put parent (add_name child children) m

-- `rmChildDisk`
unfoldable pub rm_child_disk : String → String → Dict (List String) → Dict (List String)
unfolding has_name remove_name
rm_child_disk parent child m = elim (Dict.get parent m) [
  | none ↦ m
  | some children ↦ if not (has_name child children) then m else elim (remove_name child children) [
    | [] ↦ Dict.delete parent m
    | (n ∷ ns) ↦ Dict.put parent (n ∷ ns) m
  ]
]

-- The loop of `findDisk` from an index on; the records of the slice are not nil past index 0.
unfoldable pub find_from : String → ℕ → List (Option ℕ) → (ℕ → Disk) → ℕ
find_from name i [] disks = 0
find_from name i (none ∷ ps) disks = find_from name (i + 1) ps disks
find_from name i (some p ∷ ps) disks =
    if str_eq (disks p).name name then i else find_from name (i + 1) ps disks

-- What a walk along the parents meets: the end, a name without a record, or more disks than the
-- rounds it has.
pub data Walk : Type 0 where
  ends : List String → Walk
  missing : String → Walk
  endless : Walk

abbrev pub before : String → Walk → Walk
before name (ends names) = ends (name ∷ names)
before name (missing n) = missing n
before name endless = endless

module _ {F : Type 0} where
  -- `updateChildDisk`; a name that is not in the map is a panic.
  unfoldable pub update_child_disk : String → String → Replica F → Option (Replica F)
  unfolding add_child_disk rm_child_disk
  update_child_disk old_name new_name r = elim (disk_of old_name r) [
    | none ↦ none
    | some d ↦
        let m = rm_child_disk d.parent old_name r.disk_children_map in
        some (record r {
          disk_children_map = if str_eq new_name "" then m else add_child_disk d.parent new_name m;
        })
  ]

  -- `findDisk`
  unfoldable pub find_disk : String → Replica F → ℕ
  unfolding find_from
  find_disk name r = elim r.active_disk_data [ [] ↦ 0 | (p ∷ ps) ↦ find_from name 1 ps r.disks ]

  -- The loop of `Chain`, with the rounds that it may take.
  unfoldable pub chain_from : ℕ → String → Replica F → Walk
  chain_from zero cur r = if str_eq cur "" then ends [] else endless
  chain_from (suc n) cur r = if str_eq cur "" then ends [] else elim (disk_of cur r) [
    | none ↦ missing cur
    | some d ↦ before cur (chain_from n d.parent r)
  ]

  -- `Chain`. A walk without a cycle meets each record once, so it ends within their number.
  unfoldable pub chain : Replica F → Walk
  unfolding chain_from
  chain r = chain_from (length r.disk_data) r.info.head r

  -- The loop of `DisplayChain`.
  unfoldable pub display_from : ℕ → String → Replica F → Walk
  display_from zero cur r = if str_eq cur "" then ends [] else endless
  display_from (suc n) cur r = if str_eq cur "" then ends [] else elim (disk_of cur r) [
    | none ↦ missing cur
    | some d ↦ let rest = display_from n d.parent r in if d.removed then rest else before cur rest
  ]

  -- `DisplayChain`
  unfoldable pub display_chain : Replica F → Walk
  unfolding display_from
  display_chain r = display_from (length r.disk_data) r.info.head r
