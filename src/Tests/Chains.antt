-- ===== src/Tests/Chains.antt =====
-- The theorems on a replica's chain of disks, at a head on two snapshots.
use longhorn_engine.Prelude.{
  ℕ, zero, suc, ◌<◌, String, true, false, Option, none, some, List, [], ◌∷◌, ◌==◌, if◌then◌else◌,
  str_eq, str_eq_iff, ◌≡◌, ◌≢◌, refl, sym, arith,
}
use longhorn_engine.Prelude.Dict
use longhorn_engine.Prelude.Dict.{IsMap}
use longhorn_engine.Types.{ReplicaError, plain}
use longhorn_engine.Types.Errors.{Texts, function_error_with_rollback, wrap_error, combine_errors}
use longhorn_engine.DiffDisk.{ok, remove_index}
use longhorn_engine.Replica.{Disk, Replica}
use longhorn_engine.Replica.Maps.{has_name, ends, chain}
use longhorn_engine.Replica.Files.{Files, next_file}
use longhorn_engine.Replica.Create.{DiskRequest, create_disk}
use longhorn_engine.Replica.Remove.{remove_diff_disk}
use longhorn_engine.Replica.Rollback.{IsFresh, Unchanged, create_disk-Unchanged}
use longhorn_engine.Replica.Snapshots.{IsChained, create_disk-IsChained}
use longhorn_engine.Replica.Removal.{OnlyChild, remove_diff_disk-chain}
use longhorn_engine.Tests.{ram_file}

differ : (a b : String) → str_eq a b ≡ false → a ≢ b
differ a b h e = ground (arith, str_eq_iff a b, h, e)

differ_ok : (a b : String) → str_eq a b ≡ false → ok a ≢ ok b
differ_ok a b h e = ground (arith, str_eq_iff a b, h, e)

abbrev pub short_texts : Texts
short_texts = record {
  text = λ e. "e";
  pair = λ e f. "e, f";
  prefixed = λ a b. b;
  rollback_only = λ e. "r";
}

-- A directory where every call goes well, but the writing of a metadata file where the argument says so.
abbrev directory : (String → Option ReplicaError) → Files (Unit {0}) (List ℕ)
directory broken = record {
  stat = λ n w. none;
  remove_all = λ n w. (w, none);
  remove = λ n w. (w, none);
  link = λ a b w. (w, none);
  truncate = λ n k w. (w, none);
  create = λ n w. (w, none);
  encode = λ n c w. (w, broken n);
  rename = λ a b w. (w, none);
  open_file = λ n b w. (w, ok []);
  head_index = λ n. if str_eq n "volume-head-000.img" then some 0 else none;
  head_name = λ i. if i == 1 then "volume-head-001.img" else "volume-head-000.img";
}

abbrev good : Files (Unit {0}) (List ℕ)
good = directory (λ n. none)

-- The metadata of the volume cannot be written.
abbrev full : Files (Unit {0}) (List ℕ)
full = directory (λ n. if str_eq n "volume.meta.tmp" then some (plain "no space") else none)

abbrev pub new_disk : String → String → Disk
new_disk n p = record {
  name = n;
  parent = p;
  removed = false;
  user_created = false;
  created = "";
  labels = [];
}

abbrev three_disks : ℕ → Disk
three_disks zero = new_disk "volume-head-000.img" "volume-snap-b.img"
three_disks (suc zero) = new_disk "volume-snap-b.img" "volume-snap-a.img"
three_disks (suc (suc n)) = new_disk "volume-snap-a.img" ""

abbrev pub chained : Replica (List ℕ)
chained = record {
  volume = record {
    location = 0 ∷ [];
    files = none ∷ some [] ∷ some [] ∷ some [] ∷ [];
    sector_size = 4;
    size = 4;
  };
  info = record {
    size = 4;
    head = "volume-head-000.img";
    dirty = false;
    rebuilding = false;
    error = "";
    parent = "volume-snap-b.img";
    sector_size = 4;
    backing_file_path = "";
    backing_file = none;
  };
  disks = three_disks;
  fresh = 3;
  disk_data = ("volume-head-000.img", 0) ∷ ("volume-snap-b.img", 1) ∷ ("volume-snap-a.img", 2) ∷ [];
  disk_children_map =
      ("volume-snap-b.img", "volume-head-000.img" ∷ [])
      ∷ ("volume-snap-a.img", "volume-snap-b.img" ∷ [])
      ∷ [];
  active_disk_data = none ∷ some 2 ∷ some 1 ∷ some 0 ∷ [];
  read_only = false;
  unmap_mark_disk_chain_removed = false;
  snapshot_max_count = 250;
  snapshot_max_size = 0;
}

abbrev c_snapshot : DiskRequest
c_snapshot = record { name = "c"; user_created = true; created = "now"; labels = []; size = 4 }

abbrev memory_after :
    Option ((Replica (List ℕ) × Unit {0}) × Option ReplicaError) → Replica (List ℕ)
memory_after none = chained
memory_after (some ((r, w), e)) = r

c_snapshot-IsFresh :
    (broken : String → Option ReplicaError)
    → IsFresh (directory broken) short_texts c_snapshot chained
unfolding next_file Dict.has
c_snapshot-IsFresh broken = record {
  head = λ name h. let e : "volume-head-001.img" ≡ name = ground (arith, h) in rw (sym e) refl;
  apart = differ_ok "volume-head-001.img" "volume-snap-c.img" refl;
  childless = refl;
}

all_below : (x : String) (p : ℕ) → Dict.get x chained.disk_data ≡ some p → p < 3
unfolding Dict.get
all_below x p h = ground (arith, h)

chained-IsChained : IsChained chained ("volume-snap-b.img" ∷ "volume-snap-a.img" ∷ [])
unfolding chain Dict.has Dict.get has_name
chained-IsChained = record {
  named = differ "volume-head-000.img" "" refl;
  maps = (refl, (refl, (refl, tt)));
  allocated = all_below;
  walk = refl;
  once = refl;
}

b_only :
    (x : String) (q : ℕ)
    → Dict.get x chained.disk_data ≡ some q
    → (three_disks q).parent ≡ "volume-snap-a.img"
    → x ≡ "volume-snap-b.img"
unfolding Dict.get
b_only x zero h e = absurd (differ "volume-snap-b.img" "volume-snap-a.img" refl e)
b_only x (suc zero) h e = ground (arith, h, str_eq_iff "volume-snap-b.img" x)
b_only x (suc (suc q)) h e = absurd (differ "" "volume-snap-a.img" refl e)

b_child : OnlyChild "volume-snap-a.img" "volume-snap-b.img" 1 chained
unfolding Dict.get
b_child = record {
  here = refl;
  parent = refl;
  only = b_only;
  alone = λ x h. ground (arith, h, str_eq_iff "volume-snap-b.img" x);
}

create_disk-IsChained_example :
    let after = memory_after (create_disk good short_texts c_snapshot chained tt) in
    IsChained after ("volume-snap-c.img" ∷ "volume-snap-b.img" ∷ "volume-snap-a.img" ∷ [])
    × (Dict.get "volume-head-000.img" after.disk_data ≡ none)
    × (next_file good short_texts "volume-head-000.img" ≡ ok after.info.head)
unfolding create_disk next_file Dict.has Dict.get Dict.put
create_disk-IsChained_example =
    create_disk-IsChained good short_texts c_snapshot
      ("volume-snap-b.img" ∷ "volume-snap-a.img" ∷ []) chained
      (memory_after (create_disk good short_texts c_snapshot chained tt)) tt tt
      (differ "volume-snap-c.img" "" refl) (c_snapshot-IsFresh (λ n. none))
      (differ_ok "volume-head-001.img" "" refl) chained-IsChained refl

create_disk-Unchanged_example :
    let after = memory_after (create_disk full short_texts c_snapshot chained tt) in
    Unchanged c_snapshot chained after × (chain after ≡ chain chained)
unfolding create_disk Dict.has function_error_with_rollback wrap_error combine_errors
create_disk-Unchanged_example =
    create_disk-Unchanged full short_texts c_snapshot chained
      (memory_after (create_disk full short_texts c_snapshot chained tt)) tt tt _
      (differ "volume-head-000.img" "" refl)
      (c_snapshot-IsFresh
        (λ n. if str_eq n "volume.meta.tmp" then some (plain "no space") else none))
      all_below refl

remove_diff_disk-chain_example :
    chain (
      memory_after
        (remove_diff_disk good ram_file short_texts "volume-snap-a.img" false chained tt))
    ≡ ends ("volume-head-000.img" ∷ "volume-snap-b.img" ∷ [])
unfolding chain remove_diff_disk Dict.has Dict.get remove_index
remove_diff_disk-chain_example =
    remove_diff_disk-chain good ram_file short_texts "volume-snap-a.img" "volume-snap-b.img" false 1
      ("volume-head-000.img" ∷ "volume-snap-b.img" ∷ "volume-snap-a.img" ∷ []) chained
      (memory_after
        (remove_diff_disk good ram_file short_texts "volume-snap-a.img" false chained tt))
      tt tt (differ "volume-snap-a.img" "" refl) (refl, (refl, (refl, tt))) refl b_child refl refl
      refl
