-- ===== src/Tests/Disks.antt =====
-- The theorems on the stack of files, at a disk of two files and two sectors.
use longhorn_engine.Prelude.{
  ◌≢◌, ◌≤◌, ◌<◌, false, ℕ, zero, suc, ◌+◌, ◌-◌, ◌*◌, ◌<◌, ◌++◌, none, some, List, [], ◌∷◌, ◌≡◌,
  refl, arith, get_elem?, replicate, drop, take,
}
use longhorn_engine.Prelude.Int.{pos}
use longhorn_engine.DiffDisk.{DiffDisk, done, file_at, ok, lookup}
use longhorn_engine.DiffDisk.Layers.{IsValid, holder, Caches, lookup_lem}
use longhorn_engine.DiffDisk.Content.{volume_bytes}
use longhorn_engine.DiffDisk.Read.{full_read_at, read_at}
use longhorn_engine.DiffDisk.Reads.{full_read_at-volume}
use longhorn_engine.DiffDisk.StaleTail.{read_at-stale}
use longhorn_engine.DiffDisk.{remove_index}
use longhorn_engine.DiffDisk.Write.{full_write_at}
use longhorn_engine.DiffDisk.Removal.{remove_index-IsValid}
use longhorn_engine.DiffDisk.Marks.{within, full_write_at-IsValid}
use longhorn_engine.DiffDisk.RoundTrip.{full_read_at-full_write_at}
use longhorn_engine.Tests.{ram_file, ram, ram_writes}

-- The top file ends after the first sector's first half is hidden; the base file is full.
abbrev two_files : DiffDisk (List ℕ)
two_files = record {
  location = 0 ∷ 0 ∷ [];
  files = none ∷ some (1 ∷ 2 ∷ 3 ∷ 4 ∷ []) ∷ some (0 ∷ 0 ∷ 5 ∷ 6 ∷ []) ∷ [];
  sector_size = 2;
  size = 4;
}

-- The base file ends after the first sector.
abbrev short_base : DiffDisk (List ℕ)
short_base = record {
  location = 0 ∷ 0 ∷ [];
  files = none ∷ some (1 ∷ 2 ∷ []) ∷ some [] ∷ [];
  sector_size = 2;
  size = 4;
}

live_at :
    (a b : List ℕ) (i : ℕ)
    → 0 < i
    → i < 3
    → (f : List ℕ) × (file_at (none ∷ some a ∷ some b ∷ []) i ≡ some f)
live_at a b zero h k = absurd (omega arith)
live_at a b (suc zero) h k = (a, refl)
live_at a b (suc (suc zero)) h k = (b, refl)
live_at a b (suc (suc (suc i))) h k = absurd (omega arith)

inside_at : (s l : ℕ) → get_elem? (0 ∷ 0 ∷ []) s ≡ some l → l < 3
inside_at zero l h = ground arith
inside_at (suc zero) l h = ground arith
inside_at (suc (suc s)) l h = cc

two_files-IsValid : IsValid two_files
two_files-IsValid = record {
  two = omega arith;
  few = omega arith;
  live = live_at _ _;
  inside = inside_at;
}

short_base-IsValid : IsValid short_base
short_base-IsValid = record {
  two = omega arith;
  few = omega arith;
  live = live_at _ _;
  inside = inside_at;
}

full_read_at-volume_example :
    (t : DiffDisk (List ℕ)) × (full_read_at ram_file (replicate (2 * 2) 0) (0 * 2) two_files
      ≡ done t (record { buf = volume_bytes ram two_files 0 2; n = pos (2 * 2); err = none }))
    × Caches ram two_files t
full_read_at-volume_example =
    full_read_at-volume ram two_files 0 2 two_files-IsValid (omega arith) (omega arith)

volume_bytes-two_files : volume_bytes ram two_files 0 2 ≡ 1 ∷ 2 ∷ 5 ∷ 6 ∷ []
unfolding volume_bytes holder
volume_bytes-two_files = refl

lookup_lem_example :
    (t : DiffDisk (List ℕ)) × (lookup ram_file 1 two_files ≡ done t (ok (holder ram two_files 1)))
    × Caches ram two_files t
lookup_lem_example = lookup_lem ram two_files two_files-IsValid 1

short_base-live : file_at short_base.files (holder ram short_base 1) ≡ some (1 ∷ 2 ∷ [])
unfolding holder
short_base-live = refl

read_at-stale_example :
    (t : DiffDisk (List ℕ)) × (read_at ram_file (replicate (2 - 1 + 1) 0) (0 * 2 + 1) short_base
      ≡ done t (record {
        buf = drop 1 (volume_bytes ram short_base 0 1) ++ take 1 (volume_bytes ram short_base 0 1);
        n = pos (2 - 1 + 1);
        err = none;
      }))
read_at-stale_example =
    read_at-stale ram short_base 0 1 1 (1 ∷ 2 ∷ []) short_base-IsValid (omega arith) (omega arith)
      (omega arith) (omega arith) short_base-live (omega arith) (omega arith)

full_read_at-full_write_at_example :
    (t : DiffDisk (List ℕ)) × (u : DiffDisk (List ℕ)) × (c : ℕ) × (full_write_at ram_file
        (8 ∷ 9 ∷ [])
        (0 * 2)
        two_files
      ≡ done t (c, none))
    × (full_read_at ram_file (replicate (1 * 2) 0) (0 * 2) t
        ≡ done u (record { buf = 8 ∷ 9 ∷ []; n = pos (1 * 2); err = none }))
full_read_at-full_write_at_example =
    full_read_at-full_write_at ram ram_writes two_files 0 1 (8 ∷ 9 ∷ []) two_files-IsValid
      (omega arith) refl (omega arith) (omega arith) (λ f. refl)

full_write_at-IsValid_example :
    (f : List ℕ) × (t : DiffDisk (List ℕ)) × (file_at two_files.files 2 ≡ some f)
    × (full_write_at ram_file (8 ∷ 9 ∷ []) (0 * 2) two_files
        ≡ done t (
          (ram_file.write_at f (8 ∷ 9 ∷ []) (0 * 2)).1,
          (ram_file.write_at f (8 ∷ 9 ∷ []) (0 * 2)).2,
        ))
    × IsValid t
    × (file_at t.files 2 ≡ some (ram_file.write_at f (8 ∷ 9 ∷ []) (0 * 2)).0)
    × ((i : ℕ) → i ≢ 2 → file_at t.files i ≡ file_at two_files.files i)
    × ((u : ℕ) → 0 ≤ u → u < 0 + 1 → lookup ram_file u t ≡ done t (ok 2))
    × ((u : ℕ) → within 0 1 u ≡ false → get_elem? t.location u ≡ get_elem? two_files.location u)
full_write_at-IsValid_example =
    full_write_at-IsValid ram_file two_files 0 1 (8 ∷ 9 ∷ []) two_files-IsValid (omega arith) refl
      (omega arith)

remove_index-IsValid_example :
    (t : DiffDisk (List ℕ)) × (remove_index ram_file 1 two_files ≡ done t none)
    × IsValid t
    × ((s l : ℕ)
        → get_elem? two_files.location s ≡ some l
        → (m : ℕ) × (get_elem? t.location s ≡ some m)
          × (l ≡ 1 → m ≡ 0)
          × (l ≢ 1 → file_at t.files m ≡ file_at two_files.files l))
remove_index-IsValid_example =
    remove_index-IsValid ram_file two_files 1 (1 ∷ 2 ∷ 3 ∷ 4 ∷ []) two_files-IsValid (omega arith)
      (omega arith) refl refl
