-- ===== src/DiffDisk.antt =====
-- pkg/replica/diff_disk.go: a volume as a stack of sparse files. This file has the state, the
-- interface of a file and the cached lookup of the file that holds a sector; the children have the
-- reads, the writes, the unmaps and what is proved.
--
-- Offsets, sizes and sector numbers are int64 and never negative here: the controller rejects a
-- negative offset before it sends a request. `panic` is a run-time panic of the process (an index out
-- of range, a call on the nil file of index 0). The lock `rmLock` makes each read-modify-write one
-- step.
pub mod Read
pub mod Write
pub mod Unmap
pub mod Layers
pub mod Content
pub mod Runs
pub mod Reads
pub mod StaleTail
pub mod Removal
pub mod Marks
pub mod RoundTrip
use longhorn_engine.Prelude.{
  ℕ, zero, suc, ◌+◌, ◌-◌, ◌*◌, ◌/◌, ◌%◌, ◌++◌, String, Bool, true, false, Option, none, some, List,
  [], ◌∷◌, length, get_elem?, set, take, drop, replicate, ltb, leb, ◌==◌, if◌then◌else◌,
}
use longhorn_engine.Types.{ReplicaError, plain}

-- A Go pair `(value, err)` where the value is zero beside an error.
pub data Checked (A : Type 0) : Type 0 where
  ok : A → Checked A
  fail : ReplicaError → Checked A

-- types.DiffDisk, as sparse-tools and libqcow implement it, with the calls of fibmap and of
-- `util.GetFileActualSize` that the code makes on an open file. A file's state is a value of `F`.
pub record DiffFile (F : Type 0) : Type 0 where
  pub size : F → Checked ℕ
  -- `ReadAt` of a slice of that length: the bytes that the slice then holds, the count, the error
  pub read_at : F → List ℕ → ℕ → List ℕ × ℕ × Option ReplicaError
  pub write_at : F → List ℕ → ℕ → F × ℕ × Option ReplicaError
  pub unmap_at : F → ℕ → ℕ → F × ℕ × Option ReplicaError
  pub close : F → Option ReplicaError
  -- whether `fibmap.Fiemap` finds an extent in a range of the file
  pub has_extent : F → ℕ → ℕ → Checked Bool
  -- `util.GetFileActualSize` of a path: none is -1
  pub actual_size : String → F → Option ℕ

-- `diffDisk`. Index 0 of `files` is nil; a location is a byte, 0 where the place is not known.
pub record DiffDisk (F : Type 0) : Type 0 where
  pub location : List ℕ
  pub files : List (Option F)
  pub sector_size : ℕ
  pub size : ℕ

-- A call that mutates the disk: the disk afterwards and what the call returns.
pub data Run (F : Type 0) (A : Type 0) : Type 0 where
  panic : Run F A
  done : DiffDisk F → A → Run F A

-- `byte(i)`
abbrev pub byte : ℕ → ℕ
byte i = i % 256

-- The file at an index; none for the nil file and past the end.
abbrev pub file_at : {F : Type 0} → List (Option F) → ℕ → Option F
file_at [] i = none
file_at (f ∷ fs) zero = f
file_at (f ∷ fs) (suc i) = file_at fs i

module _ {F : Type 0} (io : DiffFile F) where
  -- The loop of `lookup`: `i` counts down to 2.
  pub find_layer : DiffDisk F → ℕ → ℕ → Option (Checked (Option ℕ))
  find_layer d sector zero = some (ok none)
  find_layer d sector (suc zero) = some (ok none)
  find_layer d sector (suc (suc i)) = elim (file_at d.files (suc (suc i))) [
    | none ↦ none
    | some f ↦ elim (io.has_extent f (sector * d.sector_size) d.sector_size) [
      | fail e ↦ some (fail e)
      | ok true ↦ some (ok (some (suc (suc i))))
      | ok false ↦ find_layer d sector (suc i)
    ]
  ]

  -- `lookup`
  unfoldable pub lookup : ℕ → DiffDisk F → Run F (Checked ℕ)
  unfolding find_layer
  lookup sector d =
      if leb (length d.location) sector
      then done d (ok (byte (length d.files - 1)))
      else if ltb (length d.files) 2
      then done d (fail (plain "BUG: replica files cannot be less than 2"))
      else elim (get_elem? d.location sector) [
        | none ↦ panic
        | some zero ↦ elim (find_layer d sector (length d.files - 1)) [
          | none ↦ panic
          | some (fail e) ↦ done d (fail e)
          | some (ok (some i)) ↦
              let found = if byte i == 0 then 1 else byte i in
              done (record d { location = set d.location sector found }) (ok found)
          | some (ok none) ↦ done (record d { location = set d.location sector 1 }) (ok 1)
        ]
        | some (suc t) ↦ done d (ok (suc t))
      ]

  -- The shift of the locations in `RemoveIndex`.
  unfoldable pub shift_location : ℕ → ℕ → ℕ
  shift_location index l = if l == byte index then 0 else if ltb (byte index) l then l - 1 else l

  pub shift_locations : ℕ → List ℕ → List ℕ
  unfolding shift_location
  shift_locations index [] = []
  shift_locations index (l ∷ ls) = shift_location index l ∷ shift_locations index ls

  -- `append(files[:index], files[index+1:]...)`
  abbrev pub remove_at : {A : Type 0} → List A → ℕ → List A
  remove_at [] i = []
  remove_at (x ∷ xs) zero = xs
  remove_at (x ∷ xs) (suc i) = x ∷ remove_at xs i

  -- `RemoveIndex`
  unfoldable pub remove_index : ℕ → DiffDisk F → Run F (Option ReplicaError)
  unfolding shift_locations
  remove_index index d = elim (file_at d.files index) [
    | none ↦ panic
    | some f ↦ elim (io.close f) [
      | some e ↦ done d (some e)
      | none ↦
          done
            (record d {
              location = shift_locations index d.location;
              files = remove_at d.files index;
            })
            none
    ]
  ]

-- `Expand`. A size that needs fewer sectors than there are is a panic (`make` of a negative length).
unfoldable pub expand : {F : Type 0} → ℕ → DiffDisk F → Run F (Unit {0})
expand size d =
    let whole = size / d.sector_size in
    let sectors = if size % d.sector_size == 0 then whole else whole + 1 in
    if ltb sectors (length d.location)
    then panic
    else done
        (record d {
          location = d.location ++ replicate (sectors - length d.location) 0;
          size = size;
        })
        tt

-- `initializeSectorLocation`
abbrev pub fill : ℕ → List ℕ → List ℕ
fill v [] = []
fill v (l ∷ ls) = v ∷ fill v ls

unfoldable pub initialize_sector_location : {F : Type 0} → ℕ → DiffDisk F → DiffDisk F
initialize_sector_location v d = record d { location = fill v d.location }
