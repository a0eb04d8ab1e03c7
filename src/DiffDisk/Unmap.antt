-- ===== src/DiffDisk/Unmap.antt =====
-- pkg/replica/diff_disk.go: `UnmapAt`. The length is a uint32, so its subtractions wrap.
-- File `idx` of the disk is unmapped for entry `len(files) - 1 - idx` of `unmappableDisks`, whose
-- path is used for the size on disk alone.
use longhorn_engine.Prelude.{
  ℕ, zero, suc, ◌+◌, ◌-◌, ◌%◌, ◌^◌, String, Option, none, some, List, [], ◌∷◌, length, set, ◌||◌,
  true, false, ltb, ◌==◌, if◌then◌else◌,
}
use longhorn_engine.Prelude.Int.{ℤ, pos, sub_ℕ, ◌+ℤ◌}
use longhorn_engine.Types.{ReplicaError, plain}
use longhorn_engine.DiffDisk.{DiffDisk, DiffFile, ok, fail, Run, panic, done, file_at}

-- `uint32` subtraction, and the conversion to `uint32`.
abbrev pub u32 : ℕ → ℕ
u32 n = n % 2 ^ 32

abbrev pub sub32 : ℕ → ℕ → ℕ
sub32 a b = (a + 2 ^ 32 - u32 b) % 2 ^ 32

-- The running total, and whether the size on disk could not be read.
pub record Tally : Type 0 where
  pub size : ℤ
  pub broken : Option ReplicaError

unfoldable pub tally : Option ℕ → Option ℕ → Tally → Tally
unfolding ◌+ℤ◌
tally before after t = elim t.broken [
  | some e ↦ t
  | none ↦ elim before [
    | none ↦ record t { broken = some (plain "no actual size before unmap") }
    | some b ↦ elim after [
      | none ↦ record t { broken = some (plain "no actual size after unmap") }
      | some a ↦ record t { size = t.size +ℤ sub_ℕ b a }
    ]
  ]
]

-- The read of the size before the unmap alone, for a round that then skips the unmap.
unfoldable pub tally_skipped : Option ℕ → Tally → Tally
tally_skipped before t = elim t.broken [
  | some e ↦ t
  | none ↦ elim before [
    | none ↦ record t { broken = some (plain "no actual size before unmap") }
    | some b ↦ t
  ]
]

module _ {F : Type 0} (io : DiffFile F) where
  -- The loop over the files from the top: `idx` counts down while it is above 0 and paths are left.
  unfoldable pub unmap_loop :
      ℕ → List String → ℕ → ℕ → Tally → DiffDisk F → Run F (ℤ × Option ReplicaError)
  unfolding tally tally_skipped
  unmap_loop zero paths len off t d =
      done d (elim t.broken [ none ↦ t.size | some e ↦ pos 0 ], none)
  unmap_loop (suc i) [] len off t d =
      done d (elim t.broken [ none ↦ t.size | some e ↦ pos 0 ], none)
  unmap_loop (suc i) (path ∷ paths) len off t d = elim (file_at d.files (suc i)) [
    | none ↦ panic
    | some f ↦ elim (io.size f) [
      | fail e ↦ done d (pos 0, some e)
      | ok apparent ↦
          let before = io.actual_size path f in
          let current = if ltb apparent (off + len) then u32 (apparent - off) else len in
          elim (ltb apparent off || current == 0) [
            | true ↦ unmap_loop i paths len off (tally_skipped before t) d
            | false ↦
                let (f', n, err) = io.unmap_at f current off in
                let d' = record d { files = set d.files (suc i) (some f') } in
                elim err [
                  | some e ↦ done d' (pos 0, some e)
                  | none ↦ unmap_loop i paths len off (tally before (io.actual_size path f') t) d'
                ]
          ]
    ]
  ]

-- The offset and the length rounded inwards to whole sectors.
unfoldable pub aligned_offset : ℕ → ℕ → ℕ
aligned_offset ss off = if off % ss == 0 then off else off + (ss - off % ss)

unfoldable pub aligned_length : ℕ → ℕ → ℕ → ℕ
aligned_length ss len off =
    let cut = if off % ss == 0 then len else sub32 len (ss - off % ss) in
    if (len + off) % ss == 0 then cut else sub32 cut ((len + off) % ss)

module _ {F : Type 0} (io : DiffFile F) where
  -- `UnmapAt`
  unfoldable pub unmap_at : List String → ℕ → ℕ → DiffDisk F → Run F (ℤ × Option ReplicaError)
  unfolding unmap_loop aligned_offset aligned_length
  unmap_at unmappable_disks len off d =
      let ss = d.sector_size in
      let len' = aligned_length ss len off in
      if ltb len (u32 ss)
      then done d (pos 0, none)
      else if len' == 0
      then done d (pos 0, none)
      else if ltb len len'
      then done d (pos 0, some (plain "final unmap length should not be larger"))
      else unmap_loop io (length d.files - 1) unmappable_disks len' (aligned_offset ss off)
          (record { size = pos 0; broken = none }) d
