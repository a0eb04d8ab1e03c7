-- ===== src/DiffDisk/Write.antt =====
-- pkg/replica/diff_disk.go: `WriteAt`, `readModifyWrite` and `fullWriteAt`.
use longhorn_engine.Prelude.{
  ℕ, zero, suc, ◌+◌, ◌-◌, ◌*◌, ◌/◌, ◌%◌, Option, none, some, List, length, take, drop, set,
  replicate, ltb, leb, ◌==◌, ◌||◌, ◌&&◌, ◌++◌, not, if◌then◌else◌,
}
use longhorn_engine.Types.{ReplicaError, plain}
use longhorn_engine.DiffDisk.{DiffDisk, DiffFile, Run, panic, done, byte, file_at}
use longhorn_engine.DiffDisk.Read.{copy, full_read_at}

-- The loop that marks sectors as written; a sector past the end of `location` is a panic.
unfoldable pub mark_sectors : ℕ → ℕ → ℕ → List ℕ → Option (List ℕ)
mark_sectors zero start target ls = some ls
mark_sectors (suc n) start target ls =
    if ltb start (length ls) then mark_sectors n (start + 1) target (set ls start target) else none

module _ {F : Type 0} (io : DiffFile F) where
  -- `fullWriteAt`
  unfoldable pub full_write_at : List ℕ → ℕ → DiffDisk F → Run F (ℕ × Option ReplicaError)
  unfolding mark_sectors
  full_write_at buf offset d =
      if not (length buf % d.sector_size == 0) || not (offset % d.sector_size == 0)
      then done d (0, some (plain "write not a multiple"))
      else (let target = byte (length d.files - 1) in
          elim (file_at d.files target) [
            | none ↦ panic
            | some f ↦
                let (f', c, err) = io.write_at f buf offset in
                elim (mark_sectors (length buf / d.sector_size) (offset / d.sector_size) target
                  d.location) [
                    | none ↦ panic
                    | some ls ↦
                        done (record d { files = set d.files target (some f'); location = ls })
                          (c, err)
                  ]
          ])

  -- `readModifyWrite`
  unfoldable pub read_modify_write : List ℕ → ℕ → DiffDisk F → Run F (ℕ × Option ReplicaError)
  read_modify_write buf offset d =
      if length buf == 0
      then done d (0, none)
      else (let read_offset = offset / d.sector_size * d.sector_size in
          elim (full_read_at io (replicate d.sector_size 0) read_offset d) [
            | panic ↦ panic
            | done d' r ↦ elim r.err [
              | some e ↦ done d' (0, some e)
              | none ↦
                  let at = offset % d.sector_size in
                  full_write_at (take at r.buf ++ copy (drop at r.buf) buf) read_offset d'
            ]
          ])

  -- `WriteAt`
  unfoldable pub write_at : List ℕ → ℕ → DiffDisk F → Run F (ℕ × Option ReplicaError)
  write_at buf offset d =
      let start_offset = offset % d.sector_size in
      let start_cut = d.sector_size - start_offset in
      let end_offset = (length buf + offset) % d.sector_size in
      let last = length buf - end_offset in
      if length buf == 0
      then done d (0, none)
      else if start_offset == 0 && end_offset == 0
      then full_write_at buf offset d
      else if leb (length buf) start_cut
      then read_modify_write buf offset d
      else elim (read_modify_write (take start_cut buf) offset d) [
        | panic ↦ panic
        | done d₁ (n₁, some e) ↦ done d₁ (0, some e)
        | done d₁ (n₁, none) ↦
            elim (full_write_at (take (last - start_cut) (drop start_cut buf)) (offset + start_cut)
              d₁) [
                | panic ↦ panic
                | done d₂ (n₂, some e) ↦ done d₂ (0, some e)
                | done d₂ (n₂, none) ↦ elim (read_modify_write (drop last buf) (offset + last) d₂) [
                  | panic ↦ panic
                  | done d₃ (n₃, some e) ↦ done d₃ (0, some e)
                  | done d₃ (n₃, none) ↦ done d₃ (length buf, none)
                ]
              ]
      ]
