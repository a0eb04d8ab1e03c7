-- ===== src/DiffDisk/Read.antt =====
-- pkg/replica/diff_disk.go: `ReadAt`, `fullReadAt` and `read`.
-- A slice that a call fills is an argument and a part of the result. A count is an `int`: `read`
-- subtracts from the volume's size, so it is signed.
use longhorn_engine.Prelude.{
  ℕ, zero, suc, ◌+◌, ◌-◌, ◌*◌, ◌/◌, ◌%◌, ◌++◌, true, false, Option, none, some, List, length, take,
  drop, replicate, ltb, leb, ◌==◌, ◌||◌, ◌&&◌, not, if◌then◌else◌, min, max,
}
use longhorn_engine.Prelude.Int.{ℤ, pos, sub_ℕ, ◌+ℤ◌}
use longhorn_engine.Types.{ReplicaError, plain}
use longhorn_engine.DiffDisk.{DiffDisk, DiffFile, ok, fail, Run, panic, done, file_at, lookup}

-- `copy(buf[at:], bytes)` where the bytes fit.
abbrev pub splice : List ℕ → ℕ → List ℕ → List ℕ
splice buf at bytes = take at buf ++ (bytes ++ drop (at + length bytes) buf)

-- `copy(dst, src)`: as many bytes as both have.
abbrev pub copy : List ℕ → List ℕ → List ℕ
copy dst src = let n = min (length dst) (length src) in take n src ++ drop n dst

-- What a read call returns: the caller's slice afterwards, the count and the error.
pub record ReadOut : Type 0 where
  pub buf : List ℕ
  pub n : ℤ
  pub err : Option ReplicaError

abbrev pub unexpected_eof : ReplicaError
unexpected_eof = plain "unexpected EOF"

-- The end of `read`, once `count` bytes are read from the file.
unfoldable pub read_tail : ℕ → ℕ → ℕ → ℕ → ℕ → List ℕ → ReadOut
unfolding ◌+ℤ◌
read_tail start stop disk_size volume_size count buf =
    if leb stop disk_size
    then record { buf = buf; n = pos count; err = none }
    else if leb stop volume_size
    then record { buf = buf; n = pos count +ℤ sub_ℕ stop (max disk_size start); err = none }
    else record {
      buf = buf;
      n = pos count +ℤ sub_ℕ volume_size (max disk_size start);
      err = some unexpected_eof;
    }

module _ {F : Type 0} (io : DiffFile F) where
  -- `read`
  unfoldable pub read : ℕ → List ℕ → ℕ → ℕ → ℕ → DiffDisk F → Run F ReadOut
  unfolding read_tail
  read target buf offset start_sector sectors d =
      let buf_start = start_sector * d.sector_size in
      let buf_length = sectors * d.sector_size in
      let start = offset + buf_start in
      let stop = start + buf_length in
      elim (file_at d.files target) [
        | none ↦ panic
        | some f ↦ elim (io.size f) [
          | fail e ↦ done d (record { buf = buf; n = pos 0; err = some e })
          | ok disk_size ↦
              if ltb start disk_size
              then (let wanted = min buf_length (disk_size - start) in
                  let (bytes, n, e) = io.read_at f (take wanted (drop buf_start buf)) start in
                  let buf' = splice buf buf_start bytes in
                  elim e [
                    | some x ↦ done d (record { buf = buf'; n = pos n; err = some x })
                    | none ↦ done d (read_tail start stop disk_size d.size n buf')
                  ])
              else done d (read_tail start stop disk_size d.size 0 buf)
        ]
      ]

  -- The end of `fullReadAt`, and each flush of a run of sectors: `count += c`.
  unfoldable pub flush : ℕ → ℕ → ℕ → ℕ → ReadOut → DiffDisk F → Run F ReadOut
  flush target offset start_sector sectors out d =
      elim (read target out.buf offset start_sector sectors d) [
        | panic ↦ panic
        | done d' r ↦ done d' (record r { n = out.n +ℤ r.n })
      ]

  -- The loop of `fullReadAt`, with the rounds left, at sector `i`; `run` sectors, which end before
  -- `i`, wait to be read from `target`.
  unfoldable pub full_read_loop : ℕ → ℕ → ℕ → ℕ → ℕ → ReadOut → DiffDisk F → Run F ReadOut
  full_read_loop zero i run target offset out d =
      if ltb 0 run then flush target offset (i - run) run out d else done d out
  full_read_loop (suc rounds) i run target offset out d =
      elim (lookup io (offset / d.sector_size + i) d) [
        | panic ↦ panic
        | done d' (fail e) ↦ done d' (record out { err = some e })
        | done d' (ok new_target) ↦ elim (new_target == target) [
          | true ↦ full_read_loop rounds (i + 1) (run + 1) target offset out d'
          | false ↦ elim (flush target offset (i - run) run out d') [
            | panic ↦ panic
            | done d'' r ↦ elim r.err [
              | some e ↦ done d'' r
              | none ↦ full_read_loop rounds (i + 1) 1 new_target offset r d''
            ]
          ]
        ]
      ]

  -- `fullReadAt`
  unfoldable pub full_read_at : List ℕ → ℕ → DiffDisk F → Run F ReadOut
  full_read_at buf offset d =
      let out : ReadOut = record { buf = buf; n = pos 0; err = none } in
      if not (length buf % d.sector_size == 0) || not (offset % d.sector_size == 0)
      then done d (record out { err = some (plain "read not a multiple") })
      else if length buf == 0
      then done d out
      else elim (lookup io (offset / d.sector_size) d) [
        | panic ↦ panic
        | done d' (fail e) ↦ done d' (record out { err = some e })
        | done d' (ok target) ↦
            full_read_loop (length buf / d.sector_size - 1) 1 1 target offset out d'
      ]

  -- The last partial sector of `ReadAt`: `readBuf` still holds the first sector.
  unfoldable pub read_end : List ℕ → List ℕ → ℕ → ℕ → DiffDisk F → Run F ReadOut
  read_end buf read_buf end_offset offset d =
      let total = pos (length buf) in
      if ltb 0 end_offset
      then elim (full_read_at read_buf (offset + length buf - end_offset) d) [
        | panic ↦ panic
        | done d' r ↦ elim r.err [
          | some e ↦ done d' (record { buf = buf; n = pos 0; err = some e })
          | none ↦ done d' (record {
            buf = splice buf (length buf - end_offset) (take end_offset r.buf);
            n = total;
            err = none;
          })
        ]
      ]
      else done d (record { buf = buf; n = total; err = none })

  -- `ReadAt`
  unfoldable pub read_at : List ℕ → ℕ → DiffDisk F → Run F ReadOut
  read_at buf offset d =
      let start_offset = offset % d.sector_size in
      let start_cut = d.sector_size - start_offset in
      let end_offset = (length buf + offset) % d.sector_size in
      if length buf == 0
      then done d (record { buf = buf; n = pos 0; err = none })
      else if start_offset == 0 && end_offset == 0
      then full_read_at buf offset d
      else elim (full_read_at (replicate d.sector_size 0) (offset - start_offset) d) [
        | panic ↦ panic
        | done d₁ r ↦ elim r.err [
          | some e ↦ done d₁ (record { buf = buf; n = pos 0; err = some e })
          | none ↦
              let buf₁ = copy buf (drop start_offset r.buf) in
              if leb (length buf) start_cut
              then done d₁ (record { buf = buf₁; n = pos (length buf); err = none })
              else let middle = take (length buf - end_offset - start_cut) (drop start_cut buf₁) in
                elim (full_read_at middle (offset + start_cut) d₁) [
                  | panic ↦ panic
                  | done d₂ m ↦ elim m.err [
                    | some e ↦
                        done d₂
                          (record { buf = splice buf₁ start_cut m.buf; n = pos 0; err = some e })
                    | none ↦ read_end (splice buf₁ start_cut m.buf) r.buf end_offset offset d₂
                  ]
                ]
        ]
      ]
