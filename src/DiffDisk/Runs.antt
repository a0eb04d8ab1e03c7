-- ===== src/DiffDisk/Runs.antt =====
-- `read`: one run of sectors that one file holds.
use longhorn_engine.Prelude.{
  ℕ, ◌+◌, ◌-◌, ◌*◌, ◌≤◌, ◌++◌, none, some, List, ◌≡◌, refl, arith, ap, ◌∙◌, length, replicate, take,
  drop, ltb, if◌then◌else◌, min, inl, inr, Bool-cases, true, take-append_exact, drop-append_exact,
  take-replicate, drop-replicate, replicate-append, length-replicate,
}
use longhorn_engine.Prelude.Int.{pos, ◌+ℤ◌}
use longhorn_engine.DiffDisk.{DiffDisk, DiffFile, done, file_at}
use longhorn_engine.DiffDisk.Layers.{bytes_from, SparseFile}
use longhorn_engine.DiffDisk.Content.{cell, cell-outside, cell_split, length-bytes_from}
use longhorn_engine.DiffDisk.Read.{read, read_tail, splice}

-- Zeros behind a prefix: the slice that a read fills, cut at `k`.
take-zeros :
    (pre : List ℕ) (k w n : ℕ)
    → length pre ≡ k
    → w ≤ n
    → take w (drop k (pre ++ replicate n 0)) ≡ replicate w 0
take-zeros pre k w n l h =
    rw (drop-append_exact pre (replicate n 0) k 0 (omega arith)) (take-replicate w n 0 h)

splice-zeros :
    (pre bytes : List ℕ) (k n m : ℕ)
    → length pre ≡ k
    → length bytes + m ≡ n
    → splice (pre ++ replicate n 0) k bytes ≡ pre ++ (bytes ++ replicate m 0)
splice-zeros pre bytes k n m l h = rw (
  take-append_exact pre (replicate n 0) k l,
  drop-append_exact pre (replicate n 0) (k + length bytes) (length bytes) (omega arith),
  drop-replicate {A = ℕ} (length bytes) n m 0 h,
)

pub read_tail_lem :
    (start len disk volume count : ℕ) (buf : List ℕ)
    → start + len ≤ volume
    → count ≡ (if ltb start disk then min len (disk - start) else 0)
    → read_tail start (start + len) disk volume count buf
      ≡ record { buf = buf; n = pos len; err = none }
unfolding read_tail ◌+ℤ◌
read_tail_lem start len disk volume count buf h e = ground arith

module _ {F : Type 0} {io : DiffFile F} (sf : SparseFile io) where
  -- A run inside the volume fills its place in a zeroed slice with what the file has, zeros past its
  -- end, and counts all its bytes.
  pub read_lem :
      (d : DiffDisk F) (target k run offset rest : ℕ) (f : F) (pre : List ℕ)
      → file_at d.files target ≡ some f
      → length pre ≡ k * d.sector_size
      → offset + k * d.sector_size + run * d.sector_size ≤ d.size
      → read io target (pre ++ replicate (run * d.sector_size + rest) 0) offset k run d
        ≡ done d (record {
          buf =
              pre
              ++ (bytes_from (cell sf f) (offset + k * d.sector_size) (run * d.sector_size)
                  ++ replicate rest 0);
          n = pos (run * d.sector_size);
          err = none;
        })
  unfolding read
  read_lem d target k run offset rest f pre live lp fits =
      elim (Bool-cases (ltb start (sf.size_of f))) [
        | inl before ↦
            rw (live, read)
              (rw (sf.size_law f) (
                rw before (
                  rw (got before) (
                    rw (got before) (
                      rw
                        (
                          read_tail_lem start len (sf.size_of f) d.size wanted _ fits
                              (ground arith),
                          splice-zeros pre (bytes_from (sf.byte_of f) start wanted)
                              (k * d.sector_size) (len + rest) (len - wanted + rest) lp
                              (omega (arith, length-bytes_from (sf.byte_of f) start wanted)),
                        )
                        (ap (λ z. done d (record { buf = pre ++ z; n = pos len; err = none }))
                          (cell_split sf f start len rest (ground arith))))))))
        | inr after ↦
            rw (live, read)
              (rw (sf.size_law f) (
                rw after (
                  rw
                    (
                      read_tail_lem start len (sf.size_of f) d.size 0 _ fits (ground arith),
                      cell-outside sf f start len (ground arith),
                      replicate-append len rest (len + rest) (let z : ℕ = 0 in z) refl,
                    )
                    refl)))
      ]
    where
      start : ℕ
      start = offset + k * d.sector_size

      len : ℕ
      len = run * d.sector_size

      wanted : ℕ
      wanted = min len (sf.size_of f - start)

      slice : List ℕ
      slice = take wanted (drop (k * d.sector_size) (pre ++ replicate (len + rest) 0))

      got :
          ltb start (sf.size_of f) ≡ true
          → io.read_at f slice start ≡ (bytes_from (sf.byte_of f) start wanted, wanted, none)
      got h = rw (take-zeros pre (k * d.sector_size) wanted (len + rest) lp (omega arith)) (
          sf.read_law f (replicate wanted 0) start
            (ground (arith, length-replicate {A = ℕ} wanted 0))
          ∙ rw (length-replicate {A = ℕ} wanted 0) refl)
