-- ===== src/DiffDisk/RoundTrip.antt =====
-- pkg/replica/diff_disk.go: `fullReadAt` of the sectors that `fullWriteAt` has written.
use longhorn_engine.Prelude.{
  ℕ, zero, suc, ◌+◌, ◌-◌, ◌*◌, ◌≤◌, ◌<◌, none, some, List, ◌≡◌, sym, ap, ◌∙◌, arith, length,
  get_elem?, replicate,
}
use mathlib.Core.Path.{fun_ext}
use longhorn_engine.Prelude.Int.{pos}
use longhorn_engine.DiffDisk.{DiffDisk, DiffFile, done, file_at}
use longhorn_engine.DiffDisk.Layers.{SparseFile, bytes_from, IsValid, holder, holder-known}
use longhorn_engine.DiffDisk.Content.{cell, cell-inside, layer_cell, volume_bytes, volume_run}
use longhorn_engine.DiffDisk.Read.{full_read_at}
use longhorn_engine.DiffDisk.Reads.{full_read_at-volume}
use longhorn_engine.DiffDisk.Write.{full_write_at}
use longhorn_engine.DiffDisk.Marks.{
  mark_sectors_lem, inside_some, file_at-set_self, wrote, wrote-IsValid, full_write,
}

-- What the code relies on of a write without an error: the file reaches its end and has its bytes.
pub record WritableFile {F : Type 0} {io : DiffFile F} (sf : SparseFile io) : Type 0 where
  pub write_size :
      (f : F) (buf : List ℕ) (a : ℕ)
      → (io.write_at f buf a).2 ≡ none
      → a + length buf ≤ sf.size_of (io.write_at f buf a).0
  pub write_law :
      (f : F) (buf : List ℕ) (a : ℕ)
      → (io.write_at f buf a).2 ≡ none
      → bytes_from (sf.byte_of (io.write_at f buf a).0) a (length buf) ≡ buf

module _ {F : Type 0} {io : DiffFile F} (sf : SparseFile io) (wf : WritableFile sf) where
  holder-at :
      (d : DiffDisk F) (u l : ℕ) → 0 < l → get_elem? d.location u ≡ some l → holder sf d u ≡ l
  holder-at d u zero p h = absurd (omega arith)
  holder-at d u (suc t) p h = holder-known sf d u t h

  written_bytes :
      (d : DiffDisk F) (s n head : ℕ) (f : F) (buf : List ℕ)
      → length buf ≡ n * d.sector_size
      → ((j : ℕ) → j < n → holder sf d (s + j) ≡ head)
      → (io.write_at f buf (s * d.sector_size)).2 ≡ none
      → file_at d.files head ≡ some (io.write_at f buf (s * d.sector_size)).0
      → volume_bytes sf d s n ≡ buf
  written_bytes d s n head f buf l same fine here =
      let ss = d.sector_size in
      let g = (io.write_at f buf (s * ss)).0 in
      let size = wf.write_size f buf (s * ss) fine in
      let one_file : layer_cell sf d.files head ≡ cell sf g = fun_ext λ a. rw (here, layer_cell) in
      sym (volume_run sf d s n head same)
      ∙ ap (λ z. bytes_from z (s * ss) (n * ss)) one_file
      ∙ cell-inside sf g (s * ss) (n * ss) (rw l at size)
      ∙ ap (bytes_from (sf.byte_of g) (s * ss)) (sym l)
      ∙ wf.write_law f buf (s * ss) fine

  -- On a valid disk, for `n` whole sectors within the volume and its table of locations, if the
  -- write of the head file has no error: `fullWriteAt` returns no error, and `fullReadAt` of the same
  -- sectors after it returns the bytes written, all of them counted, with no error.
  pub full_read_at-full_write_at :
      (d : DiffDisk F) (s n : ℕ) (buf : List ℕ)
      → IsValid d
      → 0 < d.sector_size
      → length buf ≡ n * d.sector_size
      → s + n ≤ length d.location
      → (s + n) * d.sector_size ≤ d.size
      → ((f : F) → (io.write_at f buf (s * d.sector_size)).2 ≡ none)
      → (t : DiffDisk F) × (u : DiffDisk F) × (c : ℕ) × (full_write_at io buf (s * d.sector_size) d
          ≡ done t (c, none))
        × (full_read_at io (replicate (n * d.sector_size) 0) (s * d.sector_size) t
            ≡ done u (record { buf = buf; n = pos (n * d.sector_size); err = none }))
  full_read_at-full_write_at d s n buf v p l room fits writes =
      let ss = d.sector_size in
      let head = length d.files - 1 in
      let two = v.two in
      let (f, live) = v.live head (omega arith) (omega arith) in
      let r = io.write_at f buf (s * ss) in
      let fine = writes f in
      let (ls, marked, same, at) = mark_sectors_lem n s head d.location room in
      let t = wrote io d ls r.0 in
      let ok = wrote-IsValid io d ls r.0 s n v at in
      let (u, read, c) = full_read_at-volume sf t s n ok p fits in
      let held : (j : ℕ) → j < n → holder sf t (s + j) ≡ head = λ j b.
        holder-at t (s + j) head (omega arith)
          (at (s + j) ∙ inside_some s n (s + j) head _ (omega arith) (omega arith)) in
      let bytes =
        written_bytes t s n head f buf l held fine
          (file_at-set_self d.files head r.0 (omega arith)) in
      (
        t,
        u,
        r.1,
        full_write io d s n buf ls f v p l live marked ∙ ap (λ e. done t (r.1, e)) fine,
        read ∙ ap (λ z. done u (record { buf = z; n = pos (n * ss); err = none })) bytes,
      )
