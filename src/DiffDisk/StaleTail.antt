-- ===== src/DiffDisk/StaleTail.antt =====
-- pkg/replica/diff_disk.go: `ReadAt` of a range that starts inside one sector and ends inside the
-- next, where the next sector's file is too short.
use native.Mathlib.Nat.{mul-mod_left, add-mul-mod_self_right, add_comm, mod-eq_of_lt}
use mathlib.Core.List.{append-nil}
use longhorn_engine.Prelude.{
  ℕ, suc, ◌+◌, ◌-◌, ◌*◌, ◌%◌, ◌≤◌, ◌<◌, ◌++◌, none, some, List, [], ◌≡◌, refl, arith, ap, ◌∙◌, sym,
  length, replicate, take, drop, true, false, ◌==◌, ltb, length-replicate, length-drop, length-take,
  length-append, take-length, take-append_exact, drop-append_exact, drop-replicate,
  take-append-drop, min, ◌&&◌, leb,
}
use mathlib.Core.Path.{subst}
use longhorn_engine.Prelude.Int.{ℤ, pos, pos-+ℤ}
use longhorn_engine.DiffDisk.{DiffDisk, DiffFile, done, file_at}
use longhorn_engine.DiffDisk.Layers.{SparseFile, IsValid, holder, Caches, lookup_lem}
use longhorn_engine.DiffDisk.Content.{volume_bytes, length-volume_bytes}
use longhorn_engine.DiffDisk.Runs.{read_tail_lem}
use longhorn_engine.DiffDisk.Reads.{full_read_at-volume, full_read_start}
use longhorn_engine.DiffDisk.Read.{
  ReadOut, read, flush, full_read_loop, full_read_at, read_end, read_at, splice, copy,
}

module _ {F : Type 0} {io : DiffFile F} (sf : SparseFile io) where
  read_past :
      (d : DiffDisk F) (target offset : ℕ) (f : F) (buf : List ℕ)
      → file_at d.files target ≡ some f
      → sf.size_of f ≤ offset
      → offset + d.sector_size ≤ d.size
      → read io target buf offset 0 1 d
        ≡ done d (record { buf = buf; n = pos d.sector_size; err = none })
  unfolding read
  read_past d target offset f buf live past fits =
      let z : offset + 0 * d.sector_size ≡ offset = omega arith in
      let o : 1 * d.sector_size ≡ d.sector_size = omega arith in
      let stops : ltb (offset + 0 * d.sector_size) (sf.size_of f) ≡ false = ground arith in
      rw (live, read)
        (rw (sf.size_law f) (
          rw stops (
            rw
              (
                z,
                o,
                read_tail_lem offset d.sector_size (sf.size_of f) d.size 0 buf fits (ground arith),
              )
              refl)))

  loop_one :
      (d : DiffDisk F) (target offset : ℕ) (out : ReadOut)
      → full_read_loop io 0 1 1 target offset out d ≡ flush io target offset 0 1 out d
  unfolding full_read_loop
  loop_one d target offset out = refl

  flush_one :
      (d : DiffDisk F) (target offset n : ℕ) (buf : List ℕ)
      → read io target buf offset 0 1 d ≡ done d (record { buf = buf; n = pos n; err = none })
      → flush io target offset 0 1 (record { buf = buf; n = pos 0; err = none }) d
        ≡ done d (record { buf = buf; n = pos n; err = none })
  unfolding flush
  flush_one d target offset n buf rd = rw (rd, flush) (rw (pos-+ℤ 0 n n (omega arith)) refl)

  -- A sector past the end of its file leaves the slice as it was, without an error.
  full_read_past :
      (d : DiffDisk F) (s : ℕ) (f : F) (buf : List ℕ)
      → IsValid d
      → 0 < d.sector_size
      → length buf ≡ d.sector_size
      → file_at d.files (holder sf d s) ≡ some f
      → sf.size_of f ≤ s * d.sector_size
      → (s + 1) * d.sector_size ≤ d.size
      → (t : DiffDisk F) × (full_read_at io buf (s * d.sector_size) d
          ≡ done t (record { buf = buf; n = pos d.sector_size; err = none }))
        × Caches sf d t
  full_read_past d s f buf v p l live past fits =
      let (t, found, c) = lookup_lem sf d v s in
      let l' : length buf ≡ suc 0 * d.sector_size = omega arith in
      let rd =
        read_past t (holder sf d s) (s * d.sector_size) f buf (rw c.files live) past
          (rw (c.sector_size, c.size) (omega arith)) in
      (
        t,
        full_read_start sf d t s 0 (holder sf d s) buf p l' found
            ∙ loop_one t (holder sf d s) (s * d.sector_size) _
            ∙ flush_one t (holder sf d s) (s * d.sector_size) d.sector_size buf
                (rw c.sector_size at rd),
        c,
      )

  empty_read :
      (d : DiffDisk F) (s : ℕ)
      → full_read_at io [] (s * d.sector_size) d
        ≡ done d (record { buf = []; n = pos 0; err = none })
  unfolding full_read_at
  empty_read d s = ground (arith, mul-mod_left s d.sector_size)

  -- The pieces that `ReadAt` puts together: the first sector's end, then room for the last one.
  head_piece :
      (sector : List ℕ) (x y cut : ℕ)
      → length sector ≡ cut + x
      → splice (copy (replicate (cut + y) 0) (drop x sector)) cut []
        ≡ drop x sector ++ replicate y 0
  head_piece sector x y cut ls =
      let h : length (drop x sector) ≡ cut = omega (arith, length-drop x sector) in
      let l = length-replicate {A = ℕ} (cut + y) 0 in
      let m : min (cut + y) cut ≡ cut = omega arith in
      let a : cut + 0 ≡ cut = omega arith in
      rw (h, l, m, drop-replicate {A = ℕ} cut (cut + y) y 0 refl, a)
        (take-append-drop cut _
          ∙ ap (λ z. z ++ replicate y 0)
              (ap (λ n. take n (drop x sector)) (sym h) ∙ take-length (drop x sector)))

  tail_piece :
      (front last : List ℕ) (y cut : ℕ)
      → length front ≡ cut
      → y ≤ length last
      → splice (front ++ replicate y 0) cut (take y last) ≡ front ++ take y last
  tail_piece front last y cut lf ll =
      let h : length (take y last) ≡ y = omega (arith, length-take y last) in
      rw
        (
          take-append_exact front (replicate y 0) cut lf,
          h,
          drop-append_exact front (replicate y 0) (cut + y) y (omega arith),
          drop-replicate {A = ℕ} y y 0 0 (omega arith),
        )
        (rw (append-nil (take y last)) refl)

  read_end_lem :
      (d d₃ : DiffDisk F) (front sector last : List ℕ) (y cut offset : ℕ) (n : ℤ)
      → 0 < y
      → length front ≡ cut
      → y ≤ length last
      → full_read_at io sector (offset + cut) d ≡ done d₃ (record { buf = last; n = n; err = none })
      → read_end io (front ++ replicate y 0) sector y offset d
        ≡ done d₃ (record { buf = front ++ take y last; n = pos (cut + y); err = none })
  unfolding read_end
  read_end_lem d d₃ front sector last y cut offset n hy lf ll end =
      let l : length (front ++ replicate y 0) ≡ cut + y =
        omega (arith, length-append {0} front (replicate y 0), length-replicate {A = ℕ} y 0) in
      let t : ltb 0 y ≡ true = ground arith in
      let o : offset + (cut + y) - y ≡ offset + cut = omega arith in
      let o' : cut + y - y ≡ cut = omega arith in
      rw (t, l, o) (rw end (rw (l, o', tail_piece front last y cut lf ll) refl))

  two_sectors :
      (d d₁ d₃ : DiffDisk F) (s x y cut : ℕ) (sector last : List ℕ) (n₁ n₃ : ℤ)
      → cut + x ≡ d.sector_size
      → 0 < x
      → 0 < cut
      → 0 < y
      → y < d.sector_size
      → length sector ≡ d.sector_size
      → length last ≡ d.sector_size
      → full_read_at io (replicate d.sector_size 0) (s * d.sector_size) d
        ≡ done d₁ (record { buf = sector; n = n₁; err = none })
      → full_read_at io [] ((s + 1) * d.sector_size) d₁
        ≡ done d₁ (record { buf = []; n = pos 0; err = none })
      → full_read_at io sector ((s + 1) * d.sector_size) d₁
        ≡ done d₃ (record { buf = last; n = n₃; err = none })
      → read_at io (replicate (cut + y) 0) (s * d.sector_size + x) d
        ≡ done d₃ (record { buf = drop x sector ++ take y last; n = pos (cut + y); err = none })
  unfolding read_at
  two_sectors d d₁ d₃ s x y cut sector last n₁ n₃ hc hx hcut hy hy' ls ll first middle end =
      let ss = d.sector_size in
      let l = length-replicate {A = ℕ} (cut + y) 0 in
      let m₁ : (s * ss + x) % ss ≡ x =
        rw (add_comm (s * ss) x, add-mul-mod_self_right x s ss) (mod-eq_of_lt (omega arith)) in
      let m₂ : (cut + y + (s * ss + x)) % ss ≡ y =
        let e : cut + y + (s * ss + x) ≡ y + (s + 1) * ss = omega arith in
        rw (e, add-mul-mod_self_right y (s + 1) ss) (mod-eq_of_lt hy') in
      let o₁ : s * ss + x - x ≡ s * ss = omega arith in
      let o₂ : ss - x ≡ cut = omega arith in
      let o₃ : s * ss + x + cut ≡ (s + 1) * ss = omega arith in
      let o₅ : cut + y - y - cut ≡ 0 = omega arith in
      let t₁ : (cut + y == 0) ≡ false = ground arith in
      let t₂ : (x == 0 && y == 0) ≡ false = ground arith in
      let t₃ : leb (cut + y) cut ≡ false = ground arith in
      let ends =
        read_end_lem d₁ d₃ (drop x sector) sector last y cut (s * ss + x) n₃ hy
          (omega (arith, length-drop x sector)) (omega arith) (rw o₃ end) in
      rw (l, m₁, m₂, o₁, t₁, t₂)
        (rw first (
          rw (l, m₁, m₂, o₂, t₃)
            (rw (o₅, o₃)
              (rw middle (
                rw (l, m₁, m₂, o₂)
                  (ap (λ z. read_end io z sector y (s * ss + x) d₁)
                      (rw l at (head_piece sector x y cut (ls ∙ sym hc)))
                    ∙ ends))))))

  third_read :
      (d d₁ : DiffDisk F) (s : ℕ) (f : F) (sector : List ℕ)
      → Caches sf d d₁
      → 0 < d.sector_size
      → length sector ≡ d.sector_size
      → file_at d.files (holder sf d (s + 1)) ≡ some f
      → sf.size_of f ≤ (s + 1) * d.sector_size
      → (s + 2) * d.sector_size ≤ d.size
      → (t : DiffDisk F) × (full_read_at io sector ((s + 1) * d₁.sector_size) d₁
          ≡ done t (record { buf = sector; n = pos d₁.sector_size; err = none }))
  third_read d d₁ s f sector c p ls live past fits =
      let r =
        full_read_past d₁ (s + 1) f sector c.valid (rw c.sector_size p) (rw c.sector_size ls)
          (rw (c.holders (s + 1), c.files) live) (rw c.sector_size past)
          (rw (c.sector_size, c.size) (omega (arith, fits))) in
      (r.0, r.1)

  stale_from :
      (d d₁ t : DiffDisk F) (s x y : ℕ) (sector : List ℕ) (n₁ : ℤ)
      → Caches sf d d₁
      → 0 < x
      → x < d.sector_size
      → 0 < y
      → y < d.sector_size
      → length sector ≡ d.sector_size
      → full_read_at io (replicate d.sector_size 0) (s * d.sector_size) d
        ≡ done d₁ (record { buf = sector; n = n₁; err = none })
      → full_read_at io sector ((s + 1) * d₁.sector_size) d₁
        ≡ done t (record { buf = sector; n = pos d₁.sector_size; err = none })
      → read_at io (replicate (d.sector_size - x + y) 0) (s * d.sector_size + x) d
        ≡ done t (record {
          buf = drop x sector ++ take y sector;
          n = pos (d.sector_size - x + y);
          err = none;
        })
  stale_from d d₁ t s x y sector n₁ c hx hx' hy hy' ls first end =
      let middle =
        subst
          (λ z.
            full_read_at io [] ((s + 1) * z) d₁
            ≡ done d₁ (record { buf = []; n = pos 0; err = none }))
          c.sector_size (empty_read d₁ (s + 1)) in
      let last = ap (λ z. full_read_at io sector ((s + 1) * z) d₁) (sym c.sector_size) ∙ end in
      two_sectors d d₁ t s x y (d.sector_size - x) sector sector n₁ _ (omega arith) hx (omega arith)
        hy hy' ls ls first middle last

  -- On a valid disk, a read into a zeroed buffer from inside sector `s` to inside the next one, the
  -- file of which ends at or before that sector, returns with no error and the full count the end of
  -- sector `s` followed by the start of sector `s` again.
  pub read_at-stale :
      (d : DiffDisk F) (s x y : ℕ) (f : F)
      → IsValid d
      → 0 < x
      → x < d.sector_size
      → 0 < y
      → y < d.sector_size
      → file_at d.files (holder sf d (s + 1)) ≡ some f
      → sf.size_of f ≤ (s + 1) * d.sector_size
      → (s + 2) * d.sector_size ≤ d.size
      → (t : DiffDisk F) × (read_at io
            (replicate (d.sector_size - x + y) 0)
            (s * d.sector_size + x)
            d
          ≡ done t (record {
            buf = drop x (volume_bytes sf d s 1) ++ take y (volume_bytes sf d s 1);
            n = pos (d.sector_size - x + y);
            err = none;
          }))
  read_at-stale d s x y f v hx hx' hy hy' live past fits =
      let ss = d.sector_size in
      let sector = volume_bytes sf d s 1 in
      let u : 1 * ss ≡ ss = omega arith in
      let p : 0 < ss = omega arith in
      let r = full_read_at-volume sf d s 1 v p (omega (arith, fits)) in
      let ls : length sector ≡ ss = length-volume_bytes sf d s 1 ∙ u in
      let e = third_read d r.0 s f sector r.2 p ls live past fits in
      (e.0, stale_from d r.0 e.0 s x y sector _ r.2 hx hx' hy hy' ls (rw u at r.1) e.1)
