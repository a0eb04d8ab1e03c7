-- ===== src/DiffDisk/Reads.antt =====
-- `fullReadAt`: the sectors of a range, read in runs, are what the volume holds.
use native.Mathlib.Nat.{mul-div_cancel, mul-mod_left}
use longhorn_engine.Prelude.{
  ℕ, zero, suc, ◌+◌, ◌-◌, ◌*◌, ◌/◌, ◌%◌, ◌≤◌, ◌<◌, ◌++◌, none, List, ◌≡◌, refl, arith, ap, ◌∙◌, sym,
  length, replicate, inl, inr, Bool-cases, true, false, ◌==◌, ==_iff, length-replicate, lt→ltb,
}
use mathlib.Core.Path.{fun_ext}
use native.Mathlib.Decide.{ℕ_discrete}
use mathlib.Core.List.{append_assoc, append-nil}
use longhorn_engine.Prelude.Int.{pos, pos-+ℤ}
use longhorn_engine.DiffDisk.{DiffDisk, DiffFile, Run, done, ok, lookup}
use longhorn_engine.DiffDisk.Layers.{
  bytes_from, SparseFile, IsValid, holder, holder_bounds, Caches, Caches-refl, Caches-trans,
  lookup_lem,
}
use longhorn_engine.DiffDisk.Content.{
  layer_cell, cell, volume_bytes, length-volume_bytes, volume_bytes-append, volume_run,
  volume_bytes-Caches,
}
use longhorn_engine.DiffDisk.Runs.{read_lem}
use longhorn_engine.DiffDisk.Read.{ReadOut, read, flush, full_read_loop, full_read_at}

module _ {F : Type 0} {io : DiffFile F} (sf : SparseFile io) where
  -- Where the loop stands: `k` sectors are in the slice, `run` more wait to be read from `target`,
  -- and `rounds` are still to be looked up.
  record Loop (d : DiffDisk F) (s offset k run rounds target : ℕ) (out : ReadOut) : Type 0 where
    valid : IsValid d
    starts : offset ≡ s * d.sector_size
    filled :
        out.buf
        ≡ volume_bytes sf d s k ++ replicate (run * d.sector_size + rounds * d.sector_size) 0
    counted : out.n ≡ pos (k * d.sector_size)
    clean : out.err ≡ none
    same : (j : ℕ) → j < run → holder sf d (s + k + j) ≡ target
    some_run : 0 < run
    fits : (s + (k + run + rounds)) * d.sector_size ≤ d.size

  -- A flush moves the waiting run into the slice.
  flush_lem :
      (d : DiffDisk F) (s offset k run rounds target : ℕ) (out : ReadOut)
      → Loop d s offset k run rounds target out
      → flush io target offset (k + run - run) run out d
        ≡ done d (record {
          buf = volume_bytes sf d s (k + run) ++ replicate (rounds * d.sector_size) 0;
          n = pos ((k + run) * d.sector_size);
          err = none;
        })
  unfolding flush
  flush_lem d s offset k run rounds target out l =
      let t = l.same 0 l.some_run in
      let bounds = holder_bounds sf d l.valid (s + k + 0) in
      let (f, live) = l.valid.live target (rw (← t) bounds.0) (rw (← t) bounds.1) in
      let ss = d.sector_size in
      let pre = volume_bytes sf d s k in
      let zeros = replicate {A = ℕ} (rounds * ss) 0 in
      let here : s * ss + k * ss ≡ (s + k) * ss = omega arith in
      let one_file : layer_cell sf d.files target ≡ cell sf f =
        fun_ext λ a. rw (live, layer_cell) in
      let bytes =
        ap (λ g. bytes_from g ((s + k) * ss) (run * ss)) (sym one_file)
        ∙ volume_run sf d (s + k) run target l.same in
      let rd =
        ap (λ z. read io target z offset k run d) l.filled
        ∙ read_lem sf d target k run offset (rounds * ss) f pre live (length-volume_bytes sf d s k)
            (omega (arith, l.starts, l.fits)) in
      let back : k + run - run ≡ k = omega arith in
      let total : k * ss + run * ss ≡ (k + run) * ss = omega arith in
      rw (back) (
        rw (rd, flush)
          (rw (l.counted, l.starts, here, bytes, ← append_assoc)
            (rw
              (
                volume_bytes-append sf d s (s + k) k run (k + run) refl refl,
                pos-+ℤ (k * ss) (run * ss) ((k + run) * ss) total,
              )
              refl)))

  Loop-Caches :
      {d t : DiffDisk F} {s offset k run rounds target : ℕ} {out : ReadOut}
      → Caches sf d t
      → Loop d s offset k run rounds target out
      → Loop t s offset k run rounds target out
  Loop-Caches {s} {k} c l = record {
    valid = c.valid;
    starts = rw c.sector_size l.starts;
    filled = rw (volume_bytes-Caches sf c s k, c.sector_size) l.filled;
    counted = rw c.sector_size l.counted;
    clean = l.clean;
    same = λ j h. c.holders (s + k + j) ∙ l.same j h;
    some_run = l.some_run;
    fits = rw (c.sector_size, c.size) l.fits;
  }

  abbrev whole : DiffDisk F → ℕ → ℕ → ReadOut
  whole d s n = record { buf = volume_bytes sf d s n; n = pos (n * d.sector_size); err = none }

  whole-Caches : {d t : DiffDisk F} → Caches sf d t → (s n : ℕ) → whole t s n ≡ whole d s n
  whole-Caches c s n = rw (volume_bytes-Caches sf c s n, c.sector_size)

  abbrev flushed : DiffDisk F → ℕ → ℕ → ℕ → ReadOut
  flushed d s n rounds = record {
    buf = volume_bytes sf d s n ++ replicate (rounds * d.sector_size) 0;
    n = pos (n * d.sector_size);
    err = none;
  }

  Reads : Run F ReadOut → DiffDisk F → ℕ → ℕ → Type 0
  Reads r d s n = (t : DiffDisk F) × (r ≡ done t (whole d s n)) × Caches sf d t

  Reads-Caches :
      {d t : DiffDisk F} (r : Run F ReadOut) (s n : ℕ)
      → Caches sf d t
      → Reads r t s n
      → Reads r d s n
  unfolding Reads
  Reads-Caches r s n c (u, e, c') =
      (u, e ∙ ap (λ z. done u z) (whole-Caches c s n), Caches-trans sf c c')

  last_round :
      (i : ℕ) (d : DiffDisk F) (s offset k run target : ℕ) (out : ReadOut)
      → i ≡ k + run
      → Loop d s offset k run 0 target out
      → full_read_loop io 0 i run target offset out d ≡ done d (whole d s (k + run + 0))
  unfolding full_read_loop
  last_round i d s offset k run target out e l =
      let z : 0 * d.sector_size ≡ 0 = omega arith in
      let none_left : k + run + 0 ≡ k + run = omega arith in
      rw (lt→ltb 0 run l.some_run, e, none_left)
        (flush_lem d s offset k run 0 target out l
          ∙ rw (z) (rw (append-nil (volume_bytes sf d s (k + run))) refl))

  -- One round at a sector that the waiting run's file holds, and at one that another file holds.
  loop_round :
      (rounds i : ℕ) (d t : DiffDisk F) (offset run target new : ℕ) (out : ReadOut)
      → lookup io (offset / d.sector_size + i) d ≡ done t (ok new)
      → (new == target) ≡ true
      → full_read_loop io (suc rounds) i run target offset out d
        ≡ full_read_loop io rounds (i + 1) (run + 1) target offset out t
  unfolding full_read_loop
  loop_round rounds i d t offset run target new out looked same =
      rw (looked, full_read_loop) (rw same refl)

  loop_switch :
      (rounds i : ℕ) (d t : DiffDisk F) (offset run target new : ℕ) (out r : ReadOut)
      → lookup io (offset / d.sector_size + i) d ≡ done t (ok new)
      → (new == target) ≡ false
      → flush io target offset (i - run) run out t ≡ done t r
      → r.err ≡ none
      → full_read_loop io (suc rounds) i run target offset out d
        ≡ full_read_loop io rounds (i + 1) 1 new offset r t
  unfolding full_read_loop
  loop_switch rounds i d t offset run target new out r looked other wrote clean =
      rw (looked, full_read_loop) (rw other (rw wrote (simp clean refl)))

  Loop-extend :
      {d : DiffDisk F} {s offset k run rounds target : ℕ} {out : ReadOut}
      → holder sf d (s + (k + run)) ≡ target
      → Loop d s offset k run (suc rounds) target out
      → Loop d s offset k (run + 1) rounds target out
  Loop-extend {d} {s} {offset} {k} {run} {rounds} {target} h l =
      let ss = d.sector_size in
      let e : run * ss + suc rounds * ss ≡ (run + 1) * ss + rounds * ss = omega arith in
      record {
        valid = l.valid;
        starts = l.starts;
        filled = rw (← e) l.filled;
        counted = l.counted;
        clean = l.clean;
        same = λ j b. elim (ℕ_discrete j run) [
          | yes q ↦ let z : s + k + j ≡ s + (k + run) = omega arith in rw z h
          | no q ↦ l.same j (omega arith)
        ];
        some_run = omega arith;
        fits = let z : k + (run + 1) + rounds ≡ k + run + suc rounds = omega arith in rw z l.fits;
      }

  Loop-switch :
      {d : DiffDisk F} {s offset k run rounds target : ℕ} {out : ReadOut}
      → Loop d s offset k run (suc rounds) target out
      → Loop d s offset
          (k + run)
          1
          rounds
          (holder sf d (s + (k + run)))
          (flushed d s (k + run) (suc rounds))
  Loop-switch {d} {s} {offset} {k} {run} {rounds} l =
      let ss = d.sector_size in
      let e : suc rounds * ss ≡ 1 * ss + rounds * ss = omega arith in
      record {
        valid = l.valid;
        starts = l.starts;
        filled = rw e refl;
        counted = refl;
        clean = refl;
        same = λ j b. let z : s + (k + run) + j ≡ s + (k + run) = omega arith in rw z refl;
        some_run = omega arith;
        fits = let z : k + run + 1 + rounds ≡ k + run + suc rounds = omega arith in rw z l.fits;
      }

  full_read_loop_lem :
      (rounds i : ℕ) (d : DiffDisk F) (s offset k run target : ℕ) (out : ReadOut)
      → i ≡ k + run
      → 0 < d.sector_size
      → Loop d s offset k run rounds target out
      → Reads (full_read_loop io rounds i run target offset out d) d s (k + run + rounds)
  unfolding Reads
  full_read_loop_lem zero i d s offset k run target out e p l =
      (d, last_round i d s offset k run target out e l, Caches-refl sf d l.valid)
  full_read_loop_lem (suc rounds) i d s offset k run target out e p l =
      let (t, found, c) = lookup_lem sf d l.valid (s + (k + run)) in
      let l' = Loop-Caches c l in
      let h = c.holders (s + (k + run)) in
      let place : offset / d.sector_size + i ≡ s + (k + run) =
        rw (l.starts, mul-div_cancel s p, e) refl in
      let looked = ap (λ z. lookup io z d) place ∙ found in
      let p' : 0 < t.sector_size = rw c.sector_size p in
      elim (Bool-cases (holder sf d (s + (k + run)) == target)) [
        | inl same ↦
            let stays = (==_iff _ target).0 same in
            let step = loop_round rounds i d t offset run target _ out looked same in
            let rest =
              full_read_loop_lem rounds (i + 1) t s offset k (run + 1) target out (omega arith) p'
                (Loop-extend (h ∙ stays) l') in
            let z : k + (run + 1) + rounds ≡ k + run + suc rounds = omega arith in
            rw (step, ← z) (Reads-Caches _ s _ c rest)
        | inr new ↦
            let back : i - run ≡ k + run - run = omega arith in
            let wrote =
              ap (λ z. flush io target offset z run out t) back
              ∙ flush_lem t s offset k run (suc rounds) target out l' in
            let step = loop_switch rounds i d t offset run target _ out _ looked new wrote refl in
            let ready = rw h at (Loop-switch l') in
            let rest =
              full_read_loop_lem rounds (i + 1) t s offset (k + run) 1 _ _ (omega arith) p' ready in
            let z : k + run + 1 + rounds ≡ k + run + suc rounds = omega arith in
            rw (step, ← z) (Reads-Caches _ s _ c rest)
      ]

  first_Loop :
      (d : DiffDisk F) (s n : ℕ)
      → IsValid d
      → (s + suc n) * d.sector_size ≤ d.size
      → Loop d s
          (s * d.sector_size)
          0
          1
          n
          (holder sf d s)
          (record { buf = replicate (suc n * d.sector_size) 0; n = pos 0; err = none })
  unfolding volume_bytes
  first_Loop d s n v fits =
      let ss = d.sector_size in
      let e : suc n * ss ≡ 1 * ss + n * ss = omega arith in
      let z : 0 * ss ≡ 0 = omega arith in
      record {
        valid = v;
        starts = refl;
        filled = rw e refl;
        counted = rw z refl;
        clean = refl;
        same = λ j b. let y : s + 0 + j ≡ s = omega arith in rw y refl;
        some_run = omega arith;
        fits = omega (arith, fits);
      }

  pub full_read_start :
      (d t : DiffDisk F) (s n target : ℕ) (buf : List ℕ)
      → 0 < d.sector_size
      → length buf ≡ suc n * d.sector_size
      → lookup io s d ≡ done t (ok target)
      → full_read_at io buf (s * d.sector_size) d
        ≡ full_read_loop io n 1 1 target
            (s * d.sector_size)
            (record { buf = buf; n = pos 0; err = none })
            t
  unfolding full_read_at
  full_read_start d t s n target buf p l looked =
      let ss = d.sector_size in
      let m₁ : length buf % ss ≡ 0 = rw l (mul-mod_left (suc n) ss) in
      let m₂ = mul-mod_left s ss in
      let q₁ : length buf / ss - 1 ≡ n = rw (l, mul-div_cancel (suc n) p) (omega arith) in
      let q₂ = mul-div_cancel s p in
      let long : (length buf == 0) ≡ false = ground (arith, l) in
      let place = ap (λ z. lookup io z d) q₂ ∙ looked in rw (m₁, m₂, long) (rw (place) (rw q₁ refl))

  -- On a valid disk, for `n` whole sectors within the volume, `fullReadAt` into a zeroed slice never
  -- panics: it fills the slice with the bytes that the volume holds there (each sector's as the file
  -- that holds it has them, zeros past the end of that file), counts all of them and returns no
  -- error; the disk afterwards is valid with the same files, size and holders.
  pub full_read_at-volume :
      (d : DiffDisk F) (s n : ℕ)
      → IsValid d
      → 0 < d.sector_size
      → (s + n) * d.sector_size ≤ d.size
      → (t : DiffDisk F) × (full_read_at io (replicate (n * d.sector_size) 0) (s * d.sector_size) d
          ≡ done t
              (record { buf = volume_bytes sf d s n; n = pos (n * d.sector_size); err = none }))
        × Caches sf d t
  unfolding full_read_at volume_bytes Reads
  full_read_at-volume d s zero v p fits =
      let z : 0 * d.sector_size ≡ 0 = omega arith in
      (d, rw z (ground (arith, mul-mod_left s d.sector_size)), Caches-refl sf d v)
  full_read_at-volume d s (suc n) v p fits =
      let (t, found, c) = lookup_lem sf d v s in
      let l : length (replicate {A = ℕ} (suc n * d.sector_size) 0) ≡ suc n * d.sector_size =
        length-replicate (suc n * d.sector_size) 0 in
      let rest =
        full_read_loop_lem n 1 t s (s * d.sector_size) 0 1 (holder sf d s) _ (omega arith)
          (rw c.sector_size p) (Loop-Caches c (first_Loop d s n v fits)) in
      let z : 0 + 1 + n ≡ suc n = omega arith in
      rw (full_read_start d t s n (holder sf d s) _ p l found) (rw z at (Reads-Caches _ s _ c rest))
