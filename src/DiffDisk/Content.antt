-- ===== src/DiffDisk/Content.antt =====
-- What a volume holds: each sector as its holder has it, and zeros past the end of that file.
use longhorn_engine.Prelude.{
  ℕ, zero, suc, ◌+◌, ◌-◌, ◌*◌, ◌≤◌, ◌<◌, ◌++◌, Option, none, some, List, [], ◌∷◌, ◌≡◌, refl, arith,
  ap, ◌∙◌, sym, length, replicate, ltb, if◌then◌else◌, min, replicate-append, length-append,
}
use mathlib.Core.List.{append_assoc}
use native.Mathlib.Decide.{ℕ_discrete}
use longhorn_engine.DiffDisk.{DiffDisk, DiffFile, file_at}
use longhorn_engine.DiffDisk.Layers.{bytes_from, SparseFile, holder, Caches}

pub length-bytes_from : (g : ℕ → ℕ) (a n : ℕ) → length (bytes_from g a n) ≡ n
length-bytes_from g a zero = refl
length-bytes_from g a (suc n) = ap suc (length-bytes_from g (suc a) n)

pub bytes_from-append :
    (g : ℕ → ℕ) (a b m n k : ℕ)
    → a + m ≡ b
    → m + n ≡ k
    → bytes_from g a m ++ bytes_from g b n ≡ bytes_from g a k
bytes_from-append g a b zero n k h e =
    let p : a ≡ b = omega arith in let q : n ≡ k = omega arith in rw (p, q)
bytes_from-append g a b (suc m) n zero h e = absurd (omega arith)
bytes_from-append g a b (suc m) n (suc k) h e =
    ap (λ r. g a ∷ r) (bytes_from-append g (suc a) b m n k (omega arith) (omega arith))

module _ {F : Type 0} {io : DiffFile F} (sf : SparseFile io) where
  -- A byte of a file, zero past its end.
  abbrev pub cell : F → ℕ → ℕ
  cell f a = if ltb a (sf.size_of f) then sf.byte_of f a else 0

  pub cell-inside :
      (f : F) (a n : ℕ)
      → a + n ≤ sf.size_of f
      → bytes_from (cell f) a n ≡ bytes_from (sf.byte_of f) a n
  cell-inside f a zero h = refl
  cell-inside f a (suc n) h = ground (arith, cell-inside f (suc a) n (omega arith))

  pub cell-outside : (f : F) (a n : ℕ) → sf.size_of f ≤ a → bytes_from (cell f) a n ≡ replicate n 0
  cell-outside f a zero h = refl
  cell-outside f a (suc n) h = ground (arith, cell-outside f (suc a) n (omega arith))

  -- The bytes of the file at an index of the stack.
  abbrev pub layer_cell : List (Option F) → ℕ → ℕ → ℕ
  layer_cell fs t a = elim (file_at fs t) [ none ↦ 0 | some f ↦ cell f a ]

  -- The `n` sectors of the volume from sector `s` on.
  unfoldable pub volume_bytes : DiffDisk F → ℕ → ℕ → List ℕ
  volume_bytes d s zero = []
  volume_bytes d s (suc n) =
      bytes_from (layer_cell d.files (holder sf d s)) (s * d.sector_size) d.sector_size
      ++ volume_bytes d (suc s) n

  cell_rest :
      (f : F) (a w n rest : ℕ)
      → w ≡ min n (sf.size_of f - a)
      → a < sf.size_of f
      → bytes_from (cell f) (a + w) (n - w) ≡ replicate (n - w) 0
  cell_rest f a w n rest e h = elim (ℕ_discrete w n) [
    | yes q ↦ let z : n - w ≡ 0 = omega arith in rw z
    | no q ↦ cell-outside f (a + w) (n - w) (omega arith)
  ]

  -- A range of a file that begins inside it: the file's bytes, then zeros.
  pub cell_split :
      (f : F) (a n rest : ℕ)
      → a < sf.size_of f
      → let w = min n (sf.size_of f - a) in
        bytes_from (sf.byte_of f) a w ++ replicate (n - w + rest) 0
        ≡ bytes_from (cell f) a n ++ replicate rest 0
  cell_split f a n rest h =
      let w = min n (sf.size_of f - a) in
      let inside = cell-inside f a w (omega arith) in
      let outside = cell_rest f a w n rest refl h in
      let cut = bytes_from-append (cell f) a (a + w) w (n - w) n refl (omega arith) in
      let zeros = replicate-append {A = ℕ} (n - w) rest (n - w + rest) 0 refl in
      rw (← zeros, ← cut, outside, inside, append_assoc)

  pub length-volume_bytes :
      (d : DiffDisk F) (s n : ℕ) → length (volume_bytes d s n) ≡ n * d.sector_size
  unfolding volume_bytes
  length-volume_bytes d s zero = omega arith
  length-volume_bytes d s (suc n) =
      let g = layer_cell d.files (holder sf d s) in
      omega (
        arith,
        length-append {0} (bytes_from g (s * d.sector_size) d.sector_size)
            (volume_bytes d (suc s) n),
        length-bytes_from g (s * d.sector_size) d.sector_size,
        length-volume_bytes d (suc s) n,
      )

  pub volume_bytes-append :
      (d : DiffDisk F) (s t m n k : ℕ)
      → s + m ≡ t
      → m + n ≡ k
      → volume_bytes d s m ++ volume_bytes d t n ≡ volume_bytes d s k
  unfolding volume_bytes
  volume_bytes-append d s t zero n k h e =
      let p : s ≡ t = omega arith in let q : n ≡ k = omega arith in rw (p, q)
  volume_bytes-append d s t (suc m) n zero h e = absurd (omega arith)
  volume_bytes-append d s t (suc m) n (suc k) h e =
      append_assoc _ (volume_bytes d (suc s) m) (volume_bytes d t n)
      ∙ ap
          (λ r.
            bytes_from (layer_cell d.files (holder sf d s)) (s * d.sector_size) d.sector_size ++ r)
          (volume_bytes-append d (suc s) t m n k (omega arith) (omega arith))

  -- Sectors that one file holds are one range of that file.
  pub volume_run :
      (d : DiffDisk F) (s n target : ℕ)
      → ((j : ℕ) → j < n → holder sf d (s + j) ≡ target)
      → bytes_from (layer_cell d.files target) (s * d.sector_size) (n * d.sector_size)
        ≡ volume_bytes d s n
  unfolding volume_bytes
  volume_run d s zero target h = let z : 0 * d.sector_size ≡ 0 = omega arith in rw z
  volume_run d s (suc n) target h =
      let g = layer_cell d.files target in
      let first : holder sf d s ≡ target =
        let e : s + 0 ≡ s = omega arith in rw e at (h 0 (omega arith)) in
      let later =
        volume_run d (suc s) n target
          (λ j k. let e : suc s + j ≡ s + suc j = omega arith in rw e (h (suc j) (omega arith))) in
      rw (first, ← later)
        (sym (
          bytes_from-append g (s * d.sector_size) (suc s * d.sector_size) d.sector_size
            (n * d.sector_size) (suc n * d.sector_size) (omega arith) (omega arith)))

  -- Filling in unknown locations changes no byte of the volume.
  pub volume_bytes-Caches :
      {d t : DiffDisk F} → Caches sf d t → (s n : ℕ) → volume_bytes t s n ≡ volume_bytes d s n
  unfolding volume_bytes
  volume_bytes-Caches c s zero = refl
  volume_bytes-Caches c s (suc n) =
      rw (c.holders s, volume_bytes-Caches c (suc s) n, c.files, c.sector_size)
