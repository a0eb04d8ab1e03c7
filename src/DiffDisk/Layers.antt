-- ===== src/DiffDisk/Layers.antt =====
-- Which file holds a sector, and `lookup` with its cache against that.
use longhorn_engine.Prelude.{
  ℕ, zero, suc, ◌+◌, ◌-◌, ◌*◌, ◌≤◌, ◌<◌, Bool, false, Option, none, some, List, [], ◌∷◌, ◌≡◌, ◌≢◌,
  refl, arith, length, get_elem?, set, if◌then◌else◌, get_elem?-set_self, get_elem?-set_ne,
  length-get_elem?, inl, inr, ◌∙◌, ◌⊎◌, sym, get_elem?-none,
}
use native.Mathlib.Decide.{ℕ_discrete}
use longhorn_engine.DiffDisk.{DiffDisk, DiffFile, ok, done, file_at, find_layer, lookup}

-- n bytes of a stream from a place on.
abbrev pub bytes_from : (ℕ → ℕ) → ℕ → ℕ → List ℕ
bytes_from g a zero = []
bytes_from g a (suc n) = g a ∷ bytes_from g (suc a) n

-- What the code relies on of a sparse file: its size, its bytes, and where it has extents.
pub record SparseFile {F : Type 0} (io : DiffFile F) : Type 0 where
  pub size_of : F → ℕ
  pub byte_of : F → ℕ → ℕ
  pub has : F → ℕ → ℕ → Bool
  pub size_law : (f : F) → io.size f ≡ ok (size_of f)
  pub read_law :
      (f : F) (buf : List ℕ) (a : ℕ)
      → a + length buf ≤ size_of f
      → io.read_at f buf a ≡ (bytes_from (byte_of f) a (length buf), length buf, none)
  pub extent_law : (f : F) (a n : ℕ) → io.has_extent f a n ≡ ok (has f a n)

-- Between calls: at least the nil file and one more, no more files than a byte counts, every other
-- file open, and every known location the index of a file.
pub record IsValid {F : Type 0} (d : DiffDisk F) : Type 0 where
  pub two : 2 ≤ length d.files
  pub few : length d.files ≤ 256
  pub live : (i : ℕ) → 0 < i → i < length d.files → (f : F) × (file_at d.files i ≡ some f)
  pub inside : (s l : ℕ) → get_elem? d.location s ≡ some l → l < length d.files

pub location_cases : (o : Option ℕ) → (o ≡ none) ⊎ ((o ≡ some 0) ⊎ ((t : ℕ) × (o ≡ some (suc t))))
location_cases none = inl refl
location_cases (some zero) = inr (inl refl)
location_cases (some (suc t)) = inr (inr (t, refl))

module _ {F : Type 0} {io : DiffFile F} (sf : SparseFile io) where
  abbrev pub extent_at : List (Option F) → ℕ → ℕ → ℕ → Bool
  extent_at fs i a n = elim (file_at fs i) [ none ↦ false | some f ↦ sf.has f a n ]

  -- The topmost file above index 1 with an extent in the sector, or else the file at index 1.
  unfoldable pub top_layer : List (Option F) → ℕ → ℕ → ℕ → ℕ
  top_layer fs a n zero = 1
  top_layer fs a n (suc zero) = 1
  top_layer fs a n (suc (suc i)) =
      let below = top_layer fs a n (suc i) in
      if extent_at fs (suc (suc i)) a n then suc (suc i) else below

  -- The index of the file that holds a sector. A sector past the end is left to the head.
  unfoldable pub holder : DiffDisk F → ℕ → ℕ
  unfolding top_layer
  holder d s = elim (get_elem? d.location s) [
    | none ↦ length d.files - 1
    | some zero ↦ top_layer d.files (s * d.sector_size) d.sector_size (length d.files - 1)
    | some (suc t) ↦ suc t
  ]

  top_layer-le : (fs : List (Option F)) (a n i : ℕ) → 0 < i → top_layer fs a n i ≤ i
  unfolding top_layer
  top_layer-le fs a n zero h = absurd (omega arith)
  top_layer-le fs a n (suc zero) h = omega arith
  top_layer-le fs a n (suc (suc i)) h = ground (arith, top_layer-le fs a n (suc i))

  top_layer-pos : (fs : List (Option F)) (a n i : ℕ) → 0 < top_layer fs a n i
  unfolding top_layer
  top_layer-pos fs a n zero = omega arith
  top_layer-pos fs a n (suc zero) = omega arith
  top_layer-pos fs a n (suc (suc i)) = ground (arith, top_layer-pos fs a n (suc i))

  abbrev found : ℕ → Option ℕ
  found zero = none
  found (suc zero) = none
  found (suc (suc i)) = some (suc (suc i))

  -- The loop of `lookup` finds the topmost layer.
  find_layer_lem :
      (d : DiffDisk F)
      → IsValid d
      → (s i : ℕ) → i < length d.files
      → find_layer io d s i
        ≡ some (ok (found (top_layer d.files (s * d.sector_size) d.sector_size i)))
  unfolding find_layer top_layer
  find_layer_lem d v s zero h = refl
  find_layer_lem d v s (suc zero) h = refl
  find_layer_lem d v s (suc (suc i)) h =
      let (f, live) = v.live (suc (suc i)) (omega arith) h in
      ground (
        arith,
        live,
        sf.extent_law f (s * d.sector_size) d.sector_size,
        find_layer_lem d v s (suc i),
      )

  -- The holder of a sector is a file above the nil one.
  pub holder_bounds :
      (d : DiffDisk F) → IsValid d → (s : ℕ) → (0 < holder d s) × (holder d s < length d.files)
  unfolding holder
  holder_bounds d v s =
      let top = top_layer-le d.files (s * d.sector_size) d.sector_size (length d.files - 1) in
      let low = top_layer-pos d.files (s * d.sector_size) d.sector_size (length d.files - 1) in
      elim (location_cases (get_elem? d.location s)) [
        | inl e ↦ rw (e, holder) (omega (arith, v.two))
        | inr (inl e) ↦ rw (e, holder) (omega (arith, v.two, top, low))
        | inr (inr (t, e)) ↦ rw (e, holder) (omega (arith, v.inside s (suc t) e))
      ]

  pub holder-known :
      (d : DiffDisk F) (s t : ℕ) → get_elem? d.location s ≡ some (suc t) → holder d s ≡ suc t
  unfolding holder
  holder-known d s t e = rw (e, holder)

  pub holder-past :
      (d : DiffDisk F) (s : ℕ) → get_elem? d.location s ≡ none → holder d s ≡ length d.files - 1
  unfolding holder
  holder-past d s e = rw (e, holder)

  holder-unknown :
      (d : DiffDisk F) (s : ℕ)
      → get_elem? d.location s ≡ some 0
      → holder d s ≡ top_layer d.files (s * d.sector_size) d.sector_size (length d.files - 1)
  unfolding holder
  holder-unknown d s e = rw (e, holder)

  holder_congr :
      (d : DiffDisk F) (ls : List ℕ) (s : ℕ)
      → get_elem? ls s ≡ get_elem? d.location s
      → holder (record d { location = ls }) s ≡ holder d s
  unfolding holder
  holder_congr d ls s e = rw (e, holder)

  holder-stored :
      (d : DiffDisk F) (s l : ℕ) → get_elem? d.location s ≡ some l → 0 < l → holder d s ≡ l
  holder-stored d s zero e h = absurd (omega arith)
  holder-stored d s (suc l) e h = holder-known d s l e

  -- The disk after a call that only fills in unknown locations: every sector keeps its holder.
  pub record Caches (d t : DiffDisk F) : Type 0 where
    pub files : t.files ≡ d.files
    pub sector_size : t.sector_size ≡ d.sector_size
    pub size : t.size ≡ d.size
    pub holders : (s : ℕ) → holder t s ≡ holder d s
    pub valid : IsValid t

  pub Caches-refl : (d : DiffDisk F) → IsValid d → Caches d d
  Caches-refl d v = record {
    files = refl;
    sector_size = refl;
    size = refl;
    holders = λ s. refl;
    valid = v;
  }

  pub Caches-trans : {d t u : DiffDisk F} → Caches d t → Caches t u → Caches d u
  Caches-trans c e = record {
    files = e.files ∙ c.files;
    sector_size = e.sector_size ∙ c.sector_size;
    size = e.size ∙ c.size;
    holders = λ s. e.holders s ∙ c.holders s;
    valid = e.valid;
  }

  set-Caches :
      (d : DiffDisk F)
      → IsValid d
      → (s : ℕ) → get_elem? d.location s ≡ some 0
      → Caches d (record d { location = set d.location s (holder d s) })
  set-Caches d v s h = record {
    files = refl;
    sector_size = refl;
    size = refl;
    holders = same;
    valid = record { two = v.two; few = v.few; live = v.live; inside = within };
  }
    where
      t : DiffDisk F
      t = record d { location = set d.location s (holder d s) }

      stored : get_elem? t.location s ≡ some (holder d s)
      stored = get_elem?-set_self d.location s (holder d s) (length-get_elem? d.location s h)

      other : (u : ℕ) → s ≢ u → get_elem? t.location u ≡ get_elem? d.location u
      other u ne = get_elem?-set_ne d.location (holder d s) ne

      same : (u : ℕ) → holder t u ≡ holder d u
      same u = elim (ℕ_discrete s u) [
        | yes e ↦ rw (← e) (holder-stored t s (holder d s) stored (holder_bounds d v s).0)
        | no ne ↦ holder_congr d t.location u (other u ne)
      ]

      within : (u l : ℕ) → get_elem? t.location u ≡ some l → l < length d.files
      within u l g = elim (ℕ_discrete s u) [
        | yes e ↦ ground (arith, e, stored, g, (holder_bounds d v s).1)
        | no ne ↦ v.inside u l (sym (other u ne) ∙ g)
      ]

  -- On a valid disk `lookup` neither panics nor fails: it returns the index of the file that holds
  -- the sector, and the disk afterwards is valid with the same files, size and holders.
  pub lookup_lem :
      (d : DiffDisk F)
      → IsValid d
      → (s : ℕ) → (t : DiffDisk F) × (lookup io s d ≡ done t (ok (holder d s))) × Caches d t
  unfolding lookup
  lookup_lem d v s = elim (location_cases (get_elem? d.location s)) [
    | inl e ↦ (
      d,
      ground (arith, holder-past d s e, get_elem?-none d.location s e, v.two, v.few),
      Caches-refl d v,
    )
    | inr (inl e) ↦ (
      record d { location = set d.location s (holder d s) },
      ground (
        arith,
        e,
        holder-unknown d s e,
        holder_bounds d v s,
        find_layer_lem d v s (length d.files - 1) (omega (arith, v.two)),
        length-get_elem? d.location s e,
        v.two,
        v.few,
      ),
      set-Caches d v s e,
    )
    | inr (inr (t, e)) ↦ (
      d,
      ground (arith, e, holder-known d s t e, length-get_elem? d.location s e, v.two),
      Caches-refl d v,
    )
  ]
