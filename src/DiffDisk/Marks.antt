-- ===== src/DiffDisk/Marks.antt =====
-- pkg/replica/diff_disk.go: the locations and the files after `fullWriteAt`.
use longhorn_engine.Prelude.{
  ℕ, zero, suc, ◌+◌, ◌-◌, ◌*◌, ◌/◌, ◌%◌, ◌≤◌, ◌<◌, Bool, true, false, Option, some, List, [], ◌∷◌,
  ◌≡◌, ◌≢◌, refl, sym, ◌∙◌, arith, length, get_elem?, set, if◌then◌else◌, ltb, leb, ◌&&◌,
  length-set, length-get_elem?, get_elem?-set_self, get_elem?-set_ne,
}
use native.Mathlib.Nat.{mod-eq_of_lt, mul-mod_left, mul-div_cancel}
use native.Mathlib.Decide.{ℕ_discrete}
use longhorn_engine.DiffDisk.{DiffDisk, DiffFile, done, ok, file_at, lookup}
use longhorn_engine.DiffDisk.Layers.{IsValid}
use longhorn_engine.DiffDisk.Write.{mark_sectors, full_write_at}

abbrev pub within : ℕ → ℕ → ℕ → Bool
within s n u = leb s u && ltb u (s + n)

pub mark_sectors_lem :
    (n s target : ℕ) (ls : List ℕ)
    → s + n ≤ length ls
    → (ls' : List ℕ) × (mark_sectors n s target ls ≡ some ls')
      × (length ls' ≡ length ls)
      × ((u : ℕ) → get_elem? ls' u ≡ (if within s n u then some target else get_elem? ls u))
unfolding mark_sectors
mark_sectors_lem zero s target ls h = (ls, refl, refl, λ u. ground arith)
mark_sectors_lem (suc n) s target ls h =
    let l = length-set ls s target in
    let room : s + 1 + n ≤ length (set ls s target) = omega (arith, l) in
    let (ls', run, same, at) = mark_sectors_lem n (s + 1) target (set ls s target) room in
    let t : ltb s (length ls) ≡ true = ground arith in
    (
      ls',
      rw t run,
      same ∙ l,
      λ u. elim (ℕ_discrete u s) [
        | yes q ↦
            let here = get_elem?-set_self ls s target (omega arith) in
            ground (arith, q, here, at u, at s)
        | no ne ↦ ground (arith, at u, get_elem?-set_ne ls {i = s} {j = u} target (λ e. ne (sym e)))
      ],
    )

pub file_at-set_self :
    {F : Type 0} (fs : List (Option F)) (i : ℕ) (f : F)
    → i < length fs
    → file_at (set fs i (some f)) i ≡ some f
file_at-set_self [] i f h = absurd (omega arith)
file_at-set_self (g ∷ fs) zero f h = refl
file_at-set_self (g ∷ fs) (suc i) f h = file_at-set_self fs i f (omega arith)

file_at-set_ne :
    {F : Type 0} (fs : List (Option F)) (i j : ℕ) (f : F)
    → j ≢ i
    → file_at (set fs i (some f)) j ≡ file_at fs j
file_at-set_ne [] i j f h = refl
file_at-set_ne (g ∷ fs) zero zero f h = absurd (h refl)
file_at-set_ne (g ∷ fs) zero (suc j) f h = refl
file_at-set_ne (g ∷ fs) (suc i) zero f h = refl
file_at-set_ne (g ∷ fs) (suc i) (suc j) f h = file_at-set_ne fs i j f (λ e. h (rw e refl))

pub inside_some :
    (s n u head : ℕ) (o : Option ℕ)
    → s ≤ u
    → u < s + n
    → (if within s n u then some head else o) ≡ some head
inside_some s n u head o low high = ground arith

module _ {F : Type 0} (io : DiffFile F) where
  -- A disk after a write of `n` sectors from `s` on to its head.
  abbrev pub wrote : DiffDisk F → List ℕ → F → DiffDisk F
  wrote d ls f = record d { files = set d.files (length d.files - 1) (some f); location = ls }

  pub wrote-IsValid :
      (d : DiffDisk F) (ls : List ℕ) (f : F) (s n : ℕ)
      → IsValid d
      → ((u : ℕ)
          → get_elem? ls u
            ≡ (if within s n u then some (length d.files - 1) else get_elem? d.location u))
      → IsValid (wrote d ls f)
  wrote-IsValid d ls f s n v at =
      let two = v.two in
      let same = length-set d.files (length d.files - 1) (some f) in
      record {
        two = rw same v.two;
        few = rw same v.few;
        live = λ i p q. elim (ℕ_discrete i (length d.files - 1)) [
          | yes e ↦ (f, rw e (file_at-set_self d.files (length d.files - 1) f (omega arith)))
          | no ne ↦
              let (g, e) = v.live i p (omega (arith, same, q)) in
              (g, file_at-set_ne d.files (length d.files - 1) i f ne ∙ e)
        ];
        inside = λ u l h. rw same (ground (arith, at u, h, v.inside u l));
      }

  lookup-known :
      (d : DiffDisk F) (u l : ℕ)
      → IsValid d
      → 0 < l
      → get_elem? d.location u ≡ some l
      → lookup io u d ≡ done d (ok l)
  unfolding lookup
  lookup-known d u zero v p h = absurd (omega arith)
  lookup-known d u (suc t) v p h = ground (arith, h, length-get_elem? d.location u h, v.two)

  pub full_write :
      (d : DiffDisk F) (s n : ℕ) (buf ls : List ℕ) (f : F)
      → IsValid d
      → 0 < d.sector_size
      → length buf ≡ n * d.sector_size
      → file_at d.files (length d.files - 1) ≡ some f
      → mark_sectors n s (length d.files - 1) d.location ≡ some ls
      → let r = io.write_at f buf (s * d.sector_size) in
        full_write_at io buf (s * d.sector_size) d ≡ done (wrote d ls r.0) (r.1, r.2)
  unfolding full_write_at
  full_write d s n buf ls f v p l live marked =
      let ss = d.sector_size in
      let few = v.few in
      let two = v.two in
      let head : (length d.files - 1) % 256 ≡ length d.files - 1 = mod-eq_of_lt (omega arith) in
      let q : length buf / ss ≡ n = rw l (mul-div_cancel n p) in
      let m : length buf % ss ≡ 0 = rw l (mul-mod_left n ss) in
      rw (m, mul-mod_left s ss, head)
        (rw live (rw (q, mul-div_cancel s p) (rw head (rw marked (rw head refl)))))

  -- On a valid disk, `fullWriteAt` of `n` whole sectors from sector `s` on, all within the table of
  -- locations, never panics and leaves a valid disk, whatever the file's write returns: the head is
  -- the file after its write, every other file is as it was, a `lookup` of each of the sectors gives
  -- the head, and the location of every other sector is as it was.
  pub full_write_at-IsValid :
      (d : DiffDisk F) (s n : ℕ) (buf : List ℕ)
      → IsValid d
      → 0 < d.sector_size
      → length buf ≡ n * d.sector_size
      → s + n ≤ length d.location
      → let head = length d.files - 1 in
        (f : F) × (t : DiffDisk F) × (file_at d.files head ≡ some f)
        × (full_write_at io buf (s * d.sector_size) d
            ≡ done t (
              (io.write_at f buf (s * d.sector_size)).1,
              (io.write_at f buf (s * d.sector_size)).2,
            ))
        × IsValid t
        × (file_at t.files head ≡ some (io.write_at f buf (s * d.sector_size)).0)
        × ((i : ℕ) → i ≢ head → file_at t.files i ≡ file_at d.files i)
        × ((u : ℕ) → s ≤ u → u < s + n → lookup io u t ≡ done t (ok head))
        × ((u : ℕ) → within s n u ≡ false → get_elem? t.location u ≡ get_elem? d.location u)
  full_write_at-IsValid d s n buf v p l room =
      let ss = d.sector_size in
      let head = length d.files - 1 in
      let two = v.two in
      let few = v.few in
      let (f, live) = v.live head (omega arith) (omega arith) in
      let r = io.write_at f buf (s * ss) in
      let (ls, marked, same, at) = mark_sectors_lem n s head d.location room in
      let t = wrote d ls r.0 in
      let ok' = wrote-IsValid d ls r.0 s n v at in
      (
        f,
        t,
        live,
        full_write d s n buf ls f v p l live marked,
        ok',
        file_at-set_self d.files head r.0 (omega arith),
        λ i ne. file_at-set_ne d.files head i r.0 ne,
        λ u low high.
            lookup-known t u head ok' (omega arith) (at u ∙ inside_some s n u head _ low high),
        λ u out. at u ∙ rw out refl,
      )
