-- ===== src/DiffDisk/Removal.antt =====
-- pkg/replica/diff_disk.go: the files that the known locations name, before and after `RemoveIndex`.
use longhorn_engine.Prelude.{
  ℕ, zero, suc, ◌+◌, ◌%◌, ◌≤◌, ◌<◌, Option, none, some, List, [], ◌∷◌, ◌≡◌, ◌≢◌, refl, arith,
  length, get_elem?, ◌∙◌, Bool-cases, inl, inr, ltb,
}
use native.Mathlib.Nat.{mod-eq_of_lt}
use longhorn_engine.DiffDisk.{
  DiffDisk, DiffFile, done, file_at, shift_location, shift_locations, remove_at, remove_index,
}
use longhorn_engine.DiffDisk.Layers.{IsValid}

file_at-bound :
    {F : Type 0} (fs : List (Option F)) (i : ℕ) (f : F) → file_at fs i ≡ some f → i < length fs
file_at-bound [] i f h = cc
file_at-bound (g ∷ fs) zero f h = omega arith
file_at-bound (g ∷ fs) (suc i) f h = omega (arith, file_at-bound fs i f h)

module _ {F : Type 0} (io : DiffFile F) where
  file_at-before :
      (fs : List (Option F)) (index l : ℕ)
      → l < index
      → file_at (remove_at io fs index) l ≡ file_at fs l
  file_at-before [] index l h = refl
  file_at-before (f ∷ fs) zero l h = absurd (omega arith)
  file_at-before (f ∷ fs) (suc index) zero h = refl
  file_at-before (f ∷ fs) (suc index) (suc l) h = file_at-before fs index l (omega arith)

  file_at-after :
      (fs : List (Option F)) (index l : ℕ)
      → index ≤ l
      → file_at (remove_at io fs index) l ≡ file_at fs (suc l)
  file_at-after [] index l h = refl
  file_at-after (f ∷ fs) zero l h = refl
  file_at-after (f ∷ fs) (suc index) zero h = absurd (omega arith)
  file_at-after (f ∷ fs) (suc index) (suc l) h = file_at-after fs index l (omega arith)

  length-remove_at :
      (fs : List (Option F)) (index : ℕ)
      → index < length fs
      → length (remove_at io fs index) + 1 ≡ length fs
  length-remove_at [] index h = absurd (omega arith)
  length-remove_at (f ∷ fs) zero h = omega arith
  length-remove_at (f ∷ fs) (suc index) h = omega (arith, length-remove_at fs index (omega arith))

  get_elem?-shift :
      (index s l : ℕ) (ls : List ℕ)
      → get_elem? ls s ≡ some l
      → get_elem? (shift_locations io index ls) s ≡ some (shift_location io index l)
  unfolding shift_locations
  get_elem?-shift index s l [] h = cc
  get_elem?-shift index zero l (k ∷ ls) h = ground (arith, h)
  get_elem?-shift index (suc s) l (k ∷ ls) h = get_elem?-shift index s l ls h

  -- A known location that is not the removed one names the same file afterwards.
  shifted_file :
      (fs : List (Option F)) (index l : ℕ)
      → index < 256
      → l ≢ index
      → file_at (remove_at io fs index) (shift_location io index l) ≡ file_at fs l
  unfolding shift_location
  shifted_file fs index zero small other =
      let b : index % 256 ≡ index = mod-eq_of_lt small in
      ground (arith, b, file_at-before fs index 0)
  shifted_file fs index (suc l) small other =
      let b : index % 256 ≡ index = mod-eq_of_lt small in
      ground (arith, b, file_at-before fs index (suc l), file_at-after fs index l)

  -- The disk without the file at `index`.
  abbrev without : DiffDisk F → ℕ → DiffDisk F
  without d index = record d {
    location = shift_locations io index d.location;
    files = remove_at io d.files index;
  }

  get_elem?-shift_inv :
      (index s m : ℕ) (ls : List ℕ)
      → get_elem? (shift_locations io index ls) s ≡ some m
      → (l : ℕ) × (get_elem? ls s ≡ some l) × (m ≡ shift_location io index l)
  unfolding shift_locations
  get_elem?-shift_inv index s m [] h = cc
  get_elem?-shift_inv index zero m (k ∷ ls) h = (k, refl, ground (arith, h))
  get_elem?-shift_inv index (suc s) m (k ∷ ls) h = get_elem?-shift_inv index s m ls h

  shifted_bound :
      (index l n m : ℕ)
      → index < 256
      → index < n
      → 0 < index
      → l < n
      → m + 1 ≡ n
      → shift_location io index l < m
  unfolding shift_location
  shifted_bound index l n m small h k j e =
      let b : index % 256 ≡ index = mod-eq_of_lt small in ground (arith, b)

  shifted_to_zero : (index : ℕ) → index < 256 → shift_location io index index ≡ 0
  unfolding shift_location
  shifted_to_zero index small =
      let b : index % 256 ≡ index = mod-eq_of_lt small in ground (arith, b)

  without-IsValid :
      (d : DiffDisk F) (index : ℕ)
      → IsValid d
      → 0 < index
      → index < length d.files
      → 3 ≤ length d.files
      → IsValid (without d index)
  without-IsValid d index v low high three =
      let few = v.few in
      let n = length-remove_at d.files index high in
      record {
        two = omega (arith, n);
        few = omega (arith, n);
        live = λ i p q. elim (Bool-cases (ltb i index)) [
          | inl before ↦
              let (f, e) = v.live i p (omega (arith, n, q)) in
              (f, file_at-before d.files index i (ground arith) ∙ e)
          | inr after ↦
              let (f, e) = v.live (suc i) (omega arith) (omega (arith, n, q)) in
              (f, file_at-after d.files index i (ground arith) ∙ e)
        ];
        inside = λ s m h.
            let (l, old, e) = get_elem?-shift_inv index s m d.location h in
            let inside = v.inside s l old in
            rw e (shifted_bound index l (length d.files) _ (omega arith) high low inside n);
      }

  -- On a valid disk with at least two files beside the nil one, if the file at `index`, above 0,
  -- closes without an error: `RemoveIndex` returns no error and leaves a valid disk. A known location
  -- of that file is unknown afterwards, and any other location names the same file as before.
  pub remove_index-IsValid :
      (d : DiffDisk F) (index : ℕ) (f : F)
      → IsValid d
      → 0 < index
      → 3 ≤ length d.files
      → file_at d.files index ≡ some f
      → io.close f ≡ none
      → (t : DiffDisk F) × (remove_index io index d ≡ done t none)
        × IsValid t
        × ((s l : ℕ)
            → get_elem? d.location s ≡ some l
            → (m : ℕ) × (get_elem? t.location s ≡ some m)
              × (l ≡ index → m ≡ 0)
              × (l ≢ index → file_at t.files m ≡ file_at d.files l))
  unfolding remove_index
  remove_index-IsValid d index f v low three here closes =
      let high = file_at-bound d.files index f here in
      let few = v.few in
      (
        without d index,
        rw (here, remove_index) (rw closes refl),
        without-IsValid d index v low high three,
        λ s l known. (
          shift_location io index l,
          get_elem?-shift index s l d.location known,
          λ e. rw e (shifted_to_zero index (omega arith)),
          λ ne. shifted_file d.files index l (omega arith) ne,
        ),
      )
