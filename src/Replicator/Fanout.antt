-- ===== src/Replicator/Fanout.antt =====
-- The goroutines of `MultiWriterAt.WriteAt`: what a run leaves at one
-- index does not depend on the order in which the calls take effect.
use longhorn_engine.Prelude.{
  ℕ, Bool, true, false, ◌||◌, Option, none, some, List, [], ◌∷◌, ◌≡◌, ◌≢◌, refl, arith, length,
  get_elem?, ◌==◌, length-set, get_elem?-set_self, get_elem?-set_ne, ap, ◌∙◌, Option-cases, inl,
  inr, ==_iff, length-get_elem?,
}
use longhorn_engine.Types.{ReplicaError}
use longhorn_engine.Replicator.Backend.{Backend}
use longhorn_engine.Replicator.MultiWriter
use longhorn_engine.Replicator.MultiWriter.{record_error, write_one, write_all}

abbrev pub holds : ℕ → List ℕ → Bool
holds i [] = false
holds i (j ∷ js) = j == i || holds i js

-- A schedule runs each goroutine once: `Once order`, and `holds i order` for each index.
abbrev pub Once : List ℕ → Type 0
Once [] = Unit {0}
Once (j ∷ js) = (holds j js ≡ false) × Once js

-- No object stands twice in the slice.
abbrev pub IsDistinct : List ℕ → Type 0
IsDistinct ps = (i j p : ℕ) → get_elem? ps i ≡ some p → get_elem? ps j ≡ some p → i ≡ j

pub record_error_ne :
    {i j : ℕ} (e : Option ReplicaError) (errs : List (Option ReplicaError))
    → j ≢ i
    → get_elem? (record_error j e errs) i ≡ get_elem? errs i
unfolding record_error
record_error_ne none errs ne = refl
record_error_ne (some x) errs ne = get_elem?-set_ne errs (some x) ne

pub length-record_error :
    (i : ℕ) (e : Option ReplicaError) (errs : List (Option ReplicaError))
    → length (record_error i e errs) ≡ length errs
unfolding record_error
length-record_error i none errs = refl
length-record_error i (some x) errs = length-set errs i (some x)

pub record_error_self :
    (i : ℕ) (e : Option ReplicaError) (errs : List (Option ReplicaError))
    → get_elem? errs i ≡ some none
    → get_elem? (record_error i e errs) i ≡ some e
unfolding record_error
record_error_self i none errs h = h
record_error_self i (some x) errs h = get_elem?-set_self errs i (some x) (length-get_elem? errs i h)

module _ {S : Type 0} (b : Backend S) (ws : List ℕ) (buf : List ℕ) (off : ℕ)
    (distinct : IsDistinct ws) (i p : ℕ) (here : get_elem? ws i ≡ some p) where
  write_one_other :
      (j : ℕ) (f : MultiWriter.Flight S)
      → j ≢ i
      → ((write_one b ws buf off j f).heap p ≡ f.heap p)
        × (get_elem? (write_one b ws buf off j f).errs i ≡ get_elem? f.errs i)
  unfolding write_one
  write_one_other j f ne = elim (Option-cases (get_elem? ws j)) [
    | inl past ↦ ground (arith, past)
    | inr (q, there) ↦
        let call = b.write_at buf off (f.heap q) in
        let apart : q ≢ p = λ e. ne (distinct j i p (there ∙ ap some e) here) in
        ground (arith, there, record_error_ne call.2 f.errs ne)
  ]

  write_one_self :
      (f : MultiWriter.Flight S)
      → get_elem? f.errs i ≡ some none
      → ((write_one b ws buf off i f).heap p ≡ (b.write_at buf off (f.heap p)).0)
        × (get_elem? (write_one b ws buf off i f).errs i ≡ some (b.write_at buf off (f.heap p)).2)
  unfolding write_one
  write_one_self f h =
      ground (arith, here, record_error_self i (b.write_at buf off (f.heap p)).2 f.errs)

  write_all_other :
      (order : List ℕ) (f : MultiWriter.Flight S)
      → holds i order ≡ false
      → ((write_all b ws buf off order f).heap p ≡ f.heap p)
        × (get_elem? (write_all b ws buf off order f).errs i ≡ get_elem? f.errs i)
  unfolding write_all
  write_all_other [] f h = (refl, refl)
  write_all_other (j ∷ order) f h =
      ground (arith, write_one_other j f, write_all_other order (write_one b ws buf off j f))

  -- After every goroutine has run once, the object at each index has made the one call, from the
  -- state that it started in, and its error stands at that index.
  pub write_all_lands :
      (order : List ℕ) (f : MultiWriter.Flight S)
      → Once order
      → holds i order ≡ true
      → get_elem? f.errs i ≡ some none
      → ((write_all b ws buf off order f).heap p ≡ (b.write_at buf off (f.heap p)).0)
        × (get_elem? (write_all b ws buf off order f).errs i
            ≡ some (b.write_at buf off (f.heap p)).2)
  unfolding write_all
  write_all_lands [] f u h e = cc
  write_all_lands (j ∷ order) f u h e = ground (
    arith,
    ==_iff j i,
    write_one_other j f,
    write_one_self f e,
    write_all_other order (write_one b ws buf off i f),
    write_all_lands order (write_one b ws buf off j f) u.1,
  )

pub length-write_all :
    {S : Type 0} (b : Backend S) (ws buf : List ℕ) (off : ℕ) (order : List ℕ)
    (f : MultiWriter.Flight S)
    → length (write_all b ws buf off order f).errs ≡ length f.errs
unfolding write_all write_one
length-write_all b ws buf off [] f = refl
length-write_all b ws buf off (j ∷ order) f =
    length-write_all b ws buf off order (write_one b ws buf off j f) ∙ length-write_one
  where
    length-write_one : length (write_one b ws buf off j f).errs ≡ length f.errs
    length-write_one = elim (Option-cases (get_elem? ws j)) [
      | inl past ↦ ground (arith, past)
      | inr (q, there) ↦
          ground (arith, there, length-record_error j (b.write_at buf off (f.heap q)).2 f.errs)
    ]
