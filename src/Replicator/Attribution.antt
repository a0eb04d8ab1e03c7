-- ===== src/Replicator/Attribution.antt =====
-- Which replicas the errors of `WriteAt` and `UnmapAt` name.
use longhorn_engine.Prelude.{
  ℕ, zero, suc, ◌<◌, String, true, false, Option, none, some, List, [], ◌∷◌, ◌≡◌, ◌≢◌, ◌↔◌,
  get_elem?-none, refl, arith, length, get_elem?, get_or, ap, if◌then◌else◌, str_eq_iff,
  get_elem?-replicate, length-replicate, replicate, Option-cases, ◌∙◌, inl, inr, length-get_elem?,
}
use longhorn_engine.Prelude.Dict
use longhorn_engine.Prelude.Dict.{Dict}
use longhorn_engine.Types.{ReplicaError, CallError, one, multi_unmapper}
use longhorn_engine.Replicator.{Replicator}
use longhorn_engine.Replicator.Backend.{Backend, Heap}
use longhorn_engine.Replicator.Fanout.{holds, Once, IsDistinct, write_all_lands, length-write_all}
use longhorn_engine.Replicator.UnmapFanout.{unmap_all_lands}
use longhorn_engine.Replicator.Index.{IsConsistent}
use longhorn_engine.Replicator.MultiWriter
use longhorn_engine.Replicator.MultiWriter.{multi_write, any_error, written, write_all}
use longhorn_engine.Replicator.MultiUnmapper.{multi_unmap, unmap_all}
use longhorn_engine.Replicator.MultiUnmapper
use longhorn_engine.Replicator.Io.{IoError, backend_error, deref, collect, write_at, unmap_at}

-- Addresses in an index map are different.
abbrev pub NoRepeat : List String → Type 0
NoRepeat index =
    (i j : ℕ) (a : String) → get_elem? index i ≡ some a → get_elem? index j ≡ some a → i ≡ j

NoRepeat-tail : {a : String} (index : List String) → NoRepeat (a ∷ index) → NoRepeat index
NoRepeat-tail index u i j a h g = omega (arith, u (suc i) (suc j) a h g)

-- An address that is not in the index keeps its entry.
get-collect_other :
    (a : String) (index : List String) (errs : List (Option ReplicaError)) (m : Dict CallError)
    → length index ≡ length errs
    → ((i : ℕ) → get_elem? index i ≢ some a)
    → Dict.get a (collect index errs m) ≡ Dict.get a m
unfolding collect
get-collect_other a [] [] m l h = refl
get-collect_other a [] (e ∷ errs) m l h = absurd (omega arith)
get-collect_other a (c ∷ index) [] m l h = refl
get-collect_other a (c ∷ index) (none ∷ errs) m l h =
    get-collect_other a index errs m (omega arith) (λ i. h (suc i))
get-collect_other a (c ∷ index) (some e ∷ errs) m l h = ground (
  arith,
  get-collect_other a index errs (Dict.put c (one e) m) (omega arith) (λ i. h (suc i)),
  Dict.get-put c a (one e) m,
  str_eq_iff c a,
  h 0,
)

abbrev pub as_entry : Option ReplicaError → Option CallError
as_entry none = none
as_entry (some e) = some (one e)

first_only :
    (a c : String) (index : List String)
    → NoRepeat (c ∷ index)
    → c ≡ a
    → (i : ℕ) → get_elem? index i ≢ some a
first_only a c index u e i h = absurd (omega (arith, u 0 (suc i) a (ap some e) h))

get-collect :
    (a : String) (i : ℕ) (index : List String) (errs : List (Option ReplicaError))
    (m : Dict CallError) (e : Option ReplicaError)
    → NoRepeat index
    → length index ≡ length errs
    → Dict.get a m ≡ none
    → get_elem? index i ≡ some a
    → get_elem? errs i ≡ some e
    → Dict.get a (collect index errs m) ≡ as_entry e
unfolding collect
get-collect a i [] errs m e u l g h k = cc
get-collect a i (c ∷ index) [] m e u l g h k = absurd (omega arith)
get-collect a zero (c ∷ index) (none ∷ errs) m e u l g h k =
    let once = first_only a c index u (ground arith) in
    ground (arith, get-collect_other a index errs m (omega arith) once)
get-collect a zero (c ∷ index) (some x ∷ errs) m e u l g h k =
    let once = first_only a c index u (ground arith) in
    ground (
      arith,
      get-collect_other a index errs (Dict.put c (one x) m) (omega arith) once,
      Dict.get-put c a (one x) m,
      str_eq_iff c a,
    )
get-collect a (suc i) (c ∷ index) (none ∷ errs) m e u l g h k =
    get-collect a i index errs m e (NoRepeat-tail index u) (omega arith) g h k
get-collect a (suc i) (c ∷ index) (some x ∷ errs) m e u l g h k =
    let apart : c ≢ a = λ q. absurd (omega (arith, u 0 (suc i) a (ap some q) h)) in
    let fresh : Dict.get a (Dict.put c (one x) m) ≡ none =
      ground (arith, Dict.get-put c a (one x) m, str_eq_iff c a) in
    get-collect a i index errs (Dict.put c (one x) m) e (NoRepeat-tail index u) (omega arith) fresh
      h k

abbrev pub error_at : String → Option IoError → Option CallError
error_at a (some (backend_error m)) = Dict.get a m
error_at a _ = none

length-deref : (ps : List (Option ℕ)) (qs : List ℕ) → deref ps ≡ some qs → length qs ≡ length ps
unfolding deref
length-deref [] qs h = ground arith
length-deref (none ∷ ps) qs h = cc
length-deref (some p ∷ ps) qs h = elim (Option-cases (deref ps)) [
  | inl e ↦ ground (arith, e)
  | inr (rest, e) ↦ ground (arith, e, length-deref ps rest e)
]

any_error-none :
    (es : List (Option ReplicaError)) (i : ℕ) (e : Option ReplicaError)
    → any_error es ≡ false
    → get_elem? es i ≡ some e
    → e ≡ none
any_error-none [] i e h k = cc
any_error-none (none ∷ es) zero e h k = ground arith
any_error-none (none ∷ es) (suc i) e h k = any_error-none es i e h k
any_error-none (some x ∷ es) i e h k = cc

write_error : List String → List (Option ReplicaError) → Option IoError
write_error index errs =
    if any_error errs then some (backend_error (collect index errs [])) else none

write_error_at :
    (a : String) (i : ℕ) (index : List String) (errs : List (Option ReplicaError))
    (e : Option ReplicaError)
    → NoRepeat index
    → length index ≡ length errs
    → get_elem? index i ≡ some a
    → get_elem? errs i ≡ some e
    → error_at a (write_error index errs) ≡ as_entry e
unfolding write_error Dict.get
write_error_at a i index errs e u l h k =
    ground (arith, get-collect a i index errs [] e u l refl h k, any_error-none errs i e)

write_error_other :
    (a : String) (index : List String) (errs : List (Option ReplicaError))
    → length index ≡ length errs
    → ((i : ℕ) → get_elem? index i ≢ some a)
    → error_at a (write_error index errs) ≡ none
unfolding write_error Dict.get
write_error_other a index errs l away = ground (arith, get-collect_other a index errs [] l away)

no_write_error :
    (index : List String) (errs : List (Option ReplicaError))
    → write_error index errs ≡ none
    → any_error errs ≡ false
unfolding write_error
no_write_error index errs h = ground (arith, h)

all_none :
    (es : List (Option ReplicaError))
    → ((i : ℕ) (x : Option ReplicaError) → get_elem? es i ≡ some x → x ≡ none)
    → any_error es ≡ false
all_none [] h = refl
all_none (none ∷ es) h = all_none es (λ i. h (suc i))
all_none (some y ∷ es) h = absurd (ground (arith, h 0 (some y) refl))

any_error-some :
    (es : List (Option ReplicaError)) (i : ℕ) (x : ReplicaError)
    → get_elem? es i ≡ some (some x)
    → any_error es ≡ true
any_error-some [] i x k = cc
any_error-some (none ∷ es) zero x k = cc
any_error-some (none ∷ es) (suc i) x k = any_error-some es i x k
any_error-some (some y ∷ es) i x k = refl

-- A run of the goroutines: each index once.
abbrev pub Schedules : List ℕ → List ℕ → Type 0
Schedules order ps = Once order × ((i : ℕ) → i < length ps → holds i order ≡ true)

module _ {S : Type 0} (b : Backend S) (off : ℕ) (order : List ℕ) (r : Replicator) (h : Heap S)
    (c : IsConsistent r) (up : r.backends_available ≡ true) where
  module _ (buf ws : List ℕ) (live : deref r.writers ≡ some ws) (distinct : IsDistinct ws)
      (runs : Schedules order ws) where
    -- For a consistent replicator with a backend available, no nil writer and no object twice, and
    -- goroutines that each take effect once: `WriteAt` returns, leaves each writer's object as its
    -- own call leaves it, and its error has at each writer's address that call's error, if any, and
    -- at no other address an entry. There is no error exactly if no writer's call has one.
    pub write_at-names_failures :
        (h' : Heap S) × (n : ℕ) × (e : Option IoError) × (write_at b buf off order r h
          ≡ some (h', n, e))
        × ((a : String) (i p : ℕ)
            → get_elem? r.writer_index i ≡ some a
            → get_elem? ws i ≡ some p
            → (h' p ≡ (b.write_at buf off (h p)).0)
              × (error_at a e ≡ as_entry (b.write_at buf off (h p)).2))
        × ((a : String) → ((i : ℕ) → get_elem? r.writer_index i ≢ some a) → error_at a e ≡ none)
        × ((e ≡ none) ↔ ((i p : ℕ) → get_elem? ws i ≡ some p → (b.write_at buf off (h p)).2 ≡ none))
    unfolding write_at write_error
    write_at-names_failures = (
      t.heap,
      written (length buf) t.errs,
      write_error r.writer_index t.errs,
      ground (arith, live, up),
      λ a i p here there.
          let none_yet = get_elem?-replicate (length ws) i none (length-get_elem? ws i there) in
          let (state, error) =
            write_all_lands b ws buf off distinct i p there order start runs.0
              (runs.1 i (length-get_elem? ws i there)) none_yet in
          (state, write_error_at a i r.writer_index t.errs _ c.writes.distinct lengths here error),
      λ a away. write_error_other a r.writer_index t.errs lengths away,
      (
        λ fine i p there.
            any_error-none t.errs i (b.write_at buf off (h p)).2
              (no_write_error r.writer_index t.errs fine) (landed i p there),
        λ fine. quiet (λ i x at. elim (Option-cases (get_elem? ws i)) [
          | inl gone ↦
              absurd (omega (arith, get_elem?-none ws i gone, length-get_elem? t.errs i at, widths))
          | inr (p, there) ↦ ground (arith, at, landed i p there, fine i p there)
        ]),
      ),
    )
      where
        start : MultiWriter.Flight S
        start = record { heap = h; errs = replicate (length ws) none }

        t : MultiWriter.Flight S
        t = write_all b ws buf off order start

        landed :
            (i p : ℕ)
            → get_elem? ws i ≡ some p
            → get_elem? t.errs i ≡ some (b.write_at buf off (h p)).2
        landed i p there =
            let none_yet = get_elem?-replicate (length ws) i none (length-get_elem? ws i there) in
            (write_all_lands b ws buf off distinct i p there order start runs.0
              (runs.1 i (length-get_elem? ws i there)) none_yet).1

        widths : length t.errs ≡ length ws
        widths = omega (
          arith,
          length-write_all b ws buf off order start,
          length-replicate {A = Option ReplicaError} (length ws) none,
        )

        quiet :
            ((i : ℕ) (x : Option ReplicaError) → get_elem? t.errs i ≡ some x → x ≡ none)
            → write_error r.writer_index t.errs ≡ none
        quiet fine = ground (arith, all_none t.errs fine)

        lengths : length r.writer_index ≡ length t.errs
        lengths = omega (arith, c.writes.lengths, length-deref r.writers ws live, widths)

  module _ (len : ℕ) (us : List ℕ) (live : deref r.unmappers ≡ some us) (distinct : IsDistinct us)
      (runs : Schedules order us) where
    -- For a consistent replicator with a backend available, no nil unmapper and no object twice, and
    -- goroutines that each take effect once: if the call of any one unmapper fails, `UnmapAt`
    -- returns an error with one entry, at the first address of the index, whichever replica failed;
    -- that entry holds the failing call's error.
    pub unmap_at-blames_first :
        (i p : ℕ) (x : ReplicaError)
        → get_elem? us i ≡ some p
        → (b.unmap_at len off (h p)).2 ≡ some x
        → let first = get_or r.unmapper_index 0 "" in
          (h' : Heap S) × (n : ℕ) × (errs : List (Option ReplicaError)) × (unmap_at b len off order
              r h
            ≡ some (h', n, some (backend_error ((first, multi_unmapper errs) ∷ []))))
          × (get_elem? errs i ≡ some (some x))
    unfolding unmap_at
    unmap_at-blames_first i p x there failed =
        let start : MultiUnmapper.Flight S = record {
          heap = h;
          errs = replicate (length us) none;
          unmapped_size = 0;
        } in
        let t = unmap_all b us len off order start in
        let none_yet = get_elem?-replicate (length us) i none (length-get_elem? us i there) in
        let (state, error) =
          unmap_all_lands b us len off distinct i p there order start runs.0
            (runs.1 i (length-get_elem? us i there)) none_yet in
        let seen : get_elem? t.errs i ≡ some (some x) = error ∙ ap some failed in
        (
          t.heap,
          t.unmapped_size,
          t.errs,
          ground (arith, live, up, any_error-some t.errs i x seen),
          seen,
        )
