-- ===== src/Replicator/Build.antt =====
-- `buildReaderWriterUnmappers` against a reference: the entries that a mode test selects.
use longhorn_engine.Prelude.{
  ℕ, zero, suc, String, Bool, true, false, not, Option, none, some, List, [], ◌∷◌, ◌++◌, map, ◌≡◌,
  refl, sym, arith, get_elem?, length, ap, if◌then◌else◌, str_eq_iff,
}
use mathlib.Core.List.{append-nil, append_assoc}
use longhorn_engine.Prelude.Dict
use longhorn_engine.Prelude.Dict.{Dict, IsMap}
use longhorn_engine.Types.{Mode}
use longhorn_engine.Replicator.{
  BackendWrapper, Replicator, is_errored, is_read_write, is_empty, reset, build_loop, build_entry,
  build,
}

abbrev pub writable : Mode → Bool
writable m = not (is_errored m)

-- The entries whose mode passes a test.
unfoldable pub select : (Mode → Bool) → Dict BackendWrapper → Dict BackendWrapper
select p [] = []
select p (e ∷ m) = let rest = select p m in if p e.1.mode then e ∷ rest else rest

abbrev pub addresses : Dict BackendWrapper → List String
addresses = map (λ e. e.0)

abbrev pub objects : Dict BackendWrapper → List (Option ℕ)
objects = map (λ e. e.1.backend)

-- What the loop adds to the six slices.
record Extends (order : Dict BackendWrapper) (r t : Replicator) : Type 0 where
  writer_index : t.writer_index ≡ r.writer_index ++ addresses (select writable order)
  writers : t.writers ≡ r.writers ++ objects (select writable order)
  unmapper_index : t.unmapper_index ≡ r.unmapper_index ++ addresses (select writable order)
  unmappers : t.unmappers ≡ r.unmappers ++ objects (select writable order)
  reader_index : t.reader_index ≡ r.reader_index ++ addresses (select is_read_write order)
  readers : t.readers ≡ r.readers ++ objects (select is_read_write order)
  kept : (t.backends ≡ r.backends) × (t.next ≡ r.next)
  unavailable : t.backends_available ≡ r.backends_available

build_loop-Extends :
    (order : Dict BackendWrapper) (r : Replicator) → Extends order r (build_loop order r)
unfolding build_loop build_entry select
build_loop-Extends [] r = record {
  writer_index = sym (append-nil _);
  writers = sym (append-nil _);
  unmapper_index = sym (append-nil _);
  unmappers = sym (append-nil _);
  reader_index = sym (append-nil _);
  readers = sym (append-nil _);
  kept = (refl, refl);
  unavailable = refl;
}
build_loop-Extends ((a, w) ∷ order) r =
    let ih = build_loop-Extends order (build_entry a w r) in
    let l = select writable order in
    let k = select is_read_write order in
    ground (
      arith,
      ih,
      append_assoc r.writer_index (a ∷ []) (addresses l),
      append_assoc r.writers (w.backend ∷ []) (objects l),
      append_assoc r.unmapper_index (a ∷ []) (addresses l),
      append_assoc r.unmappers (w.backend ∷ []) (objects l),
      append_assoc r.reader_index (a ∷ []) (addresses k),
      append_assoc r.readers (w.backend ∷ []) (objects k),
    )

-- The slices that a rebuild should give, from the entries in the order in which they are met.
pub record IsBuilt (order : Dict BackendWrapper) (t : Replicator) : Type 0 where
  pub writer_index : t.writer_index ≡ addresses (select writable order)
  pub writers : t.writers ≡ objects (select writable order)
  pub unmapper_index : t.unmapper_index ≡ addresses (select writable order)
  pub unmappers : t.unmappers ≡ objects (select writable order)
  pub reader_index : t.reader_index ≡ addresses (select is_read_write order)
  pub readers : t.readers ≡ objects (select is_read_write order)
  pub available : t.backends_available ≡ not (is_empty (select is_read_write order))

-- Whatever the replicator was, a rebuild gives as writers and unmappers the entries that are not
-- ERR, as readers those that are RW, in the order of the entries and with their addresses as index;
-- backends are available exactly if an entry is RW; the backends and `next` stay.
pub build-IsBuilt :
    (order : Dict BackendWrapper) (r : Replicator)
    → IsBuilt order (build order r)
      × ((build order r).backends ≡ r.backends)
      × ((build order r).next ≡ r.next)
unfolding build
build-IsBuilt order r =
    ground (arith, build_loop-Extends order (record (reset false r) { readers = [] }))

select-has :
    (k : String) (p : Mode → Bool) (m : Dict BackendWrapper)
    → Dict.has k m ≡ false
    → Dict.has k (select p m) ≡ false
unfolding select Dict.has
select-has k p [] h = refl
select-has k p (e ∷ m) h = ground (arith, select-has k p m)

pub select-IsMap : (p : Mode → Bool) (m : Dict BackendWrapper) → IsMap m → IsMap (select p m)
unfolding select
select-IsMap p [] u = tt
select-IsMap p (e ∷ m) u = ground (arith, select-IsMap p m u.1, select-has e.0 p m u.0)

-- Selecting keeps the entries whose mode passes, and no others.
pub get-select :
    (k : String) (p : Mode → Bool) (m : Dict BackendWrapper)
    → IsMap m
    → Dict.get k (select p m)
      ≡ elim (Dict.get k m) [ none ↦ none | some w ↦ if p w.mode then some w else none ]
unfolding select Dict.get
get-select k p [] u = refl
get-select k p (e ∷ m) u =
    ground (arith, get-select k p m u.1, str_eq_iff e.0 k, Dict.get-not_has e.0 m u.0)

pub get_elem?-addresses :
    (m : Dict BackendWrapper) (i : ℕ) (a : String)
    → get_elem? (addresses m) i ≡ some a
    → (w : BackendWrapper) × (get_elem? m i ≡ some (a, w))
      × (get_elem? (objects m) i ≡ some w.backend)
get_elem?-addresses [] i a h = cc
get_elem?-addresses ((k, w) ∷ m) zero a h = (w, ground arith, refl)
get_elem?-addresses ((k, w) ∷ m) (suc i) a h = get_elem?-addresses m i a h

pub addresses-get_elem? :
    (m : Dict BackendWrapper) (i : ℕ) (a : String) (w : BackendWrapper)
    → get_elem? m i ≡ some (a, w)
    → get_elem? (addresses m) i ≡ some a
addresses-get_elem? [] i a w h = cc
addresses-get_elem? ((k, v) ∷ m) zero a w h = ground arith
addresses-get_elem? ((k, v) ∷ m) (suc i) a w h = addresses-get_elem? m i a w h

pub length-addresses : (m : Dict BackendWrapper) → length (addresses m) ≡ length (objects m)
length-addresses [] = refl
length-addresses (e ∷ m) = ap suc (length-addresses m)

pub objects-get_elem? :
    (m : Dict BackendWrapper) (i : ℕ) (a : String) (w : BackendWrapper)
    → get_elem? m i ≡ some (a, w)
    → get_elem? (objects m) i ≡ some w.backend
objects-get_elem? [] i a w h = cc
objects-get_elem? ((k, v) ∷ m) zero a w h = ground arith
objects-get_elem? ((k, v) ∷ m) (suc i) a w h = objects-get_elem? m i a w h

pub get-nonempty :
    (a : String) {w : BackendWrapper} (m : Dict BackendWrapper)
    → Dict.get a m ≡ some w
    → not (is_empty m) ≡ true
unfolding Dict.get
get-nonempty a [] h = cc
get-nonempty a (e ∷ m) h = refl
