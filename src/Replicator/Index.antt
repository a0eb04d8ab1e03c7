-- ===== src/Replicator/Index.antt =====
-- What holds of the replicator between two calls: the index maps name the backends behind the
-- writers, the unmappers and the readers.
use longhorn_engine.Prelude.{
  ℕ, String, Bool, true, not, Option, none, some, List, [], ◌∷◌, ◌≡◌, refl, arith, get_elem?,
  length, Bool-cases, Option-cases, inl, inr, ◌↔◌, if◌then◌else◌, str_eq, str_eq_iff,
}
use longhorn_engine.Prelude.Dict
use longhorn_engine.Prelude.Dict.{Dict, IsMap}
use longhorn_engine.Types.{Mode}
use longhorn_engine.Replicator.{
  BackendWrapper, Replicator, empty_replicator, is_read_write, is_empty, rebuild, add_backend,
  set_mode, remove_backend,
}
use longhorn_engine.Replicator.Build.{
  writable, select, addresses, objects, build-IsBuilt, select-IsMap, get-select,
  get_elem?-addresses, addresses-get_elem?, length-addresses, objects-get_elem?, get-nonempty,
}

-- A `range` over a map meets each entry once.
abbrev pub Visits : (Dict BackendWrapper → Dict BackendWrapper) → Type 0
Visits iterate =
    (es : Dict BackendWrapper)
    → IsMap es
    → IsMap (iterate es) × ((k : String) → Dict.get k (iterate es) ≡ Dict.get k es)

-- An index map and its slice: the address at a place is that of a backend whose mode passes the
-- test, the object at that place is that backend, and every such backend has a place.
pub record Indexes (p : Mode → Bool) (m : Dict BackendWrapper) (index : List String)
    (objs : List (Option ℕ)) : Type 0 where
  pub lengths : length index ≡ length objs
  pub distinct :
      (i j : ℕ) (a : String) → get_elem? index i ≡ some a → get_elem? index j ≡ some a → i ≡ j
  pub named :
      (i : ℕ) (a : String)
      → get_elem? index i ≡ some a
      → (w : BackendWrapper) × (Dict.get a m ≡ some w)
        × (p w.mode ≡ true)
        × (get_elem? objs i ≡ some w.backend)
  pub placed :
      (a : String) (w : BackendWrapper)
      → Dict.get a m ≡ some w
      → p w.mode ≡ true
      → (i : ℕ) × (get_elem? index i ≡ some a) × (get_elem? objs i ≡ some w.backend)

pub record IsConsistent (r : Replicator) : Type 0 where
  pub keys : IsMap r.backends
  pub writes : Indexes writable r.backends r.writer_index r.writers
  pub unmaps : Indexes writable r.backends r.unmapper_index r.unmappers
  pub reads : Indexes is_read_write r.backends r.reader_index r.readers
  pub available : (r.backends_available ≡ true) ↔ (
      (a : String) × (w : BackendWrapper) × (Dict.get a r.backends ≡ some w)
      × (is_read_write w.mode ≡ true))

select-Indexes :
    (p : Mode → Bool) (m order : Dict BackendWrapper)
    → IsMap order
    → ((k : String) → Dict.get k order ≡ Dict.get k m)
    → Indexes p m (addresses (select p order)) (objects (select p order))
select-Indexes p m order u same = record {
  lengths = length-addresses (select p order);
  distinct = λ i j a h g.
      let (v, e, o) = get_elem?-addresses (select p order) i a h in
      let (w, e', o') = get_elem?-addresses (select p order) j a g in
      Dict.get_elem?-distinct (select p order) i j a v w (select-IsMap p order u) e e';
  named = λ i a h.
      let (w, e, o) = get_elem?-addresses (select p order) i a h in
      let g = Dict.get-get_elem? a (select p order) i (select-IsMap p order u) e in
      let k = get-select a p order u in let q = same a in (w, ground arith, ground arith, o);
  placed = λ a w g h.
      let (i, e) =
        Dict.get-place a (select p order) (ground (arith, get-select a p order u, same a)) in
      (i, addresses-get_elem? (select p order) i a w e, objects-get_elem? (select p order) i a w e);
}

select-available :
    (p : Mode → Bool) (m order : Dict BackendWrapper)
    → IsMap order
    → ((k : String) → Dict.get k order ≡ Dict.get k m)
    → (not (is_empty (select p order)) ≡ true)
      ↔ ((a : String) × (w : BackendWrapper) × (Dict.get a m ≡ some w) × (p w.mode ≡ true))
select-available p m order u same = (
  there (select p order) refl,
  λ t.
      get-nonempty t.0 {w = t.1} (select p order)
        (ground (arith, get-select t.0 p order u, same t.0)),
)
  where
    there :
        (s : Dict BackendWrapper)
        → select p order ≡ s
        → not (is_empty s) ≡ true
        → (a : String) × (w : BackendWrapper) × (Dict.get a m ≡ some w) × (p w.mode ≡ true)
    there [] e h = cc
    there ((a, w) ∷ s) e h =
        let here : get_elem? (select p order) 0 ≡ some (a, w) = rw e in
        let g = Dict.get-get_elem? a (select p order) 0 (select-IsMap p order u) here in
        let k = get-select a p order u in let q = same a in (a, w, ground arith, ground arith)

module _ (iterate : Dict BackendWrapper → Dict BackendWrapper) (visits : Visits iterate) where
  rebuild-IsConsistent :
      (entries : Dict BackendWrapper) (r : Replicator)
      → IsMap entries
      → IsConsistent (rebuild iterate entries r)
  rebuild-IsConsistent entries r u =
      let order = iterate entries in
      let (v, same) = visits entries u in
      let (t, kept, next) = build-IsBuilt order (record r { backends = entries }) in
      let w = select-Indexes writable entries order v same in
      record {
        keys = rw kept u;
        writes = rw (kept, t.writer_index, t.writers) w;
        unmaps = rw (kept, t.unmapper_index, t.unmappers) w;
        reads =
            rw (kept, t.reader_index, t.readers)
              (select-Indexes is_read_write entries order v same);
        available = rw (kept, t.available) (select-available is_read_write entries order v same);
      }

  -- Adding a backend, setting a mode and removing a backend keep the replicator consistent, in
  -- whatever order Go ranges over the map: each index map names the backend behind each writer,
  -- unmapper and reader, none twice; those are all the backends that are not ERR, or RW for readers;
  -- and backends are available exactly if some backend is RW.
  pub change-IsConsistent :
      (address : String) (backend : Option ℕ) (mode : Mode) (r : Replicator)
      → IsConsistent r
      → IsConsistent (add_backend iterate address backend mode r)
        × IsConsistent (set_mode iterate address mode r)
        × IsConsistent (remove_backend iterate address r)
  unfolding add_backend set_mode remove_backend
  change-IsConsistent address backend mode r c = (
    elim (Bool-cases (Dict.has address r.backends)) [
      | inl old ↦ rw old c
      | inr new ↦ rw new (rebuild-IsConsistent _ r (Dict.put-IsMap address _ r.backends c.keys))
    ],
    elim (Option-cases (Dict.get address r.backends)) [
      | inl gone ↦ rw (gone, set_mode) c
      | inr (w, here) ↦
          rw (here, set_mode)
            (rebuild-IsConsistent _ r (Dict.put-IsMap address _ r.backends c.keys))
    ],
    elim (Option-cases (Dict.get address r.backends)) [
      | inl gone ↦ rw (gone, remove_backend) c
      | inr (w, here) ↦
          rw (here, remove_backend)
            (rebuild-IsConsistent _ r (Dict.delete-IsMap address r.backends c.keys))
    ],
  )

pub empty_replicator-IsConsistent : IsConsistent empty_replicator
unfolding Dict.get
empty_replicator-IsConsistent = record {
  keys = tt;
  writes = no_backends;
  unmaps = no_backends;
  reads = no_backends;
  available = ((λ h. cc), λ t. cc);
}
  where
    no_backends : {p : Mode → Bool} → Indexes p [] [] []
    no_backends = record {
      lengths = refl;
      distinct = λ i j a h. cc;
      named = λ i a h. cc;
      placed = λ a w h k. cc;
    }

-- The entry of an address after each of the three changes.
pub record MapsTo (iterate : Dict BackendWrapper → Dict BackendWrapper) (address : String)
    (backend : Option ℕ) (mode : Mode) (r : Replicator) (a : String) : Type 0 where
  pub added :
      Dict.get a (add_backend iterate address backend mode r).backends
      ≡ elim (Dict.get a r.backends) [
        | some w ↦ some w
        | none ↦ if str_eq address a then some (record { backend = backend; mode = mode }) else none
      ]
  pub moded : Dict.get a (set_mode iterate address mode r).backends ≡ elim (Dict.get a r.backends) [
    | none ↦ none
    | some w ↦ some (if str_eq address a then record w { mode = mode } else w)
  ]
  pub removed :
      Dict.get a (remove_backend iterate address r).backends
      ≡ (if str_eq address a then none else Dict.get a r.backends)

rebuild-backends :
    (iterate : Dict BackendWrapper → Dict BackendWrapper) (entries : Dict BackendWrapper)
    (r : Replicator)
    → (rebuild iterate entries r).backends ≡ entries
rebuild-backends iterate entries r =
    (build-IsBuilt (iterate entries) (record r { backends = entries })).1

-- Whatever the order in which Go ranges over the map: `AddBackend` enters a new address with its
-- backend and mode and leaves an address that is there; `SetMode` changes the mode of its own address
-- alone and adds none; `RemoveBackend` takes away its own address alone.
pub changes-MapsTo :
    (iterate : Dict BackendWrapper → Dict BackendWrapper) (address : String) (backend : Option ℕ)
    (mode : Mode) (r : Replicator) (a : String)
    → IsMap r.backends
    → MapsTo iterate address backend mode r a
unfolding add_backend set_mode remove_backend
changes-MapsTo iterate address backend mode r a u = record {
  added = ground (
    arith,
    rebuild-backends iterate (Dict.put address new r.backends) r,
    Dict.get-put address a new r.backends,
    Dict.has-eq-get address r.backends,
    str_eq_iff address a,
  );
  moded = elim (Option-cases (Dict.get address r.backends)) [
    | inl gone ↦ ground (arith, gone, str_eq_iff address a)
    | inr (w, here) ↦ ground (
      arith,
      here,
      rebuild-backends iterate (Dict.put address (record w { mode = mode }) r.backends) r,
      Dict.get-put address a (record w { mode = mode }) r.backends,
      str_eq_iff address a,
    )
  ];
  removed = ground (
    arith,
    rebuild-backends iterate (Dict.delete address r.backends) r,
    Dict.get-delete address a r.backends u,
    str_eq_iff address a,
  );
}
  where
    new : BackendWrapper
    new = record { backend = backend; mode = mode }
