-- ===== src/Replicator.antt =====
-- pkg/controller/replicator.go: the set of backends that a controller writes to and reads from.
-- This file has its state and the calls that change the set; the children have the calls that go
-- out to the replicas.
--
-- A backend object is a pointer, a number; the state of the objects is a heap, a function from
-- pointers. `none` in place of a whole result is a panic of the process (a call on a nil backend).
-- A Go map is a list of entries in the order in which `range` meets them; `build` takes that order
-- as an argument, since Go chooses it anew at each call.
pub mod Backend
pub mod MultiWriter
pub mod MultiUnmapper
pub mod Io
pub mod Build
pub mod Index
pub mod Fanout
pub mod UnmapFanout
pub mod Attribution
pub mod Calls
use longhorn_engine.Prelude.{
  ℕ, String, Bool, true, false, not, Option, none, some, List, [], ◌∷◌, ◌++◌, if◌then◌else◌,
}
use longhorn_engine.Prelude.Dict
use longhorn_engine.Prelude.Dict.{Dict}
use longhorn_engine.Types.{Mode, write_only, read_write, errored}

-- `backendWrapper`. The backend of an ERR replica may be nil.
pub record BackendWrapper : Type 0 where
  pub backend : Option ℕ
  pub mode : Mode

-- `replicator`. The index maps have the keys 0, 1, ... in the order in which they are filled: lists.
-- `writers` and `unmappers` are the fields of the `MultiWriterAt` and `MultiUnmapperAt`.
pub record Replicator : Type 0 where
  pub backends_available : Bool
  pub backends : Dict BackendWrapper
  pub writer_index : List String
  pub reader_index : List String
  pub unmapper_index : List String
  pub readers : List (Option ℕ)
  pub writers : List (Option ℕ)
  pub unmappers : List (Option ℕ)
  pub next : ℕ

-- `&replicator{}`
abbrev pub empty_replicator : Replicator
empty_replicator = record {
  backends_available = false;
  backends = [];
  writer_index = [];
  reader_index = [];
  unmapper_index = [];
  readers = [];
  writers = [];
  unmappers = [];
  next = 0;
}

-- `reset`. A nil map reads as an empty one. `readers` and `next` stay.
unfoldable pub reset : Bool → Replicator → Replicator
reset full r =
    let t = record r {
      backends_available = false;
      writers = [];
      unmappers = [];
      writer_index = [];
      reader_index = [];
      unmapper_index = [];
    } in
    if full then record t { backends = [] } else t

-- The tests `mode != ERR` and `mode == RW`.
abbrev pub is_errored : Mode → Bool
is_errored errored = true
is_errored _ = false

abbrev pub is_read_write : Mode → Bool
is_read_write read_write = true
is_read_write _ = false

abbrev pub is_write_only : Mode → Bool
is_write_only write_only = true
is_write_only _ = false

-- One round of the loop of `buildReaderWriterUnmappers`, at an entry of the map.
unfoldable pub build_entry : String → BackendWrapper → Replicator → Replicator
build_entry address b r =
    let r' = if is_errored b.mode then r else record r {
      writer_index = r.writer_index ++ (address ∷ []);
      writers = r.writers ++ (b.backend ∷ []);
      unmapper_index = r.unmapper_index ++ (address ∷ []);
      unmappers = r.unmappers ++ (b.backend ∷ []);
    } in
    if is_read_write b.mode
    then record r' {
      reader_index = r'.reader_index ++ (address ∷ []);
      readers = r'.readers ++ (b.backend ∷ []);
    }
    else r'

unfoldable pub build_loop : Dict BackendWrapper → Replicator → Replicator
build_loop [] r = r
build_loop ((address, b) ∷ order) r = build_loop order (build_entry address b r)

abbrev pub is_empty {ℓ} : {A : Type ℓ} → List A → Bool
is_empty [] = true
is_empty (_ ∷ _) = false

-- `buildReaderWriterUnmappers`; `order` is the order in which the map's entries are met.
unfoldable pub build : Dict BackendWrapper → Replicator → Replicator
unfolding reset build_loop build_entry
build order r =
    let built = build_loop order (record (reset false r) { readers = [] }) in
    if is_empty built.readers then built else record built { backends_available = true }

-- `iterate` gives the order in which Go ranges over a map.
module _ (iterate : Dict BackendWrapper → Dict BackendWrapper) where
  abbrev pub rebuild : Dict BackendWrapper → Replicator → Replicator
  rebuild entries r = build (iterate entries) (record r { backends = entries })

  -- `AddBackend`
  unfoldable pub add_backend : String → Option ℕ → Mode → Replicator → Replicator
  add_backend address backend mode r =
      if Dict.has address r.backends
      then r
      else rebuild (Dict.put address (record { backend = backend; mode = mode }) r.backends) r

  -- `SetMode`, without the backend's `StopMonitoring`: that call is in `set_mode_stops`.
  unfoldable pub set_mode : String → Mode → Replicator → Replicator
  set_mode address mode r = elim (Dict.get address r.backends) [
    | none ↦ r
    | some b ↦ rebuild (Dict.put address (record b { mode = mode }) r.backends) r
  ]

  -- `RemoveBackend`, without the calls on the backend, which are in `remove_backend_stops`.
  unfoldable pub remove_backend : String → Replicator → Replicator
  remove_backend address r = elim (Dict.get address r.backends) [
    | none ↦ r
    | some b ↦ rebuild (Dict.delete address r.backends) r
  ]

-- The backend whose `StopMonitoring` `SetMode` calls; a nil one is a panic.
unfoldable pub set_mode_stops : String → Mode → Replicator → Option (List ℕ)
set_mode_stops address mode r = elim (Dict.get address r.backends) [
  | none ↦ some []
  | some b ↦
      if not (is_errored mode)
      then some []
      else elim b.backend [ none ↦ none | some p ↦ some (p ∷ []) ]
]

-- The backend that `RemoveBackend` stops and closes: none if it is nil or not there.
unfoldable pub remove_backend_stops : String → Replicator → List ℕ
remove_backend_stops address r = elim (Dict.get address r.backends) [
  | none ↦ []
  | some b ↦ elim b.backend [ none ↦ [] | some p ↦ p ∷ [] ]
]
