-- ===== src/Tests/Replicas.antt =====
-- The theorems on the replicator and the controller, with two replicas of which one is broken.
use longhorn_engine.Prelude.{
  ℕ, zero, suc, ◌==◌, ◌<◌, String, Bool, true, false, Option, none, some, List, [], ◌∷◌, ◌≡◌, ◌≢◌,
  refl, arith, get_elem?, str_eq, if◌then◌else◌, ◌↔◌, get_or,
}
use longhorn_engine.Prelude.Dict
use longhorn_engine.Prelude.Dict.{Dict, IsMap}
use longhorn_engine.Types.{read_write, errored, CallError, ReplicaError, one, plain, multi_unmapper}
use longhorn_engine.Replicator.{
  BackendWrapper, empty_replicator, build, build_loop, build_entry, reset, add_backend, set_mode,
  remove_backend,
}
use longhorn_engine.Replicator.Backend.{Heap}
use longhorn_engine.Replicator.Build.{IsBuilt, build-IsBuilt}
use longhorn_engine.Replicator.Index.{
  Visits, IsConsistent, MapsTo, change-IsConsistent, changes-MapsTo,
}
use longhorn_engine.Replicator.Fanout.{IsDistinct, holds}
use longhorn_engine.Replicator.Io
use longhorn_engine.Replicator.Io.{IoError, backend_error, deref}
use longhorn_engine.Replicator.Attribution.{
  Schedules, error_at, as_entry, write_at-names_failures, unmap_at-blames_first,
}
use longhorn_engine.Controller.{
  Controller, World, ControlError, from_backend, has_replica, has_wo_replica, remove_replica,
  set_replica_mode,
}
use longhorn_engine.Controller
use longhorn_engine.Controller.Errors.{handle_error, any_exists}
use longhorn_engine.Controller.Modes.{modes, IsSynced, mark, set_replica_mode-IsSynced}
use longhorn_engine.Controller.Handled.{mode_after, handle_error-marks}
use longhorn_engine.Controller.Replicas.{append_replica}
use longhorn_engine.Controller.Addition.{append_replica-IsSynced, reset-IsSynced}
use longhorn_engine.Controller.Removal.{remove_replica-IsSynced}
use longhorn_engine.Controller.Acknowledged.{Answered, write_at-Answered}
use longhorn_engine.Tests.{Node, node}

abbrev in_order : Dict BackendWrapper → Dict BackendWrapper
in_order es = es

in_order-Visits : Visits in_order
in_order-Visits es u = (u, λ k. refl)

abbrev never : CallError → Bool
never e = false

abbrev base : Controller
base = record {
  size = 8;
  replicas = [];
  backend = empty_replicator;
  is_expanding = false;
  revision_counter_disabled = false;
  frontend_up = false;
  unmap_mark_removed = false;
  snapshot_max_count = 10;
  snapshot_max_size = 0;
  last_expansion_failed_at = "";
  last_expansion_error = "";
}

-- The object 1 is broken.
abbrev no_replicas : World Node
no_replicas = record { control = Controller.reset base; heap = λ p. (p == 1, 0) }

abbrev one_replica : World Node
one_replica = append_replica in_order node "a" (some 0) read_write no_replicas

abbrev two_replicas : World Node
two_replicas = append_replica in_order node "b" (some 1) read_write one_replica

one_replica-IsSynced : IsSynced one_replica.control
unfolding has_replica Controller.reset
one_replica-IsSynced =
    (append_replica-IsSynced in_order in_order-Visits node "a" (some 0) read_write no_replicas
      (reset-IsSynced base) refl (λ _. (0, refl))).0

b_fresh : has_replica "b" one_replica.control.replicas ≡ false
unfolding has_replica append_replica Controller.reset
b_fresh = refl

two_replicas-IsSynced : IsSynced two_replicas.control
two_replicas-IsSynced =
    (append_replica-IsSynced in_order in_order-Visits node "b" (some 1) read_write one_replica
      one_replica-IsSynced b_fresh (λ _. (1, refl))).0

append_replica-IsSynced_example :
    IsSynced two_replicas.control
    × ((a : String)
        → Dict.get a (modes two_replicas.control.replicas) ≡ (
            if str_eq "b" a
            then some read_write
            else Dict.get a (modes one_replica.control.replicas)))
append_replica-IsSynced_example =
    append_replica-IsSynced in_order in_order-Visits node "b" (some 1) read_write one_replica
      one_replica-IsSynced b_fresh (λ _. (1, refl))

two_writers : deref two_replicas.control.backend.writers ≡ some (0 ∷ 1 ∷ [])
unfolding deref append_replica Controller.reset add_backend build build_loop build_entry reset
    Dict.has Dict.put
two_writers = refl

two_unmappers : deref two_replicas.control.backend.unmappers ≡ some (0 ∷ 1 ∷ [])
unfolding deref append_replica Controller.reset add_backend build build_loop build_entry reset
    Dict.has Dict.put
two_unmappers = refl

two_up : two_replicas.control.backend.backends_available ≡ true
unfolding append_replica Controller.reset add_backend build build_loop build_entry reset Dict.has
    Dict.put
two_up = refl

both : Schedules (1 ∷ 0 ∷ []) (0 ∷ 1 ∷ [])
both = (ground arith, reached)
  where
    reached : (i : ℕ) → i < 2 → holds i (1 ∷ 0 ∷ []) ≡ true
    reached zero h = refl
    reached (suc zero) h = refl
    reached (suc (suc i)) h = absurd (omega arith)

apart : IsDistinct (0 ∷ 1 ∷ [])
apart zero zero p h k = refl
apart zero (suc zero) p h k = ground (arith, h, k)
apart zero (suc (suc j)) p h k = cc
apart (suc zero) zero p h k = ground (arith, h, k)
apart (suc zero) (suc zero) p h k = refl
apart (suc zero) (suc (suc j)) p h k = cc
apart (suc (suc i)) j p h k = cc

write_at-Answered_example :
    Answered in_order in_order-Visits never node
      (7 ∷ 7 ∷ [])
      0
      (1 ∷ 0 ∷ [])
      (0 ∷ 1 ∷ [])
      two_replicas
unfolding has_wo_replica append_replica Controller.reset
write_at-Answered_example =
    write_at-Answered in_order in_order-Visits never node (7 ∷ 7 ∷ []) 0 (1 ∷ 0 ∷ []) (0 ∷ 1 ∷ [])
      two_replicas two_replicas-IsSynced two_up refl refl (λ s x h. refl) two_writers apart both

write_at-names_failures_example :
    (h' : Heap Node) × (n : ℕ) × (e : Option IoError) × (Io.write_at node
        (7 ∷ 7 ∷ [])
        0
        (1 ∷ 0 ∷ [])
        two_replicas.control.backend
        two_replicas.heap
      ≡ some (h', n, e))
    × ((a : String) (i p : ℕ)
        → get_elem? two_replicas.control.backend.writer_index i ≡ some a
        → get_elem? (0 ∷ 1 ∷ []) i ≡ some p
        → (h' p ≡ (node.write_at (7 ∷ 7 ∷ []) 0 (two_replicas.heap p)).0)
          × (error_at a e ≡ as_entry (node.write_at (7 ∷ 7 ∷ []) 0 (two_replicas.heap p)).2))
    × ((a : String)
        → ((i : ℕ) → get_elem? two_replicas.control.backend.writer_index i ≢ some a)
        → error_at a e ≡ none)
    × ((e ≡ none) ↔ (
        (i p : ℕ)
        → get_elem? (0 ∷ 1 ∷ []) i ≡ some p
        → (node.write_at (7 ∷ 7 ∷ []) 0 (two_replicas.heap p)).2 ≡ none))
write_at-names_failures_example =
    write_at-names_failures node 0 (1 ∷ 0 ∷ []) two_replicas.control.backend two_replicas.heap
      two_replicas-IsSynced.consistent two_up (7 ∷ 7 ∷ []) (0 ∷ 1 ∷ []) two_writers apart both

second_unmapper : get_elem? {A = ℕ} (0 ∷ 1 ∷ []) 1 ≡ some 1
second_unmapper = refl

unmap_at-blames_first_example :
    (h' : Heap Node) × (n : ℕ) × (errs : List (Option ReplicaError)) × (Io.unmap_at node 8 0
        (1 ∷ 0 ∷ [])
        two_replicas.control.backend
        two_replicas.heap
      ≡ some (
        h',
        n,
        some (
            backend_error (
              (get_or two_replicas.control.backend.unmapper_index 0 "", multi_unmapper errs) ∷ [])),
      ))
    × (get_elem? errs 1 ≡ some (some (plain "broken")))
unfolding append_replica Controller.reset
unmap_at-blames_first_example =
    unmap_at-blames_first node 0 (1 ∷ 0 ∷ []) two_replicas.control.backend two_replicas.heap
      two_replicas-IsSynced.consistent two_up 8 (0 ∷ 1 ∷ []) two_unmappers apart both 1 1
      (plain "broken") second_unmapper refl

change-IsConsistent_example :
    IsConsistent (add_backend in_order "c" (some 2) errored two_replicas.control.backend)
    × IsConsistent (set_mode in_order "c" errored two_replicas.control.backend)
    × IsConsistent (remove_backend in_order "c" two_replicas.control.backend)
change-IsConsistent_example =
    change-IsConsistent in_order in_order-Visits "c" (some 2) errored two_replicas.control.backend
      two_replicas-IsSynced.consistent

changes-MapsTo_example : MapsTo in_order "b" (some 2) errored two_replicas.control.backend "a"
changes-MapsTo_example =
    changes-MapsTo in_order "b" (some 2) errored two_replicas.control.backend "a"
      two_replicas-IsSynced.consistent.keys

build-IsBuilt_example :
    IsBuilt
      (("a", record { backend = some 0; mode = errored }) ∷ [])
      (build (("a", record { backend = some 0; mode = errored }) ∷ []) empty_replicator)
    × ((build (("a", record { backend = some 0; mode = errored }) ∷ []) empty_replicator).backends
        ≡ empty_replicator.backends)
    × ((build (("a", record { backend = some 0; mode = errored }) ∷ []) empty_replicator).next
        ≡ empty_replicator.next)
build-IsBuilt_example =
    build-IsBuilt (("a", record { backend = some 0; mode = errored }) ∷ []) empty_replicator

abbrev b_failed : String × CallError
b_failed = ("b", one (plain "broken"))

handle_error-marks_example :
    (w' : World Node) × (e' : Option ControlError) × (handle_error in_order never node
        (some (from_backend (backend_error (b_failed ∷ []))))
        two_replicas
      ≡ some (w', e'))
    × IsSynced w'.control
    × ((a : String)
        → Dict.get a (modes w'.control.replicas)
          ≡ mode_after never a (b_failed ∷ []) (Dict.get a (modes two_replicas.control.replicas)))
    × ((e' ≡ none) ↔ (
        (any_exists in_order never node (b_failed ∷ []) ≡ false)
        × ((a : String) × (Dict.get a (modes w'.control.replicas) ≡ some read_write))))
handle_error-marks_example =
    handle_error-marks never in_order in_order-Visits node [] two_replicas b_failed
      two_replicas-IsSynced

set_replica_mode-IsSynced_example :
    (w' : World Node) × (set_replica_mode in_order node "a" errored two_replicas ≡ some w')
    × IsSynced w'.control
    × (w'.control.replicas ≡ mark "a" errored two_replicas.control.replicas)
set_replica_mode-IsSynced_example =
    set_replica_mode-IsSynced in_order in_order-Visits "a" errored node two_replicas
      two_replicas-IsSynced

remove_replica-IsSynced_example :
    let (w', e) = remove_replica in_order node "a" two_replicas in
    IsSynced w'.control
    × (e ≡ none
        → (a : String)
        → Dict.get a (modes w'.control.replicas)
          ≡ (if str_eq "a" a then none else Dict.get a (modes two_replicas.control.replicas)))
    × ((x : ControlError) → e ≡ some x → w' ≡ two_replicas)
remove_replica-IsSynced_example =
    remove_replica-IsSynced in_order in_order-Visits node "a" two_replicas two_replicas-IsSynced
