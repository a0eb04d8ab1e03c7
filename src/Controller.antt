-- ===== src/Controller.antt =====
-- pkg/controller/control.go: the controller of a volume. This file has its state, the list of
-- replicas and the changes of modes; the children have the I/O, the errors, the expansion and the
-- limits on snapshots.
--
-- The lock of the controller makes each operation one step. `none` in place of a result is a panic.
-- The heap holds the backend objects; the calls on them go through it.
pub mod Errors
pub mod Io
pub mod Expansion
pub mod Snapshots
pub mod Salvage
pub mod Best
pub mod Modes
pub mod Handled
pub mod Replicas
pub mod Removal
pub mod Addition
pub mod Rebuild
pub mod Acknowledged
use longhorn_engine.Prelude.{
  ℕ, String, Bool, true, false, not, Option, none, some, List, [], ◌∷◌, ◌++◌, ◌&&◌, ◌==◌, length,
  if◌then◌else◌, str_eq,
}
use longhorn_engine.Prelude.Dict
use longhorn_engine.Prelude.Dict.{Dict}
use longhorn_engine.Types.{Mode, write_only, read_write, errored, CallError}
use longhorn_engine.Replicator.{
  BackendWrapper, Replicator, empty_replicator, is_errored, is_write_only, is_read_write, set_mode,
  set_mode_stops, add_backend, remove_backend, remove_backend_stops,
}
use longhorn_engine.Replicator.Backend.{Backend, Heap}
use longhorn_engine.Replicator.MultiWriter.{update}
use longhorn_engine.Replicator.Io.{IoError}

-- types.Replica (pkg/types/types.go).
pub record Replica : Type 0 where
  pub address : String
  pub mode : Mode

-- `Controller`, without its servers, metrics and timeouts. A size is 0 or more. `frontend_up` is
-- whether there is a frontend whose state is up.
pub record Controller : Type 0 where
  pub size : ℕ
  pub replicas : List Replica
  pub backend : Replicator
  pub is_expanding : Bool
  pub revision_counter_disabled : Bool
  pub frontend_up : Bool
  pub unmap_mark_removed : Bool
  pub snapshot_max_count : ℕ
  pub snapshot_max_size : ℕ
  pub last_expansion_failed_at : String
  pub last_expansion_error : String

-- An error that the controller returns: one of the backend, or another with a text.
pub data ControlError : Type 0 where
  from_backend : IoError → ControlError
  message : String → ControlError

-- The controller with the backend objects.
pub record World (S : Type 0) : Type 0 where
  pub control : Controller
  pub heap : Heap S

-- `hasReplica`
unfoldable pub has_replica : String → List Replica → Bool
has_replica address [] = false
has_replica address (p ∷ ps) = if str_eq p.address address then true else has_replica address ps

-- `hasWOReplica`
unfoldable pub has_wo_replica : List Replica → Bool
has_wo_replica [] = false
has_wo_replica (p ∷ ps) = if is_write_only p.mode then true else has_wo_replica ps

-- Whether a replica of mode RW is left.
unfoldable pub has_rw_replica : List Replica → Bool
has_rw_replica [] = false
has_rw_replica (p ∷ ps) = if is_read_write p.mode then true else has_rw_replica ps

-- `canAdd`
unfoldable pub can_add : String → Controller → Bool × Option ControlError
unfolding has_replica has_wo_replica
can_add address c =
    if has_replica address c.replicas
    then (false, none)
    else if has_wo_replica c.replicas
    then (false, some (message "can only have one WO replica at a time"))
    else if c.is_expanding
    then (false, some (message "cannot add WO replica during expansion"))
    else (true, none)

-- `reset`
unfoldable pub reset : Controller → Controller
reset c = record c { replicas = []; backend = empty_replicator }

module _ {S : Type 0} (b : Backend S) where
  -- `StopMonitoring` of each object in turn.
  unfoldable pub stop_all : List ℕ → Heap S → Heap S
  stop_all [] h = h
  stop_all (p ∷ ps) h = stop_all ps (update h p (b.stop_monitoring (h p)))

  -- `StopMonitoring` and `Close` of each object.
  unfoldable pub close_all : List ℕ → Heap S → Heap S
  close_all [] h = h
  close_all (p ∷ ps) h = close_all ps (update h p (b.close (b.stop_monitoring (h p))).0)

module _ (iterate : Dict BackendWrapper → Dict BackendWrapper) where
  -- The loop of `setReplicaModeNoLock`: the replicas, the replicator and the objects whose
  -- monitoring stops.
  unfoldable pub set_modes :
      String → Mode → List Replica → Replicator → Option (List Replica × Replicator × List ℕ)
  set_modes address mode [] r = some ([], r, [])
  set_modes address mode (p ∷ ps) r =
      let hit = str_eq p.address address && not (is_errored p.mode) in
      let stops = if hit then set_mode_stops address mode r else some [] in
      let rest = set_modes address mode ps (if hit then set_mode iterate address mode r else r) in
      elim stops [
        | none ↦ none
        | some xs ↦ elim rest [
          | none ↦ none
          | some (ps', r', ys) ↦
              some ((if hit then record p { mode = mode } else p) ∷ ps', r', xs ++ ys)
        ]
      ]

  module _ {S : Type 0} (b : Backend S) where
    -- `setReplicaModeNoLock`
    unfoldable pub set_replica_mode : String → Mode → World S → Option (World S)
    unfolding stop_all
    set_replica_mode address mode w =
        elim (set_modes address mode w.control.replicas w.control.backend) [
          | none ↦ none
          | some (ps, r, stopped) ↦ some (record {
            control = record w.control { replicas = ps; backend = r };
            heap = stop_all b stopped w.heap;
          })
        ]

    -- `SetReplicaMode`
    unfoldable pub set_mode_of : String → Mode → World S → Option (World S × Option ControlError)
    set_mode_of address mode w =
        if is_write_only mode
        then some (w, some (message "cannot set to mode"))
        else elim (set_replica_mode address mode w) [ none ↦ none | some w' ↦ some (w', none) ]

    -- The loop of `RemoveReplica` ends in effect at the replica it removes: the addresses are
    -- distinct.
    unfoldable pub drop_replica : String → List Replica → List Replica
    drop_replica address [] = []
    drop_replica address (p ∷ ps) =
        if str_eq p.address address then ps else p ∷ drop_replica address ps

    -- `RemoveReplica`
    unfoldable pub remove_replica : String → World S → World S × Option ControlError
    unfolding has_replica drop_replica close_all
    remove_replica address w =
        let c = w.control in
        if not (has_replica address c.replicas)
        then (w, none)
        else if length c.replicas == 1 && c.frontend_up
        then (w, some (message "cannot remove last replica if volume is up"))
        else (
          record {
            control = record c {
              replicas = drop_replica address c.replicas;
              backend = remove_backend iterate address c.backend;
            };
            heap = close_all b (remove_backend_stops address c.backend) w.heap;
          },
          none,
        )
