-- ===== src/Controller/Replicas.antt =====
-- pkg/controller/control.go: `addReplica` and `addReplicaNoLock`. A backend comes from the factory,
-- as a pointer; nil for an ERR replica.
use longhorn_engine.Prelude.{
  ℕ, String, Bool, true, false, not, Option, none, some, [], ◌∷◌, ◌++◌, ◌&&◌, ◌==◌, if◌then◌else◌,
}
use longhorn_engine.Prelude.Dict.{Dict}
use longhorn_engine.Types.{Mode}
use longhorn_engine.Replicator.{BackendWrapper, add_backend, is_errored, is_empty}
use longhorn_engine.Replicator.Backend.{Backend, Heap, Result, ok, fail, SnapshotRequest}
use longhorn_engine.Replicator.MultiWriter.{update}
use longhorn_engine.Replicator.Calls
use longhorn_engine.Controller.{World, ControlError, from_backend, message, can_add}
use longhorn_engine.Controller.Snapshots.{can_do_snapshot}

module _ (iterate : Dict BackendWrapper → Dict BackendWrapper) {S : Type 0} (b : Backend S) where
  -- The deferred `newBackend.Close()`.
  abbrev close_new : Option ℕ → World S → World S
  close_new none w = w
  close_new (some p) w = record w { heap = update w.heap p (b.close (w.heap p)).0 }

  -- The snapshots that a new replica asks for: on the replicas that are there, then on its own
  -- backend. The second part is the error.
  unfoldable pub add_snapshots :
      SnapshotRequest
      → Dict BackendWrapper
      → Option ℕ
      → World S
      → Option (World S × Option ControlError)
  add_snapshots q order new w =
      let allowed =
        if is_empty w.control.backend.backends then some (w, none) else can_do_snapshot b order w in
      elim allowed [
        | none ↦ none
        | some (w₁, some e) ↦ some (w₁, some e)
        | some (w₁, none) ↦ elim (Calls.snapshot b q order w₁.heap) [
          | none ↦ none
          | some (h, some e) ↦ some (record w₁ { heap = h }, some (from_backend e))
          | some (h, none) ↦ elim new [
            | none ↦ none
            | some p ↦
                let (s, e) = b.snapshot q (h p) in
                some (
                  record w₁ { heap = update h p s },
                  elim e [ none ↦ none | some x ↦ some (message "snapshot") ],
                )
          ]
        ]
      ]

  -- The end of `addReplicaNoLock`.
  unfoldable pub append_replica : String → Option ℕ → Mode → World S → World S
  append_replica address new mode w = record w {
    control = record w.control {
      replicas = w.control.replicas ++ (record { address = address; mode = mode } ∷ []);
      backend = add_backend iterate address new mode w.control.backend;
    };
  }

  -- `addReplicaNoLock`, with the replica that it starts to monitor left to the caller.
  unfoldable pub add_replica_no_lock :
      SnapshotRequest
      → Dict BackendWrapper
      → String
      → Option ℕ
      → Bool
      → Mode
      → World S
      → Option (World S × Option ControlError)
  unfolding add_snapshots append_replica
  add_replica_no_lock q order address new with_snapshot mode w =
      let (allowed, refusal) = can_add address w.control in
      elim allowed [
        | false ↦ elim refusal [ none ↦ some (w, none) | some e ↦ some (close_new new w, some e) ]
        | true ↦
            if with_snapshot && not (is_errored mode)
            then elim (add_snapshots q order new w) [
              | none ↦ none
              | some (w', some e) ↦ some (close_new new w', some e)
              | some (w', none) ↦ some (append_replica address new mode w', none)
            ]
            else some (append_replica address new mode w, none)
      ]

  -- `addReplica`: `create` is the factory's call, `size_of` the `Size` call on the new backend.
  unfoldable pub add_replica :
      (String → Heap S → Heap S × Result ℕ)
      → (ℕ → Heap S → Heap S × Result ℕ)
      → SnapshotRequest
      → Dict BackendWrapper
      → String
      → Bool
      → Mode
      → World S
      → Option (World S × Option ControlError)
  unfolding add_replica_no_lock
  add_replica create size_of q order address with_snapshot mode w =
      let (allowed, refusal) = can_add address w.control in
      let (h, created) = create address w.heap in
      elim allowed [
        | false ↦ some (w, refusal)
        | true ↦ elim created [
          | fail e ↦ some (record w { heap = h }, some (message "factory"))
          | ok p ↦
              let (h', sized) = size_of p h in
              elim sized [
                | fail e ↦ some (record w { heap = h' }, some (message "failed to get the size"))
                | ok size ↦
                    let c = w.control in
                    let first = c.size == 0 && is_empty c.replicas in
                    add_replica_no_lock q order address (some p) with_snapshot mode (record {
                      control = if first then record c { size = size } else c;
                      heap = h';
                    })
              ]
        ]
      ]
