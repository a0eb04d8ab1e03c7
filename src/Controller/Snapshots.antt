-- ===== src/Controller/Snapshots.antt =====
-- pkg/controller/control.go: the limits on snapshots, `Snapshot`, and the settings that go to
-- every replica. `order` is the order in which the goroutines take effect, or in which `range`
-- meets the map of backends.
use longhorn_engine.Prelude.{
  ℕ, ◌+◌, String, Bool, true, false, not, Option, none, some, List, [], ◌∷◌, ltb, leb, ◌==◌,
  if◌then◌else◌,
}
use longhorn_engine.Prelude.Dict.{Dict}
use longhorn_engine.Types.{CallError, ReplicaError, errored}
use longhorn_engine.Replicator.{BackendWrapper, is_errored}
use longhorn_engine.Replicator.Backend.{Backend, Heap, ok, fail, SnapshotRequest}
use longhorn_engine.Replicator.Calls
use longhorn_engine.Controller.{
  Replica, World, ControlError, from_backend, message, set_replica_mode,
}
use longhorn_engine.Controller.Errors.{handle_error}

module _ {S : Type 0} (b : Backend S) where
  -- `canDoSnapshot`. The space left is an int64 and can be negative: the sum is compared.
  unfoldable pub can_do_snapshot :
      Dict BackendWrapper → World S → Option (World S × Option ControlError)
  can_do_snapshot order w =
      let c = w.control in
      elim (Calls.get_snapshot_usage b order w.heap) [
        | none ↦ none
        | some (h, fail e) ↦ some (record w { heap = h }, some (message "snapshot usage"))
        | some (h, ok (count, size)) ↦
            if leb c.snapshot_max_count count
            then some (record w { heap = h }, some (message "snapshot count usage is too large"))
            else if c.snapshot_max_size == 0
            then some (record w { heap = h }, none)
            else elim (Calls.get_head_file_size b order h) [
              | none ↦ none
              | some (h', fail e) ↦ some (record w { heap = h' }, some (message "head file size"))
              | some (h', ok head) ↦ some (
                record w { heap = h' },
                if ltb c.snapshot_max_size (head + size)
                    then some (message "snapshot free space is not enough for head file")
                    else none,
              )
            ]
      ]

  module _ (iterate : Dict BackendWrapper → Dict BackendWrapper) (exists : CallError → Bool) where
    -- The end of `Snapshot`, under the lock.
    unfoldable pub snapshot :
        SnapshotRequest → Dict BackendWrapper → World S → Option (World S × Option ControlError)
    snapshot q order w = elim (can_do_snapshot order w) [
      | none ↦ none
      | some (w', some e) ↦ some (w', some e)
      | some (w', none) ↦ elim (Calls.snapshot b q order w'.heap) [
        | none ↦ none
        | some (h, none) ↦ some (record w' { heap = h }, none)
        | some (h, some e) ↦
            handle_error iterate exists b (some (from_backend e)) (record w' { heap = h })
      ]
    ]

    -- The loop of `checkUnmapMarkSnapChainRemoved`, over the replicas as they were; a replica that
    -- the loop marks ERR is not met again.
    unfoldable pub check_unmap_loop :
        Bool → List Replica → Bool → World S → Option (World S × Bool × Option ControlError)
    check_unmap_loop expected [] all_failed w = some (w, all_failed, none)
    check_unmap_loop expected (p ∷ ps) all_failed w = elim (is_errored p.mode) [
      | true ↦ check_unmap_loop expected ps all_failed w
      | false ↦ elim (Calls.get_unmap_mark_removed b p.address w.control.backend w.heap) [
        | none ↦ none
        | some (h, fail e) ↦
            some (record w { heap = h }, all_failed, some (message "cannot get the flag"))
        | some (h, ok enabled) ↦ elim (same enabled expected) [
          | true ↦ check_unmap_loop expected ps false (record w { heap = h })
          | false ↦ elim (Calls.set_unmap_mark_removed b p.address expected w.control.backend h) [
            | none ↦ none
            | some (h', none) ↦ check_unmap_loop expected ps false (record w { heap = h' })
            | some (h', some e) ↦
                elim (set_replica_mode iterate b p.address errored (record w { heap = h' })) [
                  | none ↦ none
                  | some w' ↦ check_unmap_loop expected ps all_failed w'
                ]
          ]
        ]
      ]
    ]
      where
        same : Bool → Bool → Bool
        same true x = x
        same false x = not x

    -- `checkUnmapMarkSnapChainRemoved`
    unfoldable pub check_unmap_mark_removed : World S → Option (World S × Option ControlError)
    unfolding check_unmap_loop
    check_unmap_mark_removed w =
        elim (check_unmap_loop w.control.unmap_mark_removed w.control.replicas true w) [
          | none ↦ none
          | some (w', all_failed, some e) ↦ some (w', some e)
          | some (w', all_failed, none) ↦ some (
            w',
            if all_failed
                then some (message "failed to correct the flag for all replicas")
                else none,
          )
        ]

    -- `SetUnmapMarkSnapChainRemoved`
    unfoldable pub set_unmap_mark_removed : Bool → World S → Option (World S × Option ControlError)
    set_unmap_mark_removed enabled w =
        check_unmap_mark_removed
          (record w { control = record w.control { unmap_mark_removed = enabled } })

  -- A setting sent to every replica that is not ERR, up to the first error.
  unfoldable pub set_each :
      (String → Heap S → Option (Heap S × Option ReplicaError))
      → List Replica
      → World S
      → Option (World S × Option ControlError)
  set_each call [] w = some (w, none)
  set_each call (p ∷ ps) w = elim (is_errored p.mode) [
    | true ↦ set_each call ps w
    | false ↦ elim (call p.address w.heap) [
      | none ↦ none
      | some (h, some e) ↦ some (record w { heap = h }, some (message "failed to set flag"))
      | some (h, none) ↦ set_each call ps (record w { heap = h })
    ]
  ]

  -- `SetSnapshotMaxCount`
  unfoldable pub set_snapshot_max_count :
      ℕ → Dict BackendWrapper → World S → Option (World S × Option ControlError)
  unfolding set_each
  set_snapshot_max_count count order w = elim (Calls.get_snapshot_usage b order w.heap) [
    | none ↦ none
    | some (h, fail e) ↦ some (record w { heap = h }, some (message "snapshot usage"))
    | some (h, ok (used, size)) ↦
        if ltb count used
        then some (record w { heap = h }, some (message "please purge snapshots first"))
        else let w' : World S = record {
          control = record w.control { snapshot_max_count = count };
          heap = h;
        } in
          set_each (λ a g. Calls.set_snapshot_max_count b a count w'.control.backend g)
            w'.control.replicas w'
  ]

  -- `SetSnapshotMaxSize`
  unfoldable pub set_snapshot_max_size :
      ℕ → Dict BackendWrapper → World S → Option (World S × Option ControlError)
  unfolding set_each
  set_snapshot_max_size max_size order w = elim (Calls.get_snapshot_usage b order w.heap) [
    | none ↦ none
    | some (h, fail e) ↦ some (record w { heap = h }, some (message "snapshot usage"))
    | some (h, ok (used, size)) ↦
        if ltb max_size size
        then some (record w { heap = h }, some (message "please purge snapshots first"))
        else let w' : World S = record {
          control = record w.control { snapshot_max_size = max_size };
          heap = h;
        } in
          set_each (λ a g. Calls.set_snapshot_max_size b a max_size w'.control.backend g)
            w'.control.replicas w'
  ]
