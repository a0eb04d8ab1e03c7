-- ===== src/Controller/Errors.antt =====
-- pkg/controller/control.go: `handleErrorNoLock`, what the controller does with an error of its
-- backend.
use longhorn_engine.Prelude.{
  Bool, true, false, Option, none, some, [], ◌∷◌, ◌||◌, not, if◌then◌else◌,
}
use longhorn_engine.Prelude.Dict.{Dict}
use longhorn_engine.Types.{errored, CallError}
use longhorn_engine.Replicator.{BackendWrapper}
use longhorn_engine.Replicator.Backend.{Backend}
use longhorn_engine.Replicator.Io.{backend_error}
use longhorn_engine.Controller.{World, ControlError, from_backend, set_replica_mode, has_rw_replica}

-- `exists` is `isSnapshotDiskExist`, a regular expression on the text of an error.
module _ (iterate : Dict BackendWrapper → Dict BackendWrapper) (exists : CallError → Bool)
    {S : Type 0} (b : Backend S) where
  -- The loop over the errors of a `*BackendError`.
  unfoldable pub mark_failed : Dict CallError → World S → Option (World S)
  mark_failed [] w = some w
  mark_failed ((address, e) ∷ es) w = elim (exists e) [
    | true ↦ mark_failed es w
    | false ↦ elim (set_replica_mode iterate b address errored w) [
      | none ↦ none
      | some w' ↦ mark_failed es w'
    ]
  ]

  -- Whether some error says that the snapshot exists: `snapshotExistList` is not empty.
  unfoldable pub any_exists : Dict CallError → Bool
  any_exists [] = false
  any_exists ((address, e) ∷ es) = exists e || any_exists es

  -- `handleErrorNoLock`
  unfoldable pub handle_error :
      Option ControlError → World S → Option (World S × Option ControlError)
  unfolding mark_failed any_exists
  handle_error (some (from_backend (backend_error (e ∷ es)))) w = elim (mark_failed (e ∷ es) w) [
    | none ↦ none
    | some w' ↦ some (
      w',
      if not (any_exists (e ∷ es))
          then (if has_rw_replica w'.control.replicas
              then none
              else some (from_backend (backend_error (e ∷ es))))
          else some (from_backend (backend_error (e ∷ es))),
    )
  ]
  handle_error e w = some (w, e)
