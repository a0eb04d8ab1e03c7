-- ===== src/Controller/Expansion.antt =====
-- pkg/controller/control.go: `startExpansion`, `finishExpansion` and the step between them that
-- `Expand` makes under the lock. `now` is the text of the time.
use longhorn_engine.Prelude.{
  ℕ, ◌%◌, String, Bool, true, false, not, Option, none, some, ltb, ◌==◌, if◌then◌else◌,
}
use longhorn_engine.Prelude.Dict.{Dict}
use longhorn_engine.Types.{CallError}
use longhorn_engine.Types.Errors.{Texts}
use longhorn_engine.Replicator.{BackendWrapper}
use longhorn_engine.Replicator.Backend.{Backend}
use longhorn_engine.Replicator.Calls
use longhorn_engine.Controller.{Controller, World, ControlError, from_backend, message}
use longhorn_engine.Controller.Io.{volume_sector_size}
use longhorn_engine.Controller.Errors.{handle_error}
use longhorn_engine.Controller.Snapshots.{can_do_snapshot}

-- The text that `startExpansion` records for an error.
abbrev failed_start : String → Controller → Controller
failed_start now c = record c {
  last_expansion_failed_at = now;
  last_expansion_error = "controller failed to start expansion";
}

-- `startExpansion`
unfoldable pub start_expansion : String → ℕ → Controller → Controller × Option ControlError
start_expansion now size c =
    if c.is_expanding
    then (c, some (message "controller expansion is in progress"))
    else if not (size % volume_sector_size == 0)
    then (failed_start now c, some (message "requested expansion size not multiple"))
    else if c.size == size
    then (c, none)
    else if ltb size c.size
    then (failed_start now c, some (message "controller cannot be expanded to a smaller size"))
    else (
      record c { is_expanding = true; last_expansion_failed_at = ""; last_expansion_error = "" },
      none,
    )

-- `finishExpansion`
unfoldable pub finish_expansion : Bool → ℕ → Controller → Controller
finish_expansion expanded size c =
    if expanded
    then record c { size = size; is_expanding = false }
    else record c { is_expanding = false }

-- `order` and `iterate` give the order in which the maps of backends are met.
module _ (iterate : Dict BackendWrapper → Dict BackendWrapper) (exists : CallError → Bool)
    {S : Type 0} (b : Backend S) (t : Texts) where
  -- The part of `Expand`'s goroutine under the lock: whether the backend is expanded.
  unfoldable pub expand_backend :
      String → ℕ → Dict BackendWrapper → World S → Option (World S × Bool)
  expand_backend now size order w = elim (can_do_snapshot b order w) [
    | none ↦ none
    | some (w₁, some e) ↦ some (w₁, false)
    | some (w₁, none) ↦ elim (Calls.expand b t size order w₁.heap) [
      | none ↦ none
      | some (h, success, bad, none) ↦ some (record w₁ { heap = h }, true)
      | some (h, success, bad, some all) ↦
          let text =
            if success
            then "the expansion succeeded, but some replica expansion failed"
            else "the expansion failed since all replica expansion failed" in
          let w₂ : World S = record {
            control = record w₁.control {
              last_expansion_failed_at = now;
              last_expansion_error = text;
            };
            heap = h;
          } in
          let bad' : Option ControlError = elim bad [
            | none ↦ none
            | some e ↦ some (from_backend e)
          ] in
          elim (handle_error iterate exists b bad' w₂) [
            | none ↦ none
            | some (w₃, e) ↦ some (w₃, success)
          ]
    ]
  ]
