-- ===== src/Tests/Settings.antt =====
-- The theorems on error values and on the start of an expansion.
use longhorn_engine.Prelude.{false, Option, none, some, [], ◌∷◌, ◌≡◌, ◌≢◌, ◌↔◌}
use longhorn_engine.Types.{ReplicaError, plain, rollback_succeeded, rollback_failed}
use longhorn_engine.Types.Errors.{
  Texts, AllNil, code_of, combine_errors, combine_errors-nil, rollback_reported, wrap_error,
  function_error_with_rollback,
}
use longhorn_engine.Replicator.{empty_replicator}
use longhorn_engine.Controller.{Controller}

abbrev texts : Texts
texts = record {
  text = λ e. "e";
  pair = λ e r. "e, r";
  prefixed = λ what m. what;
  rollback_only = λ r. "r";
}

abbrev disk_full : ReplicaError
disk_full = plain "disk full"

abbrev no_error : Option ReplicaError
no_error = none

abbrev small : Controller
small = record {
  size = 4096;
  replicas = [];
  backend = empty_replicator;
  is_expanding = false;
  revision_counter_disabled = false;
  frontend_up = false;
  unmap_mark_removed = false;
  snapshot_max_count = 10;
  snapshot_max_size = 0;
  last_expansion_failed_at = "";
  last_expansion_error = "";
}

combine_errors-nil_example :
    (combine_errors texts (none ∷ some disk_full ∷ []) ≡ none)
    ↔ AllNil texts (none ∷ some disk_full ∷ [])
combine_errors-nil_example = combine_errors-nil texts (none ∷ some disk_full ∷ [])

rollback_reported_example :
    let code =
      code_of texts
        (wrap_error texts (function_error_with_rollback texts (some disk_full) no_error) "w") in
    ((code ≡ some rollback_succeeded) ↔ ((some disk_full ≢ none) × (no_error ≡ none)))
    × ((code ≡ some rollback_failed) ↔ ((some disk_full ≢ none) × (no_error ≢ none)))
    × ((code ≡ none) ↔ ((some disk_full ≡ none) × (no_error ≡ none)))
rollback_reported_example = rollback_reported texts (some disk_full) no_error "w"
