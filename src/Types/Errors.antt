-- ===== src/Types/Errors.antt =====
-- pkg/types/error.go: how errors and rollback errors are combined.
-- `text` is `err.Error()`; the formatting of two errors into one text is a parameter, `join`.
use longhorn_engine.Prelude.{String, Option, none, some, List, [], ◌∷◌, ◌≡◌, ◌↔◌, arith, ◌≢◌}
use longhorn_engine.Types.{
  ErrorCode, result_unknown, rollback_succeeded, rollback_failed, CodedError, ReplicaError, coded,
  plain,
}

-- What `fmt` and `Error()` make of errors.
pub record Texts : Type 0 where
  pub text : ReplicaError → String
  pub pair : ReplicaError → ReplicaError → String  -- "%v, %v"
  pub prefixed : String → String → String  -- "%s: %s"
  pub rollback_only : ReplicaError → String

-- `NewError`
abbrev pub new_error : ErrorCode → String → String → CodedError
new_error c m r = record { code = c; message = m; rollback_message = r }

module _ (t : Texts) where
  -- The loop of `CombineErrors`, with `retErr` so far.
  pub combine_from : Option ReplicaError → List (Option ReplicaError) → Option ReplicaError
  combine_from ret [] = ret
  combine_from ret (none ∷ es) = combine_from ret es
  combine_from none (some e ∷ es) = combine_from (some e) es
  combine_from (some r) (some e ∷ es) = combine_from (some (plain (t.pair r e))) es

  -- `CombineErrors`
  unfoldable pub combine_errors : List (Option ReplicaError) → Option ReplicaError
  unfolding combine_from
  combine_errors es = combine_from none es

  -- `GenerateFunctionErrorWithRollback`
  unfoldable pub function_error_with_rollback :
      Option ReplicaError → Option ReplicaError → Option ReplicaError
  function_error_with_rollback (some e) (some r) =
      some (coded (new_error rollback_failed (t.text e) (t.text r)))
  function_error_with_rollback (some e) none =
      some (coded (new_error rollback_succeeded (t.text e) ""))
  function_error_with_rollback none (some r) =
      some (coded (new_error result_unknown (t.rollback_only r) ""))
  function_error_with_rollback none none = none

  -- `WrapError`; `what` is the formatted prefix.
  unfoldable pub wrap_error : Option ReplicaError → String → Option ReplicaError
  wrap_error none what = none
  wrap_error (some (coded e)) what = some (coded (record e { message = t.prefixed what e.message }))
  wrap_error (some (plain m)) what =
      some (coded (new_error result_unknown (t.prefixed what (t.text (plain m))) ""))

  -- The code of a `*types.Error`.
  abbrev pub code_of : Option ReplicaError → Option ErrorCode
  code_of (some (coded e)) = some e.code
  code_of _ = none

  abbrev pub AllNil : List (Option ReplicaError) → Type 0
  AllNil [] = Unit {0}
  AllNil (e ∷ es) = (e ≡ none) × AllNil es

  combine_from-nil :
      (ret : Option ReplicaError) (es : List (Option ReplicaError))
      → (combine_from ret es ≡ none) ↔ ((ret ≡ none) × AllNil es)
  unfolding combine_from
  combine_from-nil ret [] = ((λ h. (h, tt)), λ h. h.0)
  combine_from-nil ret (none ∷ es) = ground (arith, combine_from-nil ret es)
  combine_from-nil none (some e ∷ es) = ground (arith, combine_from-nil (some e) es)
  combine_from-nil (some r) (some e ∷ es) =
      ground (arith, combine_from-nil (some (plain (t.pair r e))) es)

  -- The combination of a list of errors is nil exactly when every one of them is nil.
  pub combine_errors-nil :
      (es : List (Option ReplicaError)) → (combine_errors es ≡ none) ↔ AllNil es
  unfolding combine_errors
  combine_errors-nil es = ground (arith, combine_from-nil none es)

  -- After `WrapError`, the code of the error of an operation with a rollback is that of a rollback
  -- that succeeded exactly when the operation failed and its rollback did not, that of a failed
  -- rollback exactly when both failed, and there is no code exactly when neither failed.
  pub rollback_reported :
      (e r : Option ReplicaError) (what : String)
      → let code = code_of (wrap_error (function_error_with_rollback e r) what) in
        ((code ≡ some rollback_succeeded) ↔ ((e ≢ none) × (r ≡ none)))
        × ((code ≡ some rollback_failed) ↔ ((e ≢ none) × (r ≢ none)))
        × ((code ≡ none) ↔ ((e ≡ none) × (r ≡ none)))
  unfolding wrap_error function_error_with_rollback
  rollback_reported e r what = ground arith
