-- ===== src/Operations/Ledger.antt =====
-- app/services/operations.py: `OperationLedger`, on the repository. The text that Python makes of a
-- `KeyError` is an argument, `repr`; a hook is what it does to the tables, and what becomes of
-- its call.
use maxbot.Base.{
  String, Bool, not, Option, none, some, ℤ, eq_ℤ, clip, List, [], ◌∷◌, ◌++◌, Result, ok, err, pure,
  bind_result, or_raise, raise_if, gets, ◌>>=◌, ◌>>◌,
}
use maxbot.Operations.Rows.{
  Database, Error, OperationRecord, validation_error, not_retryable, Route,
}
use maxbot.Operations.Repository.{
  Repo, get, claim, mark_in_flight, mark_failed_unsent, retry, mark_unknown, mark_accepted,
}
use maxbot.Operations.Create.{Creation, create, recover_in_flight}

-- `except … as exc: raise …`, by what it makes of an exception.
abbrev pub translated :
    {A : Type 0} → (Error → Error) → Result Error A × Database → Result Error A × Database
translated f (ok a, s) = (ok a, s)
translated f (err e, s) = (err (f e), s)

abbrev pub value_to_validation : Error → Error
value_to_validation (Error.value_error m) = validation_error m
value_to_validation e = e

abbrev pub runtime_to_validation : Error → Error
runtime_to_validation (Error.runtime_error m) = validation_error m
runtime_to_validation e = e

abbrev pub key_or_runtime_to_validation : (String → String) → Error → Error
key_or_runtime_to_validation repr (Error.key_error m) = validation_error (repr m)
key_or_runtime_to_validation repr (Error.runtime_error m) = validation_error m
key_or_runtime_to_validation repr e = e

abbrev pub runtime_to_not_retryable : Error → Error
runtime_to_not_retryable (Error.runtime_error m) = not_retryable m
runtime_to_not_retryable e = e

abbrev pub value_or_runtime_to_validation : Error → Error
value_or_runtime_to_validation (Error.value_error m) = validation_error m
value_or_runtime_to_validation (Error.runtime_error m) = validation_error m
value_or_runtime_to_validation e = e

unfoldable pub create_operation :
    (String → String) → String → String → Option (Repo (Unit {0})) → Creation → Repo OperationRecord
unfolding create
create_operation sha256 now hex guard c = create sha256 now hex guard c

unfoldable pub ledger_get : String → Repo OperationRecord
unfolding get
ledger_get id = gets (get id) >>= (λ o. or_raise o (validation_error "operation not found"))

unfoldable pub ledger_claim : String → String → ℤ → Repo OperationRecord
unfolding claim
ledger_claim now id profile_id s = translated value_to_validation (claim now id profile_id s)

unfoldable pub ledger_mark_in_flight :
    (String → String) → String → String → String → Option Route → Repo OperationRecord
unfolding mark_in_flight
ledger_mark_in_flight repr now hex id route s =
    translated (key_or_runtime_to_validation repr) (mark_in_flight now hex id route s)

unfoldable pub ledger_mark_failed_unsent : String → String → String → Repo OperationRecord
unfolding mark_failed_unsent
ledger_mark_failed_unsent now id error s =
    translated runtime_to_validation (mark_failed_unsent now id error s)

-- `if profile_id is not None: …`
abbrev pub check_owner : String → Option ℤ → Repo (Unit {0})
check_owner id none = pure tt
check_owner id (some profile_id) = ledger_get id >>= (λ current.
    raise_if (not (eq_ℤ current.profile_id profile_id))
      (validation_error "operation belongs to a different profile"))

unfoldable pub ledger_retry :
    String → String → Bool → Option ℤ → Option (Repo (Unit {0})) → Repo OperationRecord
unfolding retry ledger_get
ledger_retry now id proof_no_send profile_id guard =
    check_owner id profile_id
    >> (λ s. translated runtime_to_not_retryable (retry now id proof_no_send guard s))

unfoldable pub ledger_mark_unknown : String → String → String → Repo OperationRecord
unfolding mark_unknown
ledger_mark_unknown now id error s = translated runtime_to_validation (mark_unknown now id error s)

unfoldable pub ledger_mark_accepted : String → String → String → Repo OperationRecord
unfolding mark_accepted
ledger_mark_accepted now id provider_message_id s =
    translated value_or_runtime_to_validation (mark_accepted now id provider_message_id s)

-- What becomes of the call of a hook: it returns, it raises an `Exception`, or it raises a
-- `BaseException` that is none, which nothing here catches.
pub data HookOutcome : Type 0 where
  returned : HookOutcome
  raised : String → HookOutcome
  escaped : String → HookOutcome

abbrev pub Hook : Type 0
Hook = Database → HookOutcome × Database

-- `try: … except Exception as exc: errors.append(…)`
abbrev pub add_error : List String → HookOutcome → Result Error (List String)
add_error errors HookOutcome.returned = ok errors
add_error errors (HookOutcome.raised text) = ok (errors ++ clip 500 text ∷ [])
add_error errors (HookOutcome.escaped text) = err (Error.base_exception text)

-- `for hook in post_commit_hooks: …`
unfoldable pub run_hooks : List Hook → List String → Repo (List String)
run_hooks [] errors s = (ok errors, s)
run_hooks (hook ∷ hooks) errors s =
    bind_result (run_hooks hooks) (add_error errors (hook s).0, (hook s).1)

unfoldable pub finalize_accepted : String → String → String → List Hook → Repo (List String)
unfolding ledger_mark_accepted run_hooks
finalize_accepted now id provider_message_id hooks =
    ledger_mark_accepted now id provider_message_id >>= (λ record_of. run_hooks hooks [])

unfoldable pub recover : (String → String) → Repo (List String)
unfolding recover_in_flight
recover clock = recover_in_flight clock
