-- ===== src/AuthAttempts/Store.antt =====
-- app/services/auth_attempts.py: the state of `AuthAttemptStore` and its private methods. A
-- dictionary is a function of its key; an attempt that a method mutates is written back under the
-- key it was found by.
use maxbot.Base.{
  ℕ, ◌+◌, String, Bool, false, not, ◌&&◌, Option, none, some, ℤ, eq_ℤ, pos, leb, str_eq,
  if◌then◌else◌, clip, Action, Result, ok, err, pure, raise, modify, ◌>>=◌, ◌>>◌, raise_if,
  when◌run◌otherwise◌,
}
use maxbot.AuthAttempts.Stages.{
  Stage, is_terminal, AuthError, attempt_not_found, attempt_conflict, attempt_expired,
  AuthAttemptView, Attempt, view, ProfileKey, eq_key, profile_key,
}

pub record Store : Type 0 where
  pub attempts : String → Option Attempt
  pub active_by_profile : ProfileKey → Option String
  pub start_receipts : ProfileKey → String → Option String

abbrev pub empty_store : Store
empty_store = record {
  attempts = λ _. none;
  active_by_profile = λ _. none;
  start_receipts = λ _ _. none;
}

abbrev pub Auth : Type 0 → Type 0
Auth A = Action Store AuthError A

-- A call that only computes or raises.
abbrev pub lift : {A : Type 0} → Result AuthError A → Auth A
lift r s = (r, s)

-- `self._attempts[id] = a`
abbrev pub put : String → Attempt → Store → Store
put id a s = record s { attempts = λ j. if str_eq id j then some a else s.attempts j }

abbrev pub set_active : ProfileKey → Option String → Store → Store
set_active key id s = record s {
  active_by_profile = λ k. if eq_key key k then id else s.active_by_profile k;
}

abbrev pub set_receipt : ProfileKey → String → String → Store → Store
set_receipt key rid id s = record s {
  start_receipts = λ k r. if eq_key key k && str_eq rid r then some id else s.start_receipts k r;
}

unfoldable pub timeout_code : Stage → String
timeout_code Stage.connecting = "CONNECTION_TIMEOUT"
timeout_code Stage.waiting_code = "CODE_INPUT_TIMEOUT"
timeout_code Stage.verifying_code = "CODE_INPUT_TIMEOUT"
timeout_code Stage.waiting_password = "PASSWORD_INPUT_TIMEOUT"
timeout_code Stage.verifying_password = "PASSWORD_INPUT_TIMEOUT"
timeout_code Stage.succeeded = "ATTEMPT_EXPIRED"
timeout_code Stage.error = "ATTEMPT_EXPIRED"
timeout_code Stage.expired = "ATTEMPT_EXPIRED"
timeout_code Stage.cancelled = "ATTEMPT_EXPIRED"
timeout_code Stage.interrupted = "ATTEMPT_EXPIRED"

-- A deadline that is set and has come.
abbrev pub is_due : ℕ → Option ℕ → Bool
is_due now none = false
is_due now (some deadline) = leb deadline now

-- The `code` that `_expire_if_needed` computes.
unfoldable pub expiry_code : Attempt → ℕ → Option String
expiry_code a now =
    if is_terminal a.stage
    then none
    else if leb a.attempt_deadline_at now
    then some "ATTEMPT_EXPIRED"
    else if is_due now a.stage_deadline_at
    then some (timeout_code a.stage)
    else none

abbrev pub expired_with : Attempt → Option String → Attempt
expired_with a none = a
expired_with a (some code) = record a {
  stage = Stage.expired;
  error_code = some code;
  stage_deadline_at = none;
  revision = a.revision + 1;
}

unfoldable pub expire_if_needed : Attempt → ℕ → Attempt
expire_if_needed a now = expired_with a (expiry_code a now)

abbrev pub attempt_or_raise : Option Attempt → Auth Attempt
attempt_or_raise none = raise (attempt_not_found "attempt_not_found")
attempt_or_raise (some a) = pure a

-- An attempt that a call found, expired if it is time, and kept.
abbrev pub refresh : String → ℕ → Attempt → Auth Attempt
refresh id now a = modify (put id (expire_if_needed a now)) >> pure (expire_if_needed a now)

unfoldable pub lookup : String → ℤ → String → ℕ → Auth Attempt
lookup scope profile_id id now = do
  key ← lift (profile_key scope profile_id)
  a ← (λ s. attempt_or_raise (s.attempts id) s)
  own ← lift (profile_key a.scope a.profile_id)
  raise_if (not (eq_key own key)) (attempt_not_found "attempt_not_found")
  refresh id now a

abbrev or_default : Option String → String → String
or_default none d = d
or_default (some c) d = if str_eq c "" then d else c

-- The error of an input for an attempt that has ended.
abbrev pub ended_error : Option String → Stage → AuthError
ended_error code Stage.expired = attempt_expired (or_default code "ATTEMPT_EXPIRED")
ended_error code Stage.interrupted = attempt_conflict "ATTEMPT_INTERRUPTED"
ended_error code _ = attempt_conflict "attempt_terminal"

-- `_require_revision`
unfoldable pub require_revision : Attempt → ℤ → (Stage → Bool) → Result AuthError (Unit {0})
require_revision a expected_revision allowed =
    if is_terminal a.stage
    then err (ended_error a.error_code a.stage)
    else if not (eq_ℤ expected_revision (pos a.revision))
    then err (attempt_conflict "revision_conflict")
    else if not (allowed a.stage)
    then err (attempt_conflict "attempt_stage_conflict")
    else ok tt

abbrev deadline_after : ℕ → Option ℕ → Option ℕ
deadline_after now none = none
deadline_after now (some timeout) = some (now + timeout)

unfoldable pub moved : Attempt → Stage → Option ℕ → ℕ → String → Option String → Attempt
moved a stage stage_deadline now hint error_code = record a {
  stage = stage;
  stage_deadline_at = deadline_after now stage_deadline;
  hint = clip 200 hint;
  error_code = error_code;
  revision = a.revision + 1;
}

-- `self._active_by_profile.pop(key, None)`, of a stage that ends the attempt.
abbrev pub release : Attempt → Auth (Unit {0})
release a =
    when is_terminal a.stage
    run (do key ← lift (profile_key a.scope a.profile_id); modify (set_active key none))
    otherwise pure tt

-- What `_transition` does with the attempt's new state.
unfoldable pub transition : String → Attempt → Auth AuthAttemptView
transition id a = do modify (put id a); release a; pure (view a)
