-- ===== src/AuthAttempts/Runs.antt =====
-- app/services/auth_attempts.py: runs of an `AuthAttemptStore`, call after call.
use maxbot.Base.{
  String, Bool, Option, none, ◌≡◌, refl, ℤ, Result, ok, err, List, [], ◌∷◌, fmt, bind_result, pure,
}
use maxbot.AuthAttempts.Stages.{AuthError, AuthAttemptView, Clock}
use maxbot.AuthAttempts.Store.{Store}
use maxbot.AuthAttempts.Commands.{
  start, get, current, waiting_code, waiting_password, submit, submit_public, submit_code,
  submit_code_once, submit_password, submit_password_once, succeed, fail, cancel, Command,
}
use maxbot.AuthAttempts.Machine.{Steps, done, Steps-trans}
use maxbot.AuthAttempts.Starts.{start-Steps, current-Steps}
use maxbot.AuthAttempts.Refines.{
  get-Steps, waiting_code-Steps, waiting_password-Steps, submit-Steps, succeed-Steps, fail-Steps,
  cancel-Steps,
}

-- The methods that name an attempt.
pub data Method : Type 0 where
  get_method : Method
  waiting_code_method : Method
  waiting_password_method : Option String → Method
  submit_code_method : String → Option String → ℤ → Method
  submit_code_once_method : String → Option String → ℤ → Method
  submit_password_method : String → Option String → ℤ → Method
  submit_password_once_method : String → Option String → ℤ → Method
  succeed_method : Method
  fail_method : String → Method
  cancel_method : Method

pub data Call : Type 0 where
  start_call : Clock → String → String → String → ℤ → Option ℤ → String → Option String → Call
  current_call : Clock → String → ℤ → Call
  on_attempt_call : Clock → String → ℤ → String → Method → Call

unfoldable pub after_method : Clock → String → ℤ → String → Method → Store → Store
after_method c scope profile_id id get_method s = (get c scope profile_id id s).1
after_method c scope profile_id id waiting_code_method s = (waiting_code c scope profile_id id s).1
after_method c scope profile_id id (waiting_password_method hint) s =
    (waiting_password c scope profile_id id hint s).1
after_method c scope profile_id id (submit_code_method hex rid revision) s =
    (submit_code c scope profile_id id hex rid revision s).1
after_method c scope profile_id id (submit_code_once_method hex rid revision) s =
    (submit_code_once c scope profile_id id hex rid revision s).1
after_method c scope profile_id id (submit_password_method hex rid revision) s =
    (submit_password c scope profile_id id hex rid revision s).1
after_method c scope profile_id id (submit_password_once_method hex rid revision) s =
    (submit_password_once c scope profile_id id hex rid revision s).1
after_method c scope profile_id id succeed_method s = (succeed c scope profile_id id s).1
after_method c scope profile_id id (fail_method code) s = (fail c scope profile_id id code s).1
after_method c scope profile_id id cancel_method s = (cancel c scope profile_id id s).1

-- The store that a call leaves behind, whether it returns or raises.
unfoldable pub after_call : Call → Store → Store
unfolding after_method
after_call (start_call c hex rid_hex scope profile_id group_id mode rid) s =
    (start c hex rid_hex scope profile_id group_id mode rid s).1
after_call (current_call c scope profile_id) s = (current c scope profile_id s).1
after_call (on_attempt_call c scope profile_id id method) s =
    after_method c scope profile_id id method s

unfoldable pub after_calls : List Call → Store → Store
after_calls [] s = s
after_calls (c ∷ calls) s = after_calls calls (after_call c s)

-- `uuid4` gives `start` an id that no attempt has yet.
abbrev pub IsFresh : Call → Store → Type 0
IsFresh (start_call c hex rid_hex scope profile_id group_id mode rid) s =
    s.attempts (fmt "auth-" hex) ≡ none
IsFresh _ s = Unit

abbrev pub AreFresh : List Call → Store → Type 0
AreFresh [] s = Unit
AreFresh (c ∷ calls) s = IsFresh c s × AreFresh calls (after_call c s)

public_state :
    (r : Result AuthError (AuthAttemptView × Bool) × Store)
    → (bind_result (λ x. pure {S = Store} {E = AuthError} x.0) r).1 ≡ r.1
public_state (ok a, s) = refl
public_state (err e, s) = refl

module _ (c : Clock) (scope : String) (profile_id : ℤ) (id : String) (s : Store) where
  submit_public-Steps :
      (hex : String) (rid : Option String) (revision : ℤ) (command : Command)
      → Steps s (submit_public c scope profile_id id hex rid revision command s).1
  unfolding submit_public
  submit_public-Steps hex rid revision command =
      rw (public_state (submit c scope profile_id id hex rid revision command s))
        (submit-Steps c scope profile_id id s hex rid revision command)

  after_method-Steps : (m : Method) → Steps s (after_method c scope profile_id id m s)
  unfolding after_method submit_code submit_code_once submit_password submit_password_once
  after_method-Steps get_method = get-Steps c scope profile_id id s
  after_method-Steps waiting_code_method = waiting_code-Steps c scope profile_id id s
  after_method-Steps (waiting_password_method hint) =
      waiting_password-Steps c scope profile_id id s hint
  after_method-Steps (submit_code_method hex rid revision) =
      submit_public-Steps hex rid revision Command.code
  after_method-Steps (submit_code_once_method hex rid revision) =
      submit-Steps c scope profile_id id s hex rid revision Command.code
  after_method-Steps (submit_password_method hex rid revision) =
      submit_public-Steps hex rid revision Command.password
  after_method-Steps (submit_password_once_method hex rid revision) =
      submit-Steps c scope profile_id id s hex rid revision Command.password
  after_method-Steps succeed_method = succeed-Steps c scope profile_id id s
  after_method-Steps (fail_method code) = fail-Steps c scope profile_id id s code
  after_method-Steps cancel_method = cancel-Steps c scope profile_id id s

after_call-Steps : (c : Call) (s : Store) → IsFresh c s → Steps s (after_call c s)
unfolding after_call
after_call-Steps (start_call c hex rid_hex scope profile_id group_id mode rid) s fresh =
    start-Steps c hex rid_hex scope profile_id group_id mode rid s fresh
after_call-Steps (current_call c scope profile_id) s fresh = current-Steps c scope profile_id s
after_call-Steps (on_attempt_call c scope profile_id id m) s fresh =
    after_method-Steps c scope profile_id id s m

-- The methods refine the machine: whatever they are called with, and in whatever order, the store
-- changes only by its steps; every start must get an id that no attempt has.
pub calls_refine_machine :
    (calls : List Call) (s : Store) → AreFresh calls s → Steps s (after_calls calls s)
unfolding after_calls
calls_refine_machine [] s fresh = done
calls_refine_machine (c ∷ calls) s fresh =
    Steps-trans (after_call-Steps c s fresh.0) (calls_refine_machine calls (after_call c s) fresh.1)
