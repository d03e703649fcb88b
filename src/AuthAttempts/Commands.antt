-- ===== src/AuthAttempts/Commands.antt =====
-- app/services/auth_attempts.py: the public methods of `AuthAttemptStore`. What `uuid4().hex` returns
-- is an argument, `hex` where it makes an attempt's id and `rid_hex` where it makes a request id.
use maxbot.Base.{
  ℕ, String, Bool, true, false, not, ◌&&◌, Option, none, some, ℤ, str_eq, if◌then◌else◌, truthy,
  clip, fmt, pure, raise, modify, ◌+◌, ◌>>=◌, ◌>>◌, raise_if, when◌run◌otherwise◌,
}
use maxbot.AuthAttempts.Stages.{
  Stage, is_terminal, attempt_conflict, AuthAttemptView, Attempt, view, Clock, now_of, ProfileKey,
  profile_key, request_id, connect_timeout, input_timeout, verify_timeout, attempt_timeout,
}
use maxbot.AuthAttempts.Store.{
  Store, Auth, lift, put, set_active, set_receipt, refresh, lookup, require_revision, moved,
  transition,
}

-- An attempt that a receipt or a profile names, if it is still in the dictionary.
abbrev pub named : String → Option Attempt → Option (String × Attempt)
named id none = none
named id (some a) = some (id, a)

abbrev pub attempt_of : Store → Option String → Option (String × Attempt)
attempt_of s none = none
attempt_of s (some id) = named id (s.attempts id)

abbrev pub prior_of : ProfileKey → String → Store → Option (String × Attempt)
prior_of key rid s = attempt_of s (s.start_receipts key rid)

abbrev pub active_of : ProfileKey → Store → Option (String × Attempt)
active_of key s = attempt_of s (s.active_by_profile key)

abbrev pub new_attempt : ProfileKey → Option ℤ → String → String → ℕ → Attempt
new_attempt key group_id id mode moment = record {
  scope = key.scope;
  profile_id = key.profile_id;
  group_id = group_id;
  attempt_id = id;
  revision = 0;
  mode = if truthy mode then mode else "explicit";
  stage = Stage.connecting;
  stage_deadline_at = some (moment + connect_timeout);
  attempt_deadline_at = moment + attempt_timeout;
  hint = "";
  error_code = none;
  command_results = λ _ _. none;
}

-- The part of `start` that creates.
unfoldable pub create_attempt :
    ProfileKey → String → String → Attempt → Auth (AuthAttemptView × Bool)
create_attempt key rid id a = do
  modify (put id a)
  modify (set_active key (some id))
  modify (set_receipt key rid id)
  pure (view a, true)

-- A second attempt of the profile is refused while the first one runs.
abbrev pub refuse_running : ℕ → Option (String × Attempt) → Auth (Unit {0})
refuse_running moment none = pure tt
refuse_running moment (some (id, active)) = do
  a ← refresh id moment active
  raise_if (not (is_terminal a.stage)) (attempt_conflict "attempt_already_running")

abbrev pub replay_or :
    ℕ → Auth (AuthAttemptView × Bool) → Option (String × Attempt) → Auth (AuthAttemptView × Bool)
replay_or moment fresh none = fresh
replay_or moment fresh (some (id, prior)) = do a ← refresh id moment prior; pure (view a, false)

-- What `start` does with its lock held.
unfoldable pub start_locked :
    ℕ → ProfileKey → String → String → Attempt → Auth (AuthAttemptView × Bool)
start_locked moment key rid id a s =
    replay_or moment
      ((λ t. refuse_running moment (active_of key t) t) >> create_attempt key rid id a)
      (prior_of key rid s) s

unfoldable pub start :
    Clock
    → (hex rid_hex : String) → (scope : String) → (profile_id : ℤ) → (group_id : Option ℤ)
    → (mode : String) → Option String
    → Auth (AuthAttemptView × Bool)
start c hex rid_hex scope profile_id group_id mode rid = do
  moment ← lift (now_of c)
  key ← lift (profile_key scope profile_id)
  r ← lift (request_id rid_hex rid)
  start_locked moment key r (fmt "auth-" hex)
      (new_attempt key group_id (fmt "auth-" hex) mode moment)

unfoldable pub get : Clock → String → ℤ → String → Auth AuthAttemptView
get c scope profile_id id = do
  moment ← lift (now_of c)
  a ← lookup scope profile_id id moment
  pure (view a)

abbrev pub view_if_any : ℕ → Option (String × Attempt) → Auth (Option AuthAttemptView)
view_if_any moment none = pure none
view_if_any moment (some (id, a)) = do b ← refresh id moment a; pure (some (view b))

unfoldable pub current : Clock → String → ℤ → Auth (Option AuthAttemptView)
current c scope profile_id = do
  moment ← lift (now_of c)
  key ← lift (profile_key scope profile_id)
  λ s. view_if_any moment (active_of key s) s

-- What each method does with the attempt that it looked up, by its stage.
abbrev pub waiting_code_at : String → ℕ → Attempt → Stage → Auth AuthAttemptView
waiting_code_at id moment a Stage.connecting =
    transition id (moved a Stage.waiting_code (some input_timeout) moment "" none)
waiting_code_at id moment a Stage.waiting_code = pure (view a)
waiting_code_at id moment a _ = raise (attempt_conflict "attempt_stage_conflict")

unfoldable pub on_waiting_code : String → ℕ → Attempt → Auth AuthAttemptView
on_waiting_code id moment a = waiting_code_at id moment a a.stage

abbrev pub or_empty : Option String → String
or_empty none = ""
or_empty (some s) = s

abbrev pub waiting_password_at : String → Option String → ℕ → Attempt → Stage → Auth AuthAttemptView
waiting_password_at id hint moment a Stage.verifying_code =
    transition id (moved a Stage.waiting_password (some input_timeout) moment (or_empty hint) none)
waiting_password_at id hint moment a Stage.verifying_password =
    transition id (moved a Stage.waiting_password (some input_timeout) moment (or_empty hint) none)
waiting_password_at id hint moment a Stage.waiting_password = pure (view a)
waiting_password_at id hint moment a _ = raise (attempt_conflict "attempt_stage_conflict")

unfoldable pub on_waiting_password : String → Option String → ℕ → Attempt → Auth AuthAttemptView
on_waiting_password id hint moment a = waiting_password_at id hint moment a a.stage

-- `succeed`, `fail` and `cancel` answer an attempt that has ended as it is.
unfoldable pub on_finish : String → Stage → Option String → ℕ → Attempt → Auth AuthAttemptView
on_finish id stage error_code moment a =
    when is_terminal a.stage
    run pure (view a)
    otherwise transition id (moved a stage none moment "" error_code)

-- The two commands that carry an input: their name, the stage that expects it, and the stage that
-- checks it.
pub data Command : Type 0 where
  code : Command
  password : Command

abbrev pub command_text : Command → String
command_text Command.code = "code"
command_text Command.password = "password"

abbrev pub expects : Command → Stage → Bool
expects Command.code Stage.waiting_code = true
expects Command.password Stage.waiting_password = true
expects _ _ = false

abbrev pub verifying : Command → Stage
verifying Command.code = Stage.verifying_code
verifying Command.password = Stage.verifying_password

abbrev pub with_result : Attempt → String → String → AuthAttemptView → Attempt
with_result a command rid v = record a {
  command_results =
      λ c r. if str_eq command c && str_eq rid r then some v else a.command_results c r;
}

abbrev pub replay_result :
    Auth (AuthAttemptView × Bool) → Option AuthAttemptView → Auth (AuthAttemptView × Bool)
replay_result fresh none = fresh
replay_result fresh (some v) = pure (v, false)

unfoldable pub accept_input :
    String → ℤ → String → Command → ℕ → Attempt → Auth (AuthAttemptView × Bool)
accept_input id revision rid command moment a =
    let next = moved a (verifying command) (some verify_timeout) moment "" none in
    do
      lift (require_revision a revision (expects command))
      v ← transition id next
      modify (put id (with_result next (command_text command) rid v))
      pure (v, true)

unfoldable pub on_submit :
    String → ℤ → String → Command → ℕ → Attempt → Auth (AuthAttemptView × Bool)
on_submit id revision rid command moment a =
    replay_result (accept_input id revision rid command moment a)
      (a.command_results (command_text command) rid)

module _ (c : Clock) (scope : String) (profile_id : ℤ) (id : String) where
  -- `moment = self._now(now)`, then `self._lookup(...)` under the lock.
  abbrev pub on_attempt : {A : Type 0} → (ℕ → Attempt → Auth A) → Auth A
  on_attempt body = do
    moment ← lift (now_of c)
    a ← lookup scope profile_id id moment
    body moment a

  unfoldable pub waiting_code : Auth AuthAttemptView
  waiting_code = on_attempt (on_waiting_code id)

  unfoldable pub waiting_password : Option String → Auth AuthAttemptView
  waiting_password hint = on_attempt (on_waiting_password id hint)

  -- `_submit`
  unfoldable pub submit : String → Option String → ℤ → Command → Auth (AuthAttemptView × Bool)
  submit rid_hex rid revision command = do
    moment ← lift (now_of c)
    r ← lift (request_id rid_hex rid)
    a ← lookup scope profile_id id moment
    on_submit id revision r command moment a

  -- `_submit_public`
  unfoldable pub submit_public : String → Option String → ℤ → Command → Auth AuthAttemptView
  submit_public rid_hex rid revision command = do r ← submit rid_hex rid revision command; pure r.0

  unfoldable pub submit_code : String → Option String → ℤ → Auth AuthAttemptView
  submit_code rid_hex rid revision = submit_public rid_hex rid revision Command.code

  unfoldable pub submit_code_once : String → Option String → ℤ → Auth (AuthAttemptView × Bool)
  submit_code_once rid_hex rid revision = submit rid_hex rid revision Command.code

  unfoldable pub submit_password : String → Option String → ℤ → Auth AuthAttemptView
  submit_password rid_hex rid revision = submit_public rid_hex rid revision Command.password

  unfoldable pub submit_password_once : String → Option String → ℤ → Auth (AuthAttemptView × Bool)
  submit_password_once rid_hex rid revision = submit rid_hex rid revision Command.password

  unfoldable pub succeed : Auth AuthAttemptView
  succeed = on_attempt (on_finish id Stage.succeeded none)

  unfoldable pub fail : String → Auth AuthAttemptView
  fail error_code = on_attempt (on_finish id Stage.error (some (clip 64 error_code)))

  unfoldable pub cancel : Auth AuthAttemptView
  cancel = on_attempt (on_finish id Stage.cancelled (some "ATTEMPT_INTERRUPTED"))
