-- ===== src/AuthAttempts/Tests.antt =====
-- app/services/auth_attempts.py: runs on concrete logins.
use maxbot.Base.{
  Datetime, ℕ, String, Option, none, some, ◌≡◌, refl, ℤ, pos, List, [], ◌∷◌, true, false, ok, err,
  truthy, strip, lstrip, rstrip, clip, fmt, ◌+◌, ◌*◌, ◌<◌,
}
use maxbot.AuthAttempts.Stages.{
  Stage, is_terminal, Clock, now_of, Attempt, AuthAttemptView, view, attempt_timeout,
}
use maxbot.AuthAttempts.Store.{Store, empty_store}
use maxbot.AuthAttempts.Commands.{Command, get, submit}
use maxbot.AuthAttempts.Runs.{
  Call, Method, after_calls, AreFresh, start_call, on_attempt_call, waiting_code_method,
  submit_code_method, cancel_method, current_call,
}
use maxbot.AuthAttempts.Safety.{at_most_one_running, ended_is_final, same_revision_same_attempt}
use maxbot.AuthAttempts.Inputs.{get-IsInTime, IsInTime}
use maxbot.AuthAttempts.Submits.{submit_accepts_only, IsAcceptance}
use maxbot.AuthAttempts.Replays.{submit_again}
use maxbot.AuthAttempts.Machine.{Steps}
use maxbot.AuthAttempts.Runs.{calls_refine_machine}

-- What the runs unfold.
program : Unit {0}
unfolding maxbot.Base.truthy maxbot.Base.strip maxbot.Base.clip maxbot.Base.fmt maxbot.Base.eq_ℤ
    maxbot.AuthAttempts.Stages.is_terminal maxbot.AuthAttempts.Stages.view
    maxbot.AuthAttempts.Stages.now_of maxbot.AuthAttempts.Stages.profile_key
    maxbot.AuthAttempts.Stages.request_id maxbot.AuthAttempts.Stages.text_length
    maxbot.AuthAttempts.Stages.all_allowed maxbot.AuthAttempts.Store.timeout_code
    maxbot.AuthAttempts.Store.expiry_code maxbot.AuthAttempts.Store.expire_if_needed
    maxbot.AuthAttempts.Store.lookup maxbot.AuthAttempts.Store.require_revision
    maxbot.AuthAttempts.Store.moved maxbot.AuthAttempts.Store.transition
    maxbot.AuthAttempts.Commands.create_attempt maxbot.AuthAttempts.Commands.start_locked
    maxbot.AuthAttempts.Commands.start maxbot.AuthAttempts.Commands.get
    maxbot.AuthAttempts.Commands.current maxbot.AuthAttempts.Commands.on_waiting_code
    maxbot.AuthAttempts.Commands.on_waiting_password maxbot.AuthAttempts.Commands.on_finish
    maxbot.AuthAttempts.Commands.accept_input maxbot.AuthAttempts.Commands.on_submit
    maxbot.AuthAttempts.Commands.waiting_code maxbot.AuthAttempts.Commands.submit
    maxbot.AuthAttempts.Commands.submit_public maxbot.AuthAttempts.Commands.submit_code
    maxbot.AuthAttempts.Commands.cancel maxbot.AuthAttempts.Runs.after_method
    maxbot.AuthAttempts.Runs.after_call maxbot.AuthAttempts.Runs.after_calls
program = tt

-- A clock that says these seconds.
abbrev at : ℕ → Clock
at t = record { now = none; clock = Datetime.aware (t * 1000000) }

abbrev start_at : ℕ → String → Call
start_at t hex = start_call (at t) hex "r" " team " (pos 7) none "" (some hex)

-- The first attempt runs out while it connects, and a second one starts.
abbrev two_starts : List Call
two_starts = start_at 0 "a" ∷ start_at 90 "b" ∷ []

abbrev login : Stage → ℕ → ℕ → String → Attempt
login stage began deadline id = record {
  scope = "team";
  profile_id = pos 7;
  group_id = none;
  attempt_id = id;
  revision = 0;
  mode = "explicit";
  stage = stage;
  stage_deadline_at = some (deadline * 1000000);
  attempt_deadline_at = (began + 600) * 1000000;
  hint = "";
  error_code = none;
  command_results = λ _ _. none;
}

abbrev connecting_b : Attempt
connecting_b = login Stage.connecting 90 180 "auth-b"

two_starts-fresh : AreFresh two_starts empty_store
unfolding program
two_starts-fresh = (refl, (refl, tt))

two_starts-b : (after_calls two_starts empty_store).attempts "auth-b" ≡ some connecting_b
unfolding program
two_starts-b = refl

abbrev id_b : String
id_b = "auth-b"

at_most_one_running_example : id_b ≡ id_b
unfolding program
at_most_one_running_example =
    at_most_one_running two_starts two_starts-fresh id_b id_b connecting_b connecting_b two_starts-b
      two_starts-b refl refl refl refl

abbrev expired_a : Attempt
expired_a = record (login Stage.expired 0 0 "auth-a") {
  revision = 1;
  stage_deadline_at = none;
  error_code = some "CONNECTION_TIMEOUT";
}

-- The client cancels the attempt that has run out.
abbrev cancel_a : List Call
cancel_a = on_attempt_call (at 100) "team" (pos 7) "auth-a" cancel_method ∷ []

ended_is_final_example :
    (after_calls cancel_a (after_calls two_starts empty_store)).attempts "auth-a" ≡ some expired_a
unfolding program
ended_is_final_example =
    ended_is_final cancel_a (after_calls two_starts empty_store) (tt, tt) "auth-a" expired_a refl
      refl

same_revision_same_attempt_example : connecting_b ≡ connecting_b
unfolding program
same_revision_same_attempt_example =
    same_revision_same_attempt cancel_a (after_calls two_starts empty_store) (tt, tt) "auth-b"
      connecting_b connecting_b refl refl refl

calls_refine_machine_example : Steps empty_store (after_calls two_starts empty_store)
unfolding program
calls_refine_machine_example = calls_refine_machine two_starts empty_store two_starts-fresh

get-IsInTime_example : IsInTime 100000000 690000000 (some 180000000)
unfolding program
get-IsInTime_example =
    get-IsInTime (at 100) "team" (pos 7) "auth-b" (after_calls two_starts empty_store)
      (get (at 100) "team" (pos 7) "auth-b" (after_calls two_starts empty_store)).1
      (view connecting_b) 100000000 refl refl refl

-- The code is asked for at second 100 and given at second 120.
abbrev asked : Store
asked =
    after_calls
      (start_at 90 "b" ∷ on_attempt_call (at 100) "team" (pos 7) "auth-b" waiting_code_method ∷ [])
      empty_store

abbrev verifying_b : AuthAttemptView
verifying_b = record (view connecting_b) {
  revision = 2;
  stage = Stage.verifying_code;
  stage_deadline_at = some 210000000;
}

abbrev after_code : Store
after_code =
    (submit (at 120) "team" (pos 7) "auth-b" "x" (some "req-1") (pos 1) Command.code asked).1

submit_accepts_only_example :
    (a : Attempt) × (asked.attempts "auth-b" ≡ some a)
    × IsAcceptance Command.code (pos 1) 120000000 a verifying_b
unfolding program
submit_accepts_only_example =
    submit_accepts_only (at 120) "team" (pos 7) "auth-b" Command.code asked after_code 120000000 "x"
      (some "req-1") (pos 1) verifying_b refl refl

-- The same request again, at a stale revision, after the attempt was cancelled.
abbrev cancel_b : List Call
cancel_b = on_attempt_call (at 130) "team" (pos 7) "auth-b" cancel_method ∷ []

submit_again_example :
    (submit
      (at 140)
      "team"
      (pos 7)
      "auth-b"
      "y"
      (some "req-1")
      (pos 0)
      Command.code
      (after_calls cancel_b after_code)).0
    ≡ ok (verifying_b, false)
unfolding program
submit_again_example =
    submit_again (at 120) (at 140) "team" (pos 7) "auth-b" Command.code asked after_code 120000000
      140000000 "x" "y" "req-1" (pos 1) (pos 0) verifying_b true cancel_b refl refl refl (tt, tt)
      refl
