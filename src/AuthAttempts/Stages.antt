-- ===== src/AuthAttempts/Stages.antt =====
-- app/services/auth_attempts.py: stages, attempts and their views, clocks, keys and request ids.
use Prim.Native.Char.{code}
use maxbot.Base.{
  Datetime, ℕ, suc, ◌*◌, String, Bool, true, false, not, ◌&&◌, ◌||◌, Option, none, some, ℤ, pos,
  ltb_ℤ, leb, ltb, ◌==◌, str_eq, eq_ℤ, if◌then◌else◌, truthy, strip, fmt, Result, ok, err,
}

pub data Stage : Type 0 where
  connecting : Stage
  waiting_code : Stage
  verifying_code : Stage
  waiting_password : Stage
  verifying_password : Stage
  succeeded : Stage
  error : Stage
  expired : Stage
  cancelled : Stage
  interrupted : Stage

-- `terminal`, of an attempt and of a view.
unfoldable pub is_terminal : Stage → Bool
is_terminal Stage.succeeded = true
is_terminal Stage.error = true
is_terminal Stage.expired = true
is_terminal Stage.cancelled = true
is_terminal Stage.interrupted = true
is_terminal Stage.connecting = false
is_terminal Stage.waiting_code = false
is_terminal Stage.verifying_code = false
is_terminal Stage.waiting_password = false
is_terminal Stage.verifying_password = false

unfoldable pub auth_step : Stage → String
auth_step Stage.connecting = "connecting"
auth_step Stage.waiting_code = "waiting_sms"
auth_step Stage.verifying_code = "verifying_sms"
auth_step Stage.waiting_password = "waiting_cloud_password"
auth_step Stage.verifying_password = "verifying_password"
auth_step Stage.succeeded = "idle"
auth_step Stage.error = "error"
auth_step Stage.expired = "expired"
auth_step Stage.cancelled = "idle"
auth_step Stage.interrupted = "error"

-- `AuthAttemptNotFound`, `AuthAttemptConflict` and `AuthAttemptExpired`, by their code, and Python's
-- `ValueError`.
pub data AuthError : Type 0 where
  attempt_not_found : String → AuthError
  attempt_conflict : String → AuthError
  attempt_expired : String → AuthError
  value_error : String → AuthError

-- Instants and timeouts are in microseconds, the resolution of `datetime`.
abbrev seconds : ℕ → ℕ
seconds n = n * 1000000

abbrev pub connect_timeout : ℕ
connect_timeout = seconds 90

abbrev pub input_timeout : ℕ
input_timeout = seconds 300

abbrev pub verify_timeout : ℕ
verify_timeout = seconds 90

abbrev pub attempt_timeout : ℕ
attempt_timeout = seconds 600

pub record AuthAttemptView : Type 0 where
  pub scope : String
  pub profile_id : ℤ
  pub group_id : Option ℤ
  pub attempt_id : String
  pub revision : ℕ
  pub mode : String
  pub stage : Stage
  pub stage_deadline_at : Option ℕ
  pub attempt_deadline_at : ℕ
  pub hint : String
  pub error_code : Option String

-- `_Attempt`; the dictionary `command_results` is a function of its two keys.
pub record Attempt : Type 0 where
  pub scope : String
  pub profile_id : ℤ
  pub group_id : Option ℤ
  pub attempt_id : String
  pub revision : ℕ
  pub mode : String
  pub stage : Stage
  pub stage_deadline_at : Option ℕ
  pub attempt_deadline_at : ℕ
  pub hint : String
  pub error_code : Option String
  pub command_results : String → String → Option AuthAttemptView

unfoldable pub view : Attempt → AuthAttemptView
view a = record {
  scope = a.scope;
  profile_id = a.profile_id;
  group_id = a.group_id;
  attempt_id = a.attempt_id;
  revision = a.revision;
  mode = a.mode;
  stage = a.stage;
  stage_deadline_at = a.stage_deadline_at;
  attempt_deadline_at = a.attempt_deadline_at;
  hint = a.hint;
  error_code = a.error_code;
}

unfoldable pub in_utc : Datetime → Result AuthError ℕ
in_utc (Datetime.naive t) = err (value_error "auth attempt clock must be timezone-aware")
in_utc (Datetime.aware t) = ok t

-- The `now` of a call, and what the store's own clock would say.
pub record Clock : Type 0 where
  pub now : Option Datetime
  pub clock : Datetime

abbrev given_or : Option Datetime → Datetime → Datetime
given_or none clock = clock
given_or (some now) clock = now

unfoldable pub now_of : Clock → Result AuthError ℕ
unfolding in_utc
now_of c = in_utc (given_or c.now c.clock)

pub record ProfileKey : Type 0 where
  pub scope : String
  pub profile_id : ℤ

abbrev pub eq_key : ProfileKey → ProfileKey → Bool
eq_key k j = str_eq k.scope j.scope && eq_ℤ k.profile_id j.profile_id

unfoldable pub profile_key : String → ℤ → Result AuthError ProfileKey
profile_key scope profile_id =
    let normalized = strip scope in
    if not (truthy normalized) || ltb_ℤ profile_id (pos 1)
    then err (value_error "scope_and_profile_required")
    else ok (record { scope = normalized; profile_id = profile_id })

-- `len(s)`
unfoldable pub text_length : String → ℕ
text_length String.[] = 0
text_length (String.◌∷◌ c s) = suc (text_length s)

-- Letters, digits and `._:-`, by their code points.
abbrev is_allowed : ℕ → Bool
is_allowed c =
    (leb 0x61 c && leb c 0x7a)
    || (leb 0x41 c && leb c 0x5a)
    || (leb 0x30 c && leb c 0x39)
    || c == 0x2e
    || c == 0x5f
    || c == 0x3a
    || c == 0x2d

unfoldable pub all_allowed : String → Bool
all_allowed String.[] = true
all_allowed (String.◌∷◌ c s) = is_allowed (code c) && all_allowed s

abbrev pub checked_id : String → Result AuthError String
checked_id candidate =
    if ltb 128 (text_length candidate) || not (all_allowed candidate)
    then err (attempt_conflict "request_id_invalid")
    else ok candidate

-- `_request_id`; what `uuid4().hex` returns is an argument.
unfoldable pub request_id : String → Option String → Result AuthError String
request_id hex none = ok (fmt "generated-" hex)
request_id hex (some value) =
    let candidate = strip value in
    if truthy candidate then checked_id candidate else ok (fmt "generated-" hex)
