-- ===== src/Operations/Rows.antt =====
-- app/repositories/operations.py: the four tables, the record that callers see, and the exceptions.
use maxbot.Base.{
  ℕ, String, Bool, true, false, Option, none, some, List, [], ◌∷◌, ℤ, str_eq, length, fetchall, max,
}

-- The CHECK of `operations.status`.
pub data Status : Type 0 where
  reserved claimed in_flight accepted failed_unsent unknown : Status

-- The CHECK of `operation_attempts.state`.
pub data AttemptState : Type 0 where
  in_flight accepted failed_unsent unknown : AttemptState

-- The objects that `json.dumps` writes and `json.loads` reads.
mutual
  pub data Json : Type 0 where
    null : Json
    boolean : Bool → Json
    number : ℤ → Json
    text : String → Json
    array : Items → Json
    object : Route → Json

  pub data Items : Type 0 where
    nil : Items
    cons : Json → Items → Items

  pub data Route : Type 0 where
    empty : Route
    field : String → Json → Route → Route

pub record OperationRow : Type 0 where
  pub operation_id : String
  pub scope : String
  pub profile_id : ℤ
  pub group_id : Option ℤ
  pub text : String
  pub text_sha256 : String
  pub status : Status
  pub provider_message_id : String
  pub budget_date : Option String
  pub daily_plan_id : Option String
  pub slot_id : Option String
  pub route_snapshot : Route
  pub budget_occupied : Bool
  pub pre_effect_retry_count : ℕ
  pub max_pre_effect_retries : ℤ
  pub last_error : String
  pub retry_after_at : Option String
  pub created_at : String
  pub updated_at : String

pub record AttemptRow : Type 0 where
  pub operation_id : String
  pub attempt_no : ℕ
  pub network_attempt_id : String
  pub state : AttemptState
  pub route_snapshot : Route
  pub started_at : String
  pub finalized_at : Option String
  pub provider_message_id : String
  pub error : String

pub record AccountingRow : Type 0 where
  pub operation_id : String
  pub effect_kind : String
  pub provider_message_id : String
  pub applied_at : String

pub record ReceiptRow : Type 0 where
  pub scope : String
  pub request_id : String
  pub command : String
  pub operation_id : String
  pub created_at : String

pub record Database : Type 0 where
  pub operations : List OperationRow
  pub operation_attempts : List AttemptRow
  pub operation_accounting : List AccountingRow
  pub command_receipts : List ReceiptRow

-- A tagged exception and its message; the last two are the service's own classes.
pub data Error : Type 0 where
  value_error runtime_error key_error integrity_error : String → Error
  validation_error not_retryable : String → Error
  base_exception : String → Error

pub record OperationRecord : Type 0 where
  pub operation_id : String
  pub scope : String
  pub profile_id : ℤ
  pub group_id : Option ℤ
  pub text : String
  pub status : Status
  pub provider_message_id : String
  pub budget_date : Option String
  pub budget_occupied : Bool
  pub pre_effect_retry_count : ℕ
  pub max_pre_effect_retries : ℤ
  pub attempt_count : ℕ
  pub active_attempt_no : Option ℕ
  pub last_error : String
  pub daily_plan_id : Option String
  pub slot_id : Option String
  pub route_snapshot : Route

-- `status in TERMINAL_STATUSES`
abbrev pub is_terminal : Status → Bool
is_terminal Status.accepted = true
is_terminal Status.unknown = true
is_terminal _ = false

-- `OperationRecord.retryable`
abbrev pub is_retryable : Status → Bool
is_retryable Status.reserved = true
is_retryable Status.claimed = true
is_retryable Status.failed_unsent = true
is_retryable _ = false

abbrev pub eq_status : Status → Status → Bool
eq_status Status.reserved Status.reserved = true
eq_status Status.claimed Status.claimed = true
eq_status Status.in_flight Status.in_flight = true
eq_status Status.accepted Status.accepted = true
eq_status Status.failed_unsent Status.failed_unsent = true
eq_status Status.unknown Status.unknown = true
eq_status _ _ = false

-- The text of a status column.
unfoldable pub status_text : Status → String
status_text Status.reserved = "reserved"
status_text Status.claimed = "claimed"
status_text Status.in_flight = "in_flight"
status_text Status.accepted = "accepted"
status_text Status.failed_unsent = "failed_unsent"
status_text Status.unknown = "unknown"

-- `WHERE operation_id=?` on each table.
abbrev pub is_operation : String → OperationRow → Bool
is_operation id r = str_eq r.operation_id id

abbrev pub is_attempt_of : String → AttemptRow → Bool
is_attempt_of id a = str_eq a.operation_id id

abbrev pub is_accounting_of : String → AccountingRow → Bool
is_accounting_of id a = str_eq a.operation_id id

-- `SELECT MAX(attempt_no)`; NULL on no rows.
unfoldable pub max_attempt_no : List AttemptRow → Option ℕ
max_attempt_no [] = none
max_attempt_no (a ∷ rows) = elim (max_attempt_no rows) [
  | none ↦ some a.attempt_no
  | some n ↦ some (max a.attempt_no n)
]

-- `int(max_row["max_no"] or 0)`
abbrev pub or_zero : Option ℕ → ℕ
or_zero none = 0
or_zero (some n) = n

-- `_record`, with the rows of `operation_attempts` that its query reads.
unfoldable pub record_of : Database → OperationRow → OperationRecord
record_of db r =
    let attempts = fetchall (is_attempt_of r.operation_id) db.operation_attempts in
    record {
      operation_id = r.operation_id;
      scope = r.scope;
      profile_id = r.profile_id;
      group_id = r.group_id;
      text = r.text;
      status = r.status;
      provider_message_id = r.provider_message_id;
      budget_date = r.budget_date;
      budget_occupied = r.budget_occupied;
      pre_effect_retry_count = r.pre_effect_retry_count;
      max_pre_effect_retries = r.max_pre_effect_retries;
      attempt_count = length attempts;
      active_attempt_no = max_attempt_no attempts;
      last_error = r.last_error;
      daily_plan_id = r.daily_plan_id;
      slot_id = r.slot_id;
      route_snapshot = r.route_snapshot;
    }
