-- ===== src/Operations/Steps.antt =====
-- app/repositories/operations.py as a status machine: the table changes that its methods make, one
-- constructor to a transition.
use maxbot.Base.{
  ℕ, ◌+◌, clip, is_some, if◌then◌else◌, ◌≡◌, String, Bool, true, ◌&&◌, Option, none, some, List,
  pos, ◌≤ℤ◌, truthy, fetchone-update_self, fetchone, fetchall, insert, update_where,
}
use maxbot.Operations.Rows.{
  Status, Route, OperationRow, AttemptRow, AccountingRow, ReceiptRow, Database, eq_status,
  is_retryable, is_operation, is_attempt_of, AttemptState, is_accounting_of, or_zero,
}
use maxbot.Operations.Repository.{is_attempt, last_attempt_no}

abbrev pub row_of : String → Database → Option OperationRow
row_of id db = fetchone (is_operation id) db.operations

abbrev pub attempts_of : String → Database → List AttemptRow
attempts_of id db = fetchall (is_attempt_of id) db.operation_attempts

abbrev pub accounting_of : String → Database → Option AccountingRow
accounting_of id db = fetchone (is_accounting_of id) db.operation_accounting

-- `UPDATE operations SET f WHERE q`
abbrev pub set_where : (OperationRow → Bool) → (OperationRow → OperationRow) → Database → Database
set_where q f db = record db { operations = update_where q f db.operations }

abbrev pub operation_key : OperationRow → String
operation_key r = r.operation_id

-- After an UPDATE that fits it, the row is found again, changed.
pub row-update_self :
    (id : String) (s : Database) (r : OperationRow)
    → row_of id s ≡ some r
    → (q : OperationRow → Bool) (f : OperationRow → OperationRow)
    → ((x : OperationRow) → (f x).operation_id ≡ x.operation_id)
    → q r ≡ true
    → row_of id (set_where q f s) ≡ some (f r)
row-update_self id s r found q f keeps fits =
    fetchone-update_self operation_key q f keeps id s.operations found fits

-- A fresh row, `reserved`, with no retry used.
pub record IsFresh (r : OperationRow) : Type 0 where
  pub reserved : r.status ≡ Status.reserved
  pub unused : r.pre_effect_retry_count ≡ 0
  pub budget : pos 0 ≤ℤ r.max_pre_effect_retries

-- The columns of the operation `id` are written.
abbrev pub written : String → (OperationRow → OperationRow) → Database → List OperationRow
written id f s = update_where (is_operation id) f s.operations

-- The columns of its attempt `n` are written.
abbrev pub attempts_written : String → ℕ → (AttemptRow → AttemptRow) → Database → List AttemptRow
attempts_written id n f s = update_where (is_attempt id n) f s.operation_attempts

-- The one entry of an operation is added; an entry that is there stays.
abbrev pub with_entry : String → String → String → Database → Database
with_entry now id provider s = if is_some (accounting_of id s) then s else record s {
  operation_accounting =
      insert
        (record {
          operation_id = id;
          effect_kind = "send_accepted";
          provider_message_id = provider;
          applied_at = now;
        })
        s.operation_accounting;
}

-- Each transition names the columns that it writes, and what it writes there.
pub data Step (s t : Database) : Type 0 where
  reserve_step :
      (r : OperationRow) (receipts : List ReceiptRow)
      → row_of r.operation_id s ≡ none
      → IsFresh r
      → t ≡ record s { operations = insert r s.operations; command_receipts = receipts }
      → Step s t
  claim_step :
      (now id : String) (r : OperationRow)
      → row_of id s ≡ some r
      → r.status ≡ Status.reserved
      → t
        ≡ set_where
            (λ x. is_operation id x && eq_status x.status Status.reserved)
            (λ x. record x { status = Status.claimed; updated_at = now })
            s
      → Step s t
  send_step :
      (now id network : String) (route : Route) (r : OperationRow)
      → row_of id s ≡ some r
      → r.status ≡ Status.claimed
      → t ≡ record s {
        operations =
            written id
              (λ x. record x {
                status = Status.in_flight;
                route_snapshot = route;
                updated_at = now;
              })
              s;
        operation_attempts =
            insert
              (record {
                operation_id = id;
                attempt_no = or_zero (last_attempt_no id s) + 1;
                network_attempt_id = network;
                state = AttemptState.in_flight;
                route_snapshot = route;
                started_at = now;
                finalized_at = none;
                provider_message_id = "";
                error = "";
              })
              s.operation_attempts;
      }
      → Step s t
  fail_step :
      (now id error : String) (r : OperationRow)
      → row_of id s ≡ some r
      → is_retryable r.status ≡ true
      → t ≡ record s {
        operations =
            written id
              (λ x. record x {
                status = Status.failed_unsent;
                last_error = clip 500 error;
                updated_at = now;
              })
              s;
      }
      → Step s t
  retry_step :
      (now id : String) (r : OperationRow)
      → row_of id s ≡ some r
      → r.status ≡ Status.failed_unsent
      → pos (r.pre_effect_retry_count + 1) ≤ℤ r.max_pre_effect_retries
      → t ≡ record s {
        operations =
            written id
              (λ x. record x {
                status = Status.claimed;
                pre_effect_retry_count = x.pre_effect_retry_count + 1;
                updated_at = now;
              })
              s;
      }
      → Step s t
  lose_step :
      (now id error : String) (r : OperationRow)
      → row_of id s ≡ some r
      → r.status ≡ Status.in_flight
      → last_attempt_no id s ≡ none
      → t ≡ record s {
        operations =
            written id
              (λ x. record x {
                status = Status.unknown;
                last_error = clip 500 error;
                updated_at = now;
              })
              s;
      }
      → Step s t
  unknown_step :
      (now id error : String) (n : ℕ) (r : OperationRow)
      → row_of id s ≡ some r
      → r.status ≡ Status.in_flight
      → last_attempt_no id s ≡ some n
      → t ≡ record s {
        operations =
            written id
              (λ x. record x {
                status = Status.unknown;
                last_error = clip 500 error;
                updated_at = now;
              })
              s;
        operation_attempts =
            attempts_written id n
              (λ a. record a {
                state = AttemptState.unknown;
                finalized_at = some now;
                error = clip 500 error;
              })
              s;
      }
      → Step s t
  accept_step :
      (now id provider : String) (n : ℕ) (r : OperationRow)
      → row_of id s ≡ some r
      → r.status ≡ Status.in_flight
      → last_attempt_no id s ≡ some n
      → truthy provider ≡ true
      → t
        ≡ with_entry now id provider (record s {
          operations =
              written id
                (λ x. record x {
                  status = Status.accepted;
                  provider_message_id = provider;
                  last_error = "";
                  updated_at = now;
                })
                s;
          operation_attempts =
              attempts_written id n
                (λ a. record a {
                  state = AttemptState.accepted;
                  finalized_at = some now;
                  provider_message_id = provider;
                })
                s;
        })
      → Step s t

-- Any number of transitions.
pub data Steps (s : Database) : Database → Type 0 where
  done : Steps s s
  more : {t u : Database} → Steps s t → Step t u → Steps s u

pub Steps-trans : {s t u : Database} → Steps s t → Steps t u → Steps s u
Steps-trans a done = a
Steps-trans a (more b st) = more (Steps-trans a b) st
