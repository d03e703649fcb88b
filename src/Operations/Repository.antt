-- ===== src/Operations/Repository.antt =====
-- app/repositories/operations.py: the methods of `OperationRepository`, each with its transaction.
-- What `_now()` and `uuid4().hex` return are arguments, and so is `sha256`.
use maxbot.Base.{
  ℕ, ◌+◌, String, Bool, not, ◌&&◌, ◌||◌, Option, none, some, ℤ, pos, leb_ℤ, eq_ℤ, str_eq, ◌==◌,
  if◌then◌else◌, is_some, truthy, strip, clip, fmt, Action, ok, err, pure, raise, gets, or_raise,
  transaction, ◌>>=◌, ◌>>◌, raise_if, when◌run◌otherwise◌, modify, fetchone, fetchall, insert,
  update_where,
}
use maxbot.Operations.Rows.{
  Status, AttemptState, Route, OperationRow, AttemptRow, Database, Error, value_error,
  runtime_error, key_error, integrity_error, OperationRecord, is_terminal, is_retryable, eq_status,
  status_text, is_operation, is_attempt_of, is_accounting_of, max_attempt_no, or_zero, record_of,
}

abbrev pub Repo : Type 0 → Type 0
Repo A = Action Database Error A

-- The `KeyError` of `_get_locked`.
abbrev pub answer : String → Option OperationRow → Repo OperationRecord
answer id none db = (err (key_error (fmt "operation not found: " id)), db)
answer id (some r) db = (ok (record_of db r), db)

-- `_get_locked`
unfoldable pub get_locked : String → Repo OperationRecord
get_locked id db = answer id (fetchone (is_operation id) db.operations) db

-- `UPDATE operations SET … WHERE operation_id=?`
abbrev pub update_operation : String → (OperationRow → OperationRow) → Database → Database
update_operation id f db = record db { operations = update_where (is_operation id) f db.operations }

-- `UPDATE operation_attempts SET … WHERE operation_id=? AND attempt_no=?`
abbrev pub is_attempt : String → ℕ → AttemptRow → Bool
is_attempt id n a = str_eq a.operation_id id && a.attempt_no == n

abbrev pub update_attempt : String → ℕ → (AttemptRow → AttemptRow) → Database → Database
update_attempt id n f db = record db {
  operation_attempts = update_where (is_attempt id n) f db.operation_attempts;
}

-- `get`
unfoldable pub get : String → Database → Option OperationRecord
get id db = elim (fetchone (is_operation id) db.operations) [
  | none ↦ none
  | some r ↦ some (record_of db r)
]

abbrev pub set_claimed : String → OperationRow → OperationRow
set_claimed now r = record r { status = Status.claimed; updated_at = now }

-- The `if`/`elif` ladder of `claim`. Its UPDATE has `AND status='reserved'`.
unfoldable pub claim_by_status : String → String → Status → Repo (Unit {0})
claim_by_status now id s =
    when eq_status s Status.reserved
    run modify (λ db. record db {
      operations =
          update_where (λ r. is_operation id r && eq_status r.status Status.reserved)
            (set_claimed now) db.operations;
    })
    otherwise when eq_status s Status.claimed
    run pure tt
    otherwise when is_terminal s
    run raise (runtime_error (fmt "operation is terminal: " (status_text s)))
    otherwise when eq_status s Status.in_flight
    run raise (runtime_error "operation is already in flight")
    otherwise raise (runtime_error (fmt "operation must be retried explicitly: " (status_text s)))

unfoldable pub claim : String → String → ℤ → Repo OperationRecord
unfolding claim_by_status
claim now id profile_id = transaction do
  row ← get_locked id
  raise_if (not (eq_ℤ profile_id row.profile_id))
      (value_error "operation belongs to a different profile")
  claim_by_status now id row.status
  get_locked id

-- `route_snapshot or default`: `None` and `{}` are falsy.
abbrev pub or_route : Option Route → Route → Route
or_route none d = d
or_route (some Route.empty) d = d
or_route (some (Route.field k v rest)) d = Route.field k v rest

-- The PRIMARY KEY and the UNIQUE column of `operation_attempts`.
abbrev pub attempt_clash : AttemptRow → AttemptRow → Bool
attempt_clash new a =
    is_attempt new.operation_id new.attempt_no a
    || str_eq a.network_attempt_id new.network_attempt_id

unfoldable pub insert_attempt : AttemptRow → Repo (Unit {0})
insert_attempt new db =
    if is_some (fetchone (attempt_clash new) db.operation_attempts)
    then (err (integrity_error "UNIQUE constraint failed"), db)
    else (ok tt, record db { operation_attempts = insert new db.operation_attempts })

abbrev pub set_in_flight : String → Route → OperationRow → OperationRow
set_in_flight now route r = record r {
  status = Status.in_flight;
  route_snapshot = route;
  updated_at = now;
}

abbrev pub new_attempt : String → String → String → ℕ → Route → AttemptRow
new_attempt now network_id id n route = record {
  operation_id = id;
  attempt_no = n;
  network_attempt_id = network_id;
  state = AttemptState.in_flight;
  route_snapshot = route;
  started_at = now;
  finalized_at = none;
  provider_message_id = "";
  error = "";
}

-- What `mark_in_flight` does after its two tests.
unfoldable pub start_attempt :
    String → String → String → Option Route → OperationRecord → Repo OperationRecord
unfolding insert_attempt
start_attempt now hex id route row = do
  rows ← gets (λ db. fetchall (is_attempt_of id) db.operation_attempts)
  insert_attempt (
      new_attempt now (fmt "attempt-" hex) id (or_zero (max_attempt_no rows) + 1)
        (or_route route row.route_snapshot))
  modify (update_operation id (set_in_flight now (or_route route row.route_snapshot)))
  get_locked id

-- The body of `mark_in_flight`'s transaction, after the row is read.
unfoldable pub in_flight_body :
    String → String → String → Option Route → OperationRecord → Repo OperationRecord
in_flight_body now hex id route row =
    when eq_status row.status Status.in_flight run pure row otherwise do
      raise_if (not (eq_status row.status Status.claimed))
          (runtime_error (fmt "operation is not claimable: " (status_text row.status)))
      start_attempt now hex id route row

unfoldable pub mark_in_flight : String → String → String → Option Route → Repo OperationRecord
mark_in_flight now hex id route = transaction (get_locked id >>= in_flight_body now hex id route)

abbrev pub set_failed_unsent : String → String → OperationRow → OperationRow
set_failed_unsent now error r = record r {
  status = Status.failed_unsent;
  last_error = clip 500 error;
  updated_at = now;
}

unfoldable pub mark_failed_unsent : String → String → String → Repo OperationRecord
mark_failed_unsent now id error = transaction do
  row ← get_locked id
  when is_terminal row.status run pure row otherwise do
    raise_if (eq_status row.status Status.in_flight)
        (runtime_error "in-flight operation cannot be marked unsent")
    raise_if (not (is_retryable row.status))
        (runtime_error (fmt "operation is not pre-send: " (status_text row.status)))
    modify (update_operation id (set_failed_unsent now error))
    get_locked id

-- A `reservation_guard` is the caller's code: it gets the connection and may raise.
abbrev pub run_guard : Option (Repo (Unit {0})) → Repo (Unit {0})
run_guard none = pure tt
run_guard (some guard) = guard

abbrev pub set_retried : String → OperationRow → OperationRow
set_retried now r = record r {
  status = Status.claimed;
  pre_effect_retry_count = r.pre_effect_retry_count + 1;
  updated_at = now;
}

unfoldable pub retry : String → String → Bool → Option (Repo (Unit {0})) → Repo OperationRecord
retry now id proof_no_send guard = transaction do
  row ← get_locked id
  raise_if (not proof_no_send) (runtime_error "explicit proof_no_send is required")
  raise_if (not (eq_status row.status Status.failed_unsent))
      (runtime_error (fmt "operation is not safely retryable: " (status_text row.status)))
  raise_if (leb_ℤ row.max_pre_effect_retries (pos row.pre_effect_retry_count))
      (runtime_error "pre-effect retry budget exhausted")
  run_guard guard
  modify (update_operation id (set_retried now))
  get_locked id

abbrev pub set_unknown : String → String → OperationRow → OperationRow
set_unknown now error r = record r {
  status = Status.unknown;
  last_error = clip 500 error;
  updated_at = now;
}

abbrev pub attempt_unknown : String → String → AttemptRow → AttemptRow
attempt_unknown now error a = record a {
  state = AttemptState.unknown;
  finalized_at = some now;
  error = clip 500 error;
}

-- `ORDER BY attempt_no DESC LIMIT 1`, then an UPDATE of that attempt, if there is one.
abbrev pub update_last_attempt : String → (AttemptRow → AttemptRow) → Option ℕ → Repo (Unit {0})
update_last_attempt id f none = pure tt
update_last_attempt id f (some n) = modify (update_attempt id n f)

abbrev pub last_attempt_no : String → Database → Option ℕ
last_attempt_no id db = max_attempt_no (fetchall (is_attempt_of id) db.operation_attempts)

unfoldable pub mark_unknown : String → String → String → Repo OperationRecord
mark_unknown now id error = transaction do
  row ← get_locked id
  when is_terminal row.status run pure row otherwise do
    raise_if (not (eq_status row.status Status.in_flight)) (
        runtime_error
          (fmt "only in-flight operation can become unknown: " (status_text row.status)))
    attempt ← gets (last_attempt_no id)
    update_last_attempt id (attempt_unknown now error) attempt
    modify (update_operation id (set_unknown now error))
    get_locked id

abbrev pub set_accepted : String → String → OperationRow → OperationRow
set_accepted now provider_id r = record r {
  status = Status.accepted;
  provider_message_id = provider_id;
  last_error = "";
  updated_at = now;
}

abbrev pub attempt_accepted : String → String → AttemptRow → AttemptRow
attempt_accepted now provider_id a = record a {
  state = AttemptState.accepted;
  finalized_at = some now;
  provider_message_id = provider_id;
}

-- `INSERT OR IGNORE INTO operation_accounting`
abbrev pub insert_accounting : String → String → String → Database → Database
insert_accounting now id provider_id db =
    if is_some (fetchone (is_accounting_of id) db.operation_accounting) then db else record db {
      operation_accounting =
          insert
            (record {
              operation_id = id;
              effect_kind = "send_accepted";
              provider_message_id = provider_id;
              applied_at = now;
            })
            db.operation_accounting;
    }

-- What `mark_accepted` does to an operation in flight.
unfoldable pub accept_attempt : String → String → String → Repo OperationRecord
accept_attempt now id provider_id = do
  attempt ← gets (last_attempt_no id)
  n ← or_raise attempt (runtime_error "accepted operation has no network attempt")
  modify (update_attempt id n (attempt_accepted now provider_id))
  modify (update_operation id (set_accepted now provider_id))
  modify (insert_accounting now id provider_id)
  get_locked id

unfoldable pub mark_accepted : String → String → String → Repo OperationRecord
unfolding accept_attempt
mark_accepted now id provider_message_id =
    let provider_id = strip provider_message_id in
    raise_if (not (truthy provider_id)) (value_error "provider_message_id is required")
    >> transaction do
      row ← get_locked id
      when eq_status row.status Status.accepted
          run raise_if (not (str_eq row.provider_message_id provider_id))
              (runtime_error "accepted provider id is immutable")
            >> pure row
          otherwise do
            raise_if (not (eq_status row.status Status.in_flight)) (
                runtime_error
                  (fmt "only in-flight operation can be accepted: " (status_text row.status)))
            accept_attempt now id provider_id
