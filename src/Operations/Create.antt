-- ===== src/Operations/Create.antt =====
-- app/repositories/operations.py: `OperationRepository.create` and the two queries over many rows.
use maxbot.Base.{
  String, Bool, true, false, not, ◌&&◌, Option, none, some, List, [], ◌∷◌, map, ℤ, pos, leb_ℤ,
  ltb_ℤ, eq_ℤ, str_eq, if◌then◌else◌, is_some, truthy, strip, str_lt, fmt, ok, err, pure, gets,
  transaction, ◌>>=◌, ◌>>◌, raise_if, fetchone, fetchall, insert,
}
use maxbot.Operations.Rows.{
  Status, Route, empty, OperationRow, ReceiptRow, Database, value_error, integrity_error,
  OperationRecord, is_retryable, eq_status, is_operation, record_of,
}
use maxbot.Operations.Repository.{Repo, get_locked, run_guard, mark_unknown}

-- The keyword arguments of `create`.
pub record Creation : Type 0 where
  pub scope : String
  pub profile_id : ℤ
  pub group_id : Option ℤ
  pub text : String
  pub operation_id : Option String
  pub request_id : Option String
  pub command : Option String
  pub budget_date : Option String
  pub daily_plan_id : Option String
  pub slot_id : Option String
  pub route_snapshot : Option Route
  pub max_pre_effect_retries : ℤ

-- `operation_id or f"op-{uuid.uuid4().hex}"`
unfoldable pub choose_id : Option String → String → String
choose_id none hex = fmt "op-" hex
choose_id (some id) hex = if truthy id then id else fmt "op-" hex

abbrev pub or_empty : Option Route → Route
or_empty none = empty
or_empty (some r) = r

abbrev pub is_receipt : String → String → String → ReceiptRow → Bool
is_receipt scope request command r =
    str_eq r.scope scope && str_eq r.request_id request && str_eq r.command command

-- The SELECT on `command_receipts`, made only where both keys are given.
abbrev pub find_receipt : String → Option String → Option String → Database → Option ReceiptRow
find_receipt scope (some q) (some c) db = fetchone (is_receipt scope q c) db.command_receipts
find_receipt scope (some q) none db = none
find_receipt scope none c db = none

-- The columns that `create` leaves out take their defaults.
abbrev pub new_operation : (String → String) → String → String → Creation → OperationRow
new_operation sha256 now id c = record {
  operation_id = id;
  scope = c.scope;
  profile_id = c.profile_id;
  group_id = c.group_id;
  text = c.text;
  text_sha256 = sha256 c.text;
  status = Status.reserved;
  provider_message_id = "";
  budget_date = c.budget_date;
  daily_plan_id = c.daily_plan_id;
  slot_id = c.slot_id;
  route_snapshot = or_empty c.route_snapshot;
  budget_occupied = true;
  pre_effect_retry_count = 0;
  max_pre_effect_retries = c.max_pre_effect_retries;
  last_error = "";
  retry_after_at = none;
  created_at = now;
  updated_at = now;
}

-- The PRIMARY KEY of `operations`, with `create`'s handler for it.
unfoldable pub insert_operation : OperationRow → Repo (Unit {0})
insert_operation row db =
    if is_some (fetchone (is_operation row.operation_id) db.operations)
    then (err (value_error "operation_id already exists"), db)
    else (ok tt, record db { operations = insert row db.operations })

-- The PRIMARY KEY of `command_receipts`.
unfoldable pub insert_receipt : ReceiptRow → Repo (Unit {0})
insert_receipt row db =
    if is_some (fetchone (is_receipt row.scope row.request_id row.command) db.command_receipts)
    then (err (integrity_error "UNIQUE constraint failed"), db)
    else (ok tt, record db { command_receipts = insert row db.command_receipts })

unfoldable pub add_receipt :
    String → String → String → Option String → Option String → Repo (Unit {0})
unfolding insert_receipt
add_receipt now id scope (some q) (some c) =
    insert_receipt
      (record { scope = scope; request_id = q; command = c; operation_id = id; created_at = now })
add_receipt now id scope (some q) none = pure tt
add_receipt now id scope none c = pure tt

-- What `create` does when no receipt answers the request.
unfoldable pub reserve :
    (String → String) → String → String → Option (Repo (Unit {0})) → Creation → Repo OperationRecord
unfolding insert_operation add_receipt
reserve sha256 now id guard c = do
  raise_if (not (truthy (strip c.scope))) (value_error "scope is required")
  raise_if (leb_ℤ c.profile_id (pos 0)) (value_error "profile_id must be positive")
  raise_if (not (truthy c.text)) (value_error "text is required")
  raise_if (ltb_ℤ c.max_pre_effect_retries (pos 0))
      (value_error "max_pre_effect_retries must not be negative")
  run_guard guard
  insert_operation (new_operation sha256 now id c)
  add_receipt now id c.scope c.request_id c.command
  get_locked id

-- A receipt answers with the operation that it names.
unfoldable pub answer_or_reserve :
    (String → String)
    → String
    → String
    → Option (Repo (Unit {0}))
    → Creation
    → Option ReceiptRow
    → Repo OperationRecord
unfolding reserve
answer_or_reserve sha256 now id guard c none = reserve sha256 now id guard c
answer_or_reserve sha256 now id guard c (some receipt) = get_locked receipt.operation_id

unfoldable pub create :
    (String → String) → String → String → Option (Repo (Unit {0})) → Creation → Repo OperationRecord
unfolding answer_or_reserve
create sha256 now hex guard c =
    raise_if (is_some c.request_id && not (is_some c.command))
      (value_error "command is required with request_id")
    >> raise_if (is_some c.command && not (is_some c.request_id))
        (value_error "request_id is required with command")
    >> transaction do
      receipt ← gets (find_receipt c.scope c.request_id c.command)
      answer_or_reserve sha256 now (choose_id c.operation_id hex) guard c receipt

-- `ORDER BY created_at DESC LIMIT 1`
unfoldable pub latest_created : List OperationRow → Option OperationRow
latest_created [] = none
latest_created (r ∷ rows) = elim (latest_created rows) [
  | none ↦ some r
  | some s ↦ some (if str_lt r.created_at s.created_at then s else r)
]

-- `slot_id=?`, which NULL does not satisfy.
abbrev pub is_slot : String → Option String → Bool
is_slot slot none = false
is_slot slot (some s) = str_eq s slot

unfoldable pub find_retryable_for_slot : String → ℤ → String → Database → Option OperationRecord
unfolding latest_created
find_retryable_for_slot slot profile_id text db =
    let fits = λ (r : OperationRow).
      is_slot slot r.slot_id
      && eq_ℤ r.profile_id profile_id
      && str_eq r.text text
      && is_retryable r.status in
    elim (latest_created (fetchall fits db.operations)) [
      | none ↦ none
      | some r ↦ some (record_of db r)
    ]

-- `ORDER BY operation_id`
insert_sorted : String → List String → List String
insert_sorted id [] = id ∷ []
insert_sorted id (j ∷ ids) = if str_lt j id then j ∷ insert_sorted id ids else id ∷ j ∷ ids

unfoldable pub sort_ids : List String → List String
unfolding insert_sorted
sort_ids [] = []
sort_ids (id ∷ ids) = insert_sorted id (sort_ids ids)

unfoldable pub in_flight_ids : Database → List String
unfolding sort_ids
in_flight_ids db =
    sort_ids (
      map (λ r. r.operation_id) (fetchall (λ r. eq_status r.status Status.in_flight) db.operations))

-- The loop of `recover_in_flight`; the clock is read once for each operation.
unfoldable pub recover_each : (String → String) → List String → Repo (List String)
recover_each clock [] = pure []
recover_each clock (id ∷ ids) =
    let rest = recover_each clock ids in
    do
      mark_unknown (clock id) id "recovered abandoned in-flight operation"
      recovered ← rest
      pure (id ∷ recovered)

unfoldable pub recover_in_flight : (String → String) → Repo (List String)
unfolding in_flight_ids recover_each
recover_in_flight clock = gets in_flight_ids >>= recover_each clock
