-- ===== src/Operations/Tests.antt =====
-- Runs of app/repositories/operations.py on small tables, and the theorems at those runs.
use maxbot.Base.{
  ◌++◌, err, ◌≤◌, ◌≡◌, refl, String, true, none, some, List, [], ◌∷◌, pos, ok, err, length,
  transaction, truthy, strip, clip, str_lt, fmt, fetchone, fetchall, update_where, eq_ℤ, raise,
}
use maxbot.Operations.Rows.{
  Error, OperationRecord, Status, empty, OperationRow, AccountingRow, Database, value_error,
  runtime_error, record_of, status_text, max_attempt_no,
}
use maxbot.Operations.Repository.{
  get_locked, claim, start_attempt, in_flight_body, mark_in_flight, mark_failed_unsent, retry,
  mark_unknown, mark_accepted,
}
use maxbot.Operations.Create.{
  Creation, choose_id, insert_operation, add_receipt, reserve, answer_or_reserve, create,
  recover_in_flight,
}
use maxbot.Operations.Steps.{row_of, attempts_of, accounting_of}
use maxbot.Operations.Invariant.{IsAccounted, IsConsistent}
use maxbot.Operations.Runs.{
  Call, create_call, claim_call, in_flight_call, failed_call, retry_call, accepted_call, after_call,
  after_calls, GuardsRead,
}
use maxbot.Operations.Safety.{
  empty_tables, after_calls-IsConsistent, at_most_one_attempt, IsAccounted-iff_accepted,
}
use maxbot.Operations.Traces.{AllFollow, calls_follow_machine}
use maxbot.Operations.Terminal.{terminal_is_final}
use maxbot.Operations.Ledger.{
  Hook, HookOutcome, create_operation, ledger_claim, ledger_mark_in_flight, ledger_mark_accepted,
  run_hooks, finalize_accepted,
}
use maxbot.Operations.Finalized.{
  after_hooks, texts_of, finalize_accepted-mark_accepted, finalize_accepted_escapes,
}
use maxbot.Operations.Receipts.{create_again}

-- The definitions that a run computes.
program : Unit {0}
unfolding transaction truthy strip clip fmt str_lt fetchone fetchall update_where eq_ℤ record_of
    status_text max_attempt_no get_locked claim start_attempt mark_in_flight in_flight_body
    mark_failed_unsent retry mark_unknown mark_accepted choose_id insert_operation add_receipt
    reserve answer_or_reserve create recover_in_flight after_call after_calls create_operation
    ledger_claim ledger_mark_in_flight ledger_mark_accepted run_hooks finalize_accepted
program = tt

abbrev hash : String → String
hash s = s

abbrev order : Creation
order = record {
  scope = "tenant:1";
  profile_id = pos 7;
  group_id = some (pos 3);
  text = "hello";
  operation_id = some "op-1";
  request_id = some "req-1";
  command = some "send";
  budget_date = some "2026-09-01";
  daily_plan_id = none;
  slot_id = some "slot-1";
  route_snapshot = none;
  max_pre_effect_retries = pos 2;
}

-- One retry, then a send that is acknowledged.
abbrev calls : List Call
calls =
    create_call hash "t1" "a" none order
    ∷ claim_call "t2" "op-1" (pos 7)
    ∷ failed_call "t3" "op-1" "no route"
    ∷ retry_call "t4" "op-1" true none
    ∷ in_flight_call "t5" "b" "op-1" none
    ∷ accepted_call "t6" "op-1" " m-9 "
    ∷ []

abbrev reading : GuardsRead calls
reading = (λ t. refl, (tt, (tt, (λ t. refl, (tt, (tt, tt))))))

abbrev sent : OperationRow
sent = record {
  operation_id = "op-1";
  scope = "tenant:1";
  profile_id = pos 7;
  group_id = some (pos 3);
  text = "hello";
  text_sha256 = "hello";
  status = Status.accepted;
  provider_message_id = "m-9";
  budget_date = some "2026-09-01";
  daily_plan_id = none;
  slot_id = some "slot-1";
  route_snapshot = empty;
  budget_occupied = true;
  pre_effect_retry_count = 1;
  max_pre_effect_retries = pos 2;
  last_error = "";
  retry_after_at = none;
  created_at = "t1";
  updated_at = "t6";
}

sent-found : row_of "op-1" (after_calls calls empty_tables) ≡ some sent
unfolding program
sent-found = refl

after_calls-IsConsistent_example : IsConsistent (after_calls calls empty_tables)
after_calls-IsConsistent_example = after_calls-IsConsistent calls reading

calls_follow_machine_example : AllFollow calls empty_tables
calls_follow_machine_example = calls_follow_machine calls empty_tables reading

at_most_one_attempt_example : length (attempts_of "op-1" (after_calls calls empty_tables)) ≤ 1
at_most_one_attempt_example = at_most_one_attempt calls "op-1" reading

IsAccounted-iff_accepted_example :
    (sent.status ≡ Status.accepted
      → IsAccounted sent.provider_message_id
          (accounting_of "op-1" (after_calls calls empty_tables)))
    × ((e : AccountingRow)
        → accounting_of "op-1" (after_calls calls empty_tables) ≡ some e
        → (sent.status ≡ Status.accepted) × (e.provider_message_id ≡ sent.provider_message_id))
IsAccounted-iff_accepted_example = IsAccounted-iff_accepted calls "op-1" sent reading sent-found

terminal_is_final_example :
    row_of "op-1" (after_calls calls (after_calls calls empty_tables)) ≡ some sent
terminal_is_final_example =
    terminal_is_final calls (after_calls calls empty_tables) "op-1" sent reading sent-found refl

-- On tables where the id is unknown, and the same request would be refused.
abbrev reserved_row : OperationRow
reserved_row = record sent {
  status = Status.reserved;
  provider_message_id = "";
  pre_effect_retry_count = 0;
  updated_at = "t1";
}

abbrev reserved_tables : Database
reserved_tables = record empty_tables {
  operations = reserved_row ∷ [];
  command_receipts =
      record {
        scope = "tenant:1";
        request_id = "req-1";
        command = "send";
        operation_id = "op-1";
        created_at = "t1";
      }
      ∷ [];
}

created :
    create hash "t1" "a" none order empty_tables
    ≡ (ok (record_of reserved_tables reserved_row), reserved_tables)
unfolding program
created = refl

-- The second call has another text and another guard, which would raise.
create_again_example :
    create hash "t2" "b"
      (some (raise (runtime_error "budget")))
      (record order { text = "other"; operation_id = none })
      reserved_tables
    ≡ (ok (record_of reserved_tables reserved_row), reserved_tables)
create_again_example =
    create_again hash hash "t1" "t2" "a" "b" none (some (raise (runtime_error "budget"))) order
      (record order { text = "other"; operation_id = none }) "req-1" "send" empty_tables refl refl
      refl refl refl created

-- A second claim by another profile is refused.
claim_other :
    claim "t2" "op-1" (pos 8) reserved_tables
    ≡ (err (value_error "operation belongs to a different profile"), reserved_tables)
unfolding program
claim_other = refl

-- A crash between the send and its acknowledgement: the outcome is unknown.
recovered :
    (recover_in_flight
      (λ id. "t9")
      (after_calls
        (create_call hash "t1" "a" none order
          ∷ claim_call "t2" "op-1" (pos 7)
          ∷ in_flight_call "t5" "b" "op-1" none
          ∷ [])
        empty_tables)).0
    ≡ ok ("op-1" ∷ [])
unfolding program
recovered = refl

-- A later message of the same account.
abbrev next_order : Creation
next_order = record order { operation_id = some "op-2"; request_id = some "req-2" }

-- The first hook raises; the second asks for another message.
abbrev hooks : List Hook
hooks =
    (λ s. (HookOutcome.raised "disk full", s))
    ∷ (λ s. (HookOutcome.returned, (create_operation hash "t7" "c" none next_order s).1))
    ∷ []

abbrev interrupt : Hook
interrupt s = (HookOutcome.escaped "cancelled", s)

abbrev acknowledged : OperationRecord
acknowledged = record {
  operation_id = "op-1";
  scope = "tenant:1";
  profile_id = pos 7;
  group_id = some (pos 3);
  text = "hello";
  status = Status.accepted;
  provider_message_id = "m-9";
  budget_date = some "2026-09-01";
  budget_occupied = true;
  pre_effect_retry_count = 0;
  max_pre_effect_retries = pos 2;
  attempt_count = 1;
  active_attempt_no = some 1;
  last_error = "";
  daily_plan_id = none;
  slot_id = some "slot-1";
  route_snapshot = empty;
}

abbrev in_flight : Database
in_flight =
    let created = (create_operation hash "t1" "a" none order empty_tables).1 in
    let claimed = (ledger_claim "t2" "op-1" (pos 7) created).1 in
    (ledger_mark_in_flight hash "t5" "b" "op-1" none claimed).1

abbrev after_send : Database
after_send = (mark_accepted "t6" "op-1" " m-9 " in_flight).1

in_flight-accepted : mark_accepted "t6" "op-1" " m-9 " in_flight ≡ (ok acknowledged, after_send)
unfolding program
in_flight-accepted = refl

finalize_accepted-mark_accepted_example :
    finalize_accepted "t6" "op-1" " m-9 " hooks in_flight
    ≡ (ok (texts_of hooks after_send), after_hooks hooks after_send)
finalize_accepted-mark_accepted_example =
    finalize_accepted-mark_accepted "t6" "op-1" " m-9 " hooks in_flight after_send acknowledged
      in_flight-accepted (refl, (refl, tt))

finalize_accepted_escapes_example :
    finalize_accepted "t6" "op-1" " m-9 " (hooks ++ interrupt ∷ hooks) in_flight
    ≡ (err (Error.base_exception "cancelled"), (interrupt (after_hooks hooks after_send)).1)
finalize_accepted_escapes_example =
    finalize_accepted_escapes "t6" "op-1" " m-9 " hooks hooks interrupt "cancelled" in_flight
      after_send acknowledged in_flight-accepted (refl, (refl, tt)) refl

hooks_fail : (finalize_accepted "t6" "op-1" " m-9 " hooks in_flight).0 ≡ ok ("disk full" ∷ [])
unfolding program
hooks_fail = refl
