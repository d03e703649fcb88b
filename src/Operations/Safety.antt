-- ===== src/Operations/Safety.antt =====
-- What holds of the ledger of app/repositories/operations.py after any calls, in any order.
use mathlib.Core.Path.{subst}
use maxbot.Base.{ℕ, ◌≤◌, ◌≡◌, refl, String, Option, none, some, List, [], arith, length, fetchone}
use maxbot.Operations.Rows.{Status, AttemptState, OperationRow, AttemptRow, AccountingRow, Database}
use maxbot.Operations.Steps.{row_of, attempts_of, accounting_of}
use maxbot.Operations.Invariant.{
  OneAttempt, IsAccounted, Phase, Agrees, IsConsistent, agrees_at_row,
}
use maxbot.Operations.Accepted.{Steps-IsConsistent}
use maxbot.Operations.Runs.{Call, after_calls, GuardsRead, after_calls-Steps}

-- `ensure_schema` on a new file.
abbrev pub empty_tables : Database
empty_tables = record {
  operations = [];
  operation_attempts = [];
  operation_accounting = [];
  command_receipts = [];
}

empty_tables-IsConsistent : IsConsistent empty_tables
unfolding fetchone maxbot.Base.fetchall
empty_tables-IsConsistent id = (refl, refl)

-- From empty tables, any calls leave the four tables consistent: an operation that is reserved,
-- claimed or failed has no attempt and no accounting; one in flight or unknown has exactly one
-- attempt, in that state, and no accounting; an accepted one has exactly one attempt, accepted, and
-- accounting under its own non-empty provider id; an id without a row has neither; and no
-- operation has used more retries than its budget. Guards of the callers must only read.
pub after_calls-IsConsistent :
    (calls : List Call) → GuardsRead calls → IsConsistent (after_calls calls empty_tables)
after_calls-IsConsistent calls reads =
    Steps-IsConsistent (after_calls-Steps calls empty_tables reads) empty_tables-IsConsistent

one_length : {st : AttemptState} (rows : List AttemptRow) → OneAttempt st rows → length rows ≤ 1
one_length rows one = rw one.only (omega arith)

no_length : (rows : List AttemptRow) → rows ≡ [] → length rows ≤ 1
no_length rows e = rw e (omega arith)

Phase-length :
    (st : Status) (provider : String) (rows : List AttemptRow) (entry : Option AccountingRow)
    → Phase st provider rows entry
    → length rows ≤ 1
Phase-length Status.in_flight provider rows entry p = one_length rows p.0
Phase-length Status.unknown provider rows entry p = one_length rows p.0
Phase-length Status.accepted provider rows entry p = one_length rows p.0
Phase-length Status.reserved provider rows entry p = no_length rows p.0
Phase-length Status.claimed provider rows entry p = no_length rows p.0
Phase-length Status.failed_unsent provider rows entry p = no_length rows p.0

Agrees-length :
    (o : Option OperationRow) (rows : List AttemptRow) (entry : Option AccountingRow)
    → Agrees o rows entry
    → length rows ≤ 1
Agrees-length none rows entry a = no_length rows a.0
Agrees-length (some r) rows entry a = Phase-length r.status r.provider_message_id rows entry a.0

-- No message is sent twice: from empty tables, whatever calls are made, with retries and recovery
-- among them, every operation has at most one network attempt. Guards of the callers must only
-- read.
pub at_most_one_attempt :
    (calls : List Call) (id : String)
    → GuardsRead calls
    → length (attempts_of id (after_calls calls empty_tables)) ≤ 1
at_most_one_attempt calls id reads = Agrees-length _ _ _ (after_calls-IsConsistent calls reads id)

entry_of_Phase :
    (st : Status) (provider : String) (rows : List AttemptRow) {entry : Option AccountingRow}
    {e : AccountingRow}
    → Phase st provider rows entry
    → entry ≡ some e
    → (st ≡ Status.accepted) × (e.provider_message_id ≡ provider)
entry_of_Phase Status.accepted provider rows p there =
    (refl, ground (arith, p.1.there, p.1.same_id))
entry_of_Phase Status.in_flight provider rows p there = absurd (ground (arith, p.1))
entry_of_Phase Status.unknown provider rows p there = absurd (ground (arith, p.1))
entry_of_Phase Status.reserved provider rows p there = absurd (ground (arith, p.1))
entry_of_Phase Status.claimed provider rows p there = absurd (ground (arith, p.1))
entry_of_Phase Status.failed_unsent provider rows p there = absurd (ground (arith, p.1))

IsAccounted-Phase :
    (st : Status) (provider : String) (rows : List AttemptRow) {entry : Option AccountingRow}
    → st ≡ Status.accepted
    → Phase st provider rows entry
    → IsAccounted provider entry
IsAccounted-Phase st provider rows {entry} e p = (subst (λ x. Phase x provider rows entry) e p).1

-- From empty tables, after any calls: an operation is accepted exactly when it has a row of
-- accounting, and that row carries the operation's provider id. Guards of the callers must only
-- read.
pub IsAccounted-iff_accepted :
    (calls : List Call) (id : String) (r : OperationRow)
    → GuardsRead calls
    → row_of id (after_calls calls empty_tables) ≡ some r
    → (r.status ≡ Status.accepted
        → IsAccounted r.provider_message_id (accounting_of id (after_calls calls empty_tables)))
      × ((e : AccountingRow)
          → accounting_of id (after_calls calls empty_tables) ≡ some e
          → (r.status ≡ Status.accepted) × (e.provider_message_id ≡ r.provider_message_id))
IsAccounted-iff_accepted calls id r reads found =
    let a =
      agrees_at_row (after_calls calls empty_tables) id r found
        (after_calls-IsConsistent calls reads id) in
    (
      λ e. IsAccounted-Phase r.status r.provider_message_id _ e a.0,
      λ e there. entry_of_Phase r.status r.provider_message_id _ a.0 there,
    )
