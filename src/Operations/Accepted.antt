-- ===== src/Operations/Accepted.antt =====
-- app/repositories/operations.py: an accepted send and its one row of accounting, a fresh
-- reservation, and every transition together.
use mathlib.Core.Path.{subst}
use maxbot.Base.{
  ℕ, ◌≡◌, refl, sym, String, true, Option, none, some, List, [], insert, fetchone-insert_self,
  fetchone-insert_ne, truthy,
}
use maxbot.Operations.Rows.{
  Status, AttemptState, OperationRow, AttemptRow, AccountingRow, ReceiptRow, Database,
}
use maxbot.Operations.Repository.{
  update_operation, update_attempt, last_attempt_no, insert_accounting, set_accepted,
  attempt_accepted,
}
use maxbot.Operations.Steps.{
  row_of, attempts_of, accounting_of, IsFresh, Step, reserve_step, claim_step, send_step, fail_step,
  retry_step, lose_step, unknown_step, accept_step, Steps, done, more,
}
use maxbot.Operations.Invariant.{
  Phase, Agrees, AgreesAt, IsConsistent, agrees_from, change-IsConsistent,
  keyed_update-IsConsistent, operation_key, accounting_key,
}
use maxbot.Operations.Preserved.{
  at, flying, settled, others_kept, claim_step-IsConsistent, fail_step-IsConsistent,
  retry_step-IsConsistent, send_step-IsConsistent, unknown_step-IsConsistent, not_lost,
}

abbrev entry_of : String → String → String → AccountingRow
entry_of now id provider = record {
  operation_id = id;
  effect_kind = "send_accepted";
  provider_message_id = provider;
  applied_at = now;
}

-- On an operation without accounting, `INSERT OR IGNORE` inserts.
inserts_entry :
    (s : Database) (now id provider : String)
    → accounting_of id s ≡ none
    → insert_accounting now id provider s
      ≡ record s { operation_accounting = insert (entry_of now id provider) s.operation_accounting }
inserts_entry s now id provider unpaid = rw unpaid

accept_step-IsConsistent :
    (s : Database) (h : IsConsistent s) (id : String) (r : OperationRow)
    → (found : row_of id s ≡ some r) → (now provider : String) (n : ℕ) → r.status ≡ Status.in_flight
    → last_attempt_no id s ≡ some n
    → truthy provider ≡ true
    → IsConsistent (
        insert_accounting now id provider (
          update_operation id
            (set_accepted now provider)
            (update_attempt id n (attempt_accepted now provider) s)))
accept_step-IsConsistent s h id r found now provider n e last named =
    let (one, unpaid) = flying s h id r found e in
    let t : Database = record s {
      operation_attempts =
          (update_attempt id n (attempt_accepted now provider) s).operation_attempts;
      operation_accounting = insert (entry_of now id provider) s.operation_accounting;
    } in
    rw
      (inserts_entry
        (update_operation id (set_accepted now provider)
          (update_attempt id n (attempt_accepted now provider) s))
        now id provider unpaid)
      (keyed_update-IsConsistent s t id r (set_accepted now provider) found (λ x. refl) refl
        (others_kept s h id r found n (attempt_accepted now provider) (λ a. refl))
        (λ j other.
          fetchone-insert_ne accounting_key j s.operation_accounting (entry_of now id provider)
            (λ same. other (sym same)))
        (
          (
            settled s h id r found n AttemptState.accepted (attempt_accepted now provider)
                (λ a. refl) (λ a. refl) (λ a. refl) last one,
            record {
              row = entry_of now id provider;
              there =
                  fetchone-insert_self accounting_key id s.operation_accounting
                    (entry_of now id provider) unpaid refl;
              same_id = refl;
            },
            named,
          ),
          (at s h id r found).1,
        )
        h)

empty_rows :
    (s : Database) (r : OperationRow)
    → row_of r.operation_id s ≡ none
    → AgreesAt s r.operation_id
    → (attempts_of r.operation_id s ≡ []) × (accounting_of r.operation_id s ≡ none)
empty_rows s r absent a =
    subst (λ o. Agrees o (attempts_of r.operation_id s) (accounting_of r.operation_id s)) absent a

fresh-Phase :
    (st : Status) (provider : String) {rows : List AttemptRow} {entry : Option AccountingRow}
    → st ≡ Status.reserved
    → (rows ≡ []) × (entry ≡ none)
    → Phase st provider rows entry
fresh-Phase st provider {rows} {entry} e p = subst (λ x. Phase x provider rows entry) (sym e) p

fresh_agrees :
    (r : OperationRow)
    → IsFresh r
    → (rows : List AttemptRow) (entry : Option AccountingRow) → (rows ≡ []) × (entry ≡ none)
    → Agrees (some r) rows entry
fresh_agrees r fresh rows entry p =
    (fresh-Phase r.status r.provider_message_id fresh.reserved p, rw fresh.unused fresh.budget)

-- A fresh row for an id that had none.
reserve_step-IsConsistent :
    (s : Database)
    → IsConsistent s
    → (r : OperationRow) (receipts : List ReceiptRow) → row_of r.operation_id s ≡ none
    → IsFresh r
    → IsConsistent (record s { operations = insert r s.operations; command_receipts = receipts })
reserve_step-IsConsistent s h r receipts absent fresh =
    change-IsConsistent s
      (record s { operations = insert r s.operations; command_receipts = receipts }) r.operation_id
      (λ j other. fetchone-insert_ne operation_key j s.operations r (λ same. other (sym same)))
      (λ j other. refl) (λ j other. refl)
      (agrees_from (record s { operations = insert r s.operations; command_receipts = receipts })
        r.operation_id (some r) _ _
        (fetchone-insert_self operation_key r.operation_id s.operations r absent refl) refl refl
        (fresh_agrees r fresh _ _ (empty_rows s r absent (h r.operation_id))))
      h

pub Step-IsConsistent : {s t : Database} → Step s t → IsConsistent s → IsConsistent t
Step-IsConsistent {s} (reserve_step r receipts absent fresh e) h =
    rw e (reserve_step-IsConsistent s h r receipts absent fresh)
Step-IsConsistent {s} (claim_step now id r found st e) h =
    rw e (claim_step-IsConsistent s h id r found now st)
Step-IsConsistent {s} (send_step now id network route r found st e) h =
    rw e (send_step-IsConsistent s h id r found now network route _ st refl)
Step-IsConsistent {s} (fail_step now id error r found kept e) h =
    rw e (fail_step-IsConsistent s h id r found now error kept)
Step-IsConsistent {s} (retry_step now id r found st left e) h =
    rw e (retry_step-IsConsistent s h id r found now st left)
Step-IsConsistent {s} (lose_step now id error r found st lost e) h =
    absurd (not_lost s h id r found st lost)
Step-IsConsistent {s} (unknown_step now id error n r found st last e) h =
    rw e (unknown_step-IsConsistent s h id r found now error n st last)
Step-IsConsistent {s} (accept_step now id provider n r found st last named e) h =
    rw e (accept_step-IsConsistent s h id r found now provider n st last named)

pub Steps-IsConsistent : {s t : Database} → Steps s t → IsConsistent s → IsConsistent t
Steps-IsConsistent done h = h
Steps-IsConsistent (more a st) h = Step-IsConsistent st (Steps-IsConsistent a h)
