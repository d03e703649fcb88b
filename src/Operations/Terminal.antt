-- ===== src/Operations/Terminal.antt =====
-- app/repositories/operations.py: an accepted or unknown operation is final.
use mathlib.Core.Path.{subst}
use maxbot.Base.{
  ◌≡◌, refl, sym, ◌∙◌, String, true, false, ◌&&◌, none, some, List, arith, eq_iff, fetchone,
  fetchone-insert_ne, fetchone-update_ne, update_where, insert,
}
use maxbot.Operations.Rows.{
  Status, OperationRow, Database, is_terminal, is_retryable, is_operation, eq_status,
}
use maxbot.Operations.Repository.{
  set_claimed, insert_accounting, set_in_flight, set_failed_unsent, set_retried, set_unknown,
  set_accepted,
}
use maxbot.Operations.Steps.{
  row_of, Step, reserve_step, claim_step, send_step, fail_step, retry_step, lose_step, unknown_step,
  accept_step, Steps, done, more,
}
use maxbot.Operations.Invariant.{operation_key}
use maxbot.Operations.Runs.{Call, after_calls, GuardsRead, after_calls-Steps}

module _ (s : Database) (j : String) (final : OperationRow) (there : row_of j s ≡ some final)
    (terminal : is_terminal final.status ≡ true) where
  -- The row that a transition changes is not a final one.
  not_final :
      (id : String) (r : OperationRow)
      → row_of id s ≡ some r
      → is_terminal r.status ≡ false
      → (j ≡ id → ⊥)
  not_final id r found open_row same =
      ground (arith, subst (λ k. row_of k s ≡ some r) (sym same) found)

  kept_by_update :
      (id : String) (r : OperationRow)
      → row_of id s ≡ some r
      → is_terminal r.status ≡ false
      → (f : OperationRow → OperationRow)
      → ((x : OperationRow) → (f x).operation_id ≡ x.operation_id)
      → fetchone (is_operation j) (update_where (is_operation id) f s.operations) ≡ some final
  kept_by_update id r found open_row f keeps =
      fetchone-update_ne operation_key (is_operation id) f keeps id j s.operations
        (λ x. (eq_iff x.operation_id id).0) (not_final id r found open_row)
      ∙ there

  open_of : {st : Status} (k : Status) → st ≡ k → is_terminal k ≡ false → is_terminal st ≡ false
  open_of k e h = rw e h

  open_retryable : (st : Status) → is_retryable st ≡ true → is_terminal st ≡ false
  open_retryable st h = ground arith

  kept_by_insert :
      (r : OperationRow)
      → row_of r.operation_id s ≡ none
      → fetchone (is_operation j) (insert r s.operations) ≡ some final
  kept_by_insert r absent =
      fetchone-insert_ne operation_key j s.operations r
        (λ same. ground (arith, subst (λ k. row_of k s ≡ none) same absent))
      ∙ there

  kept_by_entry :
      (now id provider : String) (t : Database)
      → row_of j t ≡ some final
      → row_of j (insert_accounting now id provider t) ≡ some final
  kept_by_entry now id provider t h = ground (arith, h)

  Step-final : {t : Database} → Step s t → row_of j t ≡ some final
  Step-final (reserve_step r receipts absent fresh e) = rw e (kept_by_insert r absent)
  Step-final (claim_step now id r found st e) = rw e (
      fetchone-update_ne operation_key
        (λ x. is_operation id x && eq_status x.status Status.reserved) (set_claimed now) (λ x. refl)
        id j s.operations (λ x fits. ground (arith, eq_iff x.operation_id id))
        (not_final id r found (open_of Status.reserved st refl))
      ∙ there)
  Step-final (send_step now id network route r found st e) = rw e (
      kept_by_update id r found (open_of Status.claimed st refl) (set_in_flight now route)
        (λ x. refl))
  Step-final (fail_step now id error r found kept e) = rw e (
      kept_by_update id r found (open_retryable r.status kept) (set_failed_unsent now error)
        (λ x. refl))
  Step-final (retry_step now id r found st left e) = rw e (
      kept_by_update id r found (open_of Status.failed_unsent st refl) (set_retried now)
        (λ x. refl))
  Step-final (lose_step now id error r found st lost e) = rw e (
      kept_by_update id r found (open_of Status.in_flight st refl) (set_unknown now error)
        (λ x. refl))
  Step-final (unknown_step now id error n r found st last e) = rw e (
      kept_by_update id r found (open_of Status.in_flight st refl) (set_unknown now error)
        (λ x. refl))
  Step-final (accept_step now id provider n r found st last named e) = rw e (
      kept_by_entry now id provider _ (
        kept_by_update id r found (open_of Status.in_flight st refl) (set_accepted now provider)
          (λ x. refl)))

Steps-final :
    (s : Database) (j : String) (final : OperationRow)
    → row_of j s ≡ some final
    → is_terminal final.status ≡ true
    → {t : Database} → Steps s t
    → row_of j t ≡ some final
Steps-final s j final there terminal done = there
Steps-final s j final there terminal (more {t} a st) =
    Step-final t j final (Steps-final s j final there terminal a) terminal st

-- An operation that is accepted or unknown is final: whatever calls are made after that, from any
-- tables, its row stays as it is, every column of it. Guards of the callers must only read.
pub terminal_is_final :
    (calls : List Call) (s : Database) (id : String) (r : OperationRow)
    → GuardsRead calls
    → row_of id s ≡ some r
    → is_terminal r.status ≡ true
    → row_of id (after_calls calls s) ≡ some r
terminal_is_final calls s id r reads there terminal =
    Steps-final s id r there terminal (after_calls-Steps calls s reads)
