-- ===== src/Operations/Preserved.antt =====
-- Every transition of the status machine keeps the four tables consistent.
use mathlib.Core.Path.{subst}
use maxbot.Base.{
  ℕ, ◌+◌, ◌≡◌, refl, sym, ap, ◌∙◌, ◌≢◌, String, true, ◌&&◌, Option, none, some, List, [], pos, ◌≤ℤ◌,
  arith, eq_iff, insert, update_where, key_of_fetchone, key_of_fetchall, fetchall-insert_self,
  fetchall-insert_ne, fetchall-update_ne, fetchall-update_single,
}
use maxbot.Operations.Rows.{
  Status, AttemptState, Route, OperationRow, AttemptRow, AccountingRow, Database, eq_status,
  is_operation, is_retryable, max_attempt_no, or_zero,
}
use maxbot.Operations.Repository.{
  update_operation, update_attempt, last_attempt_no, is_attempt, new_attempt, set_claimed,
  set_failed_unsent, set_retried, set_in_flight, set_unknown, attempt_unknown,
}
use maxbot.Operations.Steps.{row_of, attempts_of, accounting_of}
use maxbot.Operations.Invariant.{
  OneAttempt, Phase, Agrees, IsConsistent, agrees_at_row, row_update-IsConsistent,
  keyed_update-IsConsistent, operation_key, attempt_key,
}

-- An operation that is waiting to be sent has no attempt and no accounting.
idle-Phase :
    (st : Status) (provider : String) {rows : List AttemptRow} {entry : Option AccountingRow}
    → is_retryable st ≡ true
    → Phase st provider rows entry
    → (rows ≡ []) × (entry ≡ none)
idle-Phase Status.reserved provider kept p = p
idle-Phase Status.claimed provider kept p = p
idle-Phase Status.failed_unsent provider kept p = p
idle-Phase Status.in_flight provider kept p = cc
idle-Phase Status.accepted provider kept p = cc
idle-Phase Status.unknown provider kept p = cc

retryable_of : (st : Status) {k : Status} → st ≡ k → is_retryable k ≡ true → is_retryable st ≡ true
retryable_of st e h = rw e h

flying-Phase :
    (st : Status) (provider : String) {rows : List AttemptRow} {entry : Option AccountingRow}
    → st ≡ Status.in_flight
    → Phase st provider rows entry
    → OneAttempt AttemptState.in_flight rows × (entry ≡ none)
flying-Phase st provider {rows} {entry} flying p = subst (λ x. Phase x provider rows entry) flying p

-- The last attempt of an operation with one attempt is that one.
last_of_one :
    {st : AttemptState} (rows : List AttemptRow) (one : OneAttempt st rows)
    → max_attempt_no rows ≡ some 1
unfolding max_attempt_no
last_of_one rows one = rw one.only (rw one.first refl)

some_inj : {m n : ℕ} → some m ≡ some n → m ≡ n
some_inj e = cc

module _ (s : Database) (h : IsConsistent s) (id : String) (r : OperationRow)
    (found : row_of id s ≡ some r) where
  abbrev pub at : Agrees (some r) (attempts_of id s) (accounting_of id s)
  at = agrees_at_row s id r found (h id)

  idle : is_retryable r.status ≡ true → (attempts_of id s ≡ []) × (accounting_of id s ≡ none)
  idle kept = idle-Phase r.status r.provider_message_id kept at.0

  pub flying :
      r.status ≡ Status.in_flight
      → OneAttempt AttemptState.in_flight (attempts_of id s) × (accounting_of id s ≡ none)
  flying e = flying-Phase r.status r.provider_message_id e at.0

  pub claim_step-IsConsistent :
      (now : String)
      → r.status ≡ Status.reserved
      → IsConsistent (record s {
        operations =
            update_where
              (λ x. is_operation id x && eq_status x.status Status.reserved)
              (set_claimed now)
              s.operations;
      })
  claim_step-IsConsistent now e =
      row_update-IsConsistent s id r found
        (λ x. is_operation id x && eq_status x.status Status.reserved) (set_claimed now) (λ x. refl)
        (λ x fits. ground (arith, eq_iff x.operation_id id))
        (ground
          (arith, eq_iff r.operation_id id, key_of_fetchone operation_key id s.operations found))
        (idle (retryable_of r.status e refl), at.1) h

  pub fail_step-IsConsistent :
      (now error : String)
      → is_retryable r.status ≡ true
      → IsConsistent (update_operation id (set_failed_unsent now error) s)
  fail_step-IsConsistent now error kept =
      keyed_update-IsConsistent s s id r (set_failed_unsent now error) found (λ x. refl) refl
        (λ j other. refl) (λ j other. refl) (idle kept, at.1) h

  pub retry_step-IsConsistent :
      (now : String)
      → r.status ≡ Status.failed_unsent
      → pos (r.pre_effect_retry_count + 1) ≤ℤ r.max_pre_effect_retries
      → IsConsistent (update_operation id (set_retried now) s)
  retry_step-IsConsistent now e left =
      keyed_update-IsConsistent s s id r (set_retried now) found (λ x. refl) refl (λ j other. refl)
        (λ j other. refl) (idle (retryable_of r.status e refl), left) h

  pub send_step-IsConsistent :
      (now network : String) (route : Route) (n : ℕ)
      → r.status ≡ Status.claimed
      → n ≡ or_zero (last_attempt_no id s) + 1
      → IsConsistent (
          update_operation id (set_in_flight now route) (record s {
            operation_attempts = insert (new_attempt now network id n route) s.operation_attempts;
          }))
  unfolding max_attempt_no
  send_step-IsConsistent now network route n e number =
      let (none_yet, unpaid) = idle (retryable_of r.status e refl) in
      keyed_update-IsConsistent s
        (record s {
          operation_attempts = insert (new_attempt now network id n route) s.operation_attempts;
        })
        id r (set_in_flight now route) found (λ x. refl) refl
        (λ j other.
          fetchall-insert_ne attempt_key j s.operation_attempts (new_attempt now network id n route)
            (λ same. other (sym same)))
        (λ j other. refl)
        (
          (
            record {
              attempt = new_attempt now network id n route;
              only =
                  fetchall-insert_self attempt_key id s.operation_attempts
                    (new_attempt now network id n route) none_yet refl;
              first = first_number none_yet number;
              in_state = refl;
            },
            unpaid,
          ),
          at.1,
        )
        h
    where
      first_number : attempts_of id s ≡ [] → n ≡ or_zero (last_attempt_no id s) + 1 → n ≡ 1
      first_number none_yet number =
          number ∙ ap (λ rows. or_zero (max_attempt_no rows) + 1) none_yet

  -- The last attempt is the only one, so an UPDATE of it leaves one attempt.
  pub settled :
      (n : ℕ) (st : AttemptState) (f : AttemptRow → AttemptRow)
      → ((a : AttemptRow) → (f a).operation_id ≡ a.operation_id)
      → ((a : AttemptRow) → (f a).attempt_no ≡ a.attempt_no)
      → ((a : AttemptRow) → (f a).state ≡ st)
      → last_attempt_no id s ≡ some n
      → OneAttempt AttemptState.in_flight (attempts_of id s)
      → OneAttempt st (attempts_of id (update_attempt id n f s))
  settled n st f keeps numbers ends last one = record {
    attempt = f one.attempt;
    only =
        fetchall-update_single attempt_key (is_attempt id n) f keeps id s.operation_attempts
          one.only
          (ground (
            arith,
            eq_iff one.attempt.operation_id id,
            owner,
            one.first,
            some_inj (sym last ∙ last_of_one _ one),
          ));
    first = numbers one.attempt ∙ one.first;
    in_state = ends one.attempt;
  }
    where
      owner : one.attempt.operation_id ≡ id
      owner = key_of_fetchall attempt_key id s.operation_attempts one.only

  pub others_kept :
      (n : ℕ) (f : AttemptRow → AttemptRow)
      → ((a : AttemptRow) → (f a).operation_id ≡ a.operation_id)
      → (j : String) → j ≢ id
      → attempts_of j (update_attempt id n f s) ≡ attempts_of j s
  others_kept n f keeps j other =
      fetchall-update_ne attempt_key (is_attempt id n) f keeps id j s.operation_attempts
        (λ a fits. ground (arith, eq_iff a.operation_id id)) other

  pub unknown_step-IsConsistent :
      (now error : String) (n : ℕ)
      → r.status ≡ Status.in_flight
      → last_attempt_no id s ≡ some n
      → IsConsistent (
          update_operation id
            (set_unknown now error)
            (update_attempt id n (attempt_unknown now error) s))
  unknown_step-IsConsistent now error n e last =
      let (one, unpaid) = flying e in
      keyed_update-IsConsistent s (update_attempt id n (attempt_unknown now error) s) id r
        (set_unknown now error) found (λ x. refl) refl
        (others_kept n (attempt_unknown now error) (λ a. refl)) (λ j other. refl)
        (
          (
            settled n AttemptState.unknown (attempt_unknown now error) (λ a. refl) (λ a. refl)
                (λ a. refl) last one,
            unpaid,
          ),
          at.1,
        )
        h

  -- An operation in flight has its attempt, so `lose_step` cannot be taken.
  pub not_lost : r.status ≡ Status.in_flight → last_attempt_no id s ≢ none
  not_lost e lost = let (one, unpaid) = flying e in cc (last_of_one _ one)
