-- ===== src/Operations/Outcomes.antt =====
-- Each method of app/repositories/operations.py makes at most one transition of the status machine.
use maxbot.Base.{
  ℕ, ◌+◌, ◌≡◌, refl, String, Bool, true, false, ◌⊎◌, inl, inr, Option, some, ℤ, pos, leb_ℤ, eq_ℤ,
  ◌≤ℤ◌, arith, Result, ok, err, transaction, truthy, strip, ◌>>◌, modify, bind_result,
  end_transaction, end_transaction_rule, is_some, fetchone, Bool-cases, Option-cases, str_eq, fmt,
}
use maxbot.Operations.Rows.{
  Status, Route, OperationRow, Database, Error, record_of, eq_status, is_terminal, is_retryable,
  or_zero,
}
use maxbot.Operations.Repository.{
  Repo, get_locked, claim_by_status, claim, insert_attempt, start_attempt, in_flight_body,
  mark_in_flight, attempt_clash, mark_failed_unsent, run_guard, retry, mark_unknown, accept_attempt,
  mark_accepted, update_operation, last_attempt_no, or_route, new_attempt, set_retried,
}
use maxbot.Operations.Steps.{
  row_of, Step, claim_step, send_step, fail_step, retry_step, lose_step, unknown_step, accept_step,
}
use maxbot.Operations.Rules.{
  get_locked_missing, get_locked_found, eq_of_status, end_read, then_read,
}

-- A call that began at `s` has written nothing, or made one transition.
abbrev pub Moves : Database → Database → Type 0
Moves s t = (t ≡ s) ⊎ Step s t

module _ (id : String) (s : Database) where
  claim_by_status-Moves :
      (now : String) (r : OperationRow) (st : Status)
      → row_of id s ≡ some r
      → r.status ≡ st
      → Moves s (claim_by_status now id st s).1
  unfolding claim_by_status
  claim_by_status-Moves now r Status.reserved found e = inr (claim_step now id r found e refl)
  claim_by_status-Moves now r _ found e = inl refl

  pub claim-Moves : (now : String) (profile_id : ℤ) → Moves s (claim now id profile_id s).1
  unfolding claim transaction record_of
  claim-Moves now profile_id = elim (Option-cases (row_of id s)) [
    | inl missing ↦ rw (get_locked_missing id s missing, claim, transaction, bind_result) (inl refl)
    | inr (r, found) ↦
        rw (get_locked_found id s r found, claim, transaction, bind_result)
          (elim (Bool-cases (eq_ℤ profile_id r.profile_id)) [
            | inl same ↦ rw same (
                end_transaction_rule (Moves s) s _ (inl refl) (
                  then_read (Moves s) id (claim_by_status now id r.status s)
                    (claim_by_status-Moves now r r.status found refl)))
            | inr other ↦ rw other (inl refl)
          ])
  ]

  -- A transaction ends with the last read: the tables are as they were, or as they were written.
  pub end_write : (t : Database) → Moves s t → Moves s (end_transaction s (get_locked id t)).1
  end_write t h = end_transaction_rule (Moves s) s _ (inl refl) (end_read (Moves s) id t h)

  pub mark_failed_unsent-Moves :
      (now error : String) → Moves s (mark_failed_unsent now id error s).1
  unfolding mark_failed_unsent transaction record_of
  mark_failed_unsent-Moves now error = elim (Option-cases (row_of id s)) [
    | inl missing ↦
        rw (get_locked_missing id s missing, mark_failed_unsent, transaction, bind_result)
          (inl refl)
    | inr (r, found) ↦
        rw (get_locked_found id s r found, mark_failed_unsent, transaction, bind_result)
          (elim (Bool-cases (is_terminal r.status)) [
            | inl final ↦ rw final (inl refl)
            | inr open_row ↦ rw open_row (elim (Bool-cases (eq_status r.status Status.in_flight)) [
              | inl flying ↦ rw flying (inl refl)
              | inr grounded ↦ rw grounded (elim (Bool-cases (is_retryable r.status)) [
                | inl kept ↦ rw kept (end_write _ (inr (fail_step now id error r found kept refl)))
                | inr other ↦ rw other (inl refl)
              ])
            ])
          ])
  ]

  -- A guard that only reads lets the body run on the same tables.
  pub guarded :
      {A : Type 0} (f : Unit {0} → Repo A) (g : Result Error (Unit {0}) × Database)
      → g.1 ≡ s
      → Moves s (end_transaction s (f tt s)).1
      → Moves s (end_transaction s (bind_result f g)).1
  guarded f (ok tt, t) same h = rw same h
  guarded f (err e, t) same h = inl refl

  budget_left : (n : ℕ) (m : ℤ) → leb_ℤ m (pos n) ≡ false → pos (n + 1) ≤ℤ m
  budget_left n m h = ground arith

  pub retry-Moves :
      (now : String) (proof_no_send : Bool) (guard : Option (Repo (Unit {0})))
      → ((t : Database) → (run_guard guard t).1 ≡ t)
      → Moves s (retry now id proof_no_send guard s).1
  unfolding retry transaction record_of
  retry-Moves now proof_no_send guard reads = elim (Option-cases (row_of id s)) [
    | inl missing ↦ rw (get_locked_missing id s missing, retry, transaction, bind_result) (inl refl)
    | inr (r, found) ↦
        rw (get_locked_found id s r found, retry, transaction, bind_result)
          (elim (Bool-cases proof_no_send) [
            | inr unproved ↦ rw unproved (inl refl)
            | inl proved ↦ rw proved (elim (Bool-cases (eq_status r.status Status.failed_unsent)) [
              | inr other ↦ rw other (inl refl)
              | inl failed ↦
                  rw failed
                    (elim (Bool-cases
                      (leb_ℤ r.max_pre_effect_retries (pos r.pre_effect_retry_count))) [
                        | inl spent ↦ rw spent (inl refl)
                        | inr left ↦ rw left (
                            guarded
                              (λ _. modify (update_operation id (set_retried now)) >> get_locked id)
                              (run_guard guard s) (reads s)
                              (end_write _ (
                                inr (
                                  retry_step now id r found (eq_of_status _ _ failed)
                                    (budget_left _ _ left) refl))))
                      ])
            ])
          ])
  ]

  pub mark_unknown-Moves : (now error : String) → Moves s (mark_unknown now id error s).1
  unfolding mark_unknown transaction record_of
  mark_unknown-Moves now error = elim (Option-cases (row_of id s)) [
    | inl missing ↦
        rw (get_locked_missing id s missing, mark_unknown, transaction, bind_result) (inl refl)
    | inr (r, found) ↦
        rw (get_locked_found id s r found, mark_unknown, transaction, bind_result)
          (elim (Bool-cases (is_terminal r.status)) [
            | inl final ↦ rw final (inl refl)
            | inr open_row ↦ rw open_row (elim (Bool-cases (eq_status r.status Status.in_flight)) [
              | inr other ↦ rw other (inl refl)
              | inl flying ↦ rw flying (elim (Option-cases (last_attempt_no id s)) [
                | inl lost ↦ rw lost (
                    end_write _
                      (inr (lose_step now id error r found (eq_of_status _ _ flying) lost refl)))
                | inr (n, last) ↦ rw last (
                    end_write _ (
                      inr
                        (unknown_step now id error n r found (eq_of_status _ _ flying) last refl)))
              ])
            ])
          ])
  ]

  accept_attempt-Moves :
      (now provider : String) (r : OperationRow)
      → row_of id s ≡ some r
      → r.status ≡ Status.in_flight
      → truthy provider ≡ true
      → Moves s (end_transaction s (accept_attempt now id provider s)).1
  unfolding accept_attempt
  accept_attempt-Moves now provider r found flying named =
      elim (Option-cases (last_attempt_no id s)) [
        | inl lost ↦ rw lost (inl refl)
        | inr (n, last) ↦
            rw last
              (end_write _ (inr (accept_step now id provider n r found flying last named refl)))
      ]

  pub mark_accepted-Moves : (now provider : String) → Moves s (mark_accepted now id provider s).1
  unfolding mark_accepted transaction record_of
  mark_accepted-Moves now provider = elim (Bool-cases (truthy (strip provider))) [
    | inr blank ↦ rw blank (inl refl)
    | inl named ↦ rw named (elim (Option-cases (row_of id s)) [
      | inl missing ↦ rw (get_locked_missing id s missing, transaction, bind_result) (inl refl)
      | inr (r, found) ↦
          rw (get_locked_found id s r found, transaction, bind_result)
            (elim (Bool-cases (eq_status r.status Status.accepted)) [
              | inl final ↦
                  rw final (elim (Bool-cases (str_eq r.provider_message_id (strip provider))) [
                    | inl same ↦ rw same (inl refl)
                    | inr other ↦ rw other (inl refl)
                  ])
              | inr open_row ↦
                  rw open_row (elim (Bool-cases (eq_status r.status Status.in_flight)) [
                    | inr other ↦ rw other (inl refl)
                    | inl flying ↦ rw flying (
                        accept_attempt-Moves now (strip provider) r found (eq_of_status _ _ flying)
                          named)
                  ])
            ])
    ])
  ]

  start_attempt-Moves :
      (now hex : String) (route : Option Route) (r : OperationRow)
      → row_of id s ≡ some r
      → r.status ≡ Status.claimed
      → Moves s (end_transaction s (start_attempt now hex id route (record_of s r) s)).1
  unfolding start_attempt insert_attempt record_of
  start_attempt-Moves now hex route r found claimed =
      elim (Bool-cases (
        is_some (
          fetchone
            (attempt_clash (
              new_attempt now (fmt "attempt-" hex) id (or_zero (last_attempt_no id s) + 1)
                (or_route route r.route_snapshot)))
            s.operation_attempts))) [
              | inl clash ↦ rw clash (inl refl)
              | inr fresh ↦ rw fresh (
                  end_write _ (
                    inr (
                      send_step now id (fmt "attempt-" hex) (or_route route r.route_snapshot) r
                        found claimed refl)))
            ]

  in_flight_body-Moves :
      (now hex : String) (route : Option Route) (r : OperationRow)
      → row_of id s ≡ some r
      → Moves s (end_transaction s (in_flight_body now hex id route (record_of s r) s)).1
  unfolding in_flight_body record_of
  in_flight_body-Moves now hex route r found =
      elim (Bool-cases (eq_status r.status Status.in_flight)) [
        | inl flying ↦ rw flying (inl refl)
        | inr grounded ↦ rw grounded (elim (Bool-cases (eq_status r.status Status.claimed)) [
          | inr other ↦ rw other (inl refl)
          | inl claimed ↦
              rw claimed (start_attempt-Moves now hex route r found (eq_of_status _ _ claimed))
        ])
      ]

  pub mark_in_flight-Moves :
      (now hex : String) (route : Option Route) → Moves s (mark_in_flight now hex id route s).1
  unfolding mark_in_flight transaction
  mark_in_flight-Moves now hex route = elim (Option-cases (row_of id s)) [
    | inl missing ↦
        rw (get_locked_missing id s missing, mark_in_flight, transaction, bind_result) (inl refl)
    | inr (r, found) ↦
        rw (get_locked_found id s r found, mark_in_flight, transaction, bind_result)
          (in_flight_body-Moves now hex route r found)
  ]
