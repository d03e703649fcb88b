-- ===== src/Operations/Runs.antt =====
-- `create` and `recover_in_flight` of app/repositories/operations.py as transitions, and any sequence
-- of calls.
use maxbot.Base.{
  ◌≡◌, refl, String, Bool, false, not, ◌&&◌, inl, inr, Option, none, some, List, [], ◌∷◌, ℤ, pos,
  leb_ℤ, ltb_ℤ, ◌≤ℤ◌, arith, Result, ok, err, transaction, truthy, strip, is_some, bind_result,
  end_transaction, Bool-cases, fetchone, ◌>>=◌, ◌>>◌, pure, insert,
}
use maxbot.Operations.Rows.{Route, ReceiptRow, Database, Error, OperationRecord}
use maxbot.Operations.Repository.{
  Repo, get_locked, run_guard, claim, mark_in_flight, mark_failed_unsent, retry, mark_unknown,
  mark_accepted,
}
use maxbot.Operations.Create.{
  Creation, choose_id, find_receipt, new_operation, insert_operation, insert_receipt, is_receipt,
  add_receipt, reserve, answer_or_reserve, create, recover_each, in_flight_ids, recover_in_flight,
}
use maxbot.Operations.Steps.{row_of, reserve_step, Steps, done, more, Steps-trans}
use maxbot.Operations.Outcomes.{
  Moves, end_write, guarded, claim-Moves, mark_in_flight-Moves, mark_failed_unsent-Moves,
  retry-Moves, mark_unknown-Moves, mark_accepted-Moves,
}

abbrev pub ReadsOnly : Option (Repo (Unit {0})) → Type 0
ReadsOnly guard = (t : Database) → (run_guard guard t).1 ≡ t

module _ (sha256 : String → String) (now id : String) (guard : Option (Repo (Unit {0})))
    (c : Creation) (s : Database) where
  abbrev inserted : Database
  inserted = record s { operations = insert (new_operation sha256 now id c) s.operations }

  -- Whatever became of the receipt, the row is the only change to the other tables.
  receipt_written :
      (q w : Option String)
      → row_of id s ≡ none
      → pos 0 ≤ℤ c.max_pre_effect_retries
      → Moves s
          (end_transaction s
            (bind_result (λ _. get_locked id) (add_receipt now id c.scope q w inserted))).1
  unfolding add_receipt insert_receipt
  receipt_written (some q) (some w) absent budget =
      elim (Bool-cases (is_some (fetchone (is_receipt c.scope q w) s.command_receipts))) [
        | inl clash ↦ rw clash (inl refl)
        | inr fresh ↦ rw fresh (
            end_write id s _ (
              inr (
                reserve_step (new_operation sha256 now id c) _ absent
                  (record { reserved = refl; unused = refl; budget = budget }) refl)))
      ]
  receipt_written (some q) none absent budget = end_write id s _ (
      inr (
        reserve_step (new_operation sha256 now id c) _ absent
          (record { reserved = refl; unused = refl; budget = budget }) refl))
  receipt_written none w absent budget = end_write id s _ (
      inr (
        reserve_step (new_operation sha256 now id c) _ absent
          (record { reserved = refl; unused = refl; budget = budget }) refl))

  none_of : {A : Type 0} (o : Option A) → is_some o ≡ false → o ≡ none
  none_of none h = refl
  none_of (some a) h = cc

  budget_of : (m : ℤ) → ltb_ℤ m (pos 0) ≡ false → pos 0 ≤ℤ m
  budget_of m h = ground arith

  reserve-Moves : ReadsOnly guard → Moves s (end_transaction s (reserve sha256 now id guard c s)).1
  unfolding reserve insert_operation
  reserve-Moves reads = elim (Bool-cases (truthy (strip c.scope))) [
    | inr blank ↦ rw blank (inl refl)
    | inl scoped ↦ rw scoped (elim (Bool-cases (leb_ℤ c.profile_id (pos 0))) [
      | inl low ↦ rw low (inl refl)
      | inr positive ↦ rw positive (elim (Bool-cases (truthy c.text)) [
        | inr blank ↦ rw blank (inl refl)
        | inl written ↦ rw written (elim (Bool-cases (ltb_ℤ c.max_pre_effect_retries (pos 0))) [
          | inl low ↦ rw low (inl refl)
          | inr budget ↦ rw budget (
              guarded id s
                (λ _.
                  insert_operation (new_operation sha256 now id c)
                  >> (add_receipt now id c.scope c.request_id c.command >> get_locked id))
                (run_guard guard s) (reads s)
                (elim (Bool-cases (is_some (row_of id s))) [
                  | inl clash ↦ rw clash (inl refl)
                  | inr absent ↦ rw absent (
                      receipt_written c.request_id c.command (none_of _ absent)
                        (budget_of _ budget))
                ]))
        ])
      ])
    ])
  ]

  answer-Moves :
      (o : Option ReceiptRow)
      → ReadsOnly guard
      → Moves s (end_transaction s (answer_or_reserve sha256 now id guard c o s)).1
  unfolding answer_or_reserve
  answer-Moves none reads = reserve-Moves reads
  answer-Moves (some receipt) reads = end_write receipt.operation_id s s (inl refl)

pub create-Moves :
    (sha256 : String → String) (now hex : String) (guard : Option (Repo (Unit {0}))) (c : Creation)
    (s : Database)
    → ReadsOnly guard
    → Moves s (create sha256 now hex guard c s).1
unfolding create transaction
create-Moves sha256 now hex guard c s reads =
    elim (Bool-cases (is_some c.request_id && not (is_some c.command))) [
      | inl half ↦ rw half (inl refl)
      | inr fine ↦ rw fine (elim (Bool-cases (is_some c.command && not (is_some c.request_id))) [
        | inl half ↦ rw half (inl refl)
        | inr also ↦ rw also (
            answer-Moves sha256 now (choose_id c.operation_id hex) guard c s
              (find_receipt c.scope c.request_id c.command s) reads)
      ])
    ]

pub Steps-Moves : {s t u : Database} → Steps s t → Moves t u → Steps s u
Steps-Moves a (inl same) = rw same a
Steps-Moves a (inr st) = more a st

consed_state :
    (id : String) (r : Result Error (List String) × Database)
    → (bind_result (λ recovered. pure {S = Database} {E = Error} (id ∷ recovered)) r).1 ≡ r.1
consed_state id (ok ids, t) = refl
consed_state id (err e, t) = refl

then_recover :
    (id : String) (s : Database) (rest : Repo (List String))
    → ((t : Database) → Steps t (rest t).1)
    → (r : Result Error OperationRecord × Database) → Steps s r.1
    → Steps s (bind_result (λ _. rest >>= λ recovered. pure (id ∷ recovered)) r).1
then_recover id s rest each (ok a, t) h = rw (consed_state id (rest t)) (Steps-trans h (each t))
then_recover id s rest each (err e, t) h = h

recover_each-Steps :
    (clock : String → String) (ids : List String) (s : Database)
    → Steps s (recover_each clock ids s).1
unfolding recover_each
recover_each-Steps clock [] s = done
recover_each-Steps clock (id ∷ ids) s =
    then_recover id s (recover_each clock ids) (λ t. recover_each-Steps clock ids t)
      (mark_unknown (clock id) id "recovered abandoned in-flight operation" s)
      (Steps-Moves done
        (mark_unknown-Moves id s (clock id) "recovered abandoned in-flight operation"))

-- The public methods, with what they read of the clock and of `uuid4`.
pub data Call : Type 0 where
  create_call : (String → String) → String → String → Option (Repo (Unit {0})) → Creation → Call
  claim_call : String → String → ℤ → Call
  in_flight_call : String → String → String → Option Route → Call
  failed_call : String → String → String → Call
  retry_call : String → String → Bool → Option (Repo (Unit {0})) → Call
  unknown_call : String → String → String → Call
  accepted_call : String → String → String → Call
  recover_call : (String → String) → Call

-- The tables that a call leaves behind, whether it returns or raises.
unfoldable pub after_call : Call → Database → Database
after_call (create_call sha256 now hex guard c) s = (create sha256 now hex guard c s).1
after_call (claim_call now id profile_id) s = (claim now id profile_id s).1
after_call (in_flight_call now hex id route) s = (mark_in_flight now hex id route s).1
after_call (failed_call now id error) s = (mark_failed_unsent now id error s).1
after_call (retry_call now id proof guard) s = (retry now id proof guard s).1
after_call (unknown_call now id error) s = (mark_unknown now id error s).1
after_call (accepted_call now id provider) s = (mark_accepted now id provider s).1
after_call (recover_call clock) s = (recover_in_flight clock s).1

unfoldable pub after_calls : List Call → Database → Database
after_calls [] s = s
after_calls (c ∷ calls) s = after_calls calls (after_call c s)

-- A caller's guard may raise; it writes nothing to these tables.
abbrev pub GuardReads : Call → Type 0
GuardReads (create_call sha256 now hex guard c) = ReadsOnly guard
GuardReads (retry_call now id proof guard) = ReadsOnly guard
GuardReads _ = Unit

abbrev pub GuardsRead : List Call → Type 0
GuardsRead [] = Unit
GuardsRead (c ∷ calls) = GuardReads c × GuardsRead calls

pub after_call-Steps : (c : Call) (s : Database) → GuardReads c → Steps s (after_call c s)
unfolding after_call recover_in_flight
after_call-Steps (create_call sha256 now hex guard c) s reads =
    Steps-Moves done (create-Moves sha256 now hex guard c s reads)
after_call-Steps (claim_call now id profile_id) s reads =
    Steps-Moves done (claim-Moves id s now profile_id)
after_call-Steps (in_flight_call now hex id route) s reads =
    Steps-Moves done (mark_in_flight-Moves id s now hex route)
after_call-Steps (failed_call now id error) s reads =
    Steps-Moves done (mark_failed_unsent-Moves id s now error)
after_call-Steps (retry_call now id proof guard) s reads =
    Steps-Moves done (retry-Moves id s now proof guard reads)
after_call-Steps (unknown_call now id error) s reads =
    Steps-Moves done (mark_unknown-Moves id s now error)
after_call-Steps (accepted_call now id provider) s reads =
    Steps-Moves done (mark_accepted-Moves id s now provider)
after_call-Steps (recover_call clock) s reads = recover_each-Steps clock (in_flight_ids s) s

-- Whatever the methods are called with, and in whatever order, the tables change only by the
-- transitions of the status machine.
pub after_calls-Steps :
    (calls : List Call) (s : Database) → GuardsRead calls → Steps s (after_calls calls s)
unfolding after_calls
after_calls-Steps [] s reads = done
after_calls-Steps (c ∷ calls) s reads =
    Steps-trans (after_call-Steps c s reads.0) (after_calls-Steps calls (after_call c s) reads.1)
