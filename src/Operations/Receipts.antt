-- ===== src/Operations/Receipts.antt =====
-- app/repositories/operations.py: `create` is idempotent under a request id.
use mathlib.Core.Path.{subst}
use maxbot.Base.{
  ◌≡◌, refl, sym, ◌∙◌, ap, String, true, false, not, ◌&&◌, Option, none, some, List, [], ◌∷◌, arith,
  ok, eq_iff, transaction, truthy, strip, is_some, fetchone, insert, bind-eq-ok, checked-eq-ok,
  end_transaction-eq-ok, ltb_ℤ, leb_ℤ, pos,
}
use maxbot.Operations.Rows.{OperationRecord, ReceiptRow, Database}
use maxbot.Operations.Repository.{Repo, get_locked, run_guard}
use maxbot.Operations.Create.{
  Creation, choose_id, find_receipt, is_receipt, insert_receipt, add_receipt, insert_operation,
  new_operation, reserve, answer_or_reserve, create,
}
use maxbot.Operations.Rules.{get_locked_state}

-- A receipt that was inserted is found by its key.
receipt-insert :
    (scope q w : String) (row : ReceiptRow) (rows : List ReceiptRow)
    → is_some (fetchone (is_receipt scope q w) rows) ≡ false
    → is_receipt scope q w row ≡ true
    → fetchone (is_receipt scope q w) (insert row rows) ≡ some row
unfolding fetchone
receipt-insert scope q w row [] h fits = ground arith
receipt-insert scope q w row (x ∷ rows) h fits = ground (arith, receipt-insert scope q w row rows)

fits_itself :
    (scope q w : String) (row : ReceiptRow)
    → row.scope ≡ scope
    → row.request_id ≡ q
    → row.command ≡ w
    → is_receipt scope q w row ≡ true
fits_itself scope q w row e f g =
    ground (arith, eq_iff row.scope scope, eq_iff row.request_id q, eq_iff row.command w)

module _ (now id scope q w : String) where
  abbrev receipt : ReceiptRow
  receipt = record {
    scope = scope;
    request_id = q;
    command = w;
    operation_id = id;
    created_at = now;
  }

  -- After a receipt is written, its key leads to the operation.
  receipt_found :
      (s : Database) {t : Database}
      → insert_receipt receipt s ≡ (ok tt, t)
      → find_receipt scope (some q) (some w) t ≡ some receipt
  unfolding insert_receipt
  receipt_found s {t} h = ground (
    arith,
    receipt-insert scope q w receipt s.command_receipts,
    fits_itself scope q w receipt refl refl refl,
  )

receipt_then_read :
    (now id scope q w : String) (v x t : Database) (o p : Option String) {r : OperationRecord}
    {done : Unit {0}}
    → o ≡ some q
    → p ≡ some w
    → add_receipt now id scope o p v ≡ (ok done, x)
    → get_locked id x ≡ (ok r, t)
    → (find_receipt scope (some q) (some w) t ≡ some (receipt now id scope q w))
      × (get_locked id t ≡ (ok r, t))
unfolding add_receipt
receipt_then_read now id scope q w v x t o p {r} {done} asked named written read =
    let same : x ≡ t = sym (get_locked_state id x) ∙ ap (λ y. y.1) read in
    let both =
      subst (λ k. add_receipt now id scope (some q) k v ≡ (ok done, x)) named
        (subst (λ k. add_receipt now id scope k p v ≡ (ok done, x)) asked written) in
    (
      subst (λ y. find_receipt scope (some q) (some w) y ≡ some (receipt now id scope q w)) same
          (receipt_found now id scope q w v both),
      subst (λ y. get_locked id y ≡ (ok r, t)) same read,
    )

reserve-receipt :
    (sha256 : String → String) (now id : String) (guard : Option (Repo (Unit {0}))) (c : Creation)
    (q w : String) (s : Database) {r : OperationRecord} {t : Database}
    → c.request_id ≡ some q
    → c.command ≡ some w
    → reserve sha256 now id guard c s ≡ (ok r, t)
    → (find_receipt c.scope (some q) (some w) t ≡ some (receipt now id c.scope q w))
      × (get_locked id t ≡ (ok r, t))
unfolding reserve
reserve-receipt sha256 now id guard c q w s {r} {t} asked named h =
    let a = checked-eq-ok (not (truthy (strip c.scope))) _ s _ h in
    let a = checked-eq-ok (leb_ℤ c.profile_id (pos 0)) _ s _ a in
    let a = checked-eq-ok (not (truthy c.text)) _ s _ a in
    let a = checked-eq-ok (ltb_ℤ c.max_pre_effect_retries (pos 0)) _ s _ a in
    let (_, u, _, a) = bind-eq-ok _ (run_guard guard s) a in
    let (_, v, _, a) = bind-eq-ok _ (insert_operation (new_operation sha256 now id c) u) a in
    let (_, x, written, a) = bind-eq-ok _ (add_receipt now id c.scope c.request_id c.command v) a in
    receipt_then_read now id c.scope q w v x t _ _ asked named written a

some_of : {A : Type 0} {a : A} (o : Option A) → o ≡ some a → is_some o ≡ true
some_of o h = rw h

same_key :
    (scope scope' : String) (o p : Option String) (q w : String) (t : Database) (e : ReceiptRow)
    → scope ≡ scope'
    → o ≡ some q
    → p ≡ some w
    → find_receipt scope' (some q) (some w) t ≡ some e
    → find_receipt scope o p t ≡ some e
same_key scope scope' o p q w t e a b c h = rw (a, b, c) h

-- A call that finds its receipt reads the operation that it names.
answered :
    (sha256 : String → String) (now hex : String) (guard : Option (Repo (Unit {0}))) (c : Creation)
    (t : Database) {r : OperationRecord} (e : ReceiptRow)
    → is_some c.request_id ≡ true
    → is_some c.command ≡ true
    → find_receipt c.scope c.request_id c.command t ≡ some e
    → get_locked e.operation_id t ≡ (ok r, t)
    → create sha256 now hex guard c t ≡ (ok r, t)
unfolding create transaction answer_or_reserve
answered sha256 now hex guard c t e asked named found read = rw (asked, named) (rw found (rw read))

module _ (sha256 sha256' : String → String) (now now' hex hex' : String)
    (guard guard' : Option (Repo (Unit {0}))) (c c' : Creation) (q w : String) (s : Database) where
  -- The receipt that a successful `create` leaves, whether it found it or wrote it.
  created_receipt :
      (o : Option ReceiptRow) {r : OperationRecord} {t : Database} (id : String)
      → find_receipt c.scope (some q) (some w) s ≡ o
      → c.request_id ≡ some q
      → c.command ≡ some w
      → answer_or_reserve sha256 now id guard c o s ≡ (ok r, t)
      → (e : ReceiptRow) × (find_receipt c.scope (some q) (some w) t ≡ some e)
        × (get_locked e.operation_id t ≡ (ok r, t))
  unfolding answer_or_reserve
  created_receipt none {r} {t} id found asked named h =
      let (a, b) = reserve-receipt sha256 now id guard c q w s asked named h in
      (receipt now id c.scope q w, a, b)
  created_receipt (some e) {r} {t} id found asked named h =
      let same : s ≡ t = sym (get_locked_state e.operation_id s) ∙ ap (λ y. y.1) h in
      (
        e,
        subst (λ y. find_receipt c.scope (some q) (some w) y ≡ some e) same found,
        subst (λ y. get_locked e.operation_id y ≡ (ok r, t)) same h,
      )

  first_call :
      {r : OperationRecord} {t : Database}
      → create sha256 now hex guard c s ≡ (ok r, t)
      → answer_or_reserve sha256 now
          (choose_id c.operation_id hex)
          guard
          c
          (find_receipt c.scope c.request_id c.command s)
          s
        ≡ (ok r, t)
  unfolding create transaction
  first_call h = end_transaction-eq-ok s _ (
      checked-eq-ok (is_some c.command && not (is_some c.request_id)) _ s _
        (checked-eq-ok (is_some c.request_id && not (is_some c.command)) _ s _ h))

  -- `create` is idempotent under a request id: after a call with a request id and a command has
  -- returned a record, any later call with the same scope, request id and command, on the tables
  -- that the first left, returns the same record and writes nothing, whatever its other arguments,
  -- guard, clock and uuid are.
  pub create_again :
      {r : OperationRecord} {t : Database}
      → c.request_id ≡ some q
      → c.command ≡ some w
      → c'.scope ≡ c.scope
      → c'.request_id ≡ some q
      → c'.command ≡ some w
      → create sha256 now hex guard c s ≡ (ok r, t)
      → create sha256' now' hex' guard' c' t ≡ (ok r, t)
  create_again {r} {t} asked named same asked' named' h =
      let (e, found, read) =
        created_receipt (find_receipt c.scope c.request_id c.command s)
          (choose_id c.operation_id hex) (rw (asked, named)) asked named (first_call h) in
      answered sha256' now' hex' guard' c' t e (some_of _ asked') (some_of _ named')
        (same_key c'.scope c.scope c'.request_id c'.command q w t e same asked' named' found) read
