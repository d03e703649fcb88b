-- ===== src/Operations/Rules.antt =====
-- Proof rules for the methods of app/repositories/operations.py: a property of the tables that holds
-- before a call holds after it, if it holds wherever the body may stop.
use mathlib.Core.Path.{subst}
use maxbot.Base.{
  ◌≡◌, sym, ap, String, Bool, true, false, not, none, some, arith, Result, ok, err, fmt,
  bind_result,
}
use maxbot.Operations.Rows.{Status, OperationRow, Database, Error, key_error, record_of, eq_status}
use maxbot.Operations.Repository.{answer, get_locked}
use maxbot.Operations.Steps.{row_of}

pub get_locked_missing :
    (id : String) (s : Database)
    → row_of id s ≡ none
    → get_locked id s ≡ (err (key_error (fmt "operation not found: " id)), s)
unfolding get_locked
get_locked_missing id s h = ap (λ o. answer id o s) h

pub get_locked_found :
    (id : String) (s : Database) (r : OperationRow)
    → row_of id s ≡ some r
    → get_locked id s ≡ (ok (record_of s r), s)
unfolding get_locked
get_locked_found id s r h = ap (λ o. answer id o s) h

pub get_locked_state : (id : String) (s : Database) → (get_locked id s).1 ≡ s
unfolding get_locked
get_locked_state id s = ground arith

pub eq_of_status : (a b : Status) → eq_status a b ≡ true → a ≡ b
eq_of_status a b h = ground arith

pub eq_of_not : (a b : Status) → not (eq_status a b) ≡ false → a ≡ b
eq_of_not a b h = ground arith

pub true_of_not : (b : Bool) → not b ≡ false → b ≡ true
true_of_not b h = ground arith

module _ (P : Database → Type 0) (id : String) where
  -- A last read of the row changes nothing.
  pub end_read : (t : Database) → P t → P (get_locked id t).1
  end_read t h = subst P (sym (get_locked_state id t)) h

  pub then_read :
      {A : Type 0} (r : Result Error A × Database)
      → P r.1
      → P (bind_result (λ _. get_locked id) r).1
  then_read (ok a, t) h = end_read t h
  then_read (err e, t) h = h
