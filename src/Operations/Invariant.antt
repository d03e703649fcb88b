-- ===== src/Operations/Invariant.antt =====
-- What the four tables of app/repositories/operations.py say together about one operation, and that
-- every transition keeps it so.
use mathlib.Core.Path.{subst}
use maxbot.Base.{
  ◌≡◌, refl, sym, ap, ◌∙◌, ◌≢◌, String, Bool, true, Option, none, some, List, [], ◌∷◌, pos, ◌≤ℤ◌,
  arith, str_eq, eq_iff, fetchone, update_where, key_of_fetchone, fetchone-update_self,
  fetchone-update_ne, Bool-cases, truthy, ◌⊎◌, inl, inr,
}
use maxbot.Operations.Rows.{
  Status, AttemptState, OperationRow, AttemptRow, AccountingRow, Database, is_operation,
}
use maxbot.Operations.Repository.{update_operation}
use maxbot.Operations.Steps.{row_of, attempts_of, accounting_of}

-- One attempt, the first, in the given state.
pub record OneAttempt (state : AttemptState) (rows : List AttemptRow) : Type 0 where
  pub attempt : AttemptRow
  pub only : rows ≡ attempt ∷ []
  pub first : attempt.attempt_no ≡ 1
  pub in_state : attempt.state ≡ state

pub record IsAccounted (provider : String) (entry : Option AccountingRow) : Type 0 where
  pub row : AccountingRow
  pub there : entry ≡ some row
  pub same_id : row.provider_message_id ≡ provider

-- What a status means for the attempts and for the accounting.
abbrev pub Phase : Status → String → List AttemptRow → Option AccountingRow → Type 0
Phase Status.in_flight provider rows entry = OneAttempt AttemptState.in_flight rows × (entry ≡ none)
Phase Status.unknown provider rows entry = OneAttempt AttemptState.unknown rows × (entry ≡ none)
Phase Status.accepted provider rows entry =
    OneAttempt AttemptState.accepted rows × IsAccounted provider entry × (truthy provider ≡ true)
Phase _ provider rows entry = (rows ≡ []) × (entry ≡ none)

abbrev pub Agrees : Option OperationRow → List AttemptRow → Option AccountingRow → Type 0
Agrees none rows entry = (rows ≡ []) × (entry ≡ none)
Agrees (some r) rows entry =
    Phase r.status r.provider_message_id rows entry
    × (pos r.pre_effect_retry_count ≤ℤ r.max_pre_effect_retries)

abbrev pub AgreesAt : Database → String → Type 0
AgreesAt db id = Agrees (row_of id db) (attempts_of id db) (accounting_of id db)

abbrev pub IsConsistent : Database → Type 0
IsConsistent db = (id : String) → AgreesAt db id

-- The tables agree on `j` as before if none of its rows changed.
agrees_kept :
    (s t : Database) (j : String)
    → row_of j t ≡ row_of j s
    → attempts_of j t ≡ attempts_of j s
    → accounting_of j t ≡ accounting_of j s
    → AgreesAt s j
    → AgreesAt t j
agrees_kept s t j rows attempts entry h = rw (rows, attempts, entry) h

-- To know what the tables say of `id`, put in the rows that they hold.
pub agrees_from :
    (t : Database) (j : String) (o : Option OperationRow) (rows : List AttemptRow)
    (entry : Option AccountingRow)
    → row_of j t ≡ o
    → attempts_of j t ≡ rows
    → accounting_of j t ≡ entry
    → Agrees o rows entry
    → AgreesAt t j
agrees_from t j o rows entry e f g h = rw (e, f, g) h

-- What is known of an operation whose row was found.
pub agrees_at_row :
    (s : Database) (id : String) (r : OperationRow)
    → row_of id s ≡ some r
    → AgreesAt s id
    → Agrees (some r) (attempts_of id s) (accounting_of id s)
agrees_at_row s id r found h = subst (λ o. Agrees o (attempts_of id s) (accounting_of id s)) found h

pub id_cases : (j id : String) → (j ≡ id) ⊎ (j ≢ id)
id_cases j id = elim (Bool-cases (str_eq j id)) [
  | inl same ↦ inl ((eq_iff j id).0 same)
  | inr other ↦ inr (λ e. ground (arith, eq_iff j id))
]

-- A change of the rows of one operation only.
pub change-IsConsistent :
    (s t : Database) (id : String)
    → ((j : String) → j ≢ id → row_of j t ≡ row_of j s)
    → ((j : String) → j ≢ id → attempts_of j t ≡ attempts_of j s)
    → ((j : String) → j ≢ id → accounting_of j t ≡ accounting_of j s)
    → AgreesAt t id
    → IsConsistent s
    → IsConsistent t
change-IsConsistent s t id rows attempts entry at h j = elim (id_cases j id) [
  | inl same ↦ subst (AgreesAt t) (sym same) at
  | inr other ↦ agrees_kept s t j (rows j other) (attempts j other) (entry j other) (h j)
]

abbrev pub operation_key : OperationRow → String
operation_key r = r.operation_id

abbrev pub attempt_key : AttemptRow → String
attempt_key a = a.operation_id

abbrev pub accounting_key : AccountingRow → String
accounting_key a = a.operation_id

-- An UPDATE of one row of `operations`.
pub row_update-IsConsistent :
    (s : Database) (id : String) (r : OperationRow)
    → row_of id s ≡ some r
    → (q : OperationRow → Bool) (f : OperationRow → OperationRow)
    → ((x : OperationRow) → (f x).operation_id ≡ x.operation_id)
    → ((x : OperationRow) → q x ≡ true → x.operation_id ≡ id)
    → q r ≡ true
    → Agrees (some (f r)) (attempts_of id s) (accounting_of id s)
    → IsConsistent s
    → IsConsistent (record s { operations = update_where q f s.operations })
row_update-IsConsistent s id r found q f keeps only fits at =
    change-IsConsistent s (record s { operations = update_where q f s.operations }) id
      (λ j other. fetchone-update_ne operation_key q f keeps id j s.operations only other)
      (λ j other. refl) (λ j other. refl)
      (agrees_from (record s { operations = update_where q f s.operations }) id (some (f r)) _ _
        (fetchone-update_self operation_key q f keeps id s.operations found fits) refl refl at)

-- The same with `WHERE operation_id=?`, on tables whose attempts and accounting changed at `id`.
module _ (s t : Database) (id : String) (r : OperationRow) (f : OperationRow → OperationRow) where
  pub keyed_update-IsConsistent :
      row_of id s ≡ some r
      → ((x : OperationRow) → (f x).operation_id ≡ x.operation_id)
      → t.operations ≡ s.operations
      → ((j : String) → j ≢ id → attempts_of j t ≡ attempts_of j s)
      → ((j : String) → j ≢ id → accounting_of j t ≡ accounting_of j s)
      → Agrees (some (f r)) (attempts_of id t) (accounting_of id t)
      → IsConsistent s
      → IsConsistent (update_operation id f t)
  keyed_update-IsConsistent found keeps same attempts entry at =
      change-IsConsistent s (update_operation id f t) id
        (λ j other.
          fetchone-update_ne operation_key (is_operation id) f keeps id j t.operations
            (λ x. (eq_iff x.operation_id id).0) other
          ∙ ap (fetchone (is_operation j)) same)
        attempts entry
        (agrees_from (update_operation id f t) id (some (f r)) _ _
          (fetchone-update_self operation_key (is_operation id) f keeps id t.operations
            (ap (fetchone (is_operation id)) same ∙ found)
            ((eq_iff r.operation_id id).1 (key_of_fetchone operation_key id s.operations found)))
          refl refl at)
