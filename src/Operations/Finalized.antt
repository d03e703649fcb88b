-- ===== src/Operations/Finalized.antt =====
-- app/services/operations.py: `finalize_accepted`, and its hooks.
use mathlib.Core.List.{append_assoc, append-nil}
use maxbot.Base.{
  String, Bool, true, false, ◌≡◌, refl, sym, ap, ◌∙◌, arith, clip, List, [], ◌∷◌, ◌++◌, ok, err,
  bind_result,
}
use maxbot.Operations.Rows.{Database, Error, OperationRecord}
use maxbot.Operations.Repository.{mark_accepted}
use maxbot.Operations.Ledger.{
  HookOutcome, Hook, ledger_mark_accepted, add_error, run_hooks, finalize_accepted,
}

abbrev is_caught : HookOutcome → Bool
is_caught (HookOutcome.escaped text) = false
is_caught _ = true

-- No hook raises what is not an `Exception`, when each runs on what the hooks before it left.
abbrev pub NoneEscapes : List Hook → Database → Type 0
NoneEscapes [] s = Unit
NoneEscapes (hook ∷ hooks) s = (is_caught (hook s).0 ≡ true) × NoneEscapes hooks (hook s).1

-- All the hooks, one after the other.
abbrev pub after_hooks : List Hook → Database → Database
after_hooks [] s = s
after_hooks (hook ∷ hooks) s = after_hooks hooks (hook s).1

abbrev text_of : HookOutcome → List String
text_of (HookOutcome.raised text) = clip 500 text ∷ []
text_of _ = []

-- What the hooks that raise have to say, in their order.
abbrev pub texts_of : List Hook → Database → List String
texts_of [] s = []
texts_of (hook ∷ hooks) s = text_of (hook s).0 ++ texts_of hooks (hook s).1

caught-add_error :
    (errors : List String) (o : HookOutcome)
    → is_caught o ≡ true
    → add_error errors o ≡ ok (errors ++ text_of o)
caught-add_error errors HookOutcome.returned h = ap ok (sym (append-nil errors))
caught-add_error errors (HookOutcome.raised text) h = refl
caught-add_error errors (HookOutcome.escaped text) h = absurd (ground (arith, h))

-- Hooks that are caught come before the rest.
run_hooks-++ :
    (hooks rest : List Hook) (errors : List String) (s : Database)
    → NoneEscapes hooks s
    → run_hooks (hooks ++ rest) errors s
      ≡ run_hooks rest (errors ++ texts_of hooks s) (after_hooks hooks s)
unfolding run_hooks
run_hooks-++ [] rest errors s caught = ap (λ l. run_hooks rest l s) (sym (append-nil errors))
run_hooks-++ (hook ∷ hooks) rest errors s caught =
    ap (λ r. bind_result (run_hooks (hooks ++ rest)) (r, (hook s).1))
      (caught-add_error errors (hook s).0 caught.0)
    ∙ run_hooks-++ hooks rest (errors ++ text_of (hook s).0) (hook s).1 caught.1
    ∙ ap (λ l. run_hooks rest l (after_hooks hooks (hook s).1))
        (append_assoc errors (text_of (hook s).0) (texts_of hooks (hook s).1))

-- Housekeeping does not undo an acknowledgement: if `mark_accepted` of the repository returns, and every
-- hook returns or raises an `Exception`, then `finalize_accepted` returns too; every hook has run once,
-- in order, on the tables that `mark_accepted` and the hooks before it left, whichever of these raised;
-- and the answer holds the texts of the exceptions, in order, each cut to 500 characters.
pub finalize_accepted-mark_accepted :
    (now id provider_message_id : String) (hooks : List Hook) (s t : Database) (r : OperationRecord)
    → mark_accepted now id provider_message_id s ≡ (ok r, t)
    → NoneEscapes hooks t
    → finalize_accepted now id provider_message_id hooks s
      ≡ (ok (texts_of hooks t), after_hooks hooks t)
unfolding finalize_accepted ledger_mark_accepted run_hooks
finalize_accepted-mark_accepted now id provider_message_id hooks s t r accepted caught =
    rw accepted
      (ap (λ l. run_hooks l [] t) (sym (append-nil hooks)) ∙ run_hooks-++ hooks [] [] t caught)

-- What is no `Exception` reaches the caller: if `mark_accepted` of the repository returns, and a hook
-- raises what is no `Exception` after hooks that do not, then `finalize_accepted` raises the same, no
-- later hook runs, and the tables are as that hook left them: the acknowledgement is not rolled back.
pub finalize_accepted_escapes :
    (now id provider_message_id : String) (hooks rest : List Hook) (hook : Hook) (text : String)
    (s t : Database) (r : OperationRecord)
    → mark_accepted now id provider_message_id s ≡ (ok r, t)
    → NoneEscapes hooks t
    → (hook (after_hooks hooks t)).0 ≡ HookOutcome.escaped text
    → finalize_accepted now id provider_message_id (hooks ++ hook ∷ rest) s
      ≡ (err (Error.base_exception text), (hook (after_hooks hooks t)).1)
unfolding finalize_accepted ledger_mark_accepted run_hooks
finalize_accepted_escapes now id provider_message_id hooks rest hook text s t r accepted caught
      escapes =
    rw accepted (
      run_hooks-++ hooks (hook ∷ rest) [] t caught
      ∙ ap
          (λ o.
            bind_result (run_hooks rest)
              (add_error (texts_of hooks t) o, (hook (after_hooks hooks t)).1))
          escapes)
