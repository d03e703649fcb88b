-- ===== src/Breaks/Saves.antt =====
-- main.py: the table in which the state of an account is saved, and the load of its row. A table is a
-- list of rows with the account that each is of; what `isoformat(timespec="seconds")` writes is an
-- argument.
use mathlib.Core.Option
use maxbot.Base.{
  ℕ, leb, String, Bool, not, ◌&&◌, Option, none, some, ℤ, is_some, if◌then◌else◌, List,
}
use maxbot.Breaks.Dict.{get, put, pop}
use maxbot.Breaks.Pauses.{Runtime, Breaker, AntibanRow, errors_of, burst_of, load_antiban_row}

-- The values of the row of an account.
abbrev pub saved_row : (ℕ → String) → ℤ → Runtime → AntibanRow
saved_row isoformat profile_id rt = record {
  burst_count = burst_of profile_id rt;
  break_until_raw = Option.map isoformat (get profile_id rt.human_break_until);
  consecutive_errors = errors_of profile_id rt;
  circuit_opened_at = get profile_id rt.circuit_opened_at;
}

abbrev pub has_no_state : ℤ → Runtime → Bool
has_no_state profile_id rt =
    leb (burst_of profile_id rt) 0
    && not (is_some (get profile_id rt.human_break_until))
    && leb (errors_of profile_id rt) 0
    && not (is_some (get profile_id rt.circuit_opened_at))

unfoldable pub persist_antiban_profile :
    (ℕ → String) → ℤ → Runtime → List (ℤ × AntibanRow) → List (ℤ × AntibanRow)
unfolding get put pop
persist_antiban_profile isoformat profile_id rt table =
    if has_no_state profile_id rt
    then pop profile_id table
    else put profile_id (saved_row isoformat profile_id rt) table

-- What `_load_antiban_state` does for one account.
abbrev pub load_saved :
    Breaker → (String → Option ℕ) → ℕ → ℕ → ℤ → Option AntibanRow → Runtime → Runtime
load_saved b fromisoformat now wall profile_id none rt = rt
load_saved b fromisoformat now wall profile_id (some row) rt =
    load_antiban_row b fromisoformat now wall profile_id row rt
