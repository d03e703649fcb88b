-- ===== src/LegacyBudget/Tests.antt =====
-- app/services/legacy_daily_budget.py: a report on a small database.
use mathlib.Core.List.{Memᴰ}
use mathlib.Core.List.Memᴰ.{head, tail}
use maxbot.Base.{
  ℕ, String, Option, none, some, ℤ, pos, true, str_eq, if◌then◌else◌, List, [], ◌∷◌, ◌≡◌, refl,
  truthy, strip, clip, fetchall, rowcount, eq_ℤ,
}
use maxbot.LegacyBudget.Inspect.{
  LegacyBudgetFinding, Profile, SendLog, Connection, review, no_day, ready_finding, is_active,
  sub_ℤ, has_column, order_by_id, classify, inspect_legacy_daily_budgets,
}
use maxbot.LegacyBudget.Verified.{IsVerified}
use maxbot.LegacyBudget.Ready.{ready-IsVerified}

program : Unit {0}
unfolding truthy strip clip fetchall rowcount eq_ℤ sub_ℤ has_column order_by_id classify
    inspect_legacy_daily_budgets
program = tt

abbrev day_number : String → Option ℕ
day_number s =
    if str_eq s "2026-09-01" then some 244 else if str_eq s "2026-08-31" then some 243 else none

abbrev profile : ℕ → String → ℤ → Profile ℤ
profile id sent_day counter = record {
  id = pos id;
  status = "active";
  daily_limit = some (pos 5);
  daily_limit_day = some "2026-09-01T00:00";
  sent_day = some sent_day;
  messages_sent_today = some counter;
}

abbrev sent : SendLog
sent = record { profile_id = some (pos 2); status = "sent"; day = some "2026-09-01" }

-- Out of order: a profile of yesterday, one that agrees with the log, and one that does not.
abbrev database : Connection ℤ
database = record {
  has_profiles = true;
  profiles =
      profile 3 "2026-08-31" (pos 4)
      ∷ profile 2 " 2026-09-01 " (pos 1)
      ∷ profile 1 "2026-09-01" (pos 2)
      ∷ [];
  send_log_columns = "sent_at" ∷ "status" ∷ "profile_id" ∷ [];
  send_log = sent ∷ [];
}

abbrev ready_two : LegacyBudgetFinding
ready_two = ready_finding (pos 2) (pos 5) (pos 1)

abbrev report : List LegacyBudgetFinding
report =
    review (pos 1) (some (pos 5)) "counter_and_accepted_history_disagree"
    ∷ ready_two
    ∷ no_day (pos 3) "counter_belongs_to_previous_day"
    ∷ []

ready-IsVerified_example :
    (day : ℕ) × (p : Profile ℤ) × (day_number "2026-09-01" ≡ some day)
    × Memᴰ p database.profiles
    × (is_active some day_number database "2026-09-01" p ≡ true)
    × IsVerified some day_number database "2026-09-01" day p ready_two
unfolding program
ready-IsVerified_example =
    ready-IsVerified some day_number database "2026-09-01" report ready_two refl (tail (head refl))
      refl
