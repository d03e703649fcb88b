-- ===== src/LegacyBudget.antt =====
-- app/services/legacy_daily_budget.py: the check of the old counters, before a day's budget is
-- moved to the ledger.
mod Inspect
mod Verified
mod Ready
mod Tests
