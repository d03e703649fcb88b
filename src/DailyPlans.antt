-- ===== src/DailyPlans.antt =====
-- app/repositories/daily_plans.py and app/services/daily_plans.py: the plan of an account for a day,
-- and its message slots.
mod Rows
mod Repository
mod Slots
mod Outcomes
mod Machine
mod Keeps
mod Updates
mod Methods
mod Creations
mod Runs
mod Safety
mod Budget
mod Planned
mod Counted
mod Selection
mod Passes
mod Chosen
mod Turns
mod Choices
mod Service
mod Days
mod Filled
mod Targets
mod Materialized
mod Workday
mod Tests
