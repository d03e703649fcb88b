-- ===== src/Lib.antt =====
-- maxbot: the parts of the server that decide whether a message is sent, and who may log in.
--
-- maxbot drives MAX messenger accounts: an HTTP application (main.py, app/routes_*.py) keeps
-- profiles, groups and campaigns; a worker (app/campaign_worker.py, app/campaign_send.py) takes
-- the next message of a campaign, reserves an operation in the ledger, calls the messenger and
-- records the outcome; a login goes through a store of attempts while an adapter talks to the
-- messenger. What must never go wrong is in two places, and these are modelled, with the
-- messages that are planned for a day, the breaks of an account, the report that decides whether
-- an old daily budget may be carried over, and the policy that lets an account send.
--
-- The ledger of sends. app/repositories/operations.py is Operations: Rows has the four tables
-- and the records, Repository and Create the methods of OperationRepository, one definition per
-- method under the name of the method. A table is a list of rows in insertion order, a
-- transaction is an action that rolls back when it raises (Base/Effects), an UPDATE or a SELECT
-- is a function on lists (Base/Sql). Steps is the status machine, as a relation on the tables;
-- Outcomes, Runs and Traces relate the methods to it, call by call; Invariant, Preserved,
-- Accepted, Safety and Terminal build on that; Receipts is about request ids.
-- app/services/operations.py is Ledger: the methods of OperationLedger on the repository, under
-- the name of the method with ledger_ before it where the repository has the name; Finalized is
-- about finalize_accepted and its hooks; a hook may also raise what is no Exception.
--
-- The store of logins. app/services/auth_attempts.py is AuthAttempts: Stages has the stages, the
-- attempt and its view, the clock and the checks of keys and request ids; Store the private
-- methods of AuthAttemptStore; Commands the public ones. A dictionary is a function of its key,
-- and an attempt that a method mutates is written back under the key it was found by, which is
-- the one reference to it. Each method runs under one lock, so calls follow one another. Machine
-- is the stage machine and the steps of the store, Moves, Refines and Starts relate the methods
-- to them, Runs composes calls, and Invariant, Safety, Inputs, Submits and Replays build on
-- that.
--
-- The report on old budgets. app/services/legacy_daily_budget.py is LegacyBudget: Inspect has
-- the report, one definition for each part of its loop, over the rows that the connection shows;
-- Verified and Ready are about the findings that are called ready.
--
-- The plan of a day. app/repositories/daily_plans.py is DailyPlans: Rows has the three tables,
-- Repository, Slots and Outcomes the methods of DailyPlanRepository. Machine is the status
-- machine of a slot, as a relation on its rows; Keeps, Methods and Creations relate the methods
-- to it, Runs composes calls and Safety builds on that; Updates is what the methods on slots
-- have in common; Budget, Planned, Counted and Filled are about plans and the number of their
-- slots. app/services/daily_plans.py is also there: Selection is select_daily_items, Service and
-- Days the methods of DailyPlanService; Passes, Chosen, Turns and Choices are about the
-- selection, Targets and Materialized about materialize_day, and Workday composes requests to
-- the service. Two other modules, app/routes_groups.py and app/services/weekly_schedule.py,
-- cancel queued slots by an UPDATE of their own, which is not a call of the repository.
--
-- The pacing of one account. app/services/pacing.py is Pacing: Policy has the daily target, the
-- next allowed time and evaluate_eligibility, Deadlines and Eligible are about them; Rotation
-- and Shares are split_thirds, role_rotation_for_part and split_role_counts of antiban_core.py.
-- The delays of next_allowed_at are in microseconds, as timedelta rounds them.
--
-- The breaks of an account. app/campaign_pacing.py is Breaks: Dict has the dictionaries of
-- app/campaign_runtime.py, Pauses one definition for each function; Saves has the table in which
-- main.py saves an account, with _persist_antiban_profile and what _load_antiban_state does for
-- one row; Errors, Bursts, Loads and Restart are about the circuit breaker, the breaks after so
-- many messages, and what a process finds when it starts again. Floats are taken to be exact,
-- settings of a time not to be negative, and the two callbacks, persist and log, to return;
-- their calls are written down.
--
-- What the code takes from outside is an argument: the text that _now() gives, the clock, what
-- uuid4().hex gives, sha256, and the guard that a caller of create or retry passes. Where a
-- theorem needs something of it, that is a hypothesis: a guard must only read these tables, and
-- a new attempt must get an id that no attempt has. Integers of the code are ℤ, or ℕ where the
-- code only counts up; instants are in microseconds, and the end of the calendar of datetime is
-- not modelled. Text is by code points; str.strip strips what str.isspace accepts. Every
-- definition is total, by structural recursion, and one has fuel: the loop of
-- select_daily_items, which gets as much as there are messages to select, since a pass selects
-- one at least. What rng.shuffle makes of the items on each pass is an argument, which must
-- rearrange them.
--
-- Not modelled are the other parts of the server: HTTP routes, permissions, the vault, the
-- PostgreSQL adapter, the rest of pacing, weekly schedules, the campaign worker, the browser
-- client, scripts and migrations. The JSON of a route snapshot is held decoded, and the JSON
-- projections of an attempt are left out.
pub mod Base
pub mod Operations
pub mod AuthAttempts
pub mod LegacyBudget
pub mod Pacing
pub mod DailyPlans
pub mod Breaks
