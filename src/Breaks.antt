-- ===== src/Breaks.antt =====
-- app/campaign_pacing.py, and what main.py saves of it: the circuit breaker and the breaks of an account.
mod Dict
mod Pauses
mod Errors
mod Saves
mod Loads
mod Restart
mod Bursts
mod Tests
