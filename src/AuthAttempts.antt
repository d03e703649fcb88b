-- ===== src/AuthAttempts.antt =====
-- app/services/auth_attempts.py: the login attempts of a profile, kept by the process.
mod Stages
mod Store
mod Commands
mod Machine
mod Invariant
mod Moves
mod Refines
mod Starts
mod Runs
mod Safety
mod Inputs
mod Submits
mod Replays
mod Tests
