-- ===== src/Pacing.antt =====
-- app/services/pacing.py: whether an account may send now, and when it may next.
pub mod Policy
mod Deadlines
mod Eligible
mod Rotation
mod Shares
mod Tests
