-- ===== src/DailyPlans/Outcomes.antt =====
-- app/repositories/daily_plans.py: the outcomes of message slots, `retry` and the methods on many slots.
use maxbot.Base.{
  ℕ, ◌+◌, String, Bool, true, not, ◌&&◌, ◌||◌, Option, none, some, ℤ, eq_ℤ, str_eq, str_lt, is_some,
  clip, ok, pure, gets, or_raise, transaction, ◌>>=◌, ◌>>◌, raise_if, when◌run◌otherwise◌, modify,
  fetchone, rowcount,
}
use maxbot.DailyPlans.Rows.{
  SlotStatus, eq_slot_status, is_active, PlanRow, SlotRow, Database, runtime_error, key_error,
  is_plan, is_slot,
}
use maxbot.DailyPlans.Repository.{Repo}
use maxbot.DailyPlans.Slots.{Joined, get_slot, update_slots}

-- `self.get_slot(slot_id)`, with the `KeyError` of a slot that is not there.
abbrev pub find_slot : String → Repo Joined
find_slot slot_id db = or_raise (get_slot slot_id db) (key_error "slot not found") db

abbrev pub read_slot : String → Unit {0} → Repo (Option Joined)
read_slot slot_id u = gets (get_slot slot_id)

abbrev pub is_open : SlotStatus → Bool
is_open s = eq_slot_status s SlotStatus.claimed || eq_slot_status s SlotStatus.in_flight

-- The body that `mark_unknown`, `mark_failed_unsent` and `mark_accepted` share: an outcome that is
-- settled stays, an open slot is updated, and any other raises.
-- The methods that return early answer with the row as it is, which is what `get_slot` reads after.
unfoldable pub settle :
    (SlotStatus → Bool) → String → (SlotRow → SlotRow) → String → Joined → Repo (Unit {0})
settle is_settled message f slot_id row = when is_settled row.0.status run pure tt otherwise do
  raise_if (not (is_open row.0.status)) (runtime_error message)
  modify (update_slots (is_slot slot_id) f)

abbrev pub unknown_settled : SlotStatus → Bool
unknown_settled s = eq_slot_status s SlotStatus.unknown || eq_slot_status s SlotStatus.accepted

abbrev pub set_unknown : String → String → SlotRow → SlotRow
set_unknown now reason s = record s {
  status = SlotStatus.unknown;
  failure_reason = clip 500 reason;
  updated_at = now;
}

unfoldable pub mark_unknown : String → String → String → Repo (Option Joined)
unfolding settle get_slot
mark_unknown now slot_id reason =
    transaction (
      find_slot slot_id
      >>= settle unknown_settled "slot is not externally ambiguous" (set_unknown now reason)
          slot_id)
    >>= read_slot slot_id

abbrev pub unsent_settled : SlotStatus → Bool
unsent_settled s = eq_slot_status s SlotStatus.failed_unsent || eq_slot_status s SlotStatus.accepted

abbrev pub set_failed_unsent : String → String → SlotRow → SlotRow
set_failed_unsent now reason s = record s {
  status = SlotStatus.failed_unsent;
  failure_reason = clip 500 reason;
  updated_at = now;
}

unfoldable pub mark_failed_unsent : String → String → String → Repo (Option Joined)
unfolding settle get_slot
mark_failed_unsent now slot_id reason =
    transaction (
      find_slot slot_id
      >>= settle unsent_settled "slot is not currently claimed" (set_failed_unsent now reason)
          slot_id)
    >>= read_slot slot_id

abbrev pub accepted_settled : SlotStatus → Bool
accepted_settled s = eq_slot_status s SlotStatus.accepted

abbrev pub set_accepted : String → SlotRow → SlotRow
set_accepted now s = record s { status = SlotStatus.accepted; updated_at = now }

unfoldable pub mark_accepted : String → String → Repo (Option Joined)
unfolding settle get_slot
mark_accepted now slot_id =
    transaction (
      find_slot slot_id
      >>= settle accepted_settled "slot is not claimable" (set_accepted now) slot_id)
    >>= read_slot slot_id

abbrev pub is_retryable : SlotStatus → Bool
is_retryable s = eq_slot_status s SlotStatus.claimed || eq_slot_status s SlotStatus.failed_unsent

abbrev pub set_retried : String → SlotRow → SlotRow
set_retried now s = record s {
  status = SlotStatus.queued;
  retry_count = s.retry_count + 1;
  failure_reason = "";
  updated_at = now;
}

-- The body of `retry`'s transaction, with the row.
unfoldable pub requeue : String → String → Joined → Repo (Unit {0})
requeue now slot_id row = do
  raise_if (not (is_retryable row.0.status)) (runtime_error "slot is not safely retryable")
  modify (update_slots (is_slot slot_id) (set_retried now))

unfoldable pub retry : String → String → Bool → Repo (Option Joined)
unfolding requeue get_slot
retry now slot_id proof_no_send =
    raise_if (not proof_no_send) (runtime_error "explicit proof_no_send is required")
    >> (transaction (find_slot slot_id >>= requeue now slot_id) >>= read_slot slot_id)

-- `plan_id IN (SELECT plan_id FROM profile_daily_plans WHERE …)`
abbrev pub plan_in : (PlanRow → Bool) → Database → SlotRow → Bool
plan_in test db s = is_some (fetchone (λ p. is_plan s.plan_id p && test p) db.profile_daily_plans)

abbrev pub is_cancellable : String → ℤ → Database → SlotRow → Bool
is_cancellable scope profile_id db s =
    str_eq s.scope scope
    && eq_slot_status s.status SlotStatus.queued
    && plan_in (λ p. str_eq p.scope scope && eq_ℤ p.profile_id profile_id && is_active p.status) db
        s

abbrev pub set_cancelled : String → String → SlotRow → SlotRow
set_cancelled now reason s = record s {
  status = SlotStatus.cancelled;
  failure_reason = clip 500 reason;
  updated_at = now;
}

-- An UPDATE of some slots, and its `cursor.rowcount`.
abbrev pub update_counted : (Database → SlotRow → Bool) → (SlotRow → SlotRow) → Repo ℕ
update_counted q f db = (ok (rowcount (q db) db.profile_message_slots), update_slots (q db) f db)

unfoldable pub cancel_queued_for_profile : String → String → ℤ → String → Repo ℕ
cancel_queued_for_profile now scope profile_id reason =
    transaction (update_counted (is_cancellable scope profile_id) (set_cancelled now reason))

abbrev pub is_expirable : String → String → Database → SlotRow → Bool
is_expirable scope business_date db s =
    str_eq s.scope scope
    && eq_slot_status s.status SlotStatus.queued
    && plan_in (λ p. str_lt p.business_date business_date) db s

abbrev pub set_expired : String → SlotRow → SlotRow
set_expired now s = record s {
  status = SlotStatus.expired;
  failure_reason = "date_expired";
  updated_at = now;
}

unfoldable pub expire_before : String → String → String → Repo ℕ
expire_before now scope business_date =
    transaction (update_counted (is_expirable scope business_date) (set_expired now))

abbrev has_status : Option SlotStatus → SlotRow → Bool
has_status none s = true
has_status (some status) s = eq_slot_status s.status status

unfoldable pub count_slots : String → Option SlotStatus → Database → ℕ
count_slots scope status db =
    rowcount (λ s. str_eq s.scope scope && has_status status s) db.profile_message_slots
