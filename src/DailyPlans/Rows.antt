-- ===== src/DailyPlans/Rows.antt =====
-- app/repositories/daily_plans.py: the three tables, and the queries on them.
use maxbot.Base.{ℕ, String, Bool, true, false, ◌&&◌, Option, ℤ, eq_ℤ, str_eq, List, []}

pub data SlotStatus : Type 0 where
  queued : SlotStatus
  claimed : SlotStatus
  in_flight : SlotStatus
  unknown : SlotStatus
  failed_unsent : SlotStatus
  accepted : SlotStatus
  cancelled : SlotStatus
  expired : SlotStatus

abbrev pub eq_slot_status : SlotStatus → SlotStatus → Bool
eq_slot_status SlotStatus.queued SlotStatus.queued = true
eq_slot_status SlotStatus.claimed SlotStatus.claimed = true
eq_slot_status SlotStatus.in_flight SlotStatus.in_flight = true
eq_slot_status SlotStatus.unknown SlotStatus.unknown = true
eq_slot_status SlotStatus.failed_unsent SlotStatus.failed_unsent = true
eq_slot_status SlotStatus.accepted SlotStatus.accepted = true
eq_slot_status SlotStatus.cancelled SlotStatus.cancelled = true
eq_slot_status SlotStatus.expired SlotStatus.expired = true
eq_slot_status _ _ = false

pub data PlanStatus : Type 0 where
  waiting_pool : PlanStatus
  active : PlanStatus

abbrev pub is_active : PlanStatus → Bool
is_active PlanStatus.waiting_pool = false
is_active PlanStatus.active = true

-- A row of `daily_cycles`.
pub record CycleRow : Type 0 where
  pub scope : String
  pub business_date : String
  pub cycle_id : String
  pub created_at : String

-- A row of `profile_daily_plans`.
pub record PlanRow : Type 0 where
  pub scope : String
  pub plan_id : String
  pub profile_id : ℤ
  pub business_date : String
  pub role : String
  pub sampled_limit : ℤ
  pub quiet_limit : ℤ
  pub target : ℤ
  pub work_group_id : Option ℤ
  pub version_id : Option String
  pub status : PlanStatus
  pub warning : String
  pub created_at : String

-- A row of `profile_message_slots`.
pub record SlotRow : Type 0 where
  pub slot_id : String
  pub scope : String
  pub plan_id : String
  pub ordinal : ℕ
  pub item_id : String
  pub pass_index : ℕ
  pub version_id : Option String
  pub rendered_text : String
  pub status : SlotStatus
  pub failure_reason : String
  pub retry_count : ℕ
  pub claimed_at : Option String
  pub updated_at : String

pub record Database : Type 0 where
  pub daily_cycles : List CycleRow
  pub profile_daily_plans : List PlanRow
  pub profile_message_slots : List SlotRow

abbrev pub empty_database : Database
empty_database = record { daily_cycles = []; profile_daily_plans = []; profile_message_slots = [] }

-- Python's exceptions, SQLite's, and the service's `PoolEmptyError`, by their text, and the end of the
-- fuel of a loop, which is none of the code's.
pub data Error : Type 0 where
  value_error : String → Error
  runtime_error : String → Error
  key_error : String → Error
  type_error : String → Error
  integrity_error : String → Error
  pool_empty : String → Error
  index_error : String → Error
  out_of_fuel : Error

-- `WHERE scope=? AND business_date=?`
abbrev pub is_cycle_of : String → String → CycleRow → Bool
is_cycle_of scope business_date c = str_eq c.scope scope && str_eq c.business_date business_date

-- `WHERE scope=? AND profile_id=? AND business_date=?`
abbrev pub is_plan_of : String → ℤ → String → PlanRow → Bool
is_plan_of scope profile_id business_date p =
    str_eq p.scope scope && eq_ℤ p.profile_id profile_id && str_eq p.business_date business_date

-- `WHERE plan_id=?`
abbrev pub is_plan : String → PlanRow → Bool
is_plan plan_id p = str_eq p.plan_id plan_id

abbrev pub in_plan : String → SlotRow → Bool
in_plan plan_id s = str_eq s.plan_id plan_id

abbrev pub is_slot : String → SlotRow → Bool
is_slot slot_id s = str_eq s.slot_id slot_id
