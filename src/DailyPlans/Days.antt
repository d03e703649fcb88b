-- ===== src/DailyPlans/Days.antt =====
-- app/services/daily_plans.py: `materialize_day`, and the methods of `DailyPlanService` on one slot.
use maxbot.Base.{
  ℕ, ◌+◌, ◌-◌, leb, String, Bool, true, false, ◌&&◌, Option, none, some, ℤ, pos, negsuc, pos_part,
  neg_part, ltb_ℤ, str_eq, if◌then◌else◌, List, [], ◌∷◌, Result, ok, err, Datetime, pure, gets,
  ◌>>=◌, when◌run◌otherwise◌,
}
use maxbot.Pacing.Policy.{effective_daily_target, business_date_utc3}
use maxbot.DailyPlans.Rows.{Database, Error, value_error, pool_empty}
use maxbot.DailyPlans.Repository.{Repo, Plan, get_plan, SlotContent, Given, Creation, create_plan}
use maxbot.DailyPlans.Slots.{Joined, fill_waiting_plan, claim_next}
use maxbot.DailyPlans.Outcomes.{mark_unknown, mark_failed_unsent, mark_accepted, retry}
use maxbot.DailyPlans.Service.{
  LibraryItem, DailyPlanView, view_of, OperationView, operation_view, operation, returned,
  select_slots,
}

-- The arguments of `materialize_day`, with what `rng.shuffle` makes of the items on each pass.
pub record Day : Type 0 where
  pub scope : String
  pub profile_id : ℤ
  pub business_date : String
  pub sampled_limit : ℤ
  pub role : String
  pub quiet_limit : ℤ
  pub work_group_id : Option ℤ
  pub library_items : List LibraryItem
  pub mode : String
  pub shuffle : ℕ → List String → List String
  pub accepted_count : ℤ

abbrev pub difference_ℕ : ℕ → ℕ → ℤ
difference_ℕ m n = if leb n m then pos (m - n) else negsuc (n - m - 1)

-- `a - b`
abbrev pub minus_ℤ : ℤ → ℤ → ℤ
minus_ℤ a b = difference_ℕ (pos_part a + neg_part b) (pos_part b + neg_part a)

abbrev pub first_version : List LibraryItem → Option String
first_version [] = none
first_version (item ∷ items) = some item.version_id

abbrev pub has_items : List LibraryItem → Bool
has_items [] = false
has_items (item ∷ items) = true

abbrev pub creation_with : Day → ℤ → String → List SlotContent → Creation
creation_with d target warning slots = record {
  scope = d.scope;
  profile_id = d.profile_id;
  business_date = d.business_date;
  role = d.role;
  sampled_limit = pos (pos_part d.sampled_limit);
  quiet_limit = pos (pos_part d.quiet_limit);
  target = target;
  work_group_id = d.work_group_id;
  version_id = first_version d.library_items;
  warning = warning;
  slots = slots;
}

abbrev pub with_slots_of : Day → ℤ → Result Error (List SlotContent) → Result Error Creation
with_slots_of d target (err e) = err e
with_slots_of d target (ok slots) = ok (creation_with d target "" slots)

-- The plan for a target that is known.
unfoldable pub plan_for : Day → ℤ → Result Error Creation
unfolding select_slots
plan_for d target =
    if ltb_ℤ (pos 0) target
    then if has_items d.library_items
      then with_slots_of d target (select_slots d.shuffle d.library_items target d.mode)
      else ok (creation_with d target "POOL_EMPTY" [])
    else ok (creation_with d target "" [])

abbrev pub after_target : Day → Result String ℤ → Result Error Creation
after_target d (err message) = err (value_error message)
after_target d (ok base_target) =
    if ltb_ℤ base_target d.accepted_count
    then err (value_error "accepted_count exceeds sampled target")
    else plan_for d (minus_ℤ base_target d.accepted_count)

-- What `materialize_day` asks `create_plan` for.
unfoldable pub creation_of : Day → Result Error Creation
unfolding plan_for effective_daily_target
creation_of d =
    if ltb_ℤ d.accepted_count (pos 0)
    then err (value_error "accepted_count must not be negative")
    else after_target d (effective_daily_target d.sampled_limit d.role d.quiet_limit)

abbrev pub create_new : Given → Day → Repo DailyPlanView
create_new g d = do
  c ← returned (creation_of d)
  created ← create_plan g c
  returned (view_of d.scope created)

abbrev pub no_slots : Plan → Bool
no_slots (p, []) = true
no_slots (p, s ∷ slots) = false

abbrev pub is_unfilled : Plan → Bool
is_unfilled plan = str_eq plan.0.warning "POOL_EMPTY" && no_slots plan

abbrev pub fill_existing : Given → Day → Plan → String → Repo DailyPlanView
fill_existing g d plan version_id = do
  slots ← returned (select_slots d.shuffle d.library_items plan.0.target d.mode)
  filled ← fill_waiting_plan g.now g.slot_hex d.scope d.profile_id d.business_date version_id slots
  returned (view_of d.scope filled)

abbrev pub fill_or_view : Given → Day → Plan → Option String → Repo DailyPlanView
fill_or_view g d plan none = returned (view_of d.scope (some plan))
fill_or_view g d plan (some version_id) =
    when is_unfilled plan
    run fill_existing g d plan version_id
    otherwise returned (view_of d.scope (some plan))

abbrev pub create_or_fill : Given → Day → Option Plan → Repo DailyPlanView
create_or_fill g d none = create_new g d
create_or_fill g d (some plan) = fill_or_view g d plan (first_version d.library_items)

unfoldable pub materialize_day : Given → Day → Repo DailyPlanView
unfolding get_plan create_plan fill_waiting_plan creation_of
materialize_day g d = gets (get_plan d.scope d.profile_id d.business_date) >>= create_or_fill g d

-- What `claim_next_slot` answers: the operation, or the reason to wait.
pub data NextSlot : Type 0 where
  operation_view_of : OperationView → NextSlot
  wait_decision : String → NextSlot

abbrev pub next_slot : Option Joined → NextSlot
next_slot none = NextSlot.wait_decision "waiting_pool_or_no_queued_slot"
next_slot (some row) = NextSlot.operation_view_of (operation_view row)

unfoldable pub claim_next_slot :
    (ℕ → String) → String → String → Datetime → Option (List (ℤ × ℤ)) → Repo NextSlot
unfolding claim_next
claim_next_slot isoformat now_text scope now eligible_assignments =
    claim_next now_text scope (business_date_utc3 isoformat now) eligible_assignments
    >>= (λ row. pure (next_slot row))

unfoldable pub mark_slot_unknown : String → String → String → Repo OperationView
unfolding mark_unknown
mark_slot_unknown now slot_id reason = mark_unknown now slot_id reason >>= operation

unfoldable pub mark_slot_failed_unsent : String → String → String → Repo OperationView
unfolding mark_failed_unsent
mark_slot_failed_unsent now slot_id reason = mark_failed_unsent now slot_id reason >>= operation

unfoldable pub mark_slot_accepted : String → String → Repo OperationView
unfolding mark_accepted
mark_slot_accepted now slot_id = mark_accepted now slot_id >>= operation

-- `except RuntimeError as exc: raise PoolEmptyError(str(exc))`
abbrev pub as_pool_empty : {A : Type 0} → Result Error A × Database → Result Error A × Database
as_pool_empty (err (Error.runtime_error message), s) = (err (pool_empty message), s)
as_pool_empty (r, s) = (r, s)

unfoldable pub retry_slot : String → String → Bool → Repo OperationView
unfolding retry
retry_slot now slot_id proof_no_send =
    (λ s. as_pool_empty (retry now slot_id proof_no_send s)) >>= operation
