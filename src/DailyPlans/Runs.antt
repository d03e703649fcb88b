-- ===== src/DailyPlans/Runs.antt =====
-- app/repositories/daily_plans.py: runs of a `DailyPlanRepository`, call after call.
use maxbot.Base.{ℕ, String, Bool, Option, ℤ, List, [], ◌∷◌}
use maxbot.DailyPlans.Rows.{SlotStatus, Database}
use maxbot.DailyPlans.Repository.{SlotContent, Given, Creation, create_plan}
use maxbot.DailyPlans.Slots.{fill_waiting_plan, claim_next}
use maxbot.DailyPlans.Outcomes.{
  mark_unknown, mark_failed_unsent, mark_accepted, retry, cancel_queued_for_profile, expire_before,
}
use maxbot.DailyPlans.Keeps.{
  Keeps, Keeps-refl, Keeps-trans, Stays, Stays-Keeps, Advances, Advances-Keeps,
}
use maxbot.DailyPlans.Updates.{SlotStep-Advances}
use maxbot.DailyPlans.Methods.{
  mark_unknown-SlotStep, mark_failed_unsent-SlotStep, mark_accepted-SlotStep, retry-SlotStep,
  cancel_queued_for_profile-SlotStep, expire_before-SlotStep, claim_next-SlotStep,
}
use maxbot.DailyPlans.Creations.{create_plan-Stays, fill_waiting_plan-Stays}

pub data Call : Type 0 where
  create_call : Given → Creation → Call
  fill_call : String → (ℕ → String) → String → ℤ → String → String → List SlotContent → Call
  claim_call : String → String → String → Option (List (ℤ × ℤ)) → Call
  unknown_call : String → String → String → Call
  failed_call : String → String → String → Call
  accepted_call : String → String → Call
  retry_call : String → String → Bool → Call
  cancel_call : String → String → ℤ → String → Call
  expire_call : String → String → String → Call

-- The tables that a call leaves behind, whether it returns or raises.
unfoldable pub after_call : Call → Database → Database
after_call (create_call g c) s = (create_plan g c s).1
after_call (fill_call now hex scope profile_id business_date version_id slots) s =
    (fill_waiting_plan now hex scope profile_id business_date version_id slots s).1
after_call (claim_call now scope business_date eligible) s =
    (claim_next now scope business_date eligible s).1
after_call (unknown_call now id reason) s = (mark_unknown now id reason s).1
after_call (failed_call now id reason) s = (mark_failed_unsent now id reason s).1
after_call (accepted_call now id) s = (mark_accepted now id s).1
after_call (retry_call now id proof_no_send) s = (retry now id proof_no_send s).1
after_call (cancel_call now scope profile_id reason) s =
    (cancel_queued_for_profile now scope profile_id reason s).1
after_call (expire_call now scope business_date) s = (expire_before now scope business_date s).1

unfoldable pub after_calls : List Call → Database → Database
after_calls [] s = s
after_calls (c ∷ calls) s = after_calls calls (after_call c s)

-- What one call is to do to the slots and to the plans of the tables.
abbrev pub Advanced : Call → Database → Database → Type 0
Advanced (create_call g c) s t = Stays s t
Advanced (fill_call now hex scope profile_id business_date version_id slots) s t = Stays s t
Advanced (claim_call now scope business_date eligible) s t = Advances SlotStatus.claimed s t
Advanced (unknown_call now id reason) s t = Advances SlotStatus.unknown s t
Advanced (failed_call now id reason) s t = Advances SlotStatus.failed_unsent s t
Advanced (accepted_call now id) s t = Advances SlotStatus.accepted s t
Advanced (retry_call now id proof_no_send) s t = Advances SlotStatus.queued s t
Advanced (cancel_call now scope profile_id reason) s t = Advances SlotStatus.cancelled s t
Advanced (expire_call now scope business_date) s t = Advances SlotStatus.expired s t

-- Every call of a run does that, from the tables that it finds.
abbrev pub AllAdvance : List Call → Database → Type 0
AllAdvance [] s = Unit
AllAdvance (c ∷ calls) s = Advanced c s (after_call c s) × AllAdvance calls (after_call c s)

after_call-Advanced : (c : Call) (s : Database) → Advanced c s (after_call c s)
unfolding after_call
after_call-Advanced (create_call g c) s = create_plan-Stays g c s
after_call-Advanced (fill_call now hex scope profile_id business_date version_id slots) s =
    fill_waiting_plan-Stays now hex scope profile_id business_date version_id slots s
after_call-Advanced (claim_call now scope business_date eligible) s =
    SlotStep-Advances (claim_next-SlotStep now scope business_date eligible s)
after_call-Advanced (unknown_call now id reason) s =
    SlotStep-Advances (mark_unknown-SlotStep now id s reason)
after_call-Advanced (failed_call now id reason) s =
    SlotStep-Advances (mark_failed_unsent-SlotStep now id s reason)
after_call-Advanced (accepted_call now id) s = SlotStep-Advances (mark_accepted-SlotStep now id s)
after_call-Advanced (retry_call now id proof_no_send) s =
    SlotStep-Advances (retry-SlotStep now id s proof_no_send)
after_call-Advanced (cancel_call now scope profile_id reason) s =
    SlotStep-Advances (cancel_queued_for_profile-SlotStep now s scope profile_id reason)
after_call-Advanced (expire_call now scope business_date) s =
    SlotStep-Advances (expire_before-SlotStep now s scope business_date)

-- The methods refine the slot machine, call by call: whatever they are called with, in whatever
-- order and from whatever tables, each call of claim_next, mark_unknown, mark_failed_unsent,
-- mark_accepted, retry, cancel_queued_for_profile and expire_before leaves a slot as it was or takes
-- it along one edge of the machine, to the status that is the method's own (claimed, unknown,
-- failed_unsent, accepted, queued, cancelled, expired), with its message, its place and its owner
-- kept; creating and filling a plan changes no slot that is there; and every plan is still there,
-- with its owner, its day, its limits and its target.
pub calls_advance_slots : (calls : List Call) (s : Database) → AllAdvance calls s
calls_advance_slots [] s = tt
calls_advance_slots (c ∷ calls) s =
    (after_call-Advanced c s, calls_advance_slots calls (after_call c s))

Advanced-Keeps : (c : Call) (s t : Database) → Advanced c s t → Keeps s t
Advanced-Keeps (create_call g c) s t h = Stays-Keeps s t h
Advanced-Keeps (fill_call now hex scope profile_id business_date version_id slots) s t h =
    Stays-Keeps s t h
Advanced-Keeps (claim_call now scope business_date eligible) s t h =
    Advances-Keeps SlotStatus.claimed s t h
Advanced-Keeps (unknown_call now id reason) s t h = Advances-Keeps SlotStatus.unknown s t h
Advanced-Keeps (failed_call now id reason) s t h = Advances-Keeps SlotStatus.failed_unsent s t h
Advanced-Keeps (accepted_call now id) s t h = Advances-Keeps SlotStatus.accepted s t h
Advanced-Keeps (retry_call now id proof_no_send) s t h = Advances-Keeps SlotStatus.queued s t h
Advanced-Keeps (cancel_call now scope profile_id reason) s t h =
    Advances-Keeps SlotStatus.cancelled s t h
Advanced-Keeps (expire_call now scope business_date) s t h = Advances-Keeps SlotStatus.expired s t h

-- A run keeps every slot and every plan.
pub after_calls-Keeps : (calls : List Call) (s : Database) → Keeps s (after_calls calls s)
unfolding after_calls
after_calls-Keeps [] s = Keeps-refl s
after_calls-Keeps (c ∷ calls) s =
    Keeps-trans s (after_call c s) (after_calls calls (after_call c s))
      (Advanced-Keeps c s (after_call c s) (after_call-Advanced c s))
      (after_calls-Keeps calls (after_call c s))
