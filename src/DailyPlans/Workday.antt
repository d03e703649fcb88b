-- ===== src/DailyPlans/Workday.antt =====
-- app/services/daily_plans.py: runs of a `DailyPlanService`, request after request.
use maxbot.Base.{
  ℕ, String, Bool, Option, none, some, ◌≡◌, refl, sym, arith, ℤ, List, [], ◌∷◌, Result, ok, err,
  Datetime, bind_result, fetchone, fetchall,
}
use mathlib.Core.Path.{subst}
use maxbot.Pacing.Policy.{business_date_utc3}
use maxbot.DailyPlans.Rows.{SlotStatus, Database, Error, empty_database}
use maxbot.DailyPlans.Repository.{Given}
use maxbot.DailyPlans.Slots.{Joined, claim_next}
use maxbot.DailyPlans.Outcomes.{
  mark_unknown, mark_failed_unsent, mark_accepted, retry, cancel_queued_for_profile, expire_before,
}
use maxbot.DailyPlans.Budget.{IsPlanned}
use maxbot.DailyPlans.Updates.{SlotStep, SlotStep-IsPlanned}
use maxbot.DailyPlans.Methods.{
  mark_unknown-SlotStep, mark_failed_unsent-SlotStep, mark_accepted-SlotStep, retry-SlotStep,
  cancel_queued_for_profile-SlotStep, expire_before-SlotStep, claim_next-SlotStep,
}
use maxbot.DailyPlans.Service.{operation}
use maxbot.DailyPlans.Days.{
  Day, materialize_day, next_slot, claim_next_slot, mark_slot_unknown, mark_slot_failed_unsent,
  mark_slot_accepted, as_pool_empty, retry_slot,
}
use maxbot.DailyPlans.Materialized.{Rearranges, materialize_day-IsPlanned}

pub data Request : Type 0 where
  day_request : Given → Day → Request
  claim_request : (ℕ → String) → String → String → Datetime → Option (List (ℤ × ℤ)) → Request
  unknown_request : String → String → String → Request
  failed_request : String → String → String → Request
  accepted_request : String → String → Request
  retry_request : String → String → Bool → Request
  cancel_request : String → String → ℤ → String → Request
  expire_request : String → String → String → Request

-- The tables that a request leaves behind, whether it returns or raises.
unfoldable pub after_request : Request → Database → Database
after_request (day_request g d) s = (materialize_day g d s).1
after_request (claim_request isoformat now_text scope now eligible) s =
    (claim_next_slot isoformat now_text scope now eligible s).1
after_request (unknown_request now id reason) s = (mark_slot_unknown now id reason s).1
after_request (failed_request now id reason) s = (mark_slot_failed_unsent now id reason s).1
after_request (accepted_request now id) s = (mark_slot_accepted now id s).1
after_request (retry_request now id proof_no_send) s = (retry_slot now id proof_no_send s).1
after_request (cancel_request now scope profile_id reason) s =
    (cancel_queued_for_profile now scope profile_id reason s).1
after_request (expire_request now scope business_date) s =
    (expire_before now scope business_date s).1

unfoldable pub after_requests : List Request → Database → Database
after_requests [] s = s
after_requests (r ∷ requests) s = after_requests requests (after_request r s)

abbrev pub Shuffles : Request → Type 0
Shuffles (day_request g d) = Rearranges d
Shuffles _ = Unit

-- Every shuffle of a run rearranges.
unfoldable pub AllShuffles : List Request → Type 0
AllShuffles [] = Unit
AllShuffles (r ∷ requests) = Shuffles r × AllShuffles requests

operation-state : (r : Result Error (Option Joined) × Database) → (bind_result operation r).1 ≡ r.1
operation-state (ok none, t) = refl
operation-state (ok (some row), t) = refl
operation-state (err e, t) = refl

as_pool_empty-state : {A : Type 0} (r : Result Error A × Database) → (as_pool_empty r).1 ≡ r.1
as_pool_empty-state (ok a, t) = refl
as_pool_empty-state (err (Error.runtime_error m), t) = refl
as_pool_empty-state (err (Error.value_error m), t) = refl
as_pool_empty-state (err (Error.key_error m), t) = refl
as_pool_empty-state (err (Error.type_error m), t) = refl
as_pool_empty-state (err (Error.integrity_error m), t) = refl
as_pool_empty-state (err (Error.pool_empty m), t) = refl
as_pool_empty-state (err (Error.index_error m), t) = refl
as_pool_empty-state (err Error.out_of_fuel, t) = refl

next_slot-state :
    (r : Result Error (Option Joined) × Database)
    → (bind_result {E = Error} (λ row t. (ok (next_slot row), t)) r).1 ≡ r.1
next_slot-state (ok o, t) = refl
next_slot-state (err e, t) = refl

-- The service leaves what the repository leaves.
on_slots :
    {to : SlotStatus} (s : Database) (r : Result Error (Option Joined) × Database)
    → SlotStep to s r.1
    → IsPlanned s
    → IsPlanned (bind_result operation r).1
on_slots s r step v = subst IsPlanned (sym (operation-state r)) (SlotStep-IsPlanned step v)

after_request-IsPlanned :
    (r : Request) (s : Database) → IsPlanned s → Shuffles r → IsPlanned (after_request r s)
unfolding after_request claim_next_slot mark_slot_unknown mark_slot_failed_unsent mark_slot_accepted
    retry_slot
after_request-IsPlanned (day_request g d) s v shuffled = materialize_day-IsPlanned g d s v shuffled
after_request-IsPlanned (claim_request isoformat now_text scope now eligible) s v _ =
    let day = business_date_utc3 isoformat now in
    subst IsPlanned (sym (next_slot-state (claim_next now_text scope day eligible s)))
      (SlotStep-IsPlanned (claim_next-SlotStep now_text scope day eligible s) v)
after_request-IsPlanned (unknown_request now id reason) s v _ =
    on_slots s (mark_unknown now id reason s) (mark_unknown-SlotStep now id s reason) v
after_request-IsPlanned (failed_request now id reason) s v _ =
    on_slots s (mark_failed_unsent now id reason s) (mark_failed_unsent-SlotStep now id s reason) v
after_request-IsPlanned (accepted_request now id) s v _ =
    on_slots s (mark_accepted now id s) (mark_accepted-SlotStep now id s) v
after_request-IsPlanned (retry_request now id proof_no_send) s v _ =
    let r = retry now id proof_no_send s in
    on_slots s (as_pool_empty r)
      (subst (SlotStep SlotStatus.queued s) (sym (as_pool_empty-state r))
        (retry-SlotStep now id s proof_no_send))
      v
after_request-IsPlanned (cancel_request now scope profile_id reason) s v _ =
    SlotStep-IsPlanned (cancel_queued_for_profile-SlotStep now s scope profile_id reason) v
after_request-IsPlanned (expire_request now scope business_date) s v _ =
    SlotStep-IsPlanned (expire_before-SlotStep now s scope business_date) v

requests_keep_plans :
    (requests : List Request) (s : Database)
    → IsPlanned s
    → AllShuffles requests
    → IsPlanned (after_requests requests s)
unfolding after_requests AllShuffles
requests_keep_plans [] s v h = v
requests_keep_plans (r ∷ requests) s v h =
    requests_keep_plans requests (after_request r s) (after_request-IsPlanned r s v h.0) h.1

empty_database-IsPlanned : IsPlanned empty_database
unfolding fetchone fetchall
empty_database-IsPlanned = record {
  budget = λ id. refl;
  keyed = λ test p h. absurd (ground (arith, h));
  daily = λ scope profile_id business_date. omega arith;
}

-- Every plan stays within its limit: whatever the service is asked from empty tables on, and in
-- whatever order, an account has at most one plan a day, a plan has no more slots than its target, its
-- target is within the limit sampled for it, and no slot is without a plan. Every shuffle must
-- rearrange.
pub after_requests-IsPlanned :
    (requests : List Request)
    → AllShuffles requests
    → IsPlanned (after_requests requests empty_database)
after_requests-IsPlanned requests h =
    requests_keep_plans requests empty_database empty_database-IsPlanned h
