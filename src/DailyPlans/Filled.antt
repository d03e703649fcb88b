-- ===== src/DailyPlans/Filled.antt =====
-- app/repositories/daily_plans.py: `fill_waiting_plan`, and the counts of plans.
use mathlib.Core.Path.{subst}
use maxbot.Base.{
  ℕ, String, true, some, ◌≡◌, sym, ap, arith, ℤ, pos, ◌≤ℤ◌, List, length, ok, inl, inr, Bool-cases,
  Option-cases, fetchone, rowcount, transaction,
}
use maxbot.DailyPlans.Rows.{PlanRow, Database, is_plan_of}
use maxbot.DailyPlans.Repository.{SlotContent, get_plan}
use maxbot.DailyPlans.Slots.{can_fill, fill_plan, fill_found, fill_body, fill_waiting_plan}
use maxbot.DailyPlans.Budget.{IsPlanned, slots_of, insert_slots-Added}
use maxbot.DailyPlans.Counted.{filled, transaction-IsPlanned}
use maxbot.DailyPlans.Creations.{gets-state}

can_fill-empty :
    (p : PlanRow) (s : Database) → can_fill p s ≡ true → length (slots_of p.plan_id s) ≡ 0
unfolding rowcount
can_fill-empty p s h = ground arith

module _ (now : String) (hex : ℕ → String) (scope : String) (profile_id : ℤ)
    (business_date version_id : String) (slots : List SlotContent) (s : Database) (v : IsPlanned s)
    (fits : (p : PlanRow)
      → fetchone (is_plan_of scope profile_id business_date) s.profile_daily_plans ≡ some p
      → pos (length slots) ≤ℤ p.target) where
  fill_found-IsPlanned :
      (p : PlanRow) (t : Database)
      → fetchone (is_plan_of scope profile_id business_date) s.profile_daily_plans ≡ some p
      → fill_found now hex scope version_id slots p s ≡ (ok tt, t)
      → IsPlanned t
  fill_found-IsPlanned p t here h = elim (Bool-cases (can_fill p s)) [
    | inl e ↦
        filled s t p version_id (length slots) v
          (v.keyed (is_plan_of scope profile_id business_date) p here) (can_fill-empty p s e)
          (fits p here)
          (insert_slots-Added now hex scope p.plan_id 0 slots (fill_plan version_id p.plan_id s) t
            (rw e at h))
    | inr e ↦ subst IsPlanned (ap (λ r. r.1) (rw e at h)) v
  ]

  fill_body-IsPlanned :
      (t : Database)
      → fill_body now hex scope profile_id business_date version_id slots s ≡ (ok tt, t)
      → IsPlanned t
  unfolding fill_body
  fill_body-IsPlanned t h =
      elim (Option-cases
        (fetchone (is_plan_of scope profile_id business_date) s.profile_daily_plans)) [
          | inl e ↦ absurd (ground (arith, rw e at h))
          | inr (p, e) ↦ fill_found-IsPlanned p t e (rw e at h)
        ]

  pub fill_waiting_plan-IsPlanned :
      IsPlanned (fill_waiting_plan now hex scope profile_id business_date version_id slots s).1
  unfolding fill_waiting_plan
  fill_waiting_plan-IsPlanned =
      let m = fill_body now hex scope profile_id business_date version_id slots in
      subst IsPlanned (sym (gets-state (get_plan scope profile_id business_date) (transaction m s)))
        (transaction-IsPlanned m s v fill_body-IsPlanned)
