-- ===== src/DailyPlans/Materialized.antt =====
-- app/services/daily_plans.py: `materialize_day`, and the counts of plans.
use mathlib.Core.List.{Perm}
use mathlib.Core.Path.{subst}
use maxbot.Base.{
  ℕ, String, Option, none, some, ◌≡◌, refl, sym, arith, ℤ, pos, ◌≤ℤ◌, List, map, length, Result, ok,
  err, inl, inr, Bool-cases, fetchone, bind_result,
}
use maxbot.DailyPlans.Rows.{PlanRow, Database, Error, is_plan_of}
use maxbot.DailyPlans.Repository.{
  Plan, SlotContent, Given, Creation, with_slots, get_plan, create_plan,
}
use maxbot.DailyPlans.Slots.{fill_waiting_plan}
use maxbot.DailyPlans.Budget.{IsPlanned}
use maxbot.DailyPlans.Counted.{create_plan-IsPlanned}
use maxbot.DailyPlans.Filled.{fill_waiting_plan-IsPlanned}
use maxbot.DailyPlans.Service.{item_id_of, returned, view_of, select_slots}
use maxbot.DailyPlans.Targets.{select_slots-length, creation_of-IsBudgeted}
use maxbot.DailyPlans.Days.{
  Day, creation_of, create_new, is_unfilled, fill_existing, fill_or_view, create_or_fill,
  first_version, materialize_day,
}

-- What `rng.shuffle` documents: the items are rearranged.
abbrev pub Rearranges : Day → Type 0
Rearranges d =
    (k : ℕ) → Perm (d.shuffle k (map item_id_of d.library_items)) (map item_id_of d.library_items)

returned-state :
    {A B : Type 0} (f : A → Result Error B) (r : Result Error A × Database)
    → (bind_result (λ a. returned (f a)) r).1 ≡ r.1
returned-state f (ok a, t) = refl
returned-state f (err e, t) = refl

with_slots-plan :
    (s : Database) (o : Option PlanRow) (plan : Plan) → with_slots s o ≡ some plan → o ≡ some plan.0
with_slots-plan s none plan h = absurd (ground (arith, h))
with_slots-plan s (some p) (q, rows) h = cc

with_slots-none : (s : Database) (o : Option PlanRow) → with_slots s o ≡ none → o ≡ none
with_slots-none s none h = refl
with_slots-none s (some p) h = absurd (ground (arith, h))

get_plan-plan :
    (scope : String) (profile_id : ℤ) (business_date : String) (s : Database) (plan : Plan)
    → get_plan scope profile_id business_date s ≡ some plan
    → fetchone (is_plan_of scope profile_id business_date) s.profile_daily_plans ≡ some plan.0
unfolding get_plan
get_plan-plan scope profile_id business_date s plan h =
    with_slots-plan s (fetchone (is_plan_of scope profile_id business_date) s.profile_daily_plans)
      plan h

some_plan : {p q : PlanRow} {o : Option PlanRow} → o ≡ some p → o ≡ some q → p ≡ q
some_plan h k = cc

module _ (g : Given) (d : Day) (s : Database) (v : IsPlanned s) (shuffled : Rearranges d) where
  create_new-IsPlanned : IsPlanned (create_new g d s).1
  create_new-IsPlanned = by_creation (creation_of d) refl
    where
      by_creation :
          (r : Result Error Creation)
          → creation_of d ≡ r
          → IsPlanned
              (bind_result
                (λ c t.
                  bind_result (λ created. returned (view_of d.scope created)) (create_plan g c t))
                (r, s)).1
      by_creation (err e) eq = v
      by_creation (ok c) eq =
          subst IsPlanned (sym (returned-state (view_of d.scope) (create_plan g c s)))
            (create_plan-IsPlanned g c s v (creation_of-IsBudgeted d c shuffled eq).fits)

  fill_existing-IsPlanned :
      (plan : Plan) (version_id : String)
      → get_plan d.scope d.profile_id d.business_date s ≡ some plan
      → IsPlanned (fill_existing g d plan version_id s).1
  fill_existing-IsPlanned plan version_id here =
      by_slots (select_slots d.shuffle d.library_items plan.0.target d.mode) refl
    where
      by_slots :
          (r : Result Error (List SlotContent))
          → select_slots d.shuffle d.library_items plan.0.target d.mode ≡ r
          → IsPlanned
              (bind_result
                (λ slots t.
                  bind_result
                    (λ filled. returned (view_of d.scope filled))
                    (fill_waiting_plan g.now g.slot_hex d.scope d.profile_id d.business_date
                      version_id slots t))
                (r, s)).1
      by_slots (err e) eq = v
      by_slots (ok slots) eq =
          let long =
            select_slots-length d.shuffle d.library_items plan.0.target d.mode slots shuffled eq in
          subst IsPlanned
            (sym (
              returned-state (view_of d.scope) (
                fill_waiting_plan g.now g.slot_hex d.scope d.profile_id d.business_date version_id
                  slots s)))
            (fill_waiting_plan-IsPlanned g.now g.slot_hex d.scope d.profile_id d.business_date
              version_id slots s v
              (λ p found.
                let same =
                  some_plan (get_plan-plan d.scope d.profile_id d.business_date s plan here)
                    found in
                subst (λ q. pos (length slots) ≤ℤ q.target) same
                  (subst (λ n. pos (length slots) ≤ℤ n) long (omega arith))))

  fill_or_view-IsPlanned :
      (plan : Plan) (o : Option String)
      → get_plan d.scope d.profile_id d.business_date s ≡ some plan
      → IsPlanned (fill_or_view g d plan o s).1
  fill_or_view-IsPlanned plan none here = v
  fill_or_view-IsPlanned plan (some version_id) here = elim (Bool-cases (is_unfilled plan)) [
    | inl e ↦ rw e (fill_existing-IsPlanned plan version_id here)
    | inr e ↦ rw e v
  ]

  pub materialize_day-IsPlanned : IsPlanned (materialize_day g d s).1
  unfolding materialize_day
  materialize_day-IsPlanned = by_plan (get_plan d.scope d.profile_id d.business_date s) refl
    where
      by_plan :
          (o : Option Plan)
          → get_plan d.scope d.profile_id d.business_date s ≡ o
          → IsPlanned (create_or_fill g d o s).1
      by_plan none here = create_new-IsPlanned
      by_plan (some plan) here = fill_or_view-IsPlanned plan (first_version d.library_items) here
