-- ===== src/DailyPlans/Counted.antt =====
-- app/repositories/daily_plans.py: `create_plan` and `fill_waiting_plan`, and the counts of plans.
use mathlib.Core.Option
use mathlib.Core.Path.{subst}
use maxbot.Base.{
  ℕ, String, Bool, false, Option, none, some, ◌≡◌, refl, sym, ap, ◌∙◌, arith, pos, ◌≤ℤ◌, List,
  length, Result, ok, err, inl, inr, Bool-cases, is_some, fetchone, insert, on_match, or_else,
  fetchone-insert, fetchone-update_where, str_eq, eq_iff, eq_refl, transaction, end_transaction,
}
use maxbot.DailyPlans.Rows.{PlanRow, SlotRow, Database, Error, is_plan, is_plan_of, is_cycle_of}
use maxbot.DailyPlans.Repository.{
  Repo, Given, Creation, new_plan, add_cycle, insert_plan, write_plan, plan_of_creation,
  create_body, create_plan, get_plan,
}
use maxbot.DailyPlans.Slots.{is_waiting, set_filled, fill_plan}
use maxbot.DailyPlans.Keeps.{plan_of}
use maxbot.DailyPlans.Creations.{gets-state}
use maxbot.DailyPlans.Planned.{
  IsKeyed-insert, IsDaily-insert, IsKeyed-update, IsDaily-update, fetchone-insert_new,
}
use maxbot.DailyPlans.Budget.{
  slots_of, IsWithin, IsKeyed, IsDaily, IsPlanned, Added, insert_slots-Added,
}

-- A creation asks for no more slots than its target, which is within the limit sampled.
pub record FitsPlan (c : Creation) : Type 0 where
  pub slots : pos (length c.slots) ≤ℤ c.target
  pub target : c.target ≤ℤ c.sampled_limit

or_else-none : {A : Type 0} (o : Option A) → or_else o none ≡ o
or_else-none none = refl
or_else-none (some a) = refl

-- A new plan with its slots, where there was neither.
planned :
    (s t : Database) (p : PlanRow) (n : ℕ)
    → IsPlanned s
    → plan_of p.plan_id s ≡ none
    → fetchone (is_plan_of p.scope p.profile_id p.business_date) s.profile_daily_plans ≡ none
    → pos n ≤ℤ p.target
    → p.target ≤ℤ p.sampled_limit
    → Added (record s { profile_daily_plans = insert p s.profile_daily_plans }) t p.plan_id n
    → IsPlanned t
planned s t p n v fresh first fits limit added = record {
  budget = λ id. elim (Bool-cases (str_eq p.plan_id id)) [
    | inl e ↦ subst (λ k. IsWithin (plan_of k t) (slots_of k t)) ((eq_iff p.plan_id id).0 e) own
    | inr e ↦ other id e
  ];
  keyed = subst IsKeyed (sym added.plans) (IsKeyed-insert s.profile_daily_plans p v.keyed fresh);
  daily = subst IsDaily (sym added.plans) (IsDaily-insert s.profile_daily_plans p v.daily first);
}
  where
    no_slots : length (slots_of p.plan_id s) ≡ 0
    no_slots = subst (λ o. IsWithin o (slots_of p.plan_id s)) fresh (v.budget p.plan_id)

    plan_there : plan_of p.plan_id t ≡ some p
    plan_there =
        ap (fetchone (is_plan p.plan_id)) added.plans
        ∙ fetchone-insert_new (is_plan p.plan_id) p s.profile_daily_plans fresh
        ∙ rw (eq_refl p.plan_id) refl

    slots_there : length (slots_of p.plan_id t) ≡ n
    slots_there = omega (arith, added.count, no_slots)

    own : IsWithin (plan_of p.plan_id t) (slots_of p.plan_id t)
    own =
        subst (λ o. IsWithin o (slots_of p.plan_id t)) (sym plan_there)
          (subst (λ k. pos k ≤ℤ p.target) (sym slots_there) fits, limit)

    other : (id : String) → str_eq p.plan_id id ≡ false → IsWithin (plan_of id t) (slots_of id t)
    other id e =
        let plans : plan_of id t ≡ plan_of id s =
          ap (fetchone (is_plan id)) added.plans
          ∙ fetchone-insert (is_plan id) p s.profile_daily_plans
          ∙ rw e (or_else-none (plan_of id s)) in
        let slots = added.others id (λ same. ground (arith, eq_iff p.plan_id id, e, same)) in
        subst (λ o. IsWithin o (slots_of id t)) (sym plans)
          (subst (λ xs. IsWithin (plan_of id s) xs) (sym slots) (v.budget id))

-- To fill a plan changes neither its target nor its limit.
IsWithin-filled :
    (version_id plan_id : String) (o : Option PlanRow) (rows : List SlotRow)
    → IsWithin o rows
    → IsWithin (Option.map (on_match (is_waiting plan_id) (set_filled version_id)) o) rows
IsWithin-filled version_id plan_id none rows h = h
IsWithin-filled version_id plan_id (some p) rows h = elim (Bool-cases (is_waiting plan_id p)) [
  | inl e ↦ rw e h
  | inr e ↦ rw e h
]

-- A plan that is filled with slots, where it had none.
pub filled :
    (s t : Database) (p : PlanRow) (version_id : String) (n : ℕ)
    → IsPlanned s
    → plan_of p.plan_id s ≡ some p
    → length (slots_of p.plan_id s) ≡ 0
    → pos n ≤ℤ p.target
    → Added (fill_plan version_id p.plan_id s) t p.plan_id n
    → IsPlanned t
filled s t p version_id n v here empty fits added = record {
  budget = λ id. elim (Bool-cases (str_eq p.plan_id id)) [
    | inl e ↦ subst (λ k. IsWithin (plan_of k t) (slots_of k t)) ((eq_iff p.plan_id id).0 e) own
    | inr e ↦ other id e
  ];
  keyed =
      subst IsKeyed (sym added.plans)
        (IsKeyed-update s.profile_daily_plans q f (λ x. refl) (λ x a b c. refl) v.keyed);
  daily =
      subst IsDaily (sym added.plans)
        (IsDaily-update s.profile_daily_plans q f (λ x. refl) (λ x a b c. refl) v.daily);
}
  where
    q : PlanRow → Bool
    q = is_waiting p.plan_id

    f : PlanRow → PlanRow
    f = set_filled version_id

    plan_at : (id : String) → plan_of id t ≡ Option.map (on_match q f) (plan_of id s)
    plan_at id =
        ap (fetchone (is_plan id)) added.plans
        ∙ fetchone-update_where (is_plan id) q f (λ x. refl) s.profile_daily_plans

    limit : p.target ≤ℤ p.sampled_limit
    limit = (subst (λ o. IsWithin o (slots_of p.plan_id s)) here (v.budget p.plan_id)).1

    slots_there : length (slots_of p.plan_id t) ≡ n
    slots_there = omega (arith, added.count, empty)

    own : IsWithin (plan_of p.plan_id t) (slots_of p.plan_id t)
    own =
        subst (λ o. IsWithin o (slots_of p.plan_id t)) (sym (plan_at p.plan_id))
          (IsWithin-filled version_id p.plan_id (plan_of p.plan_id s) (slots_of p.plan_id t) (
            subst (λ o. IsWithin o (slots_of p.plan_id t)) (sym here)
              (subst (λ k. pos k ≤ℤ p.target) (sym slots_there) fits, limit)))

    other : (id : String) → str_eq p.plan_id id ≡ false → IsWithin (plan_of id t) (slots_of id t)
    other id e =
        let slots = added.others id (λ same. ground (arith, eq_iff p.plan_id id, e, same)) in
        subst (λ o. IsWithin o (slots_of id t)) (sym (plan_at id))
          (IsWithin-filled version_id p.plan_id (plan_of id s) (slots_of id t)
            (subst (λ xs. IsWithin (plan_of id s) xs) (sym slots) (v.budget id)))

pub transaction-IsPlanned :
    (m : Repo (Unit {0})) (s : Database)
    → IsPlanned s
    → ((t : Database) → m s ≡ (ok tt, t) → IsPlanned t)
    → IsPlanned (transaction m s).1
unfolding transaction
transaction-IsPlanned m s v after = by_result (m s) refl
  where
    by_result :
        (r : Result Error (Unit {0}) × Database) → m s ≡ r → IsPlanned (end_transaction s r).1
    by_result (ok u, t) e = after t e
    by_result (err x, t) e = v

-- The cycle of a day has no part in the counts.
module _ (g : Given) (c : Creation) (s : Database) where
  add_cycle-IsPlanned : IsPlanned s → IsPlanned (add_cycle g c s)
  add_cycle-IsPlanned v =
      elim (Bool-cases (is_some (fetchone (is_cycle_of c.scope c.business_date) s.daily_cycles))) [
        | inl e ↦ rw e v
        | inr e ↦ rw e (record { budget = v.budget; keyed = v.keyed; daily = v.daily })
      ]

  add_cycle-plans : (add_cycle g c s).profile_daily_plans ≡ s.profile_daily_plans
  add_cycle-plans =
      elim (Bool-cases (is_some (fetchone (is_cycle_of c.scope c.business_date) s.daily_cycles))) [
        | inl e ↦ rw e refl
        | inr e ↦ rw e refl
      ]

is_some-none : {A : Type 0} (o : Option A) → is_some o ≡ false → o ≡ none
is_some-none none h = refl
is_some-none (some a) h = absurd (ground (arith, h))

write_plan-IsPlanned :
    (g : Given) (c : Creation) (s t : Database)
    → IsPlanned s
    → FitsPlan c
    → plan_of_creation c s ≡ none
    → write_plan g c s ≡ (ok tt, t)
    → IsPlanned t
unfolding write_plan insert_plan
write_plan-IsPlanned g c s t v fits first h =
    let p = new_plan g c in
    let u = add_cycle g c s in
    elim (Bool-cases (is_some (fetchone (is_plan p.plan_id) u.profile_daily_plans))) [
      | inl e ↦ absurd (ground (arith, rw e at h))
      | inr e ↦
          planned u t p (length c.slots) (add_cycle-IsPlanned g c s v)
            (is_some-none (plan_of p.plan_id u) e)
            (ap (fetchone (is_plan_of c.scope c.profile_id c.business_date)) (add_cycle-plans g c s)
              ∙ first)
            fits.slots fits.target
            (insert_slots-Added g.now g.slot_hex c.scope p.plan_id 0 c.slots
              (record u { profile_daily_plans = insert p u.profile_daily_plans }) t (rw e at h))
    ]

pub create_plan-IsPlanned :
    (g : Given) (c : Creation) (s : Database)
    → IsPlanned s
    → FitsPlan c
    → IsPlanned (create_plan g c s).1
unfolding create_plan create_body
create_plan-IsPlanned g c s v fits =
    subst IsPlanned
      (sym (
        gets-state (get_plan c.scope c.profile_id c.business_date)
          (transaction (create_body g c) s)))
      (transaction-IsPlanned (create_body g c) s v (λ t h.
        elim (Bool-cases (is_some (plan_of_creation c s))) [
          | inl e ↦ subst IsPlanned (ap (λ r. r.1) (rw e at h)) v
          | inr e ↦
              write_plan-IsPlanned g c s t v fits (is_some-none (plan_of_creation c s) e)
                (rw e at h)
        ]))
