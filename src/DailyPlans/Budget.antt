-- ===== src/DailyPlans/Budget.antt =====
-- app/repositories/daily_plans.py: plans and their slots, counted.
use mathlib.Core.List.{append-nil}
use mathlib.Core.Path.{subst}
use maxbot.Base.{
  ℕ, suc, ◌+◌, ◌≤◌, String, Bool, Option, none, some, ◌≡◌, ◌≢◌, refl, sym, ap, ◌∙◌, arith, ℤ, pos,
  ◌≤ℤ◌, List, [], ◌∷◌, ◌++◌, map, length, ok, inl, inr, Bool-cases, is_some, fetchone, fetchall,
  insert, on_match, fetchall-insert, fetchall-update_where, str_eq, eq_refl, fmt, str_eq-false,
}
use maxbot.DailyPlans.Rows.{PlanRow, SlotRow, Database, is_plan, is_plan_of, in_plan}
use maxbot.DailyPlans.Repository.{SlotContent, new_slot, slot_clash, insert_slots}
use maxbot.DailyPlans.Slots.{update_slots}
use maxbot.DailyPlans.Keeps.{plan_of}

abbrev pub slots_of : String → Database → List SlotRow
slots_of plan_id s = fetchall (in_plan plan_id) s.profile_message_slots

-- A plan has at most as many slots as its target, which is at most the limit sampled for the day;
-- and there are no slots without a plan.
abbrev pub IsWithin : Option PlanRow → List SlotRow → Type 0
IsWithin none rows = length rows ≡ 0
IsWithin (some p) rows = (pos (length rows) ≤ℤ p.target) × (p.target ≤ℤ p.sampled_limit)

abbrev pub HasBudget : Database → Type 0
HasBudget s = (id : String) → IsWithin (plan_of id s) (slots_of id s)

-- A plan that any query finds is the plan of its id.
abbrev pub IsKeyed : List PlanRow → Type 0
IsKeyed plans =
    (test : PlanRow → Bool) (p : PlanRow)
    → fetchone test plans ≡ some p
    → fetchone (is_plan p.plan_id) plans ≡ some p

-- An account has at most one plan a day.
abbrev pub IsDaily : List PlanRow → Type 0
IsDaily plans =
    (scope : String) (profile_id : ℤ) (business_date : String)
    → length (fetchall (is_plan_of scope profile_id business_date) plans) ≤ 1

pub record IsPlanned (s : Database) : Type 0 where
  pub budget : HasBudget s
  pub keyed : IsKeyed s.profile_daily_plans
  pub daily : IsDaily s.profile_daily_plans

pub length-map : {A B : Type 0} (f : A → B) (xs : List A) → length (map f xs) ≡ length xs
length-map f [] = refl
length-map f (x ∷ xs) = ap suc (length-map f xs)

pub length-append : {A : Type 0} (xs ys : List A) → length (xs ++ ys) ≡ length xs + length ys
length-append [] ys = omega arith
length-append (x ∷ xs) ys = omega (arith, length-append xs ys)

pub IsWithin-length :
    (o : Option PlanRow) (xs ys : List SlotRow)
    → length ys ≡ length xs
    → IsWithin o xs
    → IsWithin o ys
IsWithin-length none xs ys e h = e ∙ h
IsWithin-length (some p) xs ys e h = (subst (λ n. pos n ≤ℤ p.target) (sym e) h.0, h.1)

-- To update slots in place changes no count.
pub update_slots-IsPlanned :
    (q : SlotRow → Bool) (f : SlotRow → SlotRow) (s : Database)
    → ((x : SlotRow) → (f x).plan_id ≡ x.plan_id)
    → IsPlanned s
    → IsPlanned (update_slots q f s)
update_slots-IsPlanned q f s keeps v = record {
  budget = λ id.
      IsWithin-length (plan_of id s) (slots_of id s) (slots_of id (update_slots q f s))
        (same_length id) (v.budget id);
  keyed = v.keyed;
  daily = v.daily;
}
  where
    same_length : (id : String) → length (slots_of id (update_slots q f s)) ≡ length (slots_of id s)
    same_length id =
        ap length (
          fetchall-update_where (in_plan id) q f (λ x. ap (λ k. str_eq k id) (keeps x))
            s.profile_message_slots)
        ∙ length-map (on_match q f) (slots_of id s)

-- What `insert_slots` leaves, if it returns: so many more slots of the plan, and no others.
pub record Added (s t : Database) (plan_id : String) (n : ℕ) : Type 0 where
  pub plans : t.profile_daily_plans ≡ s.profile_daily_plans
  pub count : length (slots_of plan_id t) ≡ length (slots_of plan_id s) + n
  pub others : (id : String) → plan_id ≢ id → slots_of id t ≡ slots_of id s

pub insert_slots-Added :
    (now : String) (hex : ℕ → String) (scope plan_id : String) (index : ℕ)
    (slots : List SlotContent) (s t : Database)
    → insert_slots now hex scope plan_id index slots s ≡ (ok tt, t)
    → Added s t plan_id (length slots)
unfolding insert_slots
insert_slots-Added now hex scope plan_id index [] s t h =
    subst (λ u. Added s u plan_id 0) (ap (λ r. r.1) h)
      (record { plans = refl; count = omega arith; others = λ id e. refl })
insert_slots-Added now hex scope plan_id index (c ∷ slots) s t h =
    elim (Bool-cases (is_some (fetchone (slot_clash row) s.profile_message_slots))) [
      | inl e ↦ absurd (ground (arith, rw e at h))
      | inr e ↦
          let rest = insert_slots-Added now hex scope plan_id (suc index) slots u t (rw e at h) in
          record {
            plans = rest.plans;
            count = omega (arith, rest.count, one_more);
            others = λ id other. rest.others id other ∙ no_more id other;
          }
    ]
  where
    row : SlotRow
    row = new_slot now (fmt "slot-" (hex index)) scope plan_id index c

    u : Database
    u = record s { profile_message_slots = insert row s.profile_message_slots }

    one_more : length (slots_of plan_id u) ≡ length (slots_of plan_id s) + 1
    one_more =
        ap length (fetchall-insert (in_plan plan_id) row s.profile_message_slots)
        ∙ length-append (slots_of plan_id s) _
        ∙ rw (eq_refl plan_id) refl

    no_more : (id : String) → plan_id ≢ id → slots_of id u ≡ slots_of id s
    no_more id other =
        fetchall-insert (in_plan id) row s.profile_message_slots
        ∙ rw (str_eq-false plan_id id other) (append-nil (slots_of id s))
