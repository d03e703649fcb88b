-- ===== src/DailyPlans/Creations.antt =====
-- app/repositories/daily_plans.py: `create_plan` and `fill_waiting_plan`, by what they keep.
use mathlib.Core.Path.{subst}
use maxbot.Base.{
  ℕ, suc, String, ◌≡◌, refl, sym, gets, ℤ, Result, ok, err, inl, inr, Bool-cases, Option-cases,
  bind_result, transaction, List, [], ◌∷◌, fetchone, insert, is_some, fmt, end_transaction_rule,
}
use maxbot.DailyPlans.Rows.{PlanRow, Database, Error, is_plan, is_plan_of, is_cycle_of}
use maxbot.DailyPlans.Repository.{
  Repo, SlotContent, new_slot, slot_clash, insert_slots, Given, Creation, new_plan, add_cycle,
  insert_plan, write_plan, plan_of_creation, create_body, create_plan, get_plan,
}
use maxbot.DailyPlans.Slots.{can_fill, fill_plan, fill_found, fill_body, fill_waiting_plan}
use maxbot.DailyPlans.Keeps.{
  Stays, Stays-refl, Stays-trans, insert_slot-Stays, insert_plan-Stays, fill_plan-Stays,
}

transaction-Stays :
    {A : Type 0} (m : Repo A) (s : Database) → Stays s (m s).1 → Stays s (transaction m s).1
unfolding transaction
transaction-Stays m s keeps = end_transaction_rule (Stays s) s (m s) (Stays-refl s) keeps

pub insert_slots-Stays :
    (now : String) (hex : ℕ → String) (scope plan_id : String) (index : ℕ)
    (slots : List SlotContent) (s : Database)
    → Stays s (insert_slots now hex scope plan_id index slots s).1
unfolding insert_slots
insert_slots-Stays now hex scope plan_id index [] s = Stays-refl s
insert_slots-Stays now hex scope plan_id index (c ∷ slots) s =
    let row = new_slot now (fmt "slot-" (hex index)) scope plan_id index c in
    let t = record s { profile_message_slots = insert row s.profile_message_slots } in
    let rest = insert_slots-Stays now hex scope plan_id (suc index) slots t in
    elim (Bool-cases (is_some (fetchone (slot_clash row) s.profile_message_slots))) [
      | inl e ↦ rw e (Stays-refl s)
      | inr e ↦ rw e (
          Stays-trans s t (insert_slots now hex scope plan_id (suc index) slots t).1
            (insert_slot-Stays row s) rest)
    ]

add_cycle-Stays : (g : Given) (c : Creation) (s : Database) → Stays s (add_cycle g c s)
add_cycle-Stays g c s =
    elim (Bool-cases (is_some (fetchone (is_cycle_of c.scope c.business_date) s.daily_cycles))) [
      | inl e ↦ rw e (Stays-refl s)
      | inr e ↦ rw e (Stays-refl s)
    ]

write_plan-Stays : (g : Given) (c : Creation) (s : Database) → Stays s (write_plan g c s).1
unfolding write_plan insert_plan
write_plan-Stays g c s =
    let p = new_plan g c in
    let t = add_cycle g c s in
    elim (Bool-cases (is_some (fetchone (is_plan p.plan_id) t.profile_daily_plans))) [
      | inl e ↦ rw e (add_cycle-Stays g c s)
      | inr e ↦ rw e (
          let u = record t { profile_daily_plans = insert p t.profile_daily_plans } in
          Stays-trans s u (insert_slots g.now g.slot_hex c.scope p.plan_id 0 c.slots u).1
            (Stays-trans s t u (add_cycle-Stays g c s) (insert_plan-Stays p t))
            (insert_slots-Stays g.now g.slot_hex c.scope p.plan_id 0 c.slots u))
    ]

-- A read at the end changes nothing.
pub gets-state :
    {A B : Type 0} (f : Database → B) (r : Result Error A × Database)
    → (bind_result {E = Error} (λ a. gets f) r).1 ≡ r.1
gets-state f (ok a, t) = refl
gets-state f (err e, t) = refl

create_body-Stays : (g : Given) (c : Creation) (s : Database) → Stays s (create_body g c s).1
unfolding create_body
create_body-Stays g c s = elim (Bool-cases (is_some (plan_of_creation c s))) [
  | inl e ↦ rw e (Stays-refl s)
  | inr e ↦ rw e (write_plan-Stays g c s)
]

pub create_plan-Stays : (g : Given) (c : Creation) (s : Database) → Stays s (create_plan g c s).1
unfolding create_plan
create_plan-Stays g c s =
    subst (Stays s)
      (sym (
        gets-state (get_plan c.scope c.profile_id c.business_date)
          (transaction (create_body g c) s)))
      (transaction-Stays (create_body g c) s (create_body-Stays g c s))

fill_found-Stays :
    (now : String) (hex : ℕ → String) (scope version_id : String) (slots : List SlotContent)
    (p : PlanRow) (s : Database)
    → Stays s (fill_found now hex scope version_id slots p s).1
fill_found-Stays now hex scope version_id slots p s = elim (Bool-cases (can_fill p s)) [
  | inr e ↦ rw e (Stays-refl s)
  | inl e ↦ rw e (
      let t = fill_plan version_id p.plan_id s in
      Stays-trans s t (insert_slots now hex scope p.plan_id 0 slots t).1
        (fill_plan-Stays version_id p.plan_id s)
        (insert_slots-Stays now hex scope p.plan_id 0 slots t))
]

fill_body-Stays :
    (now : String) (hex : ℕ → String) (scope : String) (profile_id : ℤ)
    (business_date version_id : String) (slots : List SlotContent) (s : Database)
    → Stays s (fill_body now hex scope profile_id business_date version_id slots s).1
unfolding fill_body
fill_body-Stays now hex scope profile_id business_date version_id slots s =
    elim (Option-cases
      (fetchone (is_plan_of scope profile_id business_date) s.profile_daily_plans)) [
        | inl e ↦ rw e (Stays-refl s)
        | inr (p, e) ↦ rw e (fill_found-Stays now hex scope version_id slots p s)
      ]

pub fill_waiting_plan-Stays :
    (now : String) (hex : ℕ → String) (scope : String) (profile_id : ℤ)
    (business_date version_id : String) (slots : List SlotContent) (s : Database)
    → Stays s (fill_waiting_plan now hex scope profile_id business_date version_id slots s).1
unfolding fill_waiting_plan
fill_waiting_plan-Stays now hex scope profile_id business_date version_id slots s =
    let m = fill_body now hex scope profile_id business_date version_id slots in
    subst (Stays s) (sym (gets-state (get_plan scope profile_id business_date) (transaction m s))) (
      transaction-Stays m s
        (fill_body-Stays now hex scope profile_id business_date version_id slots s))
