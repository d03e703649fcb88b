-- ===== src/DailyPlans/Updates.antt =====
-- app/repositories/daily_plans.py: what a method on slots does to the tables.
use mathlib.Core.Path.{subst}
use maxbot.Base.{String, Bool, true, some, ◌≡◌, refl, inl, sym, ap, ◌∙◌}
use maxbot.DailyPlans.Rows.{SlotStatus, SlotRow, Database}
use maxbot.DailyPlans.Slots.{update_slots}
use maxbot.DailyPlans.Machine.{Move, slot_of}
use maxbot.DailyPlans.Keeps.{Advances, update-Advances, SamePlan-refl, slot_of_lem, some_inj}
use maxbot.DailyPlans.Budget.{IsPlanned, update_slots-IsPlanned}

-- Nothing, or one UPDATE whose slots stay in their plan and move along the machine.
pub data SlotStep (to : SlotStatus) (s : Database) : Database → Type 0 where
  stays : SlotStep to s s
  updates :
      (q : SlotRow → Bool) (f : SlotRow → SlotRow)
      → ((x : SlotRow) → (f x).slot_id ≡ x.slot_id)
      → ((x : SlotRow) → (f x).plan_id ≡ x.plan_id)
      → ((x : SlotRow) → (f x).status ≡ to)
      → ((id : String) (a : SlotRow) → slot_of id s ≡ some a → q a ≡ true → Move a (f a))
      → SlotStep to s (update_slots q f s)

pub SlotStep-Advances : {to : SlotStatus} {s t : Database} → SlotStep to s t → Advances to s t
SlotStep-Advances stays =
    ((λ id a here. (a, here, inl refl)), (λ id a here. (a, here, SamePlan-refl a)))
SlotStep-Advances {to} {s} (updates q f keeps same_plan reaches moves) =
    update-Advances to q f s keeps reaches moves

pub SlotStep-IsPlanned :
    {to : SlotStatus} {s t : Database} → SlotStep to s t → IsPlanned s → IsPlanned t
SlotStep-IsPlanned stays v = v
SlotStep-IsPlanned {to} {s} (updates q f keeps same_plan reaches moves) v =
    update_slots-IsPlanned q f s same_plan v

-- An UPDATE of the slot that was found.
pub update_found-SlotStep :
    (to : SlotStatus) (f : SlotRow → SlotRow) (s : Database) (id : String) (r : SlotRow)
    → ((x : SlotRow) → (f x).slot_id ≡ x.slot_id)
    → ((x : SlotRow) → (f x).plan_id ≡ x.plan_id)
    → ((x : SlotRow) → (f x).status ≡ to)
    → slot_of id s ≡ some r
    → Move r (f r)
    → (q : SlotRow → Bool) → ((x : SlotRow) → q x ≡ true → x.slot_id ≡ id)
    → SlotStep to s (update_slots q f s)
update_found-SlotStep to f s id r keeps same_plan reaches here move q only =
    updates q f keeps same_plan reaches (λ j a there e.
      let same_id : j ≡ id = sym (slot_of_lem j s a there) ∙ only a e in
      let is_r : a ≡ r = some_inj (sym there ∙ ap (λ k. slot_of k s) same_id ∙ here) in
      subst (λ x. Move x (f x)) (sym is_r) move)
