-- ===== src/DailyPlans/Safety.antt =====
-- app/repositories/daily_plans.py: what any calls leave true of a slot.
use maxbot.Base.{String, true, some, ◌≡◌, ◌∙◌, ap, List}
use maxbot.DailyPlans.Rows.{SlotRow, Database}
use maxbot.DailyPlans.Machine.{is_final, Evolves-final, slot_of}
use maxbot.DailyPlans.Runs.{Call, after_calls, after_calls-Keeps}

-- A settled message is never sent again: a slot that is accepted, unknown, cancelled or expired is
-- found under its id as it was, every column of it, whatever calls are made.
pub settled_slot_is_final :
    (calls : List Call) (s : Database) (id : String) (a : SlotRow)
    → slot_of id s ≡ some a
    → is_final a.status ≡ true
    → slot_of id (after_calls calls s) ≡ some a
settled_slot_is_final calls s id a here ended =
    let (b, there, h) = (after_calls-Keeps calls s).0 id a here in
    there ∙ ap some (Evolves-final h ended)
