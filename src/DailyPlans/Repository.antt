-- ===== src/DailyPlans/Repository.antt =====
-- app/repositories/daily_plans.py: the methods of `DailyPlanRepository`, each with its transaction.
-- What `_now()` and `uuid4().hex` return are arguments; the id of a new slot depends on its index.
use maxbot.Base.{
  ℕ, suc, ltb, ◌==◌, String, Bool, ◌&&◌, ◌||◌, Option, none, some, ℤ, str_eq, if◌then◌else◌,
  is_some, fmt, List, [], ◌∷◌, Action, ok, err, pure, gets, transaction, ◌>>◌, branch, modify,
  fetchone, fetchall, insert,
}
use maxbot.DailyPlans.Rows.{
  SlotStatus, PlanStatus, PlanRow, SlotRow, Database, Error, integrity_error, is_cycle_of,
  is_plan_of, is_plan, in_plan, is_slot,
}

abbrev pub Repo : Type 0 → Type 0
Repo A = Action Database Error A

-- `ORDER BY ordinal`
abbrev pub insert_by_ordinal : SlotRow → List SlotRow → List SlotRow
insert_by_ordinal s [] = s ∷ []
insert_by_ordinal s (t ∷ rows) =
    let rest = insert_by_ordinal s rows in
    if ltb t.ordinal s.ordinal then t ∷ rest else s ∷ t ∷ rows

unfoldable pub order_by_ordinal : List SlotRow → List SlotRow
order_by_ordinal [] = []
order_by_ordinal (s ∷ rows) = insert_by_ordinal s (order_by_ordinal rows)

-- A plan with its slots.
abbrev pub Plan : Type 0
Plan = PlanRow × List SlotRow

abbrev pub with_slots : Database → Option PlanRow → Option Plan
with_slots db none = none
with_slots db (some p) =
    some (p, order_by_ordinal (fetchall (in_plan p.plan_id) db.profile_message_slots))

unfoldable pub get_plan : String → ℤ → String → Database → Option Plan
get_plan scope profile_id business_date db =
    with_slots db (fetchone (is_plan_of scope profile_id business_date) db.profile_daily_plans)

-- What `create_plan` and `fill_waiting_plan` get for one slot.
pub record SlotContent : Type 0 where
  pub item_id : String
  pub pass_index : ℕ
  pub version_id : Option String
  pub rendered_text : String

abbrev pub new_slot : String → String → String → String → ℕ → SlotContent → SlotRow
new_slot now slot_id scope plan_id index c = record {
  slot_id = slot_id;
  scope = scope;
  plan_id = plan_id;
  ordinal = index;
  item_id = c.item_id;
  pass_index = c.pass_index;
  version_id = c.version_id;
  rendered_text = c.rendered_text;
  status = SlotStatus.queued;
  failure_reason = "";
  retry_count = 0;
  claimed_at = none;
  updated_at = now;
}

-- The PRIMARY KEY of `profile_message_slots` and its UNIQUE (plan_id, ordinal).
abbrev pub slot_clash : SlotRow → SlotRow → Bool
slot_clash new s = is_slot new.slot_id s || in_plan new.plan_id s && s.ordinal == new.ordinal

-- `executemany`, from an index on.
unfoldable pub insert_slots :
    String → (ℕ → String) → String → String → ℕ → List SlotContent → Repo (Unit {0})
insert_slots now hex scope plan_id index [] db = (ok tt, db)
insert_slots now hex scope plan_id index (c ∷ slots) db =
    let row = new_slot now (fmt "slot-" (hex index)) scope plan_id index c in
    let rest =
      insert_slots now hex scope plan_id (suc index) slots
        (record db { profile_message_slots = insert row db.profile_message_slots }) in
    if is_some (fetchone (slot_clash row) db.profile_message_slots)
    then (err (integrity_error "UNIQUE constraint failed"), db)
    else rest

-- The clock and the ids that one call of `create_plan` is given.
pub record Given : Type 0 where
  pub cycle_now : String
  pub cycle_hex : String
  pub plan_hex : String
  pub now : String
  pub slot_hex : ℕ → String

-- The arguments of `create_plan`.
pub record Creation : Type 0 where
  pub scope : String
  pub profile_id : ℤ
  pub business_date : String
  pub role : String
  pub sampled_limit : ℤ
  pub quiet_limit : ℤ
  pub target : ℤ
  pub work_group_id : Option ℤ
  pub version_id : Option String
  pub warning : String
  pub slots : List SlotContent

abbrev pub new_plan : Given → Creation → PlanRow
new_plan g c = record {
  scope = c.scope;
  plan_id = fmt "plan-" g.plan_hex;
  profile_id = c.profile_id;
  business_date = c.business_date;
  role = c.role;
  sampled_limit = c.sampled_limit;
  quiet_limit = c.quiet_limit;
  target = c.target;
  work_group_id = c.work_group_id;
  version_id = c.version_id;
  status = if str_eq c.warning "POOL_EMPTY" then PlanStatus.waiting_pool else PlanStatus.active;
  warning = c.warning;
  created_at = g.now;
}

abbrev pub add_cycle : Given → Creation → Database → Database
add_cycle g c db =
    if is_some (fetchone (is_cycle_of c.scope c.business_date) db.daily_cycles)
    then db
    else record db {
      daily_cycles =
          insert
            (record {
              scope = c.scope;
              business_date = c.business_date;
              cycle_id = fmt "cycle-" g.cycle_hex;
              created_at = g.cycle_now;
            })
            db.daily_cycles;
    }

-- The UNIQUE column of `profile_daily_plans`; the primary key has just been looked up.
unfoldable pub insert_plan : PlanRow → Repo (Unit {0})
insert_plan p db =
    if is_some (fetchone (is_plan p.plan_id) db.profile_daily_plans)
    then (err (integrity_error "UNIQUE constraint failed"), db)
    else (ok tt, record db { profile_daily_plans = insert p db.profile_daily_plans })

-- What `create_plan` writes where there is no plan yet.
unfoldable pub write_plan : Given → Creation → Repo (Unit {0})
unfolding insert_plan insert_slots
write_plan g c = do
  modify (add_cycle g c)
  insert_plan (new_plan g c)
  insert_slots g.now g.slot_hex c.scope (fmt "plan-" g.plan_hex) 0 c.slots

abbrev pub plan_of_creation : Creation → Database → Option PlanRow
plan_of_creation c db =
    fetchone (is_plan_of c.scope c.profile_id c.business_date) db.profile_daily_plans

-- The body of `create_plan`'s transaction.
unfoldable pub create_body : Given → Creation → Repo (Unit {0})
unfolding write_plan
create_body g c db = branch (pure tt) (write_plan g c) db (is_some (plan_of_creation c db))

unfoldable pub create_plan : Given → Creation → Repo (Option Plan)
unfolding get_plan create_body
create_plan g c =
    transaction (create_body g c) >> gets (get_plan c.scope c.profile_id c.business_date)
