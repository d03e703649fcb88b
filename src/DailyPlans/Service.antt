-- ===== src/DailyPlans/Service.antt =====
-- app/services/daily_plans.py: `DailyPlanService`, on the repository.
use maxbot.Base.{
  ℕ, String, Option, none, some, ℤ, str_eq, if◌then◌else◌, List, [], ◌∷◌, map, Result, ok, err,
  pure, raise,
}
use maxbot.DailyPlans.Rows.{Error, PlanRow, SlotRow, SlotStatus, key_error, type_error}
use maxbot.DailyPlans.Repository.{Repo, Plan, SlotContent}
use maxbot.DailyPlans.Slots.{Joined}
use maxbot.DailyPlans.Selection.{MessageSelection, select_daily_items}

pub record LibraryItem : Type 0 where
  pub item_id : String
  pub text : String
  pub version_id : String

pub record SlotView : Type 0 where
  pub slot_id : String
  pub profile_id : ℤ
  pub work_group_id : Option ℤ
  pub item_id : String
  pub pass_index : ℕ
  pub version_id : Option String
  pub rendered_text : String
  pub status : SlotStatus
  pub retry_count : ℕ

pub record DailyPlanView : Type 0 where
  pub scope : String
  pub plan_id : String
  pub profile_id : ℤ
  pub business_date : String
  pub role : String
  pub sampled_limit : ℤ
  pub target : ℤ
  pub work_group_id : Option ℤ
  pub version_id : Option String
  pub warning : String
  pub slots : List SlotView

pub record OperationView : Type 0 where
  pub slot_id : String
  pub plan_id : String
  pub profile_id : ℤ
  pub work_group_id : Option ℤ
  pub item_id : String
  pub rendered_text : String
  pub version_id : Option String
  pub retry_count : ℕ

abbrev pub slot_view : PlanRow → SlotRow → SlotView
slot_view p s = record {
  slot_id = s.slot_id;
  profile_id = p.profile_id;
  work_group_id = p.work_group_id;
  item_id = s.item_id;
  pass_index = s.pass_index;
  version_id = s.version_id;
  rendered_text = s.rendered_text;
  status = s.status;
  retry_count = s.retry_count;
}

abbrev pub plan_view : String → PlanRow → List SlotRow → DailyPlanView
plan_view scope p slots = record {
  scope = scope;
  plan_id = p.plan_id;
  profile_id = p.profile_id;
  business_date = p.business_date;
  role = p.role;
  sampled_limit = p.sampled_limit;
  target = p.target;
  work_group_id = p.work_group_id;
  version_id = p.version_id;
  warning = p.warning;
  slots = map (slot_view p) slots;
}

-- `_view`
abbrev pub view_of : String → Option Plan → Result Error DailyPlanView
view_of scope none = err (type_error "cannot unpack non-iterable NoneType object")
view_of scope (some (p, slots)) = ok (plan_view scope p slots)

-- `_operation`
abbrev pub operation_view : Joined → OperationView
operation_view (s, p) = record {
  slot_id = s.slot_id;
  plan_id = s.plan_id;
  profile_id = p.profile_id;
  work_group_id = p.work_group_id;
  item_id = s.item_id;
  rendered_text = s.rendered_text;
  version_id = s.version_id;
  retry_count = s.retry_count;
}

-- A computation without state, among the statements.
abbrev pub returned : {A : Type 0} → Result Error A → Repo A
returned r s = (r, s)

abbrev pub operation : Option Joined → Repo OperationView
operation none = raise (type_error "'NoneType' object is not subscriptable")
operation (some row) = pure (operation_view row)

abbrev pub also : {A : Type 0} → Option A → Option A → Option A
also (some a) other = some a
also none other = other

-- `by_id[item_id]`: of two items with one id, the dictionary holds the later.
unfoldable pub by_id : List LibraryItem → String → Option LibraryItem
by_id [] item_id = none
by_id (item ∷ items) item_id =
    also (by_id items item_id) (if str_eq item.item_id item_id then some item else none)

abbrev pub slot_content : MessageSelection → LibraryItem → SlotContent
slot_content s item = record {
  item_id = s.item_id;
  pass_index = s.pass_index;
  version_id = some item.version_id;
  rendered_text = item.text;
}

abbrev pub add_content :
    MessageSelection
    → Option LibraryItem
    → Result Error (List SlotContent)
    → Result Error (List SlotContent)
add_content s none rest = err (key_error s.item_id)
add_content s (some item) (err e) = err e
add_content s (some item) (ok rest) = ok (slot_content s item ∷ rest)

unfoldable pub slot_contents :
    List LibraryItem → List MessageSelection → Result Error (List SlotContent)
unfolding by_id
slot_contents items [] = ok []
slot_contents items (s ∷ rest) = add_content s (by_id items s.item_id) (slot_contents items rest)

abbrev pub then_contents :
    List LibraryItem → Result Error (List MessageSelection) → Result Error (List SlotContent)
then_contents items (err e) = err e
then_contents items (ok selections) = slot_contents items selections

abbrev pub item_id_of : LibraryItem → String
item_id_of item = item.item_id

-- The selection from the library, as the slots of a plan.
unfoldable pub select_slots :
    (ℕ → List String → List String)
    → List LibraryItem
    → ℤ
    → String
    → Result Error (List SlotContent)
unfolding slot_contents select_daily_items
select_slots shuffle items count mode =
    then_contents items (select_daily_items shuffle (map item_id_of items) count mode)
