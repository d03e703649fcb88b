-- ===== src/DailyPlans/Keeps.antt =====
-- app/repositories/daily_plans.py: what a change of the tables keeps of slots and plans.
use mathlib.Core.Option
use mathlib.Core.Path.{subst}
use maxbot.Base.{
  String, Bool, true, Option, none, some, ◌≡◌, refl, sym, ap, ◌⊎◌, ◌∙◌, str_eq, List, fetchone,
  insert, on_match, fetchone_sound, fetchone-insert, fetchone-update_where, or_else, if◌then◌else◌,
  Bool-cases, inl, inr, eq_iff,
}
use maxbot.DailyPlans.Rows.{SlotStatus, PlanRow, SlotRow, Database, is_slot, is_plan}
use maxbot.DailyPlans.Slots.{update_slots, set_filled, is_waiting, fill_plan}
use maxbot.DailyPlans.Machine.{Move, Evolves, same, after, Evolves-trans, slot_of, Later}

abbrev SlotsKept : Database → Database → Type 0
SlotsKept s t = (id : String) (a : SlotRow) → slot_of id s ≡ some a → Later a (slot_of id t)

-- Two states of one plan: its owner, its day, its limits and its target are the same.
pub record SamePlan (a b : PlanRow) : Type 0 where
  pub scope : b.scope ≡ a.scope
  pub plan_id : b.plan_id ≡ a.plan_id
  pub profile_id : b.profile_id ≡ a.profile_id
  pub business_date : b.business_date ≡ a.business_date
  pub role : b.role ≡ a.role
  pub sampled_limit : b.sampled_limit ≡ a.sampled_limit
  pub quiet_limit : b.quiet_limit ≡ a.quiet_limit
  pub target : b.target ≡ a.target
  pub work_group_id : b.work_group_id ≡ a.work_group_id

pub SamePlan-refl : (a : PlanRow) → SamePlan a a
SamePlan-refl a = record {
  scope = refl;
  plan_id = refl;
  profile_id = refl;
  business_date = refl;
  role = refl;
  sampled_limit = refl;
  quiet_limit = refl;
  target = refl;
  work_group_id = refl;
}

pub SamePlan-trans : (a b c : PlanRow) → SamePlan a b → SamePlan b c → SamePlan a c
SamePlan-trans a b c h k = record {
  scope = k.scope ∙ h.scope;
  plan_id = k.plan_id ∙ h.plan_id;
  profile_id = k.profile_id ∙ h.profile_id;
  business_date = k.business_date ∙ h.business_date;
  role = k.role ∙ h.role;
  sampled_limit = k.sampled_limit ∙ h.sampled_limit;
  quiet_limit = k.quiet_limit ∙ h.quiet_limit;
  target = k.target ∙ h.target;
  work_group_id = k.work_group_id ∙ h.work_group_id;
}

abbrev pub plan_of : String → Database → Option PlanRow
plan_of id db = fetchone (is_plan id) db.profile_daily_plans

abbrev PlansKept : Database → Database → Type 0
PlansKept s t =
    (id : String) (a : PlanRow)
    → plan_of id s ≡ some a
    → (b : PlanRow) × (plan_of id t ≡ some b) × SamePlan a b

-- From one state of the tables to another, every slot makes only moves of the machine, and every
-- plan stays what it was.
abbrev pub Keeps : Database → Database → Type 0
Keeps s t = SlotsKept s t × PlansKept s t

pub Keeps-refl : (s : Database) → Keeps s s
Keeps-refl s = ((λ id a here. (a, here, same)), (λ id a here. (a, here, SamePlan-refl a)))

pub Keeps-trans : (s t u : Database) → Keeps s t → Keeps t u → Keeps s u
Keeps-trans s t u (h, h') (k, k') = (
  (λ id a here.
      let (m, at_m, before) = h id a here in
      let (b, at_b, rest) = k id m at_m in (b, at_b, Evolves-trans before rest)),
  (λ id a here.
      let (m, at_m, before) = h' id a here in
      let (b, at_b, rest) = k' id m at_m in (b, at_b, SamePlan-trans a m b before rest)),
)

pub slot_of_lem :
    (id : String) (s : Database) (a : SlotRow) → slot_of id s ≡ some a → a.slot_id ≡ id
slot_of_lem id s a here =
    (eq_iff a.slot_id id).0 (fetchone_sound (is_slot id) s.profile_message_slots here)

-- Every slot stays as it was, or makes one move of the machine, to a status that is given; and every
-- plan stays what it was.
abbrev pub Advances : SlotStatus → Database → Database → Type 0
Advances to s t =
    ((id : String) (a : SlotRow)
      → slot_of id s ≡ some a
      → (b : SlotRow) × (slot_of id t ≡ some b) × ((b ≡ a) ⊎ Move a b × (b.status ≡ to)))
    × PlansKept s t

-- An UPDATE that moves every slot it matches.
pub update-Advances :
    (to : SlotStatus) (q : SlotRow → Bool) (f : SlotRow → SlotRow) (s : Database)
    → ((x : SlotRow) → (f x).slot_id ≡ x.slot_id)
    → ((x : SlotRow) → (f x).status ≡ to)
    → ((id : String) (a : SlotRow) → slot_of id s ≡ some a → q a ≡ true → Move a (f a))
    → Advances to s (update_slots q f s)
update-Advances to q f s keeps reaches moves = (slots, (λ id a here. (a, here, SamePlan-refl a)))
  where
    found :
        (id : String) (a : SlotRow)
        → slot_of id s ≡ some a
        → slot_of id (update_slots q f s) ≡ some (on_match q f a)
    found id a here =
        fetchone-update_where (is_slot id) q f (λ x. ap (λ k. str_eq k id) (keeps x))
          s.profile_message_slots
        ∙ ap (Option.map (on_match q f)) here

    slots :
        (id : String) (a : SlotRow)
        → slot_of id s ≡ some a
        → (b : SlotRow) × (slot_of id (update_slots q f s) ≡ some b)
          × ((b ≡ a) ⊎ Move a b × (b.status ≡ to))
    slots id a here = elim (Bool-cases (q a)) [
      | inl e ↦ (f a, found id a here ∙ rw e refl, inr (moves id a here e, reaches a))
      | inr e ↦ (a, found id a here ∙ rw e refl, inl refl)
    ]

-- One call among others.
evolved : {a b : SlotRow} (to : SlotStatus) → (b ≡ a) ⊎ Move a b × (b.status ≡ to) → Evolves a b
evolved {a} to (inl e) = subst (Evolves a) (sym e) same
evolved to (inr (move, reaches)) = after same move

pub Advances-Keeps : (to : SlotStatus) (s t : Database) → Advances to s t → Keeps s t
Advances-Keeps to s t (h, plans) =
    ((λ id a here. let (b, there, one) = h id a here in (b, there, evolved to one)), plans)

pub some_inj : {A : Type 0} {a b : A} → some a ≡ some b → a ≡ b
some_inj h = cc

-- A new row takes nobody's place.
fetchone-insert_found :
    {A : Type 0} (p : A → Bool) (x a : A) (rows : List A)
    → fetchone p rows ≡ some a
    → fetchone p (insert x rows) ≡ some a
fetchone-insert_found p x a rows here =
    fetchone-insert p x rows ∙ ap (λ o. or_else o (if p x then some x else none)) here

-- Every slot and every plan stays what it was; there may be more of them.
abbrev pub Stays : Database → Database → Type 0
Stays s t =
    ((id : String) (a : SlotRow) → slot_of id s ≡ some a → slot_of id t ≡ some a) × PlansKept s t

pub Stays-Keeps : (s t : Database) → Stays s t → Keeps s t
Stays-Keeps s t (h, plans) = ((λ id a here. (a, h id a here, same)), plans)

pub Stays-refl : (s : Database) → Stays s s
Stays-refl s = ((λ id a here. here), (λ id a here. (a, here, SamePlan-refl a)))

pub Stays-trans : (s t u : Database) → Stays s t → Stays t u → Stays s u
Stays-trans s t u (h, h') (k, k') = (
  (λ id a here. k id a (h id a here)),
  (λ id a here.
      let (m, at_m, before) = h' id a here in
      let (b, at_b, rest) = k' id m at_m in (b, at_b, SamePlan-trans a m b before rest)),
)

pub insert_slot-Stays :
    (row : SlotRow) (s : Database)
    → Stays s (record s { profile_message_slots = insert row s.profile_message_slots })
insert_slot-Stays row s = (
  (λ id a here. fetchone-insert_found (is_slot id) row a s.profile_message_slots here),
  (λ id a here. (a, here, SamePlan-refl a)),
)

pub insert_plan-Stays :
    (row : PlanRow) (s : Database)
    → Stays s (record s { profile_daily_plans = insert row s.profile_daily_plans })
insert_plan-Stays row s = (
  (λ id a here. here),
  (λ id a here.
      (a, fetchone-insert_found (is_plan id) row a s.profile_daily_plans here, SamePlan-refl a)),
)

set_filled-SamePlan : (version_id : String) (p : PlanRow) → SamePlan p (set_filled version_id p)
set_filled-SamePlan version_id p = record {
  scope = refl;
  plan_id = refl;
  profile_id = refl;
  business_date = refl;
  role = refl;
  sampled_limit = refl;
  quiet_limit = refl;
  target = refl;
  work_group_id = refl;
}

pub fill_plan-Stays :
    (version_id plan_id : String) (s : Database) → Stays s (fill_plan version_id plan_id s)
fill_plan-Stays version_id plan_id s = ((λ id a here. here), plans)
  where
    found :
        (id : String) (a : PlanRow)
        → plan_of id s ≡ some a
        → plan_of id (fill_plan version_id plan_id s)
          ≡ some (on_match (is_waiting plan_id) (set_filled version_id) a)
    found id a here =
        fetchone-update_where (is_plan id) (is_waiting plan_id) (set_filled version_id) (λ x. refl)
          s.profile_daily_plans
        ∙ ap (Option.map (on_match (is_waiting plan_id) (set_filled version_id))) here

    plans :
        (id : String) (a : PlanRow)
        → plan_of id s ≡ some a
        → (b : PlanRow) × (plan_of id (fill_plan version_id plan_id s) ≡ some b) × SamePlan a b
    plans id a here = elim (Bool-cases (is_waiting plan_id a)) [
      | inl e ↦
          (set_filled version_id a, found id a here ∙ rw e refl, set_filled-SamePlan version_id a)
      | inr e ↦ (a, found id a here ∙ rw e refl, SamePlan-refl a)
    ]
