-- ===== src/DailyPlans/Slots.antt =====
-- app/repositories/daily_plans.py: `fill_waiting_plan`, `get_slot` and `claim_next`.
use maxbot.Base.{
  ℕ, ltb, ◌==◌, String, Bool, true, false, ◌&&◌, ◌||◌, Option, none, some, ℤ, eq_ℤ, ltb_ℤ, str_eq,
  str_lt, if◌then◌else◌, List, [], ◌∷◌, pure, gets, or_raise, transaction, ◌>>=◌, ◌>>◌,
  when◌run◌otherwise◌, modify, fetchone, update_where, rowcount,
}
use maxbot.DailyPlans.Rows.{
  SlotStatus, eq_slot_status, PlanStatus, is_active, PlanRow, SlotRow, Database, key_error,
  is_plan_of, is_plan, in_plan, is_slot,
}
use maxbot.DailyPlans.Repository.{Repo, Plan, get_plan, SlotContent, insert_slots}

-- `UPDATE profile_daily_plans SET version_id=?, status='active', warning=''`
abbrev pub set_filled : String → PlanRow → PlanRow
set_filled version_id p = record p {
  version_id = some version_id;
  status = PlanStatus.active;
  warning = "";
}

abbrev pub is_waiting : String → PlanRow → Bool
is_waiting plan_id p = is_plan plan_id p && str_eq p.warning "POOL_EMPTY"

abbrev pub fill_plan : String → String → Database → Database
fill_plan version_id plan_id db = record db {
  profile_daily_plans =
      update_where (is_waiting plan_id) (set_filled version_id) db.profile_daily_plans;
}

-- A plan that still waits for a library: it has the warning, and no slots.
abbrev pub can_fill : PlanRow → Database → Bool
can_fill p db =
    str_eq p.warning "POOL_EMPTY" && rowcount (in_plan p.plan_id) db.profile_message_slots == 0

abbrev pub fill_found :
    String → (ℕ → String) → String → String → List SlotContent → PlanRow → Repo (Unit {0})
fill_found now hex scope version_id slots p db =
    (when can_fill p db
        run (do
          modify (fill_plan version_id p.plan_id)
          insert_slots now hex scope p.plan_id 0 slots)
        otherwise pure tt)
      db

-- The body of `fill_waiting_plan`'s transaction.
unfoldable pub fill_body :
    String → (ℕ → String) → String → ℤ → String → String → List SlotContent → Repo (Unit {0})
unfolding insert_slots
fill_body now hex scope profile_id business_date version_id slots = do
  found ← gets (λ db. fetchone (is_plan_of scope profile_id business_date) db.profile_daily_plans)
  plan ← or_raise found (key_error "daily plan not found")
  fill_found now hex scope version_id slots plan

unfoldable pub fill_waiting_plan :
    String → (ℕ → String) → String → ℤ → String → String → List SlotContent → Repo (Option Plan)
unfolding get_plan fill_body
fill_waiting_plan now hex scope profile_id business_date version_id slots =
    transaction (fill_body now hex scope profile_id business_date version_id slots)
    >> gets (get_plan scope profile_id business_date)

-- A slot joined with its plan.
abbrev pub Joined : Type 0
Joined = SlotRow × PlanRow

abbrev pub join_slot : SlotRow → Option PlanRow → Option Joined
join_slot s none = none
join_slot s (some p) = some (s, p)

abbrev pub plan_of_slot : Database → SlotRow → Option PlanRow
plan_of_slot db s = fetchone (is_plan s.plan_id) db.profile_daily_plans

abbrev pub join_found : Database → Option SlotRow → Option Joined
join_found db none = none
join_found db (some s) = join_slot s (plan_of_slot db s)

unfoldable pub get_slot : String → Database → Option Joined
get_slot slot_id db = join_found db (fetchone (is_slot slot_id) db.profile_message_slots)

-- `p.profile_id=? AND p.work_group_id=?`, of a column that may be NULL.
abbrev in_group : Option ℤ → ℤ → Bool
in_group none group_id = false
in_group (some g) group_id = eq_ℤ g group_id

unfoldable pub is_assigned : PlanRow → List (ℤ × ℤ) → Bool
is_assigned p [] = false
is_assigned p ((profile_id, group_id) ∷ rest) =
    (eq_ℤ p.profile_id profile_id && in_group p.work_group_id group_id) || is_assigned p rest

abbrev pub is_eligible : Option (List (ℤ × ℤ)) → PlanRow → Bool
is_eligible none p = true
is_eligible (some assignments) p = is_assigned p assignments

-- The WHERE of `claim_next`.
abbrev pub is_claimable : String → String → Option (List (ℤ × ℤ)) → Joined → Bool
is_claimable scope business_date eligible (s, p) =
    str_eq s.scope scope
    && str_eq p.business_date business_date
    && eq_slot_status s.status SlotStatus.queued
    && is_active p.status
    && is_eligible eligible p

-- `ORDER BY p.created_at, p.profile_id, s.ordinal`: whether the first comes before the second.
unfoldable pub comes_before : Joined → Joined → Bool
comes_before (s, p) (t, q) =
    str_lt p.created_at q.created_at
    || str_eq p.created_at q.created_at
      && (ltb_ℤ p.profile_id q.profile_id
          || eq_ℤ p.profile_id q.profile_id && ltb s.ordinal t.ordinal)

abbrev earlier : Joined → Option Joined → Joined
earlier x none = x
earlier x (some y) = if comes_before y x then y else x

abbrev pub consider : (Joined → Bool) → Option Joined → Option Joined → Option Joined
consider test none best = best
consider test (some x) best = if test x then some (earlier x best) else best

-- `… JOIN … WHERE … ORDER BY … LIMIT 1`
unfoldable pub first_claimable : Database → (Joined → Bool) → List SlotRow → Option Joined
unfolding comes_before
first_claimable db test [] = none
first_claimable db test (s ∷ rows) =
    consider test (join_slot s (plan_of_slot db s)) (first_claimable db test rows)

abbrev pub update_slots : (SlotRow → Bool) → (SlotRow → SlotRow) → Database → Database
update_slots q f db = record db {
  profile_message_slots = update_where q f db.profile_message_slots;
}

abbrev pub set_claimed : String → SlotRow → SlotRow
set_claimed now s = record s {
  status = SlotStatus.claimed;
  claimed_at = some now;
  updated_at = now;
}

-- `WHERE slot_id=? AND status='queued'`
abbrev pub is_queued_slot : String → SlotRow → Bool
is_queued_slot slot_id s = is_slot slot_id s && eq_slot_status s.status SlotStatus.queued

abbrev pub claim_found : String → Option Joined → Repo (Option String)
claim_found now none = pure none
claim_found now (some (s, p)) = do
  modify (update_slots (is_queued_slot s.slot_id) (set_claimed now))
  pure (some s.slot_id)

abbrev pub read_claimed : Option String → Repo (Option Joined)
read_claimed none = pure none
read_claimed (some slot_id) = gets (get_slot slot_id)

abbrev pub no_assignments : Option (List (ℤ × ℤ)) → Bool
no_assignments (some []) = true
no_assignments (some (a ∷ rest)) = false
no_assignments none = false

-- The body of `claim_next`'s transaction.
unfoldable pub claim_body : String → String → String → Option (List (ℤ × ℤ)) → Repo (Option String)
unfolding first_claimable is_assigned
claim_body now scope business_date eligible =
    when no_assignments eligible run pure none otherwise do
      row ← gets (λ db.
          first_claimable db (is_claimable scope business_date eligible) db.profile_message_slots)
      claim_found now row

unfoldable pub claim_next : String → String → String → Option (List (ℤ × ℤ)) → Repo (Option Joined)
unfolding claim_body get_slot
claim_next now scope business_date eligible =
    transaction (claim_body now scope business_date eligible) >>= read_claimed
