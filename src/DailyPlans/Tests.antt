-- ===== src/DailyPlans/Tests.antt =====
-- Runs of app/repositories/daily_plans.py on small tables, and the theorems at those runs.
use mathlib.Core.Option
use mathlib.Core.List.{Perm, Permᴰ}
use maxbot.Pacing.Policy.{effective_daily_target, validated_role, instant, business_day}
use maxbot.Base.{
  ◌≡◌, refl, true, none, some, List, [], ◌∷◌, pos, transaction, clip, str_lt, fmt, fetchone,
  fetchall, update_where, rowcount, eq_ℤ, if◌then◌else◌, ◌==◌, ℕ, String, arith, Datetime, ok,
  Bool-cases, inl, inr,
}
use maxbot.DailyPlans.Rows.{SlotStatus, SlotRow, empty_database}
use maxbot.DailyPlans.Repository.{
  order_by_ordinal, get_plan, SlotContent, insert_slots, Given, Creation, insert_plan, write_plan,
  create_body, create_plan,
}
use maxbot.DailyPlans.Slots.{
  fill_body, fill_waiting_plan, get_slot, is_assigned, comes_before, first_claimable, claim_body,
  claim_next,
}
use maxbot.DailyPlans.Outcomes.{
  settle, mark_unknown, mark_failed_unsent, mark_accepted, requeue, retry,
  cancel_queued_for_profile, expire_before,
}
use maxbot.DailyPlans.Machine.{slot_of}
use maxbot.DailyPlans.Runs.{
  Call, create_call, claim_call, failed_call, accepted_call, retry_call, cancel_call, after_call,
  after_calls, AllAdvance, calls_advance_slots,
}
use maxbot.DailyPlans.Selection.{
  MessageSelection, round_robin, random_passes, select_by_mode, select_daily_items,
}
use maxbot.DailyPlans.Passes.{are_apart}
use maxbot.DailyPlans.Choices.{IsChosen, select_daily_items-IsChosen, random_norepeat_is_apart}
use maxbot.DailyPlans.Service.{LibraryItem, by_id, slot_contents, select_slots}
use maxbot.DailyPlans.Days.{
  Day, plan_for, creation_of, materialize_day, claim_next_slot, mark_slot_accepted,
}
use maxbot.DailyPlans.Budget.{IsPlanned}
use maxbot.DailyPlans.Targets.{IsBudgeted, creation_of-IsBudgeted}
use maxbot.DailyPlans.Workday.{
  Request, day_request, claim_request, accepted_request, after_request, after_requests, AllShuffles,
  after_requests-IsPlanned,
}
use maxbot.DailyPlans.Safety.{settled_slot_is_final}

-- The definitions that a run computes.
program : Unit {0}
unfolding transaction clip str_lt fmt fetchone fetchall update_where rowcount eq_ℤ order_by_ordinal
    get_plan insert_slots insert_plan write_plan create_body create_plan fill_body fill_waiting_plan
    get_slot is_assigned comes_before first_claimable claim_body claim_next settle mark_unknown
    mark_failed_unsent mark_accepted requeue retry cancel_queued_for_profile expire_before
    after_call after_calls round_robin random_passes select_by_mode select_daily_items by_id
    slot_contents select_slots plan_for creation_of materialize_day claim_next_slot
    mark_slot_accepted effective_daily_target validated_role instant business_day after_request
    after_requests AllShuffles
program = tt

abbrev given : Given
given = record {
  cycle_now = "t1";
  cycle_hex = "c";
  plan_hex = "p";
  now = "t1";
  slot_hex = λ index. if index == 0 then "a" else "b";
}

abbrev hello : SlotContent
hello = record { item_id = "i1"; pass_index = 0; version_id = some "v1"; rendered_text = "hello" }

abbrev monday : Creation
monday = record {
  scope = "tenant:1";
  profile_id = pos 7;
  business_date = "2026-09-01";
  role = "active";
  sampled_limit = pos 3;
  quiet_limit = pos 1;
  target = pos 2;
  work_group_id = some (pos 4);
  version_id = some "v1";
  warning = "";
  slots = hello ∷ hello ∷ [];
}

-- The first slot is claimed, fails before the send, is queued again and is sent.
abbrev calls : List Call
calls =
    create_call given monday
    ∷ claim_call "t2" "tenant:1" "2026-09-01" (some ((pos 7, pos 4) ∷ []))
    ∷ failed_call "t3" "slot-a" "no route"
    ∷ retry_call "t4" "slot-a" true
    ∷ claim_call "t5" "tenant:1" "2026-09-01" none
    ∷ accepted_call "t6" "slot-a"
    ∷ []

abbrev more_calls : List Call
more_calls = retry_call "t7" "slot-a" true ∷ cancel_call "t8" "tenant:1" (pos 7) "reassigned" ∷ []

abbrev sent : SlotRow
sent = record {
  slot_id = "slot-a";
  scope = "tenant:1";
  plan_id = "plan-p";
  ordinal = 0;
  item_id = "i1";
  pass_index = 0;
  version_id = some "v1";
  rendered_text = "hello";
  status = SlotStatus.accepted;
  failure_reason = "";
  retry_count = 1;
  claimed_at = some "t5";
  updated_at = "t6";
}

sent-found : slot_of "slot-a" (after_calls calls empty_database) ≡ some sent
unfolding program
sent-found = refl

settled_slot_is_final_example :
    slot_of "slot-a" (after_calls more_calls (after_calls calls empty_database)) ≡ some sent
settled_slot_is_final_example =
    settled_slot_is_final more_calls (after_calls calls empty_database) "slot-a" sent sent-found
      refl

calls_advance_slots_example : AllAdvance more_calls (after_calls calls empty_database)
calls_advance_slots_example = calls_advance_slots more_calls (after_calls calls empty_database)

abbrev swap_two : List String → List String
swap_two [] = []
swap_two (a ∷ []) = a ∷ []
swap_two (a ∷ b ∷ rest) = b ∷ a ∷ rest

abbrev shuffle : ℕ → List String → List String
shuffle k xs = if k == 1 then swap_two xs else xs

abbrev ids : List String
ids = "i1" ∷ "i2" ∷ []

shuffled : (k : ℕ) → Perm (shuffle k ids) ids
shuffled k = elim (Bool-cases (k == 1)) [
  | inl e ↦ rw e (∣ Permᴰ.swap refl refl ∣₁)
  | inr e ↦ rw e (∣ Permᴰ.cons refl (Permᴰ.cons refl Permᴰ.nil) ∣₁)
]

select_daily_items-IsChosen_example :
    (result : List MessageSelection) × (select_daily_items shuffle ids (pos 3) "random_norepeat"
      ≡ ok result)
    × IsChosen ids 3 result
select_daily_items-IsChosen_example =
    select_daily_items-IsChosen shuffle ids 3 "random_norepeat" shuffled refl (omega arith) refl

abbrev three : List MessageSelection
three =
    record { item_id = "i1"; pass_index = 0 }
    ∷ record { item_id = "i2"; pass_index = 0 }
    ∷ record { item_id = "i1"; pass_index = 1 }
    ∷ []

three-selected : select_daily_items shuffle ids (pos 3) "random_norepeat" ≡ ok three
unfolding program
three-selected = refl

random_norepeat_is_apart_example : are_apart none three ≡ true
random_norepeat_is_apart_example =
    random_norepeat_is_apart shuffle ids 3 three shuffled refl (omega arith) three-selected

abbrev library : List LibraryItem
library =
    record { item_id = "i1"; text = "hello"; version_id = "v1" }
    ∷ record { item_id = "i2"; text = "good morning"; version_id = "v1" }
    ∷ []

-- Four messages are sampled, one was accepted before.
abbrev tuesday : Day
tuesday = record {
  scope = "tenant:1";
  profile_id = pos 7;
  business_date = "2026-09-02";
  sampled_limit = pos 4;
  role = "active";
  quiet_limit = pos 1;
  work_group_id = some (pos 4);
  library_items = library;
  mode = "random_norepeat";
  shuffle = shuffle;
  accepted_count = pos 1;
}

abbrev content : String → ℕ → String → SlotContent
content item_id pass_index text = record {
  item_id = item_id;
  pass_index = pass_index;
  version_id = some "v1";
  rendered_text = text;
}

abbrev tuesday_plan : Creation
tuesday_plan = record {
  scope = "tenant:1";
  profile_id = pos 7;
  business_date = "2026-09-02";
  role = "active";
  sampled_limit = pos 4;
  quiet_limit = pos 1;
  target = pos 3;
  work_group_id = some (pos 4);
  version_id = some "v1";
  warning = "";
  slots = content "i1" 0 "hello" ∷ content "i2" 0 "good morning" ∷ content "i1" 1 "hello" ∷ [];
}

tuesday-created : creation_of tuesday ≡ ok tuesday_plan
unfolding program
tuesday-created = refl

creation_of-IsBudgeted_example : IsBudgeted tuesday tuesday_plan
creation_of-IsBudgeted_example =
    creation_of-IsBudgeted tuesday tuesday_plan shuffled tuesday-created

abbrev isoformat : ℕ → String
isoformat day = "2026-09-02"

abbrev three_hexes : ℕ → String
three_hexes index = if index == 0 then "a" else if index == 1 then "b" else "c"

abbrev requests : List Request
requests =
    day_request (record given { slot_hex = three_hexes }) tuesday
    ∷ claim_request isoformat "t2" "tenant:1" (Datetime.aware 0) none
    ∷ accepted_request "t3" "slot-a"
    ∷ []

requests-shuffle : AllShuffles requests
unfolding AllShuffles
requests-shuffle = (shuffled, (tt, (tt, tt)))

slot_a-accepted :
    Option.map (λ s. s.status) (slot_of "slot-a" (after_requests requests empty_database))
    ≡ some SlotStatus.accepted
unfolding program
slot_a-accepted = refl

after_requests-IsPlanned_example : IsPlanned (after_requests requests empty_database)
after_requests-IsPlanned_example = after_requests-IsPlanned requests requests-shuffle
