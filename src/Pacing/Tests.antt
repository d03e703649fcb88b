-- ===== src/Pacing/Tests.antt =====
-- app/services/pacing.py: an account that may send, and one that must wait.
use maxbot.Base.{true, ◌≡◌, Datetime, none, some, pos, true, false, refl, ◌+◌}
use maxbot.Pacing.Shares.{
  role_rotation_for_part, split_role_counts, IsShared, split_role_counts-IsShared,
  role_rotation_is_fair,
}
use maxbot.Base.{◌≢◌, negsuc, pos_part}
use maxbot.Pacing.Policy.{
  Question, EligibilityResult, instant, validated_role, effective_daily_target, next_allowed_at,
  by_target, evaluate_eligibility,
}
use maxbot.Pacing.Deadlines.{Keeps, KeepsGiven, next_allowed_at-Keeps}
use maxbot.Pacing.Eligible.{IsAdmitted, allowed-iff_IsAdmitted}
use maxbot.Pacing.Rotation.{IsFairSplit, split_thirds, split_thirds-IsFairSplit}

program : Unit {0}
unfolding instant validated_role effective_daily_target next_allowed_at by_target
    evaluate_eligibility
program = tt

-- A quiet account with one message left, whose deadline is just over.
abbrev question : Question
question = record {
  now = Datetime.aware 1000;
  role = "quiet";
  sampled_limit = pos 9;
  quiet_limit = pos 3;
  sent_count = pos 2;
  route_ready = true;
  tenant_sanction = none;
  server_deadline = some (Datetime.naive 1000);
  persisted_deadline = none;
  unclear_wait = false;
}

abbrev go : EligibilityResult
go = record { allowed = true; reason = "allowed"; next_allowed_at = none }

allowed-iff_IsAdmitted_example :
    (go.allowed ≡ true → IsAdmitted question) × (IsAdmitted question → go.allowed ≡ true)
unfolding program
allowed-iff_IsAdmitted_example = allowed-iff_IsAdmitted question go refl

question-IsAdmitted : IsAdmitted question
unfolding program
question-IsAdmitted = (allowed-iff_IsAdmitted question go refl).0 refl

-- No deadline of the provider, a persisted one that is over, and a delay of nothing.
next_allowed_at-Keeps_example :
    let answer =
      next_allowed_at (Datetime.aware 1000) (pos 50) (negsuc 6) none (some (Datetime.aware 900)) in
    KeepsGiven (instant (Datetime.aware 1000)) none answer
    × KeepsGiven (instant (Datetime.aware 1000)) (some (Datetime.aware 900)) answer
    × Keeps
        (instant (Datetime.aware 1000))
        (instant (Datetime.aware 1000) + pos_part (pos 50))
        answer
    × Keeps
        (instant (Datetime.aware 1000))
        (instant (Datetime.aware 1000) + pos_part (negsuc 6))
        answer
next_allowed_at-Keeps_example =
    next_allowed_at-Keeps (Datetime.aware 1000) (pos 50) (negsuc 6) none (some (Datetime.aware 900))

split_thirds-IsFairSplit_example : IsFairSplit 8 (split_thirds (pos 8))
split_thirds-IsFairSplit_example = split_thirds-IsFairSplit (pos 8)

split_role_counts-IsShared_example : IsShared 8 (split_role_counts (pos 8) 9 2)
split_role_counts-IsShared_example = split_role_counts-IsShared (pos 8) 9 2

role_rotation_is_fair_example :
    (role_rotation_for_part 4 1 ≢ role_rotation_for_part 5 1)
    × (role_rotation_for_part 4 1 ≢ role_rotation_for_part 6 1)
    × (role_rotation_for_part 4 1 ≢ role_rotation_for_part 4 2)
    × (role_rotation_for_part 4 1 ≢ role_rotation_for_part 4 3)
role_rotation_is_fair_example = role_rotation_is_fair 4 1
