-- ===== src/Pacing/Policy.antt =====
-- app/services/pacing.py: roles, targets, deadlines and eligibility. Instants are in microseconds,
-- and so are the two delays of `next_allowed_at`, rounded as `timedelta` rounds them.
use maxbot.Base.{
  Datetime, ℕ, ◌+◌, ◌/◌, max, String, Bool, true, false, not, ◌||◌, Option, none, some, ℤ, pos,
  pos_part, ltb, leb_ℤ, ltb_ℤ, str_eq, if◌then◌else◌, List, [], ◌∷◌, ◌++◌, Result, ok, err, fmt,
}

pub data Role : Type 0 where
  active : Role
  quiet : Role
  skip : Role

unfoldable pub validated_role : String → Result String Role
validated_role role =
    if str_eq role "active"
    then ok Role.active
    else if str_eq role "quiet"
    then ok Role.quiet
    else if str_eq role "skip"
    then ok Role.skip
    else err (fmt "unsupported role: " role)

abbrev pub min_ℤ : ℤ → ℤ → ℤ
min_ℤ a b = if leb_ℤ a b then a else b

abbrev pub target_of : ℤ → ℤ → Role → ℤ
target_of sampled quiet_limit Role.skip = pos 0
target_of sampled quiet_limit Role.quiet = min_ℤ sampled quiet_limit
target_of sampled quiet_limit Role.active = sampled

abbrev pub with_role : {A B : Type 0} → (A → Result String B) → Result String A → Result String B
with_role f (err e) = err e
with_role f (ok a) = f a

unfoldable pub effective_daily_target : ℤ → String → ℤ → Result String ℤ
effective_daily_target sampled_limit role quiet_limit =
    if ltb_ℤ sampled_limit (pos 0) || ltb_ℤ quiet_limit (pos 0)
    then err "limits must not be negative"
    else with_role (λ r. ok (target_of sampled_limit quiet_limit r)) (validated_role role)

pub record RoleSnapshot : Type 0 where
  pub day : String
  pub role : Role
  pub sampled_limit : ℤ
  pub quiet_limit : ℤ

abbrev role_text : Role → String
role_text Role.active = "active"
role_text Role.quiet = "quiet"
role_text Role.skip = "skip"

unfoldable pub target : RoleSnapshot → Result String ℤ
unfolding effective_daily_target
target s = effective_daily_target s.sampled_limit (role_text s.role) s.quiet_limit

-- `max(0, int(n))`
abbrev not_below_zero : ℤ → ℤ
not_below_zero n = pos (pos_part n)

unfoldable pub materialize_role_snapshot :
    Option RoleSnapshot → String → String → ℤ → ℤ → Result String RoleSnapshot
materialize_role_snapshot (some existing) day role sampled_limit quiet_limit = ok existing
materialize_role_snapshot none day role sampled_limit quiet_limit =
    with_role
      (λ r. ok (record {
        day = day;
        role = r;
        sampled_limit = not_below_zero sampled_limit;
        quiet_limit = not_below_zero quiet_limit;
      }))
      (validated_role role)

-- `_aware`: a `datetime` without a zone is taken to be in UTC.
unfoldable pub instant : Datetime → ℕ
instant (Datetime.naive t) = t
instant (Datetime.aware t) = t

-- `BUSINESS_TIMEZONE`, in microseconds.
abbrev pub business_timezone : ℕ
business_timezone = 10800000000

-- The date in the zone of the business, in days since the epoch.
unfoldable pub business_day : Datetime → ℕ
unfolding instant
business_day moment = (instant moment + business_timezone) / 86400000000

-- What `date.isoformat` makes of a day is an argument.
abbrev pub business_date_utc3 : (ℕ → String) → Datetime → String
business_date_utc3 isoformat moment = isoformat (business_day moment)

abbrev pub after_delay : ℕ → ℤ → List ℕ
after_delay current delay = if ltb_ℤ (pos 0) delay then (current + pos_part delay) ∷ [] else []

abbrev pub deadline_of : Option Datetime → List ℕ
deadline_of none = []
deadline_of (some d) = instant d ∷ []

-- `max(candidates)`, of a list that is not empty.
abbrev pub latest_of : ℕ → List ℕ → ℕ
latest_of t [] = t
latest_of t (u ∷ rest) = max t (latest_of u rest)

abbrev pub if_later : ℕ → List ℕ → Option ℕ
if_later current [] = none
if_later current (t ∷ rest) =
    if ltb current (latest_of t rest) then some (latest_of t rest) else none

unfoldable pub next_allowed_at : Datetime → ℤ → ℤ → Option Datetime → Option Datetime → Option ℕ
unfolding instant
next_allowed_at now configured_floor generated_delay server_deadline persisted_deadline =
    let current = instant now in
    if_later current (
      after_delay current configured_floor
      ++ after_delay current generated_delay
      ++ deadline_of server_deadline
      ++ deadline_of persisted_deadline)

pub record EligibilityResult : Type 0 where
  pub allowed : Bool
  pub reason : String
  pub next_allowed_at : Option ℕ

-- The arguments of `evaluate_eligibility`.
pub record Question : Type 0 where
  pub now : Datetime
  pub role : String
  pub sampled_limit : ℤ
  pub quiet_limit : ℤ
  pub sent_count : ℤ
  pub route_ready : Bool
  pub tenant_sanction : Option String
  pub server_deadline : Option Datetime
  pub persisted_deadline : Option Datetime
  pub unclear_wait : Bool

abbrev pub refused : String → Option ℕ → EligibilityResult
refused reason deadline = record { allowed = false; reason = reason; next_allowed_at = deadline }

abbrev pub is_banned : Option String → Bool
is_banned none = false
is_banned (some s) = str_eq s "confirmed_ban"

abbrev pub by_deadline : Option ℕ → EligibilityResult
by_deadline (some t) = refused "deadline" (some t)
by_deadline none = record { allowed = true; reason = "allowed"; next_allowed_at = none }

abbrev pub wait_of : Question → Option ℕ
wait_of q = next_allowed_at q.now (pos 0) (pos 0) q.server_deadline q.persisted_deadline

-- The tests of `evaluate_eligibility`, with the target.
unfoldable pub by_target : Question → ℤ → EligibilityResult
by_target q target =
    if is_banned q.tenant_sanction
    then refused "tenant_stopped" none
    else if q.unclear_wait
    then refused "review_required" none
    else if not q.route_ready
    then refused "route_unavailable" none
    else if leb_ℤ target (pos 0)
    then refused "role_skip" none
    else if leb_ℤ target q.sent_count
    then refused "daily_limit" none
    else by_deadline (wait_of q)

unfoldable pub evaluate_eligibility : Question → Result String EligibilityResult
unfolding by_target
evaluate_eligibility q =
    with_role (λ t. ok (by_target q t))
      (effective_daily_target q.sampled_limit q.role q.quiet_limit)
