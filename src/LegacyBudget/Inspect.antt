-- ===== src/LegacyBudget/Inspect.antt =====
-- app/services/legacy_daily_budget.py: `inspect_legacy_daily_budgets`. `int(value)` of a column's
-- value, none where it raises, and `date.fromisoformat`, by the number of the day, are arguments.
use maxbot.Base.{
  ℕ, ◌+◌, ◌-◌, String, Bool, false, not, ◌&&◌, ◌||◌, Option, none, some, ℤ, pos, negsuc, pos_part,
  neg_part, leb, ltb, leb_ℤ, ltb_ℤ, eq_ℤ, str_eq, if◌then◌else◌, truthy, strip, clip, List, [], ◌∷◌,
  map, fetchall, rowcount, Result, ok, err,
}

-- `a - b`
unfoldable pub sub_ℤ : ℤ → ℤ → ℤ
sub_ℤ a b =
    let m = pos_part a + neg_part b in
    let n = neg_part a + pos_part b in if leb n m then pos (m - n) else negsuc (n - m - 1)

pub data Status : Type 0 where
  migration_review_required : Status
  no_current_day : Status
  ready : Status

pub record LegacyBudgetFinding : Type 0 where
  pub profile_id : ℤ
  pub status : Status
  pub sampled_limit : Option ℤ
  pub accepted_today : Option ℤ
  pub remaining : Option ℤ
  pub reason : String

-- A row of `profiles`; a column that is NULL is none.
pub record Profile (Value : Type 0) : Type 0 where
  pub id : ℤ
  pub status : String
  pub daily_limit : Option Value
  pub daily_limit_day : Option String
  pub sent_day : Option String
  pub messages_sent_today : Option Value

-- A row of `send_log`, with what SQLite's `date(sent_at, '+3 hours')` gives.
pub record SendLog : Type 0 where
  pub profile_id : Option ℤ
  pub status : String
  pub day : Option String

-- What the connection shows: whether the table `profiles` exists, its rows, and the columns and
-- rows of `send_log`.
pub record Connection (Value : Type 0) : Type 0 where
  pub has_profiles : Bool
  pub profiles : List (Profile Value)
  pub send_log_columns : List String
  pub send_log : List SendLog

-- `str(value or "").strip()`
abbrev pub stripped : Option String → String
stripped none = ""
stripped (some s) = strip s

unfoldable pub has_column : String → List String → Bool
has_column c [] = false
has_column c (d ∷ columns) = str_eq c d || has_column c columns

abbrev eq_text : String → Option String → Bool
eq_text s none = false
eq_text s (some t) = str_eq s t

abbrev eq_id : ℤ → Option ℤ → Bool
eq_id i none = false
eq_id i (some j) = eq_ℤ i j

-- `WHERE profile_id=? AND status='sent' AND date(sent_at, '+3 hours')=?`
abbrev pub is_logged : ℤ → String → SendLog → Bool
is_logged id business_date row =
    eq_id id row.profile_id && str_eq row.status "sent" && eq_text business_date row.day

-- `ORDER BY id`
abbrev pub insert_by_id :
    {Value : Type 0} → Profile Value → List (Profile Value) → List (Profile Value)
insert_by_id p [] = p ∷ []
insert_by_id p (q ∷ rows) =
    let rest = insert_by_id p rows in if leb_ℤ p.id q.id then p ∷ q ∷ rows else q ∷ rest

unfoldable pub order_by_id : {Value : Type 0} → List (Profile Value) → List (Profile Value)
order_by_id [] = []
order_by_id (p ∷ rows) = insert_by_id p (order_by_id rows)

abbrev pub review : ℤ → Option ℤ → String → LegacyBudgetFinding
review id limit reason = record {
  profile_id = id;
  status = Status.migration_review_required;
  sampled_limit = limit;
  accepted_today = none;
  remaining = none;
  reason = reason;
}

abbrev pub no_day : ℤ → String → LegacyBudgetFinding
no_day id reason = record {
  profile_id = id;
  status = Status.no_current_day;
  sampled_limit = none;
  accepted_today = some (pos 0);
  remaining = none;
  reason = reason;
}

abbrev pub ready_finding : ℤ → ℤ → ℤ → LegacyBudgetFinding
ready_finding id limit counter = record {
  profile_id = id;
  status = Status.ready;
  sampled_limit = some limit;
  accepted_today = some counter;
  remaining = some (sub_ℤ limit counter);
  reason = "accepted_history_verified";
}

module _ {Value : Type 0} (int : Value → Option ℤ) (fromisoformat : String → Option ℕ)
    (connection : Connection Value) (business_date : String) where
  -- `_integer`
  abbrev pub integer : Option Value → Option ℤ
  integer none = none
  integer (some v) = int v

  abbrev pub logged_count : ℤ → ℕ
  logged_count id = rowcount (is_logged id business_date) connection.send_log

  abbrev pub can_count_legacy_sends : Bool
  can_count_legacy_sends =
      has_column "profile_id" connection.send_log_columns
      && has_column "status" connection.send_log_columns
      && has_column "sent_at" connection.send_log_columns

  -- The last tests of the loop, with a limit.
  abbrev pub by_limit : ℤ → String → ℤ → Option ℤ → LegacyBudgetFinding
  by_limit id limit_day counter none = review id none "current_day_limit_missing_or_unpinned"
  by_limit id limit_day counter (some limit) =
      if ltb_ℤ limit (pos 0) || not (str_eq (clip 10 limit_day) business_date)
      then review id (some limit) "current_day_limit_missing_or_unpinned"
      else if not can_count_legacy_sends
      then review id (some limit) "legacy_send_history_unavailable"
      else if not (eq_ℤ (pos (logged_count id)) counter) || ltb_ℤ limit counter
      then review id (some limit) "counter_and_accepted_history_disagree"
      else ready_finding id limit counter

  abbrev pub by_day : Profile Value → ℕ → ℤ → Option ℕ → LegacyBudgetFinding
  by_day p day counter none = review p.id none "invalid_sent_day"
  by_day p day counter (some sent_day) =
      if ltb sent_day day
      then no_day p.id "counter_belongs_to_previous_day"
      else if ltb day sent_day
      then review p.id none "counter_is_from_future_day"
      else by_limit p.id (stripped p.daily_limit_day) counter (integer p.daily_limit)

  abbrev pub by_counter : Profile Value → ℕ → Option ℤ → LegacyBudgetFinding
  by_counter p day none = review p.id none "invalid_legacy_counter"
  by_counter p day (some counter) =
      if ltb_ℤ counter (pos 0)
      then review p.id none "invalid_legacy_counter"
      else if not (truthy (stripped p.sent_day))
      then (if eq_ℤ counter (pos 0)
          then no_day p.id "sent_day_not_set_and_counter_zero"
          else review p.id none "counter_without_sent_day")
      else by_day p day counter (fromisoformat (clip 10 (stripped p.sent_day)))

  -- One turn of the loop.
  unfoldable pub classify : ℕ → Profile Value → LegacyBudgetFinding
  classify day p = by_counter p day (integer p.messages_sent_today)

  abbrev pub is_active : Profile Value → Bool
  is_active p = str_eq p.status "active"

  abbrev pub on_date : Option ℕ → Result String (List LegacyBudgetFinding)
  on_date none = err "ValueError"
  on_date (some day) =
      if connection.has_profiles
      then ok (map (classify day) (order_by_id (fetchall is_active connection.profiles)))
      else ok []

  unfoldable pub inspect_legacy_daily_budgets : Result String (List LegacyBudgetFinding)
  inspect_legacy_daily_budgets = on_date (fromisoformat business_date)
