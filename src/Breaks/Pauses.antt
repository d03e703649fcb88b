-- ===== src/Breaks/Pauses.antt =====
-- app/campaign_pacing.py, on the dictionaries of app/campaign_runtime.py. Instants are in microseconds,
-- and so are the delays, rounded as `timedelta` rounds them; `time.time()`, the local time, what
-- `random.uniform` gives and what `datetime.fromisoformat` reads are arguments. The two callbacks,
-- `persist` and `log`, are written down in the order of their calls. Settings of a time are taken
-- not to be negative.
use maxbot.Base.{
  ℕ, ◌+◌, ◌-◌, ◌*◌, ◌/◌, min, max, ltb, leb, String, Bool, true, false, not, Option, none, some, ℤ,
  pos, leb_ℤ, ltb_ℤ, truthy, if◌then◌else◌, is_some, List, [], ◌∷◌, ◌++◌,
}
use maxbot.Breaks.Dict.{get, put, pop, keys, values, or_zero}

-- A call of `persist` or of `log`, by what its text says.
pub data Callback : Type 0 where
  persist : ℤ → Callback
  log_stopped : ℤ → ℕ → ℕ → Callback
  log_available : ℤ → Callback
  log_break : ℤ → ℤ → ℕ → ℕ → Callback

-- The part of `CampaignRuntime` that the breaks use, and the callbacks so far.
pub record Runtime : Type 0 where
  pub consecutive_errors : List (ℤ × ℕ)
  pub circuit_opened_at : List (ℤ × ℕ)
  pub human_burst_count : List (ℤ × ℕ)
  pub human_break_until : List (ℤ × ℕ)
  pub callbacks : List Callback

abbrev pub call : Callback → Runtime → Runtime
call c rt = record rt { callbacks = rt.callbacks ++ c ∷ [] }

-- `setting_float("circuit_break_minutes", …)` as a delay, and `max_consecutive_errors`.
pub record Breaker : Type 0 where
  pub circuit_break : ℕ
  pub max_consecutive_errors : ℕ

-- `max(1.0, …) * 60`
abbrev pub window : Breaker → ℕ
window b = max 60000000 b.circuit_break

unfoldable pub on_success : ℤ → Runtime → Runtime
unfolding pop
on_success profile_id rt = call (Callback.persist profile_id) (record rt {
  consecutive_errors = pop profile_id rt.consecutive_errors;
  circuit_opened_at = pop profile_id rt.circuit_opened_at;
})

abbrev pub errors_of : ℤ → Runtime → ℕ
errors_of profile_id rt = or_zero (get profile_id rt.consecutive_errors)

-- `d.setdefault(k, v)`
abbrev pub set_default : ℤ → ℕ → List (ℤ × ℕ) → List (ℤ × ℕ)
set_default k v d = if is_some (get k d) then d else put k v d

abbrev pub count_error : ℤ → Runtime → Runtime
count_error profile_id rt = record rt {
  consecutive_errors = put profile_id (errors_of profile_id rt + 1) rt.consecutive_errors;
}

abbrev pub open_circuit : Breaker → ℕ → ℤ → ℕ → Runtime → Runtime
open_circuit b wall profile_id n rt =
    call (Callback.log_stopped profile_id (window b / 60000000) n)
      (record rt { circuit_opened_at = set_default profile_id wall rt.circuit_opened_at })

unfoldable pub on_error : Breaker → ℕ → ℤ → Runtime → Runtime
unfolding get put
on_error b wall profile_id rt =
    let n = errors_of profile_id rt + 1 in
    let counted = count_error profile_id rt in
    call (Callback.persist profile_id)
      (if leb b.max_consecutive_errors n then open_circuit b wall profile_id n counted else counted)

abbrev pub opened_of : ℤ → Runtime → ℕ
opened_of profile_id rt = or_zero (get profile_id rt.circuit_opened_at)

unfoldable pub is_circuit_open : Breaker → ℕ → ℤ → Runtime → Bool × Runtime
unfolding get on_success
is_circuit_open b wall profile_id rt =
    if ltb (errors_of profile_id rt) b.max_consecutive_errors
    then (false, rt)
    else if ltb (opened_of profile_id rt + window b) wall
    then (false, call (Callback.log_available profile_id) (on_success profile_id rt))
    else (true, rt)

abbrev count_if : Bool → ℕ
count_if true = 1
count_if false = 0

unfoldable pub count_open : Breaker → ℕ → List ℤ → Runtime → ℕ × Runtime
unfolding is_circuit_open
count_open b wall [] rt = (0, rt)
count_open b wall (profile_id ∷ rest) rt =
    let answer = is_circuit_open b wall profile_id rt in
    let others = count_open b wall rest answer.1 in (count_if answer.0 + others.0, others.1)

unfoldable pub circuit_open_count : Breaker → ℕ → Runtime → ℕ × Runtime
unfolding count_open keys
circuit_open_count b wall rt = count_open b wall (keys rt.consecutive_errors) rt

abbrev pub in_break : ℕ → ℤ → Runtime → Option ℕ → Bool × Runtime
in_break now profile_id rt none = (false, rt)
in_break now profile_id rt (some until) =
    if leb until now
    then (
      false,
      call (Callback.persist profile_id)
          (record rt { human_break_until = pop profile_id rt.human_break_until }),
    )
    else (true, rt)

unfoldable pub is_in_human_break : ℕ → ℤ → Runtime → Bool × Runtime
unfolding get pop
is_in_human_break now profile_id rt =
    in_break now profile_id rt (get profile_id rt.human_break_until)

-- The settings of the breaks, and what `random.uniform` gives.
pub record Human : Type 0 where
  pub enabled : Bool
  pub break_after_n : ℤ
  pub break_min_sec : ℕ
  pub break_max_sec : ℕ
  pub uniform : ℕ → ℕ → ℕ

abbrev pub set_burst : ℤ → ℕ → Runtime → Runtime
set_burst profile_id n rt = record rt { human_burst_count = put profile_id n rt.human_burst_count }

abbrev pub burst_of : ℤ → Runtime → ℕ
burst_of profile_id rt = or_zero (get profile_id rt.human_burst_count)

-- The length of a break: `uniform` between the two settings, in their order.
abbrev pub break_length : Human → ℕ
break_length h =
    h.uniform (min h.break_min_sec h.break_max_sec * 1000000)
      (max h.break_min_sec h.break_max_sec * 1000000)

abbrev pub start_break : Human → ℕ → ℤ → Runtime → Runtime
start_break h now profile_id rt =
    let until = now + break_length h in
    call (Callback.log_break profile_id h.break_after_n (break_length h / 60000000) until) (
      call (Callback.persist profile_id)
        (record rt { human_break_until = put profile_id until rt.human_break_until }))

unfoldable pub note_human_burst : Human → ℕ → ℤ → Runtime → Runtime
unfolding get put
note_human_burst h now profile_id rt =
    let burst = burst_of profile_id rt + 1 in
    if not h.enabled
    then rt
    else if leb_ℤ h.break_after_n (pos 0)
    then rt
    else if ltb_ℤ (pos burst) h.break_after_n
    then call (Callback.persist profile_id) (set_burst profile_id burst rt)
    else start_break h now profile_id (set_burst profile_id 0 rt)

-- `min(waits)`, of the breaks that are not over.
unfoldable pub shortest_wait : ℕ → List ℕ → Option ℕ
shortest_wait now [] = none
shortest_wait now (until ∷ rest) =
    let others = shortest_wait now rest in
    if ltb now until then some (shorter (until - now) others) else others
  where
    shorter : ℕ → Option ℕ → ℕ
    shorter n none = n
    shorter n (some m) = min n m

abbrev pub wait_or_default : Option ℕ → ℕ
wait_or_default none = 30000000
wait_or_default (some wait) = max 1000000 wait

unfoldable pub seconds_until_any_human_break_ends : ℕ → Runtime → ℕ
unfolding shortest_wait values
seconds_until_any_human_break_ends now rt =
    wait_or_default (shortest_wait now (values rt.human_break_until))

-- A row of the table in which the breaks are saved.
pub record AntibanRow : Type 0 where
  pub burst_count : ℕ
  pub break_until_raw : Option String
  pub consecutive_errors : ℕ
  pub circuit_opened_at : Option ℕ

abbrev pub load_burst : ℤ → ℕ → Runtime → Runtime
load_burst profile_id n rt = if ltb 0 n then set_burst profile_id n rt else rt

abbrev pub load_until : ℕ → ℤ → Option ℕ → Runtime → Runtime
load_until now profile_id none rt = rt
load_until now profile_id (some until) rt =
    if ltb now until
    then record rt { human_break_until = put profile_id until rt.human_break_until }
    else rt

abbrev pub load_break : (String → Option ℕ) → ℕ → ℤ → Option String → Runtime → Runtime
load_break fromisoformat now profile_id none rt = rt
load_break fromisoformat now profile_id (some raw) rt =
    if truthy raw then load_until now profile_id (fromisoformat raw) rt else rt

abbrev pub load_errors : ℤ → ℕ → Runtime → Runtime
load_errors profile_id n rt =
    if ltb 0 n
    then record rt { consecutive_errors = put profile_id n rt.consecutive_errors }
    else rt

abbrev pub load_opened : Breaker → ℕ → ℤ → ℕ → Option ℕ → Runtime → Runtime
load_opened b wall profile_id n none rt = rt
load_opened b wall profile_id n (some opened) rt =
    if leb b.max_consecutive_errors n
    then if ltb wall (opened + window b)
      then record rt { circuit_opened_at = put profile_id opened rt.circuit_opened_at }
      else record rt { consecutive_errors = pop profile_id rt.consecutive_errors }
    else rt

unfoldable pub load_antiban_row :
    Breaker → (String → Option ℕ) → ℕ → ℕ → ℤ → AntibanRow → Runtime → Runtime
unfolding put pop truthy
load_antiban_row b fromisoformat now wall profile_id row rt =
    load_opened b wall profile_id row.consecutive_errors row.circuit_opened_at (
      load_errors profile_id row.consecutive_errors (
        load_break fromisoformat now profile_id row.break_until_raw
          (load_burst profile_id row.burst_count rt)))

-- The four columns that are saved for an account.
abbrev pub antiban_snapshot : ℤ → Runtime → ℕ × Option ℕ × ℕ × Option ℕ
antiban_snapshot profile_id rt = (
  burst_of profile_id rt,
  get profile_id rt.human_break_until,
  errors_of profile_id rt,
  get profile_id rt.circuit_opened_at,
)
