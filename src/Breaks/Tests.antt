-- ===== src/Breaks/Tests.antt =====
-- Runs of app/campaign_pacing.py for one account, and the theorems at those runs.
use maxbot.Base.{
  eq_ℤ, ℕ, zero, suc, ◌+◌, ◌-◌, ap, ◌≢◌, ◌*◌, ◌/◌, String, true, false, Option, none, some, ◌≡◌,
  refl, arith, pos, List, [], ◌∷◌, truthy,
}
use maxbot.Breaks.Dict.{get, put, pop, keys, values}
use maxbot.Breaks.Pauses.{
  Runtime, Breaker, window, opened_of, Human, burst_of, on_success, on_error, is_circuit_open,
  count_open, circuit_open_count, is_in_human_break, note_human_burst, shortest_wait,
  seconds_until_any_human_break_ends, load_antiban_row,
}
use maxbot.Breaks.Errors.{after_errors, time_at, is_stopped, is_circuit_open-after_errors}
use maxbot.Breaks.Restart.{IsIsoformat, IsFresh, whole_seconds, load_saved-persist_antiban_profile}
use maxbot.Breaks.Saves.{persist_antiban_profile, load_saved}
use maxbot.Breaks.Loads.{breaks_by}
use mathlib.Core.Option
use maxbot.Breaks.Bursts.{after_messages}

-- The definitions that a run computes.
program : Unit {0}
unfolding eq_ℤ get put pop keys values on_success on_error is_circuit_open count_open
    circuit_open_count is_in_human_break note_human_burst shortest_wait
    seconds_until_any_human_break_ends load_antiban_row after_errors after_messages truthy
program = tt

abbrev fresh : Runtime
fresh = record {
  consecutive_errors = [];
  circuit_opened_at = [];
  human_burst_count = [];
  human_break_until = [];
  callbacks = [];
}

abbrev breaker : Breaker
breaker = record { circuit_break = 90000000; max_consecutive_errors = 2 }

-- The second error opens the circuit, for a minute and a half.
abbrev errors : List ℕ
errors = 1000000 ∷ 2000000 ∷ 50000000 ∷ []

fresh-get :
    (get (pos 7) fresh.consecutive_errors ≡ none) × (get (pos 7) fresh.circuit_opened_at ≡ none)
unfolding get
fresh-get = (refl, refl)

is_circuit_open-after_errors_example :
    (is_circuit_open breaker 91000000 (pos 7) (after_errors breaker (pos 7) errors fresh)).0
    ≡ is_stopped breaker 91000000 (time_at 1 errors)
is_circuit_open-after_errors_example =
    is_circuit_open-after_errors breaker (pos 7) 1 errors 91000000 fresh fresh-get.0 fresh-get.1
      refl

still_stopped : is_stopped breaker 91000000 (time_at 1 errors) ≡ true
still_stopped = refl

stopped_no_more : is_stopped breaker 92000001 (time_at 1 errors) ≡ false
stopped_no_more = refl

one_open : (circuit_open_count breaker 91000000 (after_errors breaker (pos 7) errors fresh)).0 ≡ 1
unfolding program
one_open = refl

abbrev human : Human
human = record {
  enabled = true;
  break_after_n = pos 2;
  break_min_sec = 20;
  break_max_sec = 10;
  uniform = λ lo hi. lo;
}

abbrev sent : List ℕ
sent = 1000000 ∷ 2000000 ∷ 3000000 ∷ []

-- The break ends ten seconds after the second message.
wait :
    seconds_until_any_human_break_ends 3000000 (after_messages human (pos 7) sent fresh) ≡ 9000000
unfolding program
wait = refl

abbrev old : Runtime
old = after_errors breaker (pos 7) errors (after_messages human (pos 7) sent fresh)

-- A text whose length tells the second.
unary : ℕ → String
unary zero = "T"
unary (suc n) = String.◌∷◌ "T" (unary n)

letters : String → ℕ
letters String.[] = 0
letters (String.◌∷◌ c s) = suc (letters s)

isoformat : ℕ → String
unfolding unary
isoformat t = unary (t / 1000000)

fromisoformat : String → Option ℕ
unfolding letters
fromisoformat s = some ((letters s - 1) * 1000000)

letters-unary : (n : ℕ) → letters (unary n) ≡ suc n
unfolding letters unary
letters-unary zero = refl
letters-unary (suc n) = ap suc (letters-unary n)

written : (n : ℕ) → truthy (unary n) ≡ true
unfolding unary truthy
written zero = refl
written (suc n) = refl

iso : IsIsoformat isoformat fromisoformat
unfolding fromisoformat isoformat
iso = record {
  reads = λ until.
      ap (λ n. some (n * 1000000))
        (let long = letters-unary (until / 1000000) in omega (arith, long));
  written = λ until. written (until / 1000000);
}

is_fresh : IsFresh (pos 7) fresh
unfolding get
is_fresh = record { errors = refl; opened = refl; burst = refl; until = refl }

old-opened : get (pos 7) old.circuit_opened_at ≡ some 2000000
unfolding program
old-opened = refl

-- The process starts again a minute after the errors.
abbrev new : Runtime
new =
    load_saved breaker fromisoformat 10000000 60000000 (pos 7)
      (get (pos 7) (persist_antiban_profile isoformat (pos 7) old [])) fresh

load_saved-persist_antiban_profile_example :
    ((is_circuit_open breaker 91000000 (pos 7) new).0
      ≡ (is_circuit_open breaker 91000000 (pos 7) old).0)
    × ((is_in_human_break 11000000 (pos 7) new).0
        ≡ breaks_by 11000000 (Option.map whole_seconds (get (pos 7) old.human_break_until)))
    × (burst_of (pos 7) new ≡ burst_of (pos 7) old)
load_saved-persist_antiban_profile_example =
    load_saved-persist_antiban_profile breaker isoformat fromisoformat iso (pos 7) 10000000 60000000
      11000000 91000000 old fresh [] is_fresh (omega arith) (omega arith) (omega arith)
      not_at_the_edge
  where
    opened : opened_of (pos 7) old ≡ 2000000
    opened = rw old-opened refl

    not_at_the_edge : opened_of (pos 7) old + window breaker ≢ 60000000
    not_at_the_edge h = omega (arith, opened, h)
