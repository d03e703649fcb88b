-- ===== src/Breaks/Restart.antt =====
-- main.py and app/campaign_pacing.py: the state of an account, saved and loaded again by a new process.
use mathlib.Core.Option
use maxbot.Base.{
  ℕ, ◌+◌, ◌*◌, ◌/◌, ◌≤◌, Bool, not, ◌&&◌, is_some, List, ltb, leb, true, String, Option, none, some,
  ◌≡◌, ◌≢◌, refl, sym, ap, ◌∙◌, arith, ℤ, truthy, Bool-cases, inl, inr,
}
use maxbot.Breaks.Dict.{get, or_zero, get-put, get-pop}
use maxbot.Breaks.Pauses.{
  Runtime, Breaker, window, errors_of, opened_of, burst_of, is_circuit_open, is_in_human_break,
  AntibanRow, load_burst, load_break, load_errors, load_opened, load_antiban_row,
}
use maxbot.Breaks.Saves.{saved_row, has_no_state, persist_antiban_profile, load_saved}
use maxbot.Breaks.Loads.{
  SameCircuit, breaks_by, is_circuit_open-stopped_by, in_break-breaks_by, load_burst-circuit,
  load_burst-until, load_burst-burst, load_errors-breaks, load_errors-opened, load_errors-errors,
  load_opened-breaks, load_opened-stopped,
}

abbrev pub whole_seconds : ℕ → ℕ
whole_seconds t = t / 1000000 * 1000000

-- The text that is saved for the end of a break is that time in whole seconds, and is not empty.
pub record IsIsoformat (isoformat : ℕ → String) (fromisoformat : String → Option ℕ) : Type 0 where
  pub reads : (until : ℕ) → fromisoformat (isoformat until) ≡ some (whole_seconds until)
  pub written : (until : ℕ) → truthy (isoformat until) ≡ true

module _ (isoformat : ℕ → String) (fromisoformat : String → Option ℕ)
    (iso : IsIsoformat isoformat fromisoformat) (profile_id : ℤ) (now : ℕ) (rt : Runtime) where
  load_break-other :
      (o : Option ℕ)
      → SameCircuit rt (load_break fromisoformat now profile_id (Option.map isoformat o) rt)
        × ((load_break fromisoformat now profile_id (Option.map isoformat o) rt).human_burst_count
            ≡ rt.human_burst_count)
  load_break-other none = (record { errors = refl; opened = refl }, refl)
  load_break-other (some until) = elim (Bool-cases (ltb now (whole_seconds until))) [
    | inl e ↦
        rw (iso.written until, iso.reads until, e) (record { errors = refl; opened = refl }, refl)
    | inr e ↦
        rw (iso.written until, iso.reads until, e) (record { errors = refl; opened = refl }, refl)
  ]

  load_break-until :
      (o : Option ℕ) (later : ℕ)
      → now ≤ later
      → get profile_id rt.human_break_until ≡ none
      → breaks_by later (
          get profile_id
            (load_break fromisoformat now profile_id (Option.map isoformat o) rt).human_break_until)
        ≡ breaks_by later (Option.map whole_seconds o)
  load_break-until none later after no_break = rw no_break refl
  load_break-until (some until) later after no_break =
      elim (Bool-cases (ltb now (whole_seconds until))) [
        | inl e ↦
            rw (iso.written until, iso.reads until, e)
              (ap (breaks_by later) (get-put profile_id (whole_seconds until) rt.human_break_until))
        | inr e ↦
            let over : leb (whole_seconds until) later ≡ true = ground arith in
            rw (iso.written until, iso.reads until, e, no_break, over) refl
      ]

-- An account without a state.
pub record IsFresh (profile_id : ℤ) (rt : Runtime) : Type 0 where
  pub errors : get profile_id rt.consecutive_errors ≡ none
  pub opened : get profile_id rt.circuit_opened_at ≡ none
  pub burst : get profile_id rt.human_burst_count ≡ none
  pub until : get profile_id rt.human_break_until ≡ none

-- A row of nothing changes nothing.
load_antiban_row-nothing :
    (b : Breaker) (fromisoformat : String → Option ℕ) (now wall : ℕ) (profile_id : ℤ) (rt : Runtime)
    (row : AntibanRow)
    → row.burst_count ≡ 0
    → row.break_until_raw ≡ none
    → row.consecutive_errors ≡ 0
    → row.circuit_opened_at ≡ none
    → load_antiban_row b fromisoformat now wall profile_id row rt ≡ rt
unfolding load_antiban_row
load_antiban_row-nothing b fromisoformat now wall profile_id rt row h1 h2 h3 h4 =
    rw (h1, h2, h3, h4) refl

none_of_not : {A : Type 0} (o : Option A) → not (is_some o) ≡ true → o ≡ none
none_of_not none h = refl
none_of_not (some a) h = absurd (ground (arith, h))

four :
    (a b c d : Bool) → a && b && c && d ≡ true → (a ≡ true) × (b ≡ true) × (c ≡ true) × (d ≡ true)
four a b c d h = (ground arith, ground arith, ground arith, ground arith)

leb-zero : (n : ℕ) → leb n 0 ≡ true → n ≡ 0
leb-zero n h = ground (arith, h)

nothing_kept :
    (profile_id : ℤ) (rt : Runtime)
    → has_no_state profile_id rt ≡ true
    → (burst_of profile_id rt ≡ 0)
      × (get profile_id rt.human_break_until ≡ none)
      × (errors_of profile_id rt ≡ 0)
      × (get profile_id rt.circuit_opened_at ≡ none)
nothing_kept profile_id rt h =
    let until = get profile_id rt.human_break_until in
    let opened = get profile_id rt.circuit_opened_at in
    let (h1, h2, h3, h4) =
      four (leb (burst_of profile_id rt) 0) (not (is_some until)) (leb (errors_of profile_id rt) 0)
        (not (is_some opened)) h in
    (leb-zero _ h1, none_of_not until h2, leb-zero _ h3, none_of_not opened h4)

-- Whether a row was written or deleted, the load is that of the account's values.
load_saved-persist :
    (b : Breaker) (isoformat : ℕ → String) (fromisoformat : String → Option ℕ) (profile_id : ℤ)
    (now wall : ℕ) (old fresh : Runtime) (table : List (ℤ × AntibanRow))
    → load_saved b fromisoformat now wall profile_id
        (get profile_id (persist_antiban_profile isoformat profile_id old table))
        fresh
      ≡ load_antiban_row b fromisoformat now wall profile_id
          (saved_row isoformat profile_id old)
          fresh
unfolding persist_antiban_profile
load_saved-persist b isoformat fromisoformat profile_id now wall old fresh table =
    let load = λ (o : Option AntibanRow). load_saved b fromisoformat now wall profile_id o fresh in
    elim (Bool-cases (has_no_state profile_id old)) [
      | inr e ↦ rw e (ap load (get-put profile_id (saved_row isoformat profile_id old) table))
      | inl e ↦
          let (bursts, until, errors, opened) = nothing_kept profile_id old e in
          rw e (
            ap load (get-pop profile_id table)
            ∙ sym (
                load_antiban_row-nothing b fromisoformat now wall profile_id fresh
                  (saved_row isoformat profile_id old) bursts (ap (Option.map isoformat) until)
                  errors opened))
    ]

load_antiban_row-saved_row :
    (b : Breaker) (isoformat : ℕ → String) (fromisoformat : String → Option ℕ)
    → IsIsoformat isoformat fromisoformat
    → (profile_id : ℤ) (now wall later later_wall : ℕ) (old fresh : Runtime)
    → IsFresh profile_id fresh
    → 1 ≤ b.max_consecutive_errors
    → now ≤ later
    → wall ≤ later_wall
    → opened_of profile_id old + window b ≢ wall
    → let new =
        load_antiban_row b fromisoformat now wall profile_id
          (saved_row isoformat profile_id old)
          fresh in
      ((is_circuit_open b later_wall profile_id new).0
        ≡ (is_circuit_open b later_wall profile_id old).0)
      × ((is_in_human_break later profile_id new).0
          ≡ breaks_by later (Option.map whole_seconds (get profile_id old.human_break_until)))
      × (burst_of profile_id new ≡ burst_of profile_id old)
unfolding load_antiban_row is_in_human_break
load_antiban_row-saved_row b isoformat fromisoformat iso profile_id now wall later later_wall old
      fresh clean limit after after_wall edge =
    let n = burst_of profile_id old in
    let o = get profile_id old.human_break_until in
    let errors = errors_of profile_id old in
    let opened = get profile_id old.circuit_opened_at in
    let one = load_burst profile_id n fresh in
    let two = load_break fromisoformat now profile_id (Option.map isoformat o) one in
    let three = load_errors profile_id errors two in
    let four = load_opened b wall profile_id errors opened three in
    let first = load_burst-circuit profile_id n fresh in
    let (second, bursts) = load_break-other isoformat fromisoformat iso profile_id now one o in
    let third = load_errors-breaks profile_id errors two in
    let fourth = load_opened-breaks b wall profile_id errors opened three in
    let no_errors : get profile_id two.consecutive_errors ≡ none =
      ap (get profile_id) (second.errors ∙ first.errors) ∙ clean.errors in
    let no_opened : get profile_id three.circuit_opened_at ≡ none =
      ap (get profile_id) (load_errors-opened profile_id errors two ∙ second.opened ∙ first.opened)
      ∙ clean.opened in
    let no_break : get profile_id one.human_break_until ≡ none =
      ap (get profile_id) (load_burst-until profile_id n fresh) ∙ clean.until in
    (
      load_opened-stopped b wall later_wall profile_id errors opened three limit after_wall edge
            (load_errors-errors profile_id errors two no_errors) no_opened
          ∙ sym (is_circuit_open-stopped_by b later_wall profile_id old),
      in_break-breaks_by later profile_id four (get profile_id four.human_break_until)
          ∙ ap (λ d. breaks_by later (get profile_id d)) (fourth.untils ∙ third.untils)
          ∙ load_break-until isoformat fromisoformat iso profile_id now one o later after no_break,
      ap (λ d. or_zero (get profile_id d)) (fourth.bursts ∙ third.bursts ∙ bursts)
          ∙ load_burst-burst profile_id n fresh clean.burst,
    )

-- Saving and loading: a process that starts with the table in which another one has saved an account
-- answers at any later time as the other would have, whether the circuit is open and how many messages
-- the account has sent since its break, also if nothing was to be saved and the row was deleted; a break
-- ends at the whole second in which it would have ended, since the table holds no fractions. The limit
-- of errors is not 0, the text of a time is read as that time in whole seconds, and the window does not
-- end at the very instant of the load.
pub load_saved-persist_antiban_profile :
    (b : Breaker) (isoformat : ℕ → String) (fromisoformat : String → Option ℕ)
    → IsIsoformat isoformat fromisoformat
    → (profile_id : ℤ) (now wall later later_wall : ℕ) (old fresh : Runtime)
      (table : List (ℤ × AntibanRow))
    → IsFresh profile_id fresh
    → 1 ≤ b.max_consecutive_errors
    → now ≤ later
    → wall ≤ later_wall
    → opened_of profile_id old + window b ≢ wall
    → let row = get profile_id (persist_antiban_profile isoformat profile_id old table) in
      let new = load_saved b fromisoformat now wall profile_id row fresh in
      ((is_circuit_open b later_wall profile_id new).0
        ≡ (is_circuit_open b later_wall profile_id old).0)
      × ((is_in_human_break later profile_id new).0
          ≡ breaks_by later (Option.map whole_seconds (get profile_id old.human_break_until)))
      × (burst_of profile_id new ≡ burst_of profile_id old)
load_saved-persist_antiban_profile b isoformat fromisoformat iso profile_id now wall later
      later_wall old fresh table clean limit after after_wall edge =
    rw (load_saved-persist b isoformat fromisoformat profile_id now wall old fresh table) (
      load_antiban_row-saved_row b isoformat fromisoformat iso profile_id now wall later later_wall
        old fresh clean limit after after_wall edge)
