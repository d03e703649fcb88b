-- ===== src/Breaks/Loads.antt =====
-- app/campaign_pacing.py: the parts of `load_antiban_row`.
use maxbot.Base.{
  ℕ, ◌+◌, ◌≤◌, ltb, leb, Bool, true, false, not, Option, none, some, ◌≡◌, ◌≢◌, refl, ap, ◌∙◌, arith,
  ℤ, if◌then◌else◌, Bool-cases, inl, inr,
}
use maxbot.Breaks.Dict.{get, put, pop, or_zero, get-put, get-pop}
use maxbot.Breaks.Pauses.{
  Runtime, Breaker, window, errors_of, opened_of, burst_of, is_circuit_open, in_break, load_burst,
  load_errors, load_opened,
}

abbrev pub stopped_by : Breaker → ℕ → ℕ → ℕ → Bool
stopped_by b wall errors opened =
    if ltb errors b.max_consecutive_errors then false else not (ltb (opened + window b) wall)

pub is_circuit_open-stopped_by :
    (b : Breaker) (wall : ℕ) (profile_id : ℤ) (rt : Runtime)
    → (is_circuit_open b wall profile_id rt).0
      ≡ stopped_by b wall (errors_of profile_id rt) (opened_of profile_id rt)
unfolding is_circuit_open
is_circuit_open-stopped_by b wall profile_id rt =
    elim (Bool-cases (ltb (errors_of profile_id rt) b.max_consecutive_errors)) [
      | inl e ↦ rw e refl
      | inr e ↦ rw e (elim (Bool-cases (ltb (opened_of profile_id rt + window b) wall)) [
        | inl over ↦ rw over refl
        | inr under ↦ rw under refl
      ])
    ]

abbrev pub breaks_by : ℕ → Option ℕ → Bool
breaks_by now none = false
breaks_by now (some until) = not (leb until now)

pub in_break-breaks_by :
    (now : ℕ) (profile_id : ℤ) (rt : Runtime) (o : Option ℕ)
    → (in_break now profile_id rt o).0 ≡ breaks_by now o
in_break-breaks_by now profile_id rt none = refl
in_break-breaks_by now profile_id rt (some until) = elim (Bool-cases (leb until now)) [
  | inl e ↦ rw e refl
  | inr e ↦ rw e refl
]

-- Each part of the load changes its own dictionaries.
pub record SameBreaks (a b : Runtime) : Type 0 where
  pub bursts : b.human_burst_count ≡ a.human_burst_count
  pub untils : b.human_break_until ≡ a.human_break_until

pub record SameCircuit (a b : Runtime) : Type 0 where
  pub errors : b.consecutive_errors ≡ a.consecutive_errors
  pub opened : b.circuit_opened_at ≡ a.circuit_opened_at

pub load_burst-circuit :
    (profile_id : ℤ) (n : ℕ) (rt : Runtime) → SameCircuit rt (load_burst profile_id n rt)
load_burst-circuit profile_id n rt = elim (Bool-cases (ltb 0 n)) [
  | inl e ↦ rw e (record { errors = refl; opened = refl })
  | inr e ↦ rw e (record { errors = refl; opened = refl })
]

pub load_burst-until :
    (profile_id : ℤ) (n : ℕ) (rt : Runtime)
    → (load_burst profile_id n rt).human_break_until ≡ rt.human_break_until
load_burst-until profile_id n rt = elim (Bool-cases (ltb 0 n)) [
  | inl e ↦ rw e refl
  | inr e ↦ rw e refl
]

pub load_burst-burst :
    (profile_id : ℤ) (n : ℕ) (rt : Runtime)
    → get profile_id rt.human_burst_count ≡ none
    → burst_of profile_id (load_burst profile_id n rt) ≡ n
load_burst-burst profile_id n rt h = elim (Bool-cases (ltb 0 n)) [
  | inl e ↦ rw e (ap or_zero (get-put profile_id n rt.human_burst_count))
  | inr e ↦ rw e (ap or_zero h ∙ ground arith)
]

pub load_errors-breaks :
    (profile_id : ℤ) (n : ℕ) (rt : Runtime) → SameBreaks rt (load_errors profile_id n rt)
load_errors-breaks profile_id n rt = elim (Bool-cases (ltb 0 n)) [
  | inl e ↦ rw e (record { bursts = refl; untils = refl })
  | inr e ↦ rw e (record { bursts = refl; untils = refl })
]

pub load_errors-opened :
    (profile_id : ℤ) (n : ℕ) (rt : Runtime)
    → (load_errors profile_id n rt).circuit_opened_at ≡ rt.circuit_opened_at
load_errors-opened profile_id n rt = elim (Bool-cases (ltb 0 n)) [
  | inl e ↦ rw e refl
  | inr e ↦ rw e refl
]

pub load_errors-errors :
    (profile_id : ℤ) (n : ℕ) (rt : Runtime)
    → get profile_id rt.consecutive_errors ≡ none
    → errors_of profile_id (load_errors profile_id n rt) ≡ n
load_errors-errors profile_id n rt h = elim (Bool-cases (ltb 0 n)) [
  | inl e ↦ rw e (ap or_zero (get-put profile_id n rt.consecutive_errors))
  | inr e ↦ rw e (ap or_zero h ∙ ground arith)
]

pub load_opened-breaks :
    (b : Breaker) (wall : ℕ) (profile_id : ℤ) (n : ℕ) (o : Option ℕ) (rt : Runtime)
    → SameBreaks rt (load_opened b wall profile_id n o rt)
load_opened-breaks b wall profile_id n none rt = record { bursts = refl; untils = refl }
load_opened-breaks b wall profile_id n (some o) rt =
    elim (Bool-cases (leb b.max_consecutive_errors n)) [
      | inr e ↦ rw e (record { bursts = refl; untils = refl })
      | inl e ↦ rw e (elim (Bool-cases (ltb wall (o + window b))) [
        | inl f ↦ rw f (record { bursts = refl; untils = refl })
        | inr f ↦ rw f (record { bursts = refl; untils = refl })
      ])
    ]

-- The circuit after the load answers as it would have, from then on.
pub load_opened-stopped :
    (b : Breaker) (wall later : ℕ) (profile_id : ℤ) (n : ℕ) (o : Option ℕ) (rt : Runtime)
    → 1 ≤ b.max_consecutive_errors
    → wall ≤ later
    → or_zero o + window b ≢ wall
    → errors_of profile_id rt ≡ n
    → get profile_id rt.circuit_opened_at ≡ none
    → (is_circuit_open b later profile_id (load_opened b wall profile_id n o rt)).0
      ≡ stopped_by b later n (or_zero o)
load_opened-stopped b wall later profile_id n none rt limit after edge errors closed =
    is_circuit_open-stopped_by b later profile_id rt ∙ rw (errors, closed) refl
load_opened-stopped b wall later profile_id n (some o) rt limit after edge errors closed =
    elim (Bool-cases (leb b.max_consecutive_errors n)) [
      | inr e ↦
          let few : ltb n b.max_consecutive_errors ≡ true = ground arith in
          rw e (is_circuit_open-stopped_by b later profile_id rt ∙ rw (errors, few) refl)
      | inl e ↦ elim (Bool-cases (ltb wall (o + window b))) [
        | inl f ↦
            rw (e, f)
              (is_circuit_open-stopped_by b later profile_id
                  (record rt { circuit_opened_at = put profile_id o rt.circuit_opened_at })
                ∙ rw (errors, get-put profile_id o rt.circuit_opened_at) refl)
        | inr f ↦
            let none_counted : ltb 0 b.max_consecutive_errors ≡ true = ground arith in
            let many : ltb n b.max_consecutive_errors ≡ false = ground arith in
            let over : ltb (o + window b) later ≡ true = ground arith in
            rw (e, f)
              (is_circuit_open-stopped_by b later profile_id
                  (record rt { consecutive_errors = pop profile_id rt.consecutive_errors })
                ∙ rw (get-pop profile_id rt.consecutive_errors, none_counted, many, over) refl)
      ]
    ]
