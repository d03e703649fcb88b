-- ===== src/Breaks/Errors.antt =====
-- app/campaign_pacing.py: errors in a row, and the circuit breaker.
use maxbot.Base.{
  ℕ, zero, suc, ◌+◌, ◌≤◌, ◌<◌, ltb, leb, Bool, true, false, not, Option, none, some, ◌≡◌, refl, ap,
  ◌∙◌, arith, ℤ, if◌then◌else◌, List, [], ◌∷◌, length, Bool-cases, inl, inr, ◌⊎◌,
}
use maxbot.Breaks.Dict.{get, or_zero, get-put}
use maxbot.Breaks.Pauses.{
  Runtime, Breaker, window, errors_of, opened_of, set_default, on_error, is_circuit_open,
}

-- Errors of an account, one after another, at these times.
unfoldable pub after_errors : Breaker → ℤ → List ℕ → Runtime → Runtime
unfolding on_error
after_errors b profile_id [] rt = rt
after_errors b profile_id (wall ∷ walls) rt =
    after_errors b profile_id walls (on_error b wall profile_id rt)

abbrev pub time_at : ℕ → List ℕ → Option ℕ
time_at i [] = none
time_at zero (wall ∷ walls) = some wall
time_at (suc i) (wall ∷ walls) = time_at i walls

-- The breaker that opens at a time stays open for the window.
abbrev pub is_stopped : Breaker → ℕ → Option ℕ → Bool
is_stopped b wall none = false
is_stopped b wall (some opened) = not (ltb (opened + window b) wall)

module _ (b : Breaker) (profile_id : ℤ) where
  errors_of-on_error :
      (wall : ℕ) (rt : Runtime)
      → errors_of profile_id (on_error b wall profile_id rt) ≡ errors_of profile_id rt + 1
  unfolding on_error
  errors_of-on_error wall rt =
      elim (Bool-cases (leb b.max_consecutive_errors (errors_of profile_id rt + 1))) [
        | inl e ↦
            rw e
              (ap or_zero (get-put profile_id (errors_of profile_id rt + 1) rt.consecutive_errors))
        | inr e ↦
            rw e
              (ap or_zero (get-put profile_id (errors_of profile_id rt + 1) rt.consecutive_errors))
      ]

  set_default-some :
      (wall o : ℕ) (d : List (ℤ × ℕ))
      → get profile_id d ≡ some o
      → get profile_id (set_default profile_id wall d) ≡ some o
  set_default-some wall o d h = rw h h

  set_default-none :
      (wall : ℕ) (d : List (ℤ × ℕ))
      → get profile_id d ≡ none
      → get profile_id (set_default profile_id wall d) ≡ some wall
  set_default-none wall d h = rw h (get-put profile_id wall d)

  opened_stays :
      (wall o : ℕ) (rt : Runtime)
      → get profile_id rt.circuit_opened_at ≡ some o
      → get profile_id (on_error b wall profile_id rt).circuit_opened_at ≡ some o
  unfolding on_error
  opened_stays wall o rt h =
      elim (Bool-cases (leb b.max_consecutive_errors (errors_of profile_id rt + 1))) [
        | inl e ↦ rw e (set_default-some wall o rt.circuit_opened_at h)
        | inr e ↦ rw e h
      ]

  opens_at :
      (wall : ℕ) (rt : Runtime)
      → get profile_id rt.circuit_opened_at ≡ none
      → get profile_id (on_error b wall profile_id rt).circuit_opened_at
        ≡ (if leb b.max_consecutive_errors (errors_of profile_id rt + 1) then some wall else none)
  unfolding on_error
  opens_at wall rt h =
      elim (Bool-cases (leb b.max_consecutive_errors (errors_of profile_id rt + 1))) [
        | inl e ↦ rw e (set_default-none wall rt.circuit_opened_at h)
        | inr e ↦ rw e h
      ]

  errors_of-after_errors :
      (walls : List ℕ) (rt : Runtime)
      → errors_of profile_id (after_errors b profile_id walls rt)
        ≡ errors_of profile_id rt + length walls
  unfolding after_errors
  errors_of-after_errors [] rt = omega arith
  errors_of-after_errors (wall ∷ walls) rt =
      let rest = errors_of-after_errors walls (on_error b wall profile_id rt) in
      let one = errors_of-on_error wall rt in omega (arith, rest, one)

  stays_after_errors :
      (walls : List ℕ) (o : ℕ) (rt : Runtime)
      → get profile_id rt.circuit_opened_at ≡ some o
      → get profile_id (after_errors b profile_id walls rt).circuit_opened_at ≡ some o
  unfolding after_errors
  stays_after_errors [] o rt h = h
  stays_after_errors (wall ∷ walls) o rt h =
      stays_after_errors walls o (on_error b wall profile_id rt) (opened_stays wall o rt h)

  opened-after_errors :
      (walls : List ℕ) (k : ℕ) (rt : Runtime)
      → get profile_id rt.circuit_opened_at ≡ none
      → errors_of profile_id rt + suc k ≡ b.max_consecutive_errors
      → get profile_id (after_errors b profile_id walls rt).circuit_opened_at ≡ time_at k walls
  unfolding after_errors
  opened-after_errors [] k rt h e = h
  opened-after_errors (wall ∷ walls) zero rt h e =
      let test : leb b.max_consecutive_errors (errors_of profile_id rt + 1) ≡ true = ground arith in
      stays_after_errors walls wall (on_error b wall profile_id rt)
        (opens_at wall rt h ∙ rw test refl)
  opened-after_errors (wall ∷ walls) (suc k) rt h e =
      let test : leb b.max_consecutive_errors (errors_of profile_id rt + 1) ≡ false =
        ground arith in
      let one = errors_of-on_error wall rt in
      opened-after_errors walls k (on_error b wall profile_id rt)
        (opens_at wall rt h ∙ rw test refl) (omega (arith, one, e))

time_at-cases :
    (k : ℕ) (walls : List ℕ)
    → ((length walls ≤ k) × (time_at k walls ≡ none))
      ⊎ ((k < length walls) × ((t : ℕ) × (time_at k walls ≡ some t)))
time_at-cases k [] = inl (omega arith, refl)
time_at-cases zero (wall ∷ walls) = inr (omega arith, (wall, refl))
time_at-cases (suc k) (wall ∷ walls) = elim (time_at-cases k walls) [
  | inl (short, e) ↦ inl (omega arith, e)
  | inr (long, found) ↦ inr (omega arith, found)
]

-- The breaker stops an account after so many errors in a row, for the whole window and no longer: from
-- a state in which the account has no error, and after errors at any times and nothing else, it is
-- stopped exactly if there were as many as the limit, and the window that began with the one that
-- reached the limit is not over; later errors do not begin it again.
pub is_circuit_open-after_errors :
    (b : Breaker) (profile_id : ℤ) (k : ℕ) (walls : List ℕ) (wall : ℕ) (rt : Runtime)
    → get profile_id rt.consecutive_errors ≡ none
    → get profile_id rt.circuit_opened_at ≡ none
    → b.max_consecutive_errors ≡ suc k
    → (is_circuit_open b wall profile_id (after_errors b profile_id walls rt)).0
      ≡ is_stopped b wall (time_at k walls)
unfolding is_circuit_open
is_circuit_open-after_errors b profile_id k walls wall rt no_errors closed limit =
    let after = after_errors b profile_id walls rt in
    let clean : errors_of profile_id rt ≡ 0 = rw no_errors refl in
    let count = errors_of-after_errors b profile_id walls rt in
    let opened = opened-after_errors b profile_id walls k rt closed (omega (arith, clean, limit)) in
    elim (time_at-cases k walls) [
      | inl (short, e) ↦
          let few : ltb (errors_of profile_id after) b.max_consecutive_errors ≡ true =
            ground arith in
          rw (few, e) refl
      | inr (long, (t, e)) ↦
          let many : ltb (errors_of profile_id after) b.max_consecutive_errors ≡ false =
            ground arith in
          let since : opened_of profile_id after ≡ t = rw (opened, e) refl in
          elim (Bool-cases (ltb (t + window b) wall)) [
            | inl over ↦ rw (many, since, e, over) refl
            | inr under ↦ rw (many, since, e, under) refl
          ]
    ]
