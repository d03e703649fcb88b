-- ===== src/AuthAttempts/Moves.antt =====
-- app/services/auth_attempts.py: the private methods, as steps of the machine.
use maxbot.Base.{
  ℕ, String, true, false, Option, some, ◌≡◌, refl, sym, ap, ◌∙◌, arith, ℤ, Result, ok, err, ◌⊎◌,
  inl, inr, str_eq, eq_iff, Bool-cases, Option-cases, bind_result, ◌||◌,
}
use maxbot.AuthAttempts.Stages.{
  Stage, is_terminal, AuthError, Attempt, ProfileKey, profile_key, eq_key, attempt_not_found,
}
use maxbot.AuthAttempts.Store.{
  Store, Auth, put, expiry_code, expired_with, expire_if_needed, lookup, moved, transition,
}
use maxbot.AuthAttempts.Machine.{is_end, is_next, Move, moves, ends, Steps, done, more}

-- Putting back what is there changes nothing, and the last write wins.
pub put_id : (id : String) (a : Attempt) (s : Store) → s.attempts id ≡ some a → put id a s ≡ s
put_id id a s here = λ i. record s { attempts = λ j. at_key j i }
  where
    at_key : (j : String) → (put id a s).attempts j ≡ s.attempts j
    at_key j = elim (Bool-cases (str_eq id j)) [
      | inl e ↦ rw e (sym here ∙ ap s.attempts ((eq_iff id j).0 e))
      | inr e ↦ rw e refl
    ]

pub put-put : (id : String) (a b : Attempt) (s : Store) → put id b (put id a s) ≡ put id b s
put-put id a b s = λ i. record s { attempts = λ j. at_key j i }
  where
    at_key : (j : String) → (put id b (put id a s)).attempts j ≡ (put id b s).attempts j
    at_key j = elim (Bool-cases (str_eq id j)) [ inl e ↦ rw e refl | inr e ↦ rw e refl ]

expiry_code-live :
    (a : Attempt) (now : ℕ) (code : String)
    → expiry_code a now ≡ some code
    → is_terminal a.stage ≡ false
unfolding expiry_code
expiry_code-live a now code h = ground arith

expired-Move :
    (a : Attempt) (code : String)
    → is_terminal a.stage ≡ false
    → Move a (expired_with a (some code))
expired-Move a code live = record {
  live = live;
  edge = refl;
  revision = refl;
  scope = refl;
  profile_id = refl;
  attempt_id = refl;
  attempt_deadline_at = refl;
  results = λ c r v h. h;
}

-- To expire an attempt that is found is at most one move.
pub refresh-Steps :
    (id : String) (a : Attempt) (now : ℕ) (s : Store)
    → s.attempts id ≡ some a
    → Steps s (put id (expire_if_needed a now) s)
unfolding expire_if_needed
refresh-Steps id a now s here = elim (Option-cases (expiry_code a now)) [
  | inl kept ↦ rw (kept, put_id id a s here) done
  | inr (code, due) ↦
      rw due (more done (moves here (expired-Move a code (expiry_code-live a now code due))))
]

pub moved-Move :
    (a : Attempt) (stage : Stage) (timeout : Option ℕ) (now : ℕ) (hint : String)
    (error_code : Option String)
    → is_terminal a.stage ≡ false
    → is_end stage || is_next a.stage stage ≡ true
    → Move a (moved a stage timeout now hint error_code)
unfolding moved
moved-Move a stage timeout now hint error_code live edge = record {
  live = live;
  edge = edge;
  revision = refl;
  scope = refl;
  profile_id = refl;
  attempt_id = refl;
  attempt_deadline_at = refl;
  results = λ c r v h. h;
}

pub Result-cases :
    {E A : Type 0} (r : Result E A) → ((e : E) × (r ≡ err e)) ⊎ ((a : A) × (r ≡ ok a))
Result-cases (err e) = inl (e, refl)
Result-cases (ok a) = inr (a, refl)

same_key : (x y : String) (i j : ℤ) → x ≡ y → i ≡ j → profile_key y j ≡ profile_key x i
same_key x y i j h k = cc

-- A transition is one step: of an attempt that stays, or of one that leaves its profile.
pub transition-Steps :
    (id : String) (a b : Attempt) (s : Store)
    → s.attempts id ≡ some a
    → Move a b
    → is_terminal b.stage ≡ is_end b.stage
    → Steps s (transition id b s).1
unfolding transition
transition-Steps id a b s here move kind = elim (Bool-cases (is_terminal b.stage)) [
  | inr stays ↦ rw stays (more done (moves here move))
  | inl over ↦ elim (Result-cases (profile_key b.scope b.profile_id)) [
    | inl (e, bad) ↦ rw (over, bad) (more done (moves here move))
    | inr (key, own) ↦
        rw (over, own)
          (more done (
            ends here move (sym kind ∙ over) (
              same_key b.scope a.scope b.profile_id a.profile_id move.scope move.profile_id ∙ own)))
  ]
]

-- The attempt's own profile is the one that the call names.
abbrev pub IsOwn : String → ℤ → String → ℤ → Type 0
IsOwn scope profile_id own_scope own_profile_id =
    (key : ProfileKey) × (own : ProfileKey) × (profile_key scope profile_id ≡ ok key)
    × (profile_key own_scope own_profile_id ≡ ok own)
    × (eq_key own key ≡ true)

-- What holds of a call that looks an attempt up: it raised and nothing has changed, or the attempt
-- is there, is the profile's own, and is expired by this very call if it is due.
pub lookup_rule :
    {A : Type 0} (Q : Result AuthError A × Store → Type 0) (scope : String) (profile_id : ℤ)
    (id : String) (now : ℕ) (s : Store) (body : Attempt → Auth A)
    → ((e : AuthError) → Q (err e, s))
    → ((a : Attempt)
        → s.attempts id ≡ some a
        → IsOwn scope profile_id a.scope a.profile_id
        → Q (body (expire_if_needed a now) (put id (expire_if_needed a now) s)))
    → Q (bind_result body (lookup scope profile_id id now s))
unfolding lookup
lookup_rule Q scope profile_id id now s body before after =
    elim (Result-cases (profile_key scope profile_id)) [
      | inl (e, bad) ↦ rw bad (before e)
      | inr (key, given) ↦ rw given (elim (Option-cases (s.attempts id)) [
        | inl missing ↦ rw missing (before (attempt_not_found "attempt_not_found"))
        | inr (a, here) ↦ rw here (elim (Result-cases (profile_key a.scope a.profile_id)) [
          | inl (e, bad) ↦ rw bad (before e)
          | inr (own, stored) ↦ rw stored (elim (Bool-cases (eq_key own key)) [
            | inr other ↦ rw other (before (attempt_not_found "attempt_not_found"))
            | inl mine ↦ rw mine (after a here (key, own, given, stored, mine))
          ])
        ])
      ])
    ]

-- To look up an attempt that is there, and is the profile's own.
pub lookup_found :
    (scope : String) (profile_id : ℤ) (id : String) (now : ℕ) (s : Store) (a : Attempt)
    → s.attempts id ≡ some a
    → IsOwn scope profile_id a.scope a.profile_id
    → lookup scope profile_id id now s
      ≡ (ok (expire_if_needed a now), put id (expire_if_needed a now) s)
unfolding lookup
lookup_found scope profile_id id now s a here (key, own, given, stored, mine) =
    rw (given, here, stored, mine) refl
