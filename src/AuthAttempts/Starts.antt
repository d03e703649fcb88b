-- ===== src/AuthAttempts/Starts.antt =====
-- app/services/auth_attempts.py: `start` and `current`, as steps of the machine.
use mathlib.Core.Path.{subst}
use maxbot.Base.{
  ℕ, String, true, false, not, Option, none, some, ◌≡◌, ◌≢◌, refl, sym, ap, ◌∙◌, arith, ℤ, ok, inl,
  inr, Bool-cases, Option-cases, bind_result, fmt, strip, truthy, ltb_ℤ, ◌||◌, pos, strip-strip,
}
use maxbot.AuthAttempts.Stages.{
  is_terminal, Attempt, Clock, now_of, request_id, ProfileKey, profile_key,
}
use maxbot.AuthAttempts.Store.{Store, put, expire_if_needed}
use maxbot.AuthAttempts.Commands.{
  named, attempt_of, prior_of, active_of, new_attempt, create_attempt, refuse_running, start_locked,
  start, current,
}
use maxbot.AuthAttempts.Machine.{IsFree, starts, Steps, done, more, Steps-trans}
use maxbot.AuthAttempts.Invariant.{some_inj, put_self, put-cases}
use maxbot.AuthAttempts.Moves.{refresh-Steps, Result-cases}

-- A receipt or a profile that names an attempt in the store.
named-found :
    (j id : String) (a : Attempt) (o : Option Attempt)
    → named j o ≡ some (id, a)
    → (j ≡ id) × (o ≡ some a)
named-found j id a none h = absurd (ground (arith, h))
named-found j id a (some b) h = (cc, cc)

attempt_of-found :
    (s : Store) (o : Option String) (id : String) (a : Attempt)
    → attempt_of s o ≡ some (id, a)
    → (o ≡ some id) × (s.attempts id ≡ some a)
attempt_of-found s none id a h = absurd (ground (arith, h))
attempt_of-found s (some j) id a h =
    let (e, here) = named-found j id a (s.attempts j) h in (ap some e, ap s.attempts (sym e) ∙ here)

attempt_of-missing :
    (s : Store) (id : String) (a : Attempt) → attempt_of s (some id) ≡ none → s.attempts id ≢ some a
attempt_of-missing s id a h here = absurd (ground (arith, sym (ap (named id) here) ∙ h))

-- The key of a profile is normal: to normalise it again changes nothing.
key-normal :
    (scope : String) (profile_id : ℤ) (key : ProfileKey)
    → profile_key scope profile_id ≡ ok key
    → profile_key key.scope key.profile_id ≡ ok key
unfolding profile_key
key-normal scope profile_id key h =
    elim (Bool-cases (not (truthy (strip scope)) || ltb_ℤ profile_id (pos 1))) [
      | inl e ↦ absurd (ground (arith, h, e))
      | inr e ↦
          let is_key : record { scope = strip scope; profile_id = profile_id } ≡ key =
            ground (arith, h, e) in
          subst (λ k. profile_key k.scope k.profile_id ≡ ok k) is_key
            (rw (strip-strip scope, e) refl)
    ]

module _ (moment : ℕ) (key : ProfileKey) (rid id : String) (a : Attempt)
    (live : is_terminal a.stage ≡ false) (e1 : a.scope ≡ key.scope)
    (e2 : a.profile_id ≡ key.profile_id)
    (normal : profile_key key.scope key.profile_id ≡ ok key) where
  create-Steps :
      (s : Store) → s.attempts id ≡ none → IsFree key s → Steps s (create_attempt key rid id a s).1
  unfolding create_attempt
  create-Steps s fresh free = more done (starts rid a fresh free live e1 e2 normal)

  IsFree-of_missing : (s : Store) → active_of key s ≡ none → IsFree key s
  IsFree-of_missing s nothing j b act there =
      absurd (attempt_of-missing s j b (sym (ap (attempt_of s) act) ∙ nothing) there)

  IsFree-of_ended :
      (s : Store) (j : String) (b : Attempt)
      → s.active_by_profile key ≡ some j
      → is_terminal b.stage ≡ true
      → IsFree key (put j b s)
  IsFree-of_ended s j b act over k c act' there =
      let same_id : j ≡ k = some_inj (sym act ∙ act') in
      let is_b : b ≡ c =
        some_inj (sym (put_self j b s) ∙ ap (put j b s).attempts same_id ∙ there) in
      ap (λ x. is_terminal x.stage) (sym is_b) ∙ over

  still_fresh :
      (s : Store) (j : String) (b c : Attempt)
      → s.attempts id ≡ none
      → s.attempts j ≡ some c
      → (put j b s).attempts id ≡ none
  still_fresh s j b c fresh there = elim (put-cases j id b s) [
    | inl (e, h) ↦ absurd (ground (arith, sym fresh ∙ sym (ap s.attempts e) ∙ there))
    | inr (e, h) ↦ h ∙ fresh
  ]

  -- Where no receipt answers: the profile's attempt is refused, or expired and replaced.
  refuse_or_create-Steps :
      (s : Store)
      → s.attempts id ≡ none
      → Steps s
          (bind_result
            (λ _. create_attempt key rid id a)
            (refuse_running moment (active_of key s) s)).1
  refuse_or_create-Steps s fresh = elim (Option-cases (active_of key s)) [
    | inl nothing ↦ rw nothing (create-Steps s fresh (IsFree-of_missing s nothing))
    | inr ((j, b), found) ↦
        let (act, there) = attempt_of-found s (s.active_by_profile key) j b found in
        let c = expire_if_needed b moment in
        let expires : Steps s (put j c s) = refresh-Steps j b moment s there in
        rw found (elim (Bool-cases (is_terminal c.stage)) [
          | inr runs ↦ rw runs expires
          | inl over ↦ rw over (
              Steps-trans expires (
                create-Steps (put j c s) (still_fresh s j c b fresh there)
                  (IsFree-of_ended s j c act over)))
        ])
  ]

  start_locked-Steps :
      (s : Store) → s.attempts id ≡ none → Steps s (start_locked moment key rid id a s).1
  unfolding start_locked
  start_locked-Steps s fresh = elim (Option-cases (prior_of key rid s)) [
    | inl nothing ↦ rw nothing (refuse_or_create-Steps s fresh)
    | inr ((j, b), found) ↦
        let (act, there) = attempt_of-found s (s.start_receipts key rid) j b found in
        rw found (refresh-Steps j b moment s there)
  ]

-- A start whose new id is not taken.
pub start-Steps :
    (c : Clock) (hex rid_hex scope : String) (profile_id : ℤ) (group_id : Option ℤ) (mode : String)
    (rid : Option String) (s : Store)
    → s.attempts (fmt "auth-" hex) ≡ none
    → Steps s (start c hex rid_hex scope profile_id group_id mode rid s).1
unfolding start is_terminal
start-Steps c hex rid_hex scope profile_id group_id mode rid s fresh =
    elim (Result-cases (now_of c)) [
      | inl (e, bad) ↦ rw bad done
      | inr (m, good) ↦ rw good (elim (Result-cases (profile_key scope profile_id)) [
        | inl (e, bad) ↦ rw bad done
        | inr (key, k) ↦ rw k (elim (Result-cases (request_id rid_hex rid)) [
          | inl (e, bad) ↦ rw bad done
          | inr (r, known) ↦ rw known (
              start_locked-Steps m key r (fmt "auth-" hex)
                (new_attempt key group_id (fmt "auth-" hex) mode m) refl refl refl
                (key-normal scope profile_id key k) s fresh)
        ])
      ])
    ]

pub current-Steps :
    (c : Clock) (scope : String) (profile_id : ℤ) (s : Store)
    → Steps s (current c scope profile_id s).1
unfolding current
current-Steps c scope profile_id s = elim (Result-cases (now_of c)) [
  | inl (e, bad) ↦ rw bad done
  | inr (m, good) ↦ rw good (elim (Result-cases (profile_key scope profile_id)) [
    | inl (e, bad) ↦ rw bad done
    | inr (key, k) ↦ rw k (elim (Option-cases (active_of key s)) [
      | inl nothing ↦ rw nothing done
      | inr ((j, b), found) ↦
          let (act, there) = attempt_of-found s (s.active_by_profile key) j b found in
          rw found (refresh-Steps j b m s there)
    ])
  ])
]
