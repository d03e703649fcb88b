-- ===== src/AuthAttempts/Inputs.antt =====
-- app/services/auth_attempts.py: which inputs `_submit` lets through, and what it answers again.
use mathlib.Core.Path.{subst}
use maxbot.Base.{
  ℕ, ◌<◌, String, Bool, Option, none, some, ◌≡◌, refl, sym, ap, ◌∙◌, ℤ, pos, Result, ok, err, inl,
  inr, arith, false, true, Option-cases, pure,
}
use maxbot.AuthAttempts.Stages.{
  Stage, verify_timeout, is_terminal, AuthError, AuthAttemptView, Attempt, view, Clock, now_of,
  request_id,
}
use maxbot.AuthAttempts.Store.{
  Store, Auth, put, is_due, expiry_code, expired_with, expire_if_needed, require_revision, moved,
}
use maxbot.AuthAttempts.Commands.{
  Command, command_text, expects, verifying, on_submit, submit, get, on_attempt,
}
use maxbot.AuthAttempts.Moves.{IsOwn, lookup_rule, Result-cases}
use maxbot.AuthAttempts.Refines.{
  submitted, require_revision-eq-ok, accept_input_ok, accept_input_err,
}

expired_terminal : is_terminal Stage.expired ≡ true
unfolding is_terminal
expired_terminal = refl

-- An attempt that still runs after its deadlines were looked at has not changed.
pub live-expire :
    (a : Attempt) (now : ℕ)
    → is_terminal (expire_if_needed a now).stage ≡ false
    → expiry_code a now ≡ none
unfolding expire_if_needed
live-expire a now live = elim (Option-cases (expiry_code a now)) [
  | inl kept ↦ kept
  | inr (code, due) ↦
      let over = sym (ap (λ o. is_terminal (expired_with a o).stage) due) ∙ live in
      absurd (ground (arith, expired_terminal, over))
]

pub kept-expire : (a : Attempt) (now : ℕ) → expiry_code a now ≡ none → expire_if_needed a now ≡ a
unfolding expire_if_needed
kept-expire a now h = ap (expired_with a) h

-- Before its deadlines: the attempt's, and the stage's, if it has one.
abbrev pub IsInTime : ℕ → ℕ → Option ℕ → Type 0
IsInTime now attempt_deadline stage_deadline =
    (now < attempt_deadline) × (is_due now stage_deadline ≡ false)

pub kept-IsInTime :
    (a : Attempt) (now : ℕ)
    → expiry_code a now ≡ none
    → is_terminal a.stage ≡ false
    → IsInTime now a.attempt_deadline_at a.stage_deadline_at
unfolding expiry_code
kept-IsInTime a now kept live = (ground arith, ground arith)

-- A call at a known time, of an attempt that it looks up.
on_attempt_rule :
    {A : Type 0} (Q : Result AuthError A × Store → Type 0) (c : Clock) (scope : String)
    (profile_id : ℤ) (id : String) (s : Store) (now : ℕ) (body : ℕ → Attempt → Auth A)
    → now_of c ≡ ok now
    → ((e : AuthError) → Q (err e, s))
    → ((a : Attempt)
        → s.attempts id ≡ some a
        → Q (body now (expire_if_needed a now) (put id (expire_if_needed a now) s)))
    → Q (on_attempt c scope profile_id id body s)
on_attempt_rule Q c scope profile_id id s now body clock before after =
    rw clock
      (lookup_rule Q scope profile_id id now s (body now) before (λ a here own. after a here))

abbrev pub the_result : {A : Type 0} → A → Store → Result AuthError A × Store
the_result a s = (ok a, s)

pub ok_state_inj : {A : Type 0} {a b : A} {s t : Store} → (the_result a s ≡ the_result b t) → a ≡ b
ok_state_inj h = cc

-- No attempt is shown as running that is past a deadline: if `get` answers with an attempt that has
-- not ended, the time is before the attempt's deadline, and before its stage's, if that has one.
pub get-IsInTime :
    (c : Clock) (scope : String) (profile_id : ℤ) (id : String) (s t : Store) (v : AuthAttemptView)
    (now : ℕ)
    → now_of c ≡ ok now
    → get c scope profile_id id s ≡ (ok v, t)
    → is_terminal v.stage ≡ false
    → IsInTime now v.attempt_deadline_at v.stage_deadline_at
unfolding get view
get-IsInTime c scope profile_id id s t v now clock h live =
    on_attempt_rule (λ r. r ≡ (ok v, t) → IsInTime now v.attempt_deadline_at v.stage_deadline_at) c
      scope profile_id id s now (λ m a. pure (view a)) clock (λ e bad. absurd (ground (arith, bad)))
      (λ a here answer.
        let is_v : view (expire_if_needed a now) ≡ v = ok_state_inj answer in
        let runs : is_terminal (expire_if_needed a now).stage ≡ false =
          ap (λ w. is_terminal w.stage) is_v ∙ live in
        let kept = live-expire a now runs in
        let same : a ≡ expire_if_needed a now = sym (kept-expire a now kept) in
        let live_a : is_terminal a.stage ≡ false = ap (λ x. is_terminal x.stage) same ∙ runs in
        subst (λ w. IsInTime now w.attempt_deadline_at w.stage_deadline_at) (ap view same ∙ is_v)
          (kept-IsInTime a now kept live_a))
      h

module _ (c : Clock) (scope : String) (profile_id : ℤ) (id : String) (command : Command) where
  -- What holds of a submit: it raised and nothing has changed, or it goes on with the attempt.
  pub submit_rule :
      (Q : Result AuthError (AuthAttemptView × Bool) × Store → Type 0) (s : Store) (now : ℕ)
      (hex : String) (rid : Option String) (revision : ℤ)
      → now_of c ≡ ok now
      → ((e : AuthError) → Q (err e, s))
      → ((r : String) (a : Attempt)
          → request_id hex rid ≡ ok r
          → s.attempts id ≡ some a
          → IsOwn scope profile_id a.scope a.profile_id
          → Q (
              on_submit id revision r command now
                (expire_if_needed a now)
                (put id (expire_if_needed a now) s)))
      → Q (submit c scope profile_id id hex rid revision command s)
  unfolding submit
  submit_rule Q s now hex rid revision clock before after =
      rw clock (elim (Result-cases (request_id hex rid)) [
        | inl (e, bad) ↦ rw bad (before e)
        | inr (r, known) ↦ rw known (
            lookup_rule Q scope profile_id id now s (on_submit id revision r command now) before
              (λ a here own. after r a known here own))
      ])

  -- The three ways that an input can go.
  pub on_submit_rule :
      (Q : Result AuthError (AuthAttemptView × Bool) × Store → Type 0) (s : Store) (now : ℕ)
      (revision : ℤ) (r : String) (a : Attempt)
      → ((v : AuthAttemptView)
          → a.command_results (command_text command) r ≡ some v
          → Q (ok (v, false), s))
      → ((e : AuthError) → Q (err e, s))
      → (is_terminal a.stage ≡ false
          → revision ≡ pos a.revision
          → expects command a.stage ≡ true
          → Q (
            ok (view (moved a (verifying command) (some verify_timeout) now "" none), true),
            put id (submitted id now a s r command) s,
          ))
      → Q (on_submit id revision r command now a s)
  unfolding on_submit
  on_submit_rule Q s now revision r a replays stops goes =
      elim (Option-cases (a.command_results (command_text command) r)) [
        | inr (v, prior) ↦ rw prior (replays v prior)
        | inl fresh ↦
            rw fresh (elim (Result-cases (require_revision a revision (expects command))) [
              | inl (e, bad) ↦ rw (accept_input_err id now a s revision r command e bad) (stops e)
              | inr (u, fits) ↦ rw (accept_input_ok id now a s revision r command fits) (
                  let (live, same, right) =
                    require_revision-eq-ok a revision (expects command) u fits in
                  goes live same right)
            ])
      ]
