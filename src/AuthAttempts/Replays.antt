-- ===== src/AuthAttempts/Replays.antt =====
-- app/services/auth_attempts.py: requests that `_submit` has answered before.
use mathlib.Core.Path.{subst}
use maxbot.Base.{
  ℕ, String, Bool, Option, none, some, ◌≡◌, refl, sym, ap, ◌∙◌, ℤ, ok, inl, inr, List, arith, false,
  true, Option-cases, strip, truthy, eq_refl,
}
use maxbot.AuthAttempts.Stages.{
  verify_timeout, AuthAttemptView, Attempt, view, Clock, now_of, request_id,
}
use maxbot.AuthAttempts.Store.{Store, put, expiry_code, expire_if_needed, moved}
use maxbot.AuthAttempts.Commands.{Command, command_text, verifying, on_submit, submit}
use maxbot.AuthAttempts.Machine.{Evolves-results, Evolves-profile}
use maxbot.AuthAttempts.Invariant.{Steps-Later, put_self}
use maxbot.AuthAttempts.Moves.{IsOwn, lookup_found}
use maxbot.AuthAttempts.Refines.{submitted}
use maxbot.AuthAttempts.Runs.{Call, after_calls, AreFresh, calls_refine_machine}
use maxbot.AuthAttempts.Inputs.{submit_rule, on_submit_rule, ok_state_inj, the_result}

state_inj : {A : Type 0} {a b : A} {s t : Store} → the_result a s ≡ the_result b t → s ≡ t
state_inj h = cc

expire-IsOwn :
    (scope : String) (profile_id : ℤ) (a : Attempt) (now : ℕ)
    → IsOwn scope profile_id a.scope a.profile_id
    → IsOwn scope profile_id (expire_if_needed a now).scope (expire_if_needed a now).profile_id
unfolding expire_if_needed
expire-IsOwn scope profile_id a now own = elim (Option-cases (expiry_code a now)) [
  | inl kept ↦ rw kept own
  | inr (code, due) ↦ rw due own
]

expire-results :
    (a : Attempt) (now : ℕ) (c r : String)
    → (expire_if_needed a now).command_results c r ≡ a.command_results c r
unfolding expire_if_needed
expire-results a now c r = elim (Option-cases (expiry_code a now)) [
  | inl kept ↦ rw kept refl
  | inr (code, due) ↦ rw due refl
]

moved-IsOwn :
    (scope : String) (profile_id : ℤ) (id r : String) (a : Attempt) (now : ℕ) (s : Store)
    (command : Command)
    → IsOwn scope profile_id a.scope a.profile_id
    → IsOwn scope profile_id
        (submitted id now a s r command).scope
        (submitted id now a s r command).profile_id
unfolding moved
moved-IsOwn scope profile_id id r a now s command own = own

-- The attempt is the profile's own, and keeps this answer to this request.
abbrev pub IsAnswered : String → ℤ → Command → String → AuthAttemptView → Attempt → Type 0
IsAnswered scope profile_id command r v a =
    IsOwn scope profile_id a.scope a.profile_id
    × (a.command_results (command_text command) r ≡ some v)

abbrev KeepsAnswer :
    String → ℤ → String → Command → String → Option String → AuthAttemptView → Store → Type 0
KeepsAnswer scope profile_id id command hex rid v t =
    (r : String) × (a : Attempt) × (request_id hex rid ≡ ok r)
    × (t.attempts id ≡ some a)
    × IsAnswered scope profile_id command r v a

submit-KeepsAnswer :
    (c : Clock) (scope : String) (profile_id : ℤ) (id : String) (command : Command) (s t : Store)
    (now : ℕ) (hex : String) (rid : Option String) (revision : ℤ) (v : AuthAttemptView)
    (created : Bool)
    → now_of c ≡ ok now
    → submit c scope profile_id id hex rid revision command s ≡ (ok (v, created), t)
    → KeepsAnswer scope profile_id id command hex rid v t
submit-KeepsAnswer c scope profile_id id command s t now hex rid revision v created clock h =
    submit_rule c scope profile_id id command
      (λ r. r ≡ (ok (v, created), t) → KeepsAnswer scope profile_id id command hex rid v t) s now
      hex rid revision clock (λ e bad. absurd (ground (arith, bad)))
      (λ r a known here own.
        let b = expire_if_needed a now in
        let own_b = expire-IsOwn scope profile_id a now own in
        on_submit_rule c scope profile_id id command
          (λ x. x ≡ (ok (v, created), t) → KeepsAnswer scope profile_id id command hex rid v t)
          (put id b s) now revision r b
          (λ w prior answer.
            let is_v : w ≡ v = ap (λ x. x.0) (ok_state_inj answer) in
            let at_t : t.attempts id ≡ some b =
              ap (λ u. u.attempts id) (sym (state_inj answer)) ∙ put_self id b s in
            (r, b, known, at_t, (own_b, prior ∙ ap some is_v)))
          (λ e bad. absurd (ground (arith, bad)))
          (λ live same right answer.
            let d = submitted id now b (put id b s) r command in
            let is_v : view (moved b (verifying command) (some verify_timeout) now "" none) ≡ v =
              ap (λ x. x.0) (ok_state_inj answer) in
            let at_t : t.attempts id ≡ some d =
              ap (λ u. u.attempts id) (sym (state_inj answer)) ∙ put_self id d (put id b s) in
            (
              r,
              d,
              known,
              at_t,
              (
                moved-IsOwn scope profile_id id r b now (put id b s) command own_b,
                rw (eq_refl (command_text command), eq_refl r) (ap some is_v),
              ),
            )))
      h

-- A request id that a client chose does not depend on what `uuid4` returns.
request_id-chosen :
    (hex hex' value : String)
    → truthy (strip value) ≡ true
    → request_id hex (some value) ≡ request_id hex' (some value)
unfolding request_id
request_id-chosen hex hex' value h = rw h refl

-- An input is taken once: if `_submit` has answered a request id that is not blank, then after any
-- calls, at any later time and with any revision, the same request for the same attempt gets the
-- same answer, as not new; every start must get an id that no attempt has.
pub submit_again :
    (c c' : Clock) (scope : String) (profile_id : ℤ) (id : String) (command : Command) (s t : Store)
    (now now' : ℕ) (hex hex' rid : String) (revision revision' : ℤ) (v : AuthAttemptView)
    (created : Bool) (calls : List Call)
    → truthy (strip rid) ≡ true
    → now_of c ≡ ok now
    → submit c scope profile_id id hex (some rid) revision command s ≡ (ok (v, created), t)
    → AreFresh calls t
    → now_of c' ≡ ok now'
    → (submit c' scope profile_id id hex' (some rid) revision' command (after_calls calls t)).0
      ≡ ok (v, false)
unfolding submit on_submit
submit_again c c' scope profile_id id command s t now now' hex hex' rid revision revision' v created
      calls named clock first fresh clock' =
    let (r, a, known, here, (own, answered)) =
      submit-KeepsAnswer c scope profile_id id command s t now hex (some rid) revision v created
        clock first in
    let u = after_calls calls t in
    let (b, there, h) = Steps-Later (calls_refine_machine calls t fresh) id a here in
    let profile = Evolves-profile h in
    let known' : request_id hex' (some rid) ≡ ok r = request_id-chosen hex' hex rid named ∙ known in
    let own_b : IsOwn scope profile_id b.scope b.profile_id =
      subst (λ x. IsOwn scope profile_id x b.profile_id) (sym profile.0)
        (subst (λ i. IsOwn scope profile_id a.scope i) (sym profile.1) own) in
    let kept : (expire_if_needed b now').command_results (command_text command) r ≡ some v =
      expire-results b now' (command_text command) r
      ∙ Evolves-results h (command_text command) r v answered in
    rw (clock', known', lookup_found scope profile_id id now' u b there own_b, kept) refl
