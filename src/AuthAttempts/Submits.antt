-- ===== src/AuthAttempts/Submits.antt =====
-- app/services/auth_attempts.py: the inputs that `_submit` accepts.
use mathlib.Core.Path.{subst}
use maxbot.Base.{
  ℕ, ◌+◌, String, Option, none, some, ◌≡◌, refl, sym, ap, ◌∙◌, ℤ, pos, ok, arith, false, true,
}
use maxbot.AuthAttempts.Stages.{
  verify_timeout, is_terminal, AuthAttemptView, Attempt, view, Clock, now_of,
}
use maxbot.AuthAttempts.Store.{Store, put, expire_if_needed, moved}
use maxbot.AuthAttempts.Commands.{Command, expects, verifying, submit}
use maxbot.AuthAttempts.Inputs.{
  submit_rule, on_submit_rule, live-expire, kept-expire, kept-IsInTime, ok_state_inj, IsInTime,
}

-- What made `_submit` accept an input: the attempt ran, expected it, in time, at the revision that
-- the client saw; and it is answered at the next revision, in the stage that checks the input.
abbrev pub IsAcceptance : Command → ℤ → ℕ → Attempt → AuthAttemptView → Type 0
IsAcceptance command revision now a v =
    (expects command a.stage ≡ true)
    × (revision ≡ pos a.revision)
    × IsInTime now a.attempt_deadline_at a.stage_deadline_at
    × (v.stage ≡ verifying command)
    × (v.revision ≡ a.revision + 1)

moved-IsAcceptance :
    (command : Command) (revision : ℤ) (now : ℕ) (a : Attempt)
    → expects command a.stage ≡ true
    → revision ≡ pos a.revision
    → IsInTime now a.attempt_deadline_at a.stage_deadline_at
    → IsAcceptance command revision now a
        (view (moved a (verifying command) (some verify_timeout) now "" none))
unfolding view moved
moved-IsAcceptance command revision now a right same in_time = (right, same, in_time, refl, refl)

-- An input is accepted only when it should be: if `_submit` answers that it took the input, then the
-- attempt was in the stage that waits for this input, before its deadlines, at the revision that
-- the client gave, and the answer is the next revision, in the stage that checks the input.
pub submit_accepts_only :
    (c : Clock) (scope : String) (profile_id : ℤ) (id : String) (command : Command) (s t : Store)
    (now : ℕ) (hex : String) (rid : Option String) (revision : ℤ) (v : AuthAttemptView)
    → now_of c ≡ ok now
    → submit c scope profile_id id hex rid revision command s ≡ (ok (v, true), t)
    → (a : Attempt) × (s.attempts id ≡ some a) × IsAcceptance command revision now a v
submit_accepts_only c scope profile_id id command s t now hex rid revision v clock h =
    submit_rule c scope profile_id id command
      (λ r.
        r ≡ (ok (v, true), t)
        → (a : Attempt) × (s.attempts id ≡ some a) × IsAcceptance command revision now a v)
      s now hex rid revision clock (λ e bad. absurd (ground (arith, bad)))
      (λ r a known here own.
        let b = expire_if_needed a now in
        on_submit_rule c scope profile_id id command
          (λ r.
            r ≡ (ok (v, true), t)
            → (a : Attempt) × (s.attempts id ≡ some a) × IsAcceptance command revision now a v)
          (put id b s) now revision r b (λ w prior replayed. absurd (ground (arith, replayed)))
          (λ e bad. absurd (ground (arith, bad)))
          (λ live same right answer.
            let kept = live-expire a now live in
            let unchanged : b ≡ a = kept-expire a now kept in
            let live_a : is_terminal a.stage ≡ false =
              ap (λ x. is_terminal x.stage) (sym unchanged) ∙ live in
            let right_a : expects command a.stage ≡ true =
              ap (λ x. expects command x.stage) (sym unchanged) ∙ right in
            let same_a : revision ≡ pos a.revision = same ∙ ap (λ x. pos x.revision) unchanged in
            let is_v : view (moved b (verifying command) (some verify_timeout) now "" none) ≡ v =
              ap (λ x. x.0) (ok_state_inj answer) in
            (
              a,
              here,
              subst (IsAcceptance command revision now a)
                  (ap (λ x. view (moved x (verifying command) (some verify_timeout) now "" none))
                      (sym unchanged)
                    ∙ is_v)
                  (moved-IsAcceptance command revision now a right_a same_a
                    (kept-IsInTime a now kept live_a)),
            )))
      h
