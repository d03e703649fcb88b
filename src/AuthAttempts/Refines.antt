-- ===== src/AuthAttempts/Refines.antt =====
-- app/services/auth_attempts.py: the public methods, as steps of the machine.
use maxbot.Base.{
  ℕ, String, Bool, true, false, Option, none, some, ◌≡◌, refl, sym, ap, ◌∙◌, arith, ℤ, ok, err, inl,
  inr, str_eq, eq_iff, Bool-cases, Option-cases, bind_result, ◌||◌, pure, clip, eq_ℤ, eq_ℤ_iff,
  ◌&&◌, pos,
}
use maxbot.AuthAttempts.Stages.{
  Stage, input_timeout, verify_timeout, is_terminal, AuthError, Attempt, AuthAttemptView, view,
  Clock, now_of, request_id,
}
use maxbot.AuthAttempts.Store.{
  Store, Auth, put, expire_if_needed, lookup, moved, transition, require_revision,
}
use maxbot.AuthAttempts.Commands.{
  waiting_code_at, waiting_password_at, or_empty, on_waiting_code, on_waiting_password, on_finish,
  Command, command_text, expects, verifying, with_result, accept_input, on_submit, on_attempt, get,
  waiting_code, waiting_password, submit, succeed, fail, cancel,
}
use maxbot.AuthAttempts.Machine.{is_end, is_next, Move, moves, Steps, done, more, Steps-trans}
use maxbot.AuthAttempts.Invariant.{put_self}
use maxbot.AuthAttempts.Moves.{
  put-put, refresh-Steps, moved-Move, transition-Steps, lookup_rule, Result-cases,
}

module _ (id : String) (moment : ℕ) (a : Attempt) (s : Store) (here : s.attempts id ≡ some a) where
  -- A transition along an edge of the machine.
  moved-Steps :
      (stage : Stage) (timeout : Option ℕ) (hint : String) (error_code : Option String)
      → is_terminal a.stage ≡ false
      → is_end stage || is_next a.stage stage ≡ true
      → is_terminal stage ≡ is_end stage
      → Steps s (transition id (moved a stage timeout moment hint error_code) s).1
  unfolding moved
  moved-Steps stage timeout hint error_code live edge kind =
      transition-Steps id a (moved a stage timeout moment hint error_code) s here
        (moved-Move a stage timeout moment hint error_code live edge) kind

  on_waiting_code-Steps : Steps s (on_waiting_code id moment a s).1
  unfolding on_waiting_code is_terminal
  on_waiting_code-Steps = at_stage a.stage refl
    where
      at_stage : (x : Stage) → a.stage ≡ x → Steps s (waiting_code_at id moment a x s).1
      at_stage Stage.connecting e =
          moved-Steps Stage.waiting_code (some input_timeout) "" none (ap is_terminal e)
            (ap (λ x. is_next x Stage.waiting_code) e) refl
      at_stage _ e = done

  on_waiting_password-Steps :
      (hint : Option String) → Steps s (on_waiting_password id hint moment a s).1
  unfolding on_waiting_password is_terminal
  on_waiting_password-Steps hint = at_stage a.stage refl
    where
      ask :
          (x : Stage)
          → a.stage ≡ x
          → is_terminal x ≡ false
          → is_next x Stage.waiting_password ≡ true
          → Steps s (waiting_password_at id hint moment a Stage.verifying_code s).1
      ask x e live edge =
          moved-Steps Stage.waiting_password (some input_timeout) (or_empty hint) none
            (ap is_terminal e ∙ live) (ap (λ y. is_next y Stage.waiting_password) e ∙ edge) refl

      at_stage : (x : Stage) → a.stage ≡ x → Steps s (waiting_password_at id hint moment a x s).1
      at_stage Stage.verifying_code e = ask Stage.verifying_code e refl refl
      at_stage Stage.verifying_password e = ask Stage.verifying_password e refl refl
      at_stage _ e = done

  on_finish-Steps :
      (stage : Stage) (error_code : Option String)
      → is_end stage ≡ true
      → is_terminal stage ≡ true
      → Steps s (on_finish id stage error_code moment a s).1
  unfolding on_finish
  on_finish-Steps stage error_code ended over = elim (Bool-cases (is_terminal a.stage)) [
    | inl e ↦ rw e done
    | inr e ↦
        rw e (moved-Steps stage none "" error_code e (ground (arith, ended)) (over ∙ sym ended))
  ]

-- What `_require_revision` lets through.
pub require_revision-eq-ok :
    (a : Attempt) (revision : ℤ) (allowed : Stage → Bool) (u : Unit {0})
    → require_revision a revision allowed ≡ ok u
    → (is_terminal a.stage ≡ false) × (revision ≡ pos a.revision) × (allowed a.stage ≡ true)
unfolding require_revision
require_revision-eq-ok a revision allowed u h = elim (Bool-cases (is_terminal a.stage)) [
  | inl e ↦ absurd (ground (arith, h, e))
  | inr live ↦ elim (Bool-cases (eq_ℤ revision (pos a.revision))) [
    | inr e ↦ absurd (ground (arith, h, live, e))
    | inl same ↦ elim (Bool-cases (allowed a.stage)) [
      | inr e ↦ absurd (ground (arith, h, live, same, e))
      | inl fits ↦ (live, (eq_ℤ_iff revision (pos a.revision)).0 same, fits)
    ]
  ]
]

expects-is_next :
    (command : Command) (x : Stage)
    → expects command x ≡ true
    → is_next x (verifying command) ≡ true
expects-is_next command x h = ground arith

-- The result of a command is kept with the attempt.
with_result-Move :
    (a b : Attempt) (command rid : String) (v : AuthAttemptView)
    → Move a b
    → ((c r : String) → b.command_results c r ≡ a.command_results c r)
    → a.command_results command rid ≡ none
    → Move a (with_result b command rid v)
with_result-Move a b command rid v m kept fresh = record {
  live = m.live;
  edge = m.edge;
  revision = m.revision;
  scope = m.scope;
  profile_id = m.profile_id;
  attempt_id = m.attempt_id;
  attempt_deadline_at = m.attempt_deadline_at;
  results = λ c r w h. elim (Bool-cases (str_eq command c && str_eq rid r)) [
    | inr e ↦ rw e (kept c r ∙ h)
    | inl e ↦
        let same_command : command ≡ c = ground (arith, eq_iff command c, e) in
        let same_rid : rid ≡ r = ground (arith, eq_iff rid r, e) in
        let taken : none ≡ some w =
          sym fresh ∙ (λ i. a.command_results (same_command i) (same_rid i)) ∙ h in
        absurd (ground (arith, taken))
  ];
}

module _ (id : String) (moment : ℕ) (a : Attempt) (s : Store) where
  -- The attempt that a command leaves behind.
  abbrev pub submitted : String → Command → Attempt
  submitted rid command =
      let next = moved a (verifying command) (some verify_timeout) moment "" none in
      with_result next (command_text command) rid (view next)

  abbrev next_attempt : Command → Attempt
  next_attempt command = moved a (verifying command) (some verify_timeout) moment "" none

  transition_stays :
      (b : Attempt) → is_terminal b.stage ≡ false → transition id b s ≡ (ok (view b), put id b s)
  unfolding transition
  transition_stays b e = rw e refl

  next-live : (command : Command) → is_terminal (next_attempt command).stage ≡ false
  unfolding moved is_terminal
  next-live command = ground arith

  -- A command that is let through makes one move and keeps its result.
  pub accept_input_ok :
      (revision : ℤ) (rid : String) (command : Command)
      → require_revision a revision (expects command) ≡ ok tt
      → accept_input id revision rid command moment a s
        ≡ (ok (view (next_attempt command), true), put id (submitted rid command) s)
  unfolding accept_input
  accept_input_ok revision rid command fits =
      rw
        (
          fits,
          transition_stays (next_attempt command) (next-live command),
          put-put id (next_attempt command) (submitted rid command) s,
        )
        refl

  -- A command that is not let through changes nothing.
  pub accept_input_err :
      (revision : ℤ) (rid : String) (command : Command) (e : AuthError)
      → require_revision a revision (expects command) ≡ err e
      → accept_input id revision rid command moment a s ≡ (err e, s)
  unfolding accept_input
  accept_input_err revision rid command e stops = rw stops refl

  next-Move :
      (command : Command)
      → is_terminal a.stage ≡ false
      → expects command a.stage ≡ true
      → Move a (next_attempt command)
  next-Move command live fits =
      moved-Move a (verifying command) (some verify_timeout) moment "" none live
        (ground (arith, expects-is_next command a.stage fits))

  next-results :
      (command : Command) (c r : String)
      → (next_attempt command).command_results c r ≡ a.command_results c r
  unfolding moved
  next-results command c r = refl

  on_submit-Steps :
      s.attempts id ≡ some a
      → (revision : ℤ) (rid : String) (command : Command)
      → Steps s (on_submit id revision rid command moment a s).1
  unfolding on_submit
  on_submit-Steps here revision rid command =
      elim (Option-cases (a.command_results (command_text command) rid)) [
        | inr (v, prior) ↦ rw prior done
        | inl fresh ↦
            rw fresh (elim (Result-cases (require_revision a revision (expects command))) [
              | inl (e, stops) ↦ rw (accept_input_err revision rid command e stops) done
              | inr (u, fits) ↦ rw (accept_input_ok revision rid command fits) (
                  let (live, same, right) =
                    require_revision-eq-ok a revision (expects command) u fits in
                  more done (
                    moves here (
                      with_result-Move a (next_attempt command) (command_text command) rid
                        (view (next_attempt command)) (next-Move command live right)
                        (next-results command) fresh)))
            ])
      ]

-- A call that first looks an attempt up makes the steps of its body.
body-Steps :
    {A : Type 0} (scope : String) (profile_id : ℤ) (id : String) (moment : ℕ) (s : Store)
    (body : Attempt → Auth A)
    → ((a : Attempt) (t : Store) → t.attempts id ≡ some a → Steps t (body a t).1)
    → Steps s (bind_result body (lookup scope profile_id id moment s)).1
body-Steps scope profile_id id moment s body step =
    lookup_rule (λ r. Steps s r.1) scope profile_id id moment s body (λ e. done)
      (λ a here own.
        let b = expire_if_needed a moment in
        Steps-trans (refresh-Steps id a moment s here) (step b (put id b s) (put_self id b s)))

module _ (c : Clock) (scope : String) (profile_id : ℤ) (id : String) (s : Store) where
  on_attempt-Steps :
      {A : Type 0} (body : ℕ → Attempt → Auth A)
      → ((m : ℕ) (a : Attempt) (t : Store) → t.attempts id ≡ some a → Steps t (body m a t).1)
      → Steps s (on_attempt c scope profile_id id body s).1
  on_attempt-Steps body step = elim (Result-cases (now_of c)) [
    | inl (e, bad) ↦ rw bad done
    | inr (m, good) ↦ rw good (body-Steps scope profile_id id m s (body m) (step m))
  ]

  pub waiting_code-Steps : Steps s (waiting_code c scope profile_id id s).1
  unfolding waiting_code
  waiting_code-Steps = on_attempt-Steps (on_waiting_code id) (λ m. on_waiting_code-Steps id m)

  pub waiting_password-Steps :
      (hint : Option String) → Steps s (waiting_password c scope profile_id id hint s).1
  unfolding waiting_password
  waiting_password-Steps hint =
      on_attempt-Steps (on_waiting_password id hint)
        (λ m a t here. on_waiting_password-Steps id m a t here hint)

  pub submit-Steps :
      (rid_hex : String) (rid : Option String) (revision : ℤ) (command : Command)
      → Steps s (submit c scope profile_id id rid_hex rid revision command s).1
  unfolding submit
  submit-Steps rid_hex rid revision command = elim (Result-cases (now_of c)) [
    | inl (e, bad) ↦ rw bad done
    | inr (m, good) ↦ rw good (elim (Result-cases (request_id rid_hex rid)) [
      | inl (e, bad) ↦ rw bad done
      | inr (r, known) ↦ rw known (
          body-Steps scope profile_id id m s (on_submit id revision r command m)
            (λ a t here. on_submit-Steps id m a t here revision r command))
    ])
  ]

  pub succeed-Steps : Steps s (succeed c scope profile_id id s).1
  unfolding succeed is_terminal
  succeed-Steps =
      on_attempt-Steps (on_finish id Stage.succeeded none)
        (λ m a t here. on_finish-Steps id m a t here Stage.succeeded none refl refl)

  pub fail-Steps : (code : String) → Steps s (fail c scope profile_id id code s).1
  unfolding fail is_terminal
  fail-Steps code =
      on_attempt-Steps (on_finish id Stage.error (some (clip 64 code)))
        (λ m a t here. on_finish-Steps id m a t here Stage.error (some (clip 64 code)) refl refl)

  pub cancel-Steps : Steps s (cancel c scope profile_id id s).1
  unfolding cancel is_terminal
  cancel-Steps =
      on_attempt-Steps (on_finish id Stage.cancelled (some "ATTEMPT_INTERRUPTED")) (λ m a t here.
        on_finish-Steps id m a t here Stage.cancelled (some "ATTEMPT_INTERRUPTED") refl refl)

  pub get-Steps : Steps s (get c scope profile_id id s).1
  unfolding get
  get-Steps = on_attempt-Steps (λ m a. pure (view a)) (λ m a t here. done)
