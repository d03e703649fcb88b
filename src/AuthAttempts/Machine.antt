-- ===== src/AuthAttempts/Machine.antt =====
-- app/services/auth_attempts.py: the stage machine of one attempt, and the steps of the store.
use mathlib.Core.Path.{subst}
use maxbot.Base.{
  ◌+◌, ◌≤◌, String, Bool, true, false, ◌||◌, none, some, ◌≡◌, refl, sym, ◌∙◌, arith, ok,
}
use maxbot.AuthAttempts.Stages.{
  Stage, is_terminal, AuthAttemptView, Attempt, ProfileKey, profile_key,
}
use maxbot.AuthAttempts.Store.{Store, put, set_active, set_receipt}

-- The stages that end an attempt, of those that the store ever sets.
abbrev pub is_end : Stage → Bool
is_end Stage.succeeded = true
is_end Stage.error = true
is_end Stage.expired = true
is_end Stage.cancelled = true
is_end _ = false

-- The way through a login: connect, ask for the code, check it, ask for the password, check it.
abbrev pub is_next : Stage → Stage → Bool
is_next Stage.connecting Stage.waiting_code = true
is_next Stage.waiting_code Stage.verifying_code = true
is_next Stage.verifying_code Stage.waiting_password = true
is_next Stage.waiting_password Stage.verifying_password = true
is_next Stage.verifying_password Stage.waiting_password = true
is_next _ _ = false

-- One change of an attempt.
pub record Move (a b : Attempt) : Type 0 where
  pub live : is_terminal a.stage ≡ false
  pub edge : is_end b.stage || is_next a.stage b.stage ≡ true
  pub revision : b.revision ≡ a.revision + 1
  pub scope : b.scope ≡ a.scope
  pub profile_id : b.profile_id ≡ a.profile_id
  pub attempt_id : b.attempt_id ≡ a.attempt_id
  pub attempt_deadline_at : b.attempt_deadline_at ≡ a.attempt_deadline_at
  pub results :
      (c r : String) (v : AuthAttemptView)
      → a.command_results c r ≡ some v
      → b.command_results c r ≡ some v

-- Any number of changes.
pub data Evolves (a : Attempt) : Attempt → Type 0 where
  same : Evolves a a
  after : {m b : Attempt} → Evolves a m → Move m b → Evolves a b

pub Evolves-trans : {a b c : Attempt} → Evolves a b → Evolves b c → Evolves a c
Evolves-trans h same = h
Evolves-trans h (after k move) = after (Evolves-trans h k) move

-- The revision of an attempt only grows, and every change counts.
pub Evolves-revision : {a b : Attempt} → Evolves a b → a.revision ≤ b.revision
Evolves-revision same = omega arith
Evolves-revision (after h move) =
    let before = Evolves-revision h in let one = move.revision in omega arith

pub Evolves-same_revision : {a b : Attempt} → Evolves a b → b.revision ≡ a.revision → b ≡ a
Evolves-same_revision same h = refl
Evolves-same_revision (after before move) h =
    let grown = Evolves-revision before in let one = move.revision in absurd (omega arith)

pub Evolves-terminal : {a b : Attempt} → Evolves a b → is_terminal a.stage ≡ true → b ≡ a
Evolves-terminal same h = refl
Evolves-terminal {a} (after {m} before move) h =
    let ended = subst (λ x. is_terminal x.stage ≡ true) (sym (Evolves-terminal before h)) h in
    let live = move.live in absurd (ground arith)

pub Evolves-results :
    {a b : Attempt}
    → Evolves a b
    → (c r : String) (v : AuthAttemptView) → a.command_results c r ≡ some v
    → b.command_results c r ≡ some v
Evolves-results same c r v h = h
Evolves-results (after before move) c r v h = move.results c r v (Evolves-results before c r v h)

pub Evolves-profile :
    {a b : Attempt} → Evolves a b → (b.scope ≡ a.scope) × (b.profile_id ≡ a.profile_id)
Evolves-profile same = (refl, refl)
Evolves-profile (after before move) =
    let (scope, profile_id) = Evolves-profile before in
    (move.scope ∙ scope, move.profile_id ∙ profile_id)

-- No attempt that still runs is the active one of this profile.
abbrev pub IsFree : ProfileKey → Store → Type 0
IsFree key s =
    (id : String) (a : Attempt)
    → s.active_by_profile key ≡ some id
    → s.attempts id ≡ some a
    → is_terminal a.stage ≡ true

-- A new attempt of a profile, in the store.
abbrev pub started : ProfileKey → String → String → Attempt → Store → Store
started key rid id a s = set_receipt key rid id (set_active key (some id) (put id a s))

-- One change of the store: of an attempt that stays with its profile, of one that leaves it as it
-- ends, or a new attempt for a profile that has none running.
pub data Step (s : Store) : Store → Type 0 where
  moves : {id : String} → {a b : Attempt} → s.attempts id ≡ some a → Move a b → Step s (put id b s)
  ends :
      {id : String}
      → {a b : Attempt} → {key : ProfileKey} → s.attempts id ≡ some a
      → Move a b
      → is_end b.stage ≡ true
      → profile_key a.scope a.profile_id ≡ ok key
      → Step s (set_active key none (put id b s))
  starts :
      {key : ProfileKey}
      → {id : String} → (rid : String) → (a : Attempt) → s.attempts id ≡ none
      → IsFree key s
      → is_terminal a.stage ≡ false
      → a.scope ≡ key.scope
      → a.profile_id ≡ key.profile_id
      → profile_key key.scope key.profile_id ≡ ok key
      → Step s (started key rid id a s)

pub data Steps (s : Store) : Store → Type 0 where
  done : Steps s s
  more : {t u : Store} → Steps s t → Step t u → Steps s u

pub Steps-trans : {s t u : Store} → Steps s t → Steps t u → Steps s u
Steps-trans a done = a
Steps-trans a (more b st) = more (Steps-trans a b) st
