-- ===== src/AuthAttempts/Safety.antt =====
-- app/services/auth_attempts.py: what any calls of the store leave true of its attempts.
use maxbot.Base.{String, some, ◌≡◌, sym, ap, ◌∙◌, List, false, true}
use maxbot.AuthAttempts.Stages.{Attempt, is_terminal}
use maxbot.AuthAttempts.Store.{Store, empty_store}
use maxbot.AuthAttempts.Machine.{Evolves-terminal, Evolves-same_revision}
use maxbot.AuthAttempts.Invariant.{
  Steps-Later, Steps-IsTracked, empty_store-IsTracked, some_inj, key_of,
}
use maxbot.AuthAttempts.Runs.{Call, after_calls, AreFresh, calls_refine_machine}

-- At most one login attempt of a profile runs: from the empty store, after any calls, two attempts
-- of the same scope and profile that have not ended are the same attempt; every start must get an
-- id that no attempt has.
pub at_most_one_running :
    (calls : List Call)
    → AreFresh calls empty_store
    → (i j : String) (a b : Attempt) → (after_calls calls empty_store).attempts i ≡ some a
    → (after_calls calls empty_store).attempts j ≡ some b
    → is_terminal a.stage ≡ false
    → is_terminal b.stage ≡ false
    → a.scope ≡ b.scope
    → a.profile_id ≡ b.profile_id
    → i ≡ j
at_most_one_running calls fresh i j a b at_i at_j live_a live_b e1 e2 =
    let tracked =
      Steps-IsTracked (calls_refine_machine calls empty_store fresh) empty_store-IsTracked in
    let one = (tracked i a at_i live_a).1 in
    let other = (tracked j b at_j live_b).1 in
    some_inj (
      sym one
      ∙ (λ k. (after_calls calls empty_store).active_by_profile (key_of (e1 k) (e2 k)))
      ∙ other)

-- An attempt that has ended is final: from any store, after any calls, it is found under its id as
-- it was, every field of it; every start must get an id that no attempt has.
pub ended_is_final :
    (calls : List Call) (s : Store)
    → AreFresh calls s
    → (id : String) (a : Attempt) → s.attempts id ≡ some a
    → is_terminal a.stage ≡ true
    → (after_calls calls s).attempts id ≡ some a
ended_is_final calls s fresh id a here ended =
    let (b, there, h) = Steps-Later (calls_refine_machine calls s fresh) id a here in
    there ∙ ap some (Evolves-terminal h ended)

-- The revision of an attempt tells its state: if after any calls it has the revision that it had,
-- nothing of it has changed; every start must get an id that no attempt has.
pub same_revision_same_attempt :
    (calls : List Call) (s : Store)
    → AreFresh calls s
    → (id : String) (a b : Attempt) → s.attempts id ≡ some a
    → (after_calls calls s).attempts id ≡ some b
    → b.revision ≡ a.revision
    → b ≡ a
same_revision_same_attempt calls s fresh id a b here there same_revision =
    let (c, at_c, h) = Steps-Later (calls_refine_machine calls s fresh) id a here in
    let is_b : c ≡ b = some_inj (sym at_c ∙ there) in
    sym is_b ∙ Evolves-same_revision h (ap (λ x. x.revision) is_b ∙ same_revision)
