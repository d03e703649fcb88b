-- ===== src/Pacing/Eligible.antt =====
-- app/services/pacing.py: what `evaluate_eligibility` asks of an account.
use mathlib.Core.Path.{subst}
use maxbot.Base.{
  ℕ, ◌≤◌, Datetime, String, Bool, true, false, not, Option, none, some, ℤ, pos, negsuc, ok, err,
  Result, ◌≡◌, refl, sym, ap, ◌∙◌, arith, ◌≤ℤ◌, ltb, max, ◌++◌, ltb_ℤ, leb_ℤ, inl, inr, Bool-cases,
  if◌then◌else◌,
}
use maxbot.Pacing.Policy.{
  min_ℤ, target_of, with_role, effective_daily_target, validated_role, Role, EligibilityResult,
  Question, refused, is_banned, by_deadline, wait_of, by_target, evaluate_eligibility, instant,
  if_later, deadline_of, next_allowed_at,
}
use maxbot.Pacing.Deadlines.{Keeps, KeepsGiven, next_allowed_at-Keeps}

open_test :
    (b : Bool) (x y : EligibilityResult)
    → x.allowed ≡ false
    → (if b then x else y).allowed ≡ true
    → (b ≡ false) × (y.allowed ≡ true)
open_test true x y shut yes_case = absurd (ground (arith, sym shut ∙ yes_case))
open_test false x y shut yes_case = (refl, yes_case)

by_deadline-allowed : (o : Option ℕ) → (by_deadline o).allowed ≡ true → o ≡ none
by_deadline-allowed none h = refl
by_deadline-allowed (some t) h = absurd (ground (arith, h))

min_ℤ-≤ℤ : (a b : ℤ) → min_ℤ a b ≤ℤ a
min_ℤ-≤ℤ a b = ground arith

target_of-≤ℤ : (a b : ℤ) (r : Role) → ltb_ℤ a (pos 0) ≡ false → target_of a b r ≤ℤ a
target_of-≤ℤ (pos n) b Role.skip h = omega arith
target_of-≤ℤ (negsuc n) b Role.skip h = absurd (ground (arith, h))
target_of-≤ℤ a b Role.quiet h = min_ℤ-≤ℤ a b
target_of-≤ℤ a b Role.active h = omega arith

with_role-eq-ok :
    {A B : Type 0} (f : A → Result String B) (r : Result String A) (b : B)
    → with_role f r ≡ ok b
    → (a : A) × (r ≡ ok a) × (f a ≡ ok b)
with_role-eq-ok f (err e) b h = absurd (ground (arith, h))
with_role-eq-ok f (ok a) b h = (a, refl, h)

ok_unique : {A : Type 0} {r : Result String A} {a b : A} → r ≡ ok a → r ≡ ok b → a ≡ b
ok_unique h k = cc

-- A target never exceeds the sampled limit.
target-≤ℤ :
    (sampled quiet_limit t : ℤ) (role : String)
    → effective_daily_target sampled role quiet_limit ≡ ok t
    → t ≤ℤ sampled
unfolding effective_daily_target
target-≤ℤ sampled quiet_limit t role h = elim (Bool-cases (ltb_ℤ sampled (pos 0))) [
  | inl e ↦ absurd (ground (arith, h, e))
  | inr e ↦ elim (Bool-cases (ltb_ℤ quiet_limit (pos 0))) [
    | inl e' ↦ absurd (ground (arith, h, e, e'))
    | inr e' ↦
        let (r, checked, found) =
          with_role-eq-ok (λ r. ok (target_of sampled quiet_limit r)) (validated_role role) t
            (rw (e, e') at h) in
        subst (λ x. x ≤ℤ sampled) (ok_unique refl found) (target_of-≤ℤ sampled quiet_limit r e)
  ]
]

-- No deadline, or one that is not ahead.
abbrev pub IsOver : ℕ → Option Datetime → Type 0
IsOver now none = Unit
IsOver now (some d) = instant d ≤ now

KeepsGiven-IsOver :
    (now : ℕ) (o : Option Datetime) (answer : Option ℕ)
    → answer ≡ none
    → KeepsGiven now o answer
    → IsOver now o
KeepsGiven-IsOver now none answer no_wait kept = tt
KeepsGiven-IsOver now (some d) answer no_wait kept = subst (Keeps now (instant d)) no_wait kept

-- What an account must satisfy to be let send.
abbrev pub IsAdmitted : Question → Type 0
IsAdmitted q =
    (target : ℤ) × (effective_daily_target q.sampled_limit q.role q.quiet_limit ≡ ok target)
    × (target ≤ℤ q.sampled_limit)
    × (ltb_ℤ (pos 0) target ≡ true)
    × (ltb_ℤ q.sent_count target ≡ true)
    × (is_banned q.tenant_sanction ≡ false)
    × (q.unclear_wait ≡ false)
    × (q.route_ready ≡ true)
    × IsOver (instant q.now) q.server_deadline
    × IsOver (instant q.now) q.persisted_deadline

true_of_not : (b : Bool) → not b ≡ false → b ≡ true
true_of_not b h = ground arith

below_target : (t sent : ℤ) → leb_ℤ t sent ≡ false → ltb_ℤ sent t ≡ true
below_target t sent h = ground (arith, h)

-- Without a deadline ahead there is no wait.
not_later : (now t : ℕ) → t ≤ now → ltb now t ≡ false
not_later now t h = ground (arith, h)

over-wait :
    (now : ℕ) (server persisted : Option Datetime)
    → IsOver now server
    → IsOver now persisted
    → if_later now (deadline_of server ++ deadline_of persisted) ≡ none
over-wait now none none h k = refl
over-wait now (some d) none h k = rw (not_later now (instant d) h) refl
over-wait now none (some e) h k = rw (not_later now (instant e) k) refl
over-wait now (some d) (some e) h k =
    rw (not_later now (max (instant d) (instant e)) (ground (arith, h, k))) refl

allowed-IsAdmitted :
    (q : Question) (r : EligibilityResult)
    → evaluate_eligibility q ≡ ok r
    → r.allowed ≡ true
    → IsAdmitted q
unfolding evaluate_eligibility by_target
allowed-IsAdmitted q r h yes_case =
    let (t, given, found) =
      with_role-eq-ok (λ t. ok (by_target q t))
        (effective_daily_target q.sampled_limit q.role q.quiet_limit) r h in
    let answer : (by_target q t).allowed ≡ true =
      ap (λ x. x.allowed) (ok_unique refl found) ∙ yes_case in
    let (banned, h1) =
      open_test (is_banned q.tenant_sanction) (refused "tenant_stopped" none) _ refl answer in
    let (unclear, h2) = open_test q.unclear_wait (refused "review_required" none) _ refl h1 in
    let (routed, h3) = open_test (not q.route_ready) (refused "route_unavailable" none) _ refl h2 in
    let (some_target, h4) = open_test (leb_ℤ t (pos 0)) (refused "role_skip" none) _ refl h3 in
    let (below, h5) = open_test (leb_ℤ t q.sent_count) (refused "daily_limit" none) _ refl h4 in
    let no_wait : wait_of q ≡ none = by_deadline-allowed (wait_of q) h5 in
    let (server, persisted, floor, delay) =
      next_allowed_at-Keeps q.now (pos 0) (pos 0) q.server_deadline q.persisted_deadline in
    (
      t,
      given,
      target-≤ℤ q.sampled_limit q.quiet_limit t q.role given,
      below_target t (pos 0) some_target,
      below_target t q.sent_count below,
      banned,
      unclear,
      true_of_not q.route_ready routed,
      KeepsGiven-IsOver (instant q.now) q.server_deadline (wait_of q) no_wait server,
      KeepsGiven-IsOver (instant q.now) q.persisted_deadline (wait_of q) no_wait persisted,
    )

not_leb : (t sent : ℤ) → ltb_ℤ sent t ≡ true → leb_ℤ t sent ≡ false
not_leb t sent h = ground (arith, h)

no_wait_left :
    (q : Question)
    → IsOver (instant q.now) q.server_deadline
    → IsOver (instant q.now) q.persisted_deadline
    → wait_of q ≡ none
unfolding next_allowed_at
no_wait_left q server persisted =
    over-wait (instant q.now) q.server_deadline q.persisted_deadline server persisted

IsAdmitted-allowed :
    (q : Question) (r : EligibilityResult)
    → evaluate_eligibility q ≡ ok r
    → IsAdmitted q
    → r.allowed ≡ true
unfolding evaluate_eligibility by_target
IsAdmitted-allowed q r h
      (t, given, bound, some_target, below, banned, unclear, routed, server, persisted) =
    let positive = not_leb t (pos 0) some_target in
    let under = not_leb t q.sent_count below in
    let no_wait = no_wait_left q server persisted in
    let answer : ok (by_target q t) ≡ ok r =
      sym (ap (with_role (λ t. ok (by_target q t))) given) ∙ h in
    ap (λ x. x.allowed) (ok_unique refl (sym answer))
    ∙ rw (banned, unclear, routed, positive, under, no_wait) refl

-- An account is let send exactly if all is well: whenever `evaluate_eligibility` answers, it answers
-- that a send is allowed if and only if the account's target is positive and not yet reached, its tenant
-- is not banned, no wait is unclear, its route is ready, and neither the provider's deadline nor the
-- persisted one, where there is such, is later than now; and the target of an account that is let send
-- is at most the sampled limit.
pub allowed-iff_IsAdmitted :
    (q : Question) (r : EligibilityResult)
    → evaluate_eligibility q ≡ ok r
    → (r.allowed ≡ true → IsAdmitted q) × (IsAdmitted q → r.allowed ≡ true)
allowed-iff_IsAdmitted q r h = (allowed-IsAdmitted q r h, IsAdmitted-allowed q r h)
