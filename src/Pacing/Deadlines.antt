-- ===== src/Pacing/Deadlines.antt =====
-- app/services/pacing.py: lemmas on the deadlines of `next_allowed_at`.
use mathlib.Core.List.{Memᴰ}
use mathlib.Core.List.Memᴰ as MemLemmas
use mathlib.Core.List.Memᴰ.{head, tail, append_left, append_right}
use maxbot.Base.{
  Datetime, ℕ, zero, suc, ◌+◌, ◌≤◌, ◌<◌, Option, none, some, ℤ, pos, negsuc, pos_part, List, [],
  ◌∷◌, ◌++◌, refl, arith, ltb_ℤ, inl, inr, Bool-cases, ltb, ltb→lt, if◌then◌else◌,
}
use maxbot.Pacing.Policy.{latest_of, if_later, after_delay, deadline_of, instant, next_allowed_at}

-- The answer keeps a deadline: it is over, or the answer is not before it.
abbrev pub Keeps : ℕ → ℕ → Option ℕ → Type 0
Keeps now deadline none = deadline ≤ now
Keeps now deadline (some t) = (deadline ≤ t) × (now < t)

latest_of-bound : (t u : ℕ) (rest : List ℕ) → Memᴰ t (u ∷ rest) → t ≤ latest_of u rest
latest_of-bound t u [] (head e) = omega (arith, e)
latest_of-bound t u [] (tail k) = absurd (MemLemmas.not-nil k)
latest_of-bound t u (v ∷ rest) (head e) = omega (arith, e)
latest_of-bound t u (v ∷ rest) (tail k) = let h = latest_of-bound t v rest k in omega arith

Keeps-later : (now t u : ℕ) → t ≤ u → Keeps now t (if ltb now u then some u else none)
Keeps-later now t u h = elim (Bool-cases (ltb now u)) [
  | inl e ↦ rw e (h, ltb→lt now u e)
  | inr e ↦ rw e (ground (arith, h, e))
]

-- Every candidate is kept.
Keeps-if_later :
    (now t : ℕ) (candidates : List ℕ) → Memᴰ t candidates → Keeps now t (if_later now candidates)
Keeps-if_later now t [] k = absurd (MemLemmas.not-nil k)
Keeps-if_later now t (u ∷ rest) k =
    Keeps-later now t (latest_of u rest) (latest_of-bound t u rest k)

-- A delay of nothing is kept by any answer.
Keeps-now : (now : ℕ) (candidates : List ℕ) → Keeps now (now + 0) (if_later now candidates)
Keeps-now now [] = omega arith
Keeps-now now (u ∷ rest) = elim (Bool-cases (ltb now (latest_of u rest))) [
  | inl e ↦ rw e (let h = ltb→lt now (latest_of u rest) e in (omega arith, h))
  | inr e ↦ rw e (ground arith)
]

kept_delay :
    (now n : ℕ) (candidates : List ℕ)
    → (Memᴰ (now + n) (after_delay now (pos n)) → Memᴰ (now + n) candidates)
    → Keeps now (now + n) (if_later now candidates)
kept_delay now zero candidates inside = Keeps-now now candidates
kept_delay now (suc n) candidates inside = elim (Bool-cases (ltb_ℤ (pos 0) (pos (suc n)))) [
  | inr e ↦ absurd (ground (arith, e))
  | inl e ↦ Keeps-if_later now (now + suc n) candidates (inside (rw e (head refl)))
]

kept_pos_part :
    (now : ℕ) (delay : ℤ) (candidates : List ℕ)
    → (Memᴰ (now + pos_part delay) (after_delay now delay) → Memᴰ (now + pos_part delay) candidates)
    → Keeps now (now + pos_part delay) (if_later now candidates)
kept_pos_part now (pos n) candidates inside = kept_delay now n candidates inside
kept_pos_part now (negsuc n) candidates inside = Keeps-now now candidates

-- A deadline that may be absent.
abbrev pub KeepsGiven : ℕ → Option Datetime → Option ℕ → Type 0
KeepsGiven now none answer = Unit
KeepsGiven now (some d) answer = Keeps now (instant d) answer

kept_given :
    (now : ℕ) (o : Option Datetime) (candidates : List ℕ)
    → ((t : ℕ) → Memᴰ t (deadline_of o) → Memᴰ t candidates)
    → KeepsGiven now o (if_later now candidates)
kept_given now none candidates inside = tt
kept_given now (some d) candidates inside =
    Keeps-if_later now (instant d) candidates (inside (instant d) (head refl))

-- A wait is never shortened, whichever deadlines are given and whatever the delays are: when
-- `next_allowed_at` gives a time, that time is in the future and not before the provider's deadline and
-- the persisted one, where there are such, nor before the configured floor and the generated delay,
-- counted from now (a delay that is not positive counts as nothing); when it gives none, all of them
-- are over.
pub next_allowed_at-Keeps :
    (now : Datetime) (floor delay : ℤ) (server persisted : Option Datetime)
    → let answer = next_allowed_at now floor delay server persisted in
      KeepsGiven (instant now) server answer
      × KeepsGiven (instant now) persisted answer
      × Keeps (instant now) (instant now + pos_part floor) answer
      × Keeps (instant now) (instant now + pos_part delay) answer
unfolding next_allowed_at
next_allowed_at-Keeps now floor delay server persisted =
    let here = instant now in
    let a = after_delay here floor in
    let b = after_delay here delay in
    let s = deadline_of server in
    let p = deadline_of persisted in
    let all = a ++ b ++ s ++ p in
    (
      kept_given here server all (λ t k. append_left p (append_right (a ++ b) k)),
      kept_given here persisted all (λ t k. append_right (a ++ b ++ s) k),
      kept_pos_part here floor all (λ k. append_left p (append_left s (append_left b k))),
      kept_pos_part here delay all (λ k. append_left p (append_left s (append_right a k))),
    )
