-- ===== src/AuthAttempts/Invariant.antt =====
-- app/services/auth_attempts.py: what every step of the store keeps.
use mathlib.Core.Path.{subst}
use maxbot.Base.{
  String, true, false, Option, none, some, ◌≡◌, refl, sym, ap, ◌∙◌, arith, ℤ, Result, ok, ◌⊎◌, inl,
  inr, str_eq, eq_iff, eq_ℤ_iff, Bool-cases, eq_refl, ◌≢◌,
}
use maxbot.AuthAttempts.Stages.{Stage, is_terminal, Attempt, ProfileKey, eq_key, profile_key}
use maxbot.AuthAttempts.Store.{Store, put, set_active, empty_store}
use maxbot.AuthAttempts.Machine.{
  is_end, Move, Evolves, same, after, Evolves-trans, IsFree, started, Step, moves, ends, starts,
  Steps, done, more,
}

pub put_self : (id : String) (a : Attempt) (s : Store) → (put id a s).attempts id ≡ some a
put_self id a s = rw (eq_refl id) refl

-- The attempt under an id after another one was put.
pub put-cases :
    (id j : String) (b : Attempt) (s : Store)
    → (id ≡ j × (put id b s).attempts j ≡ some b)
      ⊎ ((id ≢ j) × (put id b s).attempts j ≡ s.attempts j)
put-cases id j b s = elim (Bool-cases (str_eq id j)) [
  | inl e ↦ inl ((eq_iff id j).0 e, rw e refl)
  | inr e ↦ inr (ground (arith, eq_iff id j, e), rw e refl)
]

abbrev pub Later : Attempt → Option Attempt → Type 0
Later a o = (b : Attempt) × (o ≡ some b) × Evolves a b

put-Later :
    (id j : String) (a b c : Attempt) (s : Store)
    → s.attempts id ≡ some a
    → Move a b
    → s.attempts j ≡ some c
    → Later c ((put id b s).attempts j)
put-Later id j a b c s here move there = elim (put-cases id j b s) [
  | inl (e, h) ↦
      (b, h, subst (λ x. Evolves x b) (ground (arith, ap s.attempts e)) (after same move))
  | inr (e, h) ↦ (c, h ∙ there, same)
]

pub Step-Later :
    {s t : Store}
    → Step s t
    → (j : String) (c : Attempt) → s.attempts j ≡ some c
    → Later c (t.attempts j)
Step-Later {s} (moves {id} {a} {b} here move) j c there = put-Later id j a b c s here move there
Step-Later {s} (ends {id} {a} {b} here move e k) j c there = put-Later id j a b c s here move there
Step-Later {s} (starts {id = id} rid a none_yet free live e1 e2 k) j c there =
    elim (put-cases id j a s) [
      | inl (e, h) ↦ absurd (ground (arith, ap s.attempts e))
      | inr (e, h) ↦ (c, h ∙ there, same)
    ]

-- An attempt never leaves the store, and only its own moves change it.
pub Steps-Later :
    {s t : Store}
    → Steps s t
    → (j : String) (c : Attempt) → s.attempts j ≡ some c
    → Later c (t.attempts j)
Steps-Later done j c there = (c, there, same)
Steps-Later (more before step) j c there =
    let (m, at_m, h) = Steps-Later before j c there in
    let (b, at_b, k) = Step-Later step j m at_m in (b, at_b, Evolves-trans h k)

abbrev pub key_of : String → ℤ → ProfileKey
key_of scope profile_id = record { scope = scope; profile_id = profile_id }

-- What `_active_by_profile` says of a profile, whose key is normal: that it runs this attempt.
abbrev pub IsActive : (ProfileKey → Option String) → String → String → ℤ → Type 0
IsActive active_by_profile id scope profile_id =
    (profile_key scope profile_id ≡ ok (key_of scope profile_id))
    × (active_by_profile (key_of scope profile_id) ≡ some id)

-- Every attempt that still runs is the active one of its profile.
abbrev pub IsTracked : Store → Type 0
IsTracked s =
    (id : String) (a : Attempt)
    → s.attempts id ≡ some a
    → is_terminal a.stage ≡ false
    → IsActive s.active_by_profile id a.scope a.profile_id

eq_of_eq_key : (k j : ProfileKey) → eq_key k j ≡ true → k ≡ j
eq_of_eq_key k j h = ground (arith, eq_iff k.scope j.scope, eq_ℤ_iff k.profile_id j.profile_id)

pub some_inj : {A : Type 0} {a b : A} → some a ≡ some b → a ≡ b
some_inj h = cc

module _ (s : Store) (id : String) (a b : Attempt) (here : s.attempts id ≡ some a) (move : Move a b)
    (tracked : IsTracked s) where
  moved-IsActive : IsActive s.active_by_profile id b.scope b.profile_id
  moved-IsActive = rw (move.scope, move.profile_id) (tracked id a here move.live)

  put-IsTracked : IsTracked (put id b s)
  put-IsTracked j c there live = elim (put-cases id j b s) [
    | inl (e, h) ↦
        let is_b : b ≡ c = some_inj (sym h ∙ there) in
        subst (λ x. IsActive s.active_by_profile j x.scope x.profile_id) is_b
          (subst (λ i. IsActive s.active_by_profile i b.scope b.profile_id) e moved-IsActive)
    | inr (e, h) ↦ tracked j c (sym h ∙ there) live
  ]

end_terminal : (x : Stage) → is_end x ≡ true → is_terminal x ≡ true
unfolding is_terminal
end_terminal x h = ground arith

-- An attempt that keeps its profile's entry when another entry changes.
set_active_other :
    (s : Store) (key k : ProfileKey) (o : Option String)
    → key ≢ k
    → (set_active key o s).active_by_profile k ≡ s.active_by_profile k
set_active_other s key k o h = elim (Bool-cases (eq_key key k)) [
  | inl e ↦ absurd (h (eq_of_eq_key key k e))
  | inr e ↦ rw e refl
]

-- An entry that changes for no running attempt but the one that was put.
keep_others :
    (s : Store) (key : ProfileKey) (o : Option String) (j scope : String) (profile_id : ℤ)
    → IsActive s.active_by_profile j scope profile_id
    → key ≢ key_of scope profile_id
    → IsActive (set_active key o s).active_by_profile j scope profile_id
keep_others s key o j scope profile_id (normal, active) other =
    (normal, set_active_other s key (key_of scope profile_id) o other ∙ active)

ok_unique : {E A : Type 0} {r : Result E A} {a b : A} → r ≡ ok a → r ≡ ok b → a ≡ b
ok_unique h k = cc

ends-IsTracked :
    (s : Store) (id : String) (a b : Attempt) (key : ProfileKey)
    → s.attempts id ≡ some a
    → Move a b
    → is_end b.stage ≡ true
    → profile_key a.scope a.profile_id ≡ ok key
    → IsTracked s
    → IsTracked (set_active key none (put id b s))
ends-IsTracked s id a b key here move ended own tracked j c there live = elim (put-cases id j b s) [
  | inl (e, h) ↦
      let is_b : b ≡ c = some_inj (sym h ∙ there) in
      let over = end_terminal b.stage ended in
      absurd (ground (arith, ap (λ x. is_terminal x.stage) is_b))
  | inr (e, h) ↦
      let others : IsActive s.active_by_profile j c.scope c.profile_id =
        tracked j c (sym h ∙ there) live in
      let mine = tracked id a here move.live in
      let mine_key : key ≡ key_of a.scope a.profile_id = ok_unique own mine.0 in
      keep_others s key none j c.scope c.profile_id others (λ same_key.
        e (some_inj (sym mine.1 ∙ ap s.active_by_profile (sym mine_key ∙ same_key) ∙ others.1)))
]

starts-IsTracked :
    (s : Store) (key : ProfileKey) (id rid : String) (a : Attempt)
    → IsFree key s
    → a.scope ≡ key.scope
    → a.profile_id ≡ key.profile_id
    → profile_key key.scope key.profile_id ≡ ok key
    → IsTracked s
    → IsTracked (started key rid id a s)
starts-IsTracked s key id rid a free e1 e2 normal tracked j c there live =
    elim (put-cases id j a s) [
      | inl (e, h) ↦
          let is_a : a ≡ c = some_inj (sym h ∙ there) in
          let scope = ap (λ x. x.scope) (sym is_a) ∙ e1 in
          let profile_id = ap (λ x. x.profile_id) (sym is_a) ∙ e2 in
          rw (scope, profile_id, eq_key_refl key, e) (normal, refl)
      | inr (e, h) ↦
          let others : IsActive s.active_by_profile j c.scope c.profile_id =
            tracked j c (sym h ∙ there) live in
          keep_others s key (some id) j c.scope c.profile_id others (λ same_key.
            let over = free j c (ap s.active_by_profile same_key ∙ others.1) (sym h ∙ there) in
            absurd (ground arith))
    ]
  where
    eq_key_refl : (k : ProfileKey) → eq_key k k ≡ true
    eq_key_refl k = ground (arith, eq_refl k.scope, eq_ℤ_iff k.profile_id k.profile_id)

-- At most one attempt of a profile runs, and its entry names it.
pub Steps-IsTracked : {s t : Store} → Steps s t → IsTracked s → IsTracked t
Steps-IsTracked done tracked = tracked
Steps-IsTracked (more before step) tracked = Step-IsTracked step (Steps-IsTracked before tracked)
  where
    Step-IsTracked : {s t : Store} → Step s t → IsTracked s → IsTracked t
    Step-IsTracked {s} (moves {id} {a} {b} here move) tracked =
        put-IsTracked s id a b here move tracked
    Step-IsTracked {s} (ends {id} {a} {b} {key} here move ended own) tracked =
        ends-IsTracked s id a b key here move ended own tracked
    Step-IsTracked {s} (starts {key} {id} rid a none_yet free live e1 e2 normal) tracked =
        starts-IsTracked s key id rid a free e1 e2 normal tracked

pub empty_store-IsTracked : IsTracked empty_store
empty_store-IsTracked id a there live = absurd (ground arith)
