-- ===== src/Base/Effects.antt =====
-- Statements with state and exceptions. What was written before a raise stays written, unless the
-- statement stands in a transaction, which rolls back.
use mathlib.Core.Path.{◌≡◌, refl}
use mathlib.Core.Bool.{Bool, true, false}
use mathlib.Core.Option.{Option, none, some}
use native.Mathlib.Omega.{arith}

pub data Result (E A : Type 0) : Type 0 where
  ok : A → Result E A
  err : E → Result E A

abbrev pub Action : Type 0 → Type 0 → Type 0 → Type 0
Action S E A = S → Result E A × S

module _ {S E A : Type 0} where
  abbrev pub pure : A → Action S E A
  pure a s = (ok a, s)

  abbrev pub raise : E → Action S E A
  raise e s = (err e, s)

  abbrev pub gets : (S → A) → Action S E A
  gets f s = (ok (f s), s)

  abbrev pub or_raise : Option A → E → Action S E A
  or_raise none e = raise e
  or_raise (some a) e = pure a

  -- `with self._transaction():` commits on success and rolls back on any exception.
  abbrev pub end_transaction : S → Result E A × S → Result E A × S
  end_transaction s (ok a, s') = (ok a, s')
  end_transaction s (err e, s') = (err e, s)

  unfoldable pub transaction : Action S E A → Action S E A
  transaction m s = end_transaction s (m s)

  -- A failed transaction leaves no trace.
  pub transaction_rollback :
      (m : Action S E A) (s : S) {e : E} → (transaction m s).0 ≡ err e → (transaction m s).1 ≡ s
  unfolding transaction
  transaction_rollback m s h = ground arith

abbrev pub bind_result : {S E A B : Type 0} → (A → Action S E B) → Result E A × S → Result E B × S
bind_result f (ok a, s) = f a s
bind_result f (err e, s) = (err e, s)

infixl 5 ◌>>=◌
infixr 5 ◌>>◌
abbrev pub ◌>>=◌ : {S E A B : Type 0} → Action S E A → (A → Action S E B) → Action S E B
◌>>=◌ m f s = bind_result f (m s)

abbrev pub ◌>>◌ : {S E A B : Type 0} → Action S E A → Action S E B → Action S E B
m >> k = m >>= λ _. k

module _ {S E : Type 0} where
  abbrev pub checked : E → S → Bool → Result E (Unit {0}) × S
  checked e s true = (err e, s)
  checked e s false = (ok tt, s)

  abbrev pub raise_if : Bool → E → Action S E (Unit {0})
  raise_if c e s = checked e s c

  abbrev pub modify : (S → S) → Action S E (Unit {0})
  modify f s = (ok tt, f s)

abbrev pub branch : {S E A : Type 0} → Action S E A → Action S E A → S → Bool → Result E A × S
branch m k s true = m s
branch m k s false = k s

-- A branch between two statements.
infix 1 when◌run◌otherwise◌
abbrev pub when◌run◌otherwise◌ :
    {S E A : Type 0} → Bool → Action S E A → Action S E A → Action S E A
when◌run◌otherwise◌ c m k s = branch m k s c

-- Rules for a property of the state that a call leaves behind, whether it returns or raises.
module _ {S E : Type 0} (P : S → Type 0) (s : S) where
  pub end_transaction_rule :
      {A : Type 0} (r : Result E A × S) → P s → P r.1 → P (end_transaction s r).1
  end_transaction_rule (ok a, t) before after = after
  end_transaction_rule (err e, t) before after = before

  pub checked_rule :
      {A : Type 0} (c : Bool) (e : E) (f : Unit {0} → Action S E A)
      → P s
      → (c ≡ false → P (f tt s).1)
      → P (bind_result f (checked e s c)).1
  checked_rule true e f before after = before
  checked_rule false e f before after = after refl

  pub branch_rule :
      {A : Type 0} (c : Bool) (m k : Action S E A)
      → (c ≡ true → P (m s).1)
      → (c ≡ false → P (k s).1)
      → P (branch m k s c).1
  branch_rule true m k yes_case no_case = yes_case refl
  branch_rule false m k yes_case no_case = no_case refl

  pub bind_rule :
      {A B : Type 0} (f : A → Action S E B) (r : Result E A × S)
      → P r.1
      → ((a : A) (t : S) → r ≡ (ok a, t) → P (f a t).1)
      → P (bind_result f r).1
  bind_rule f (ok a, t) before after = after a t refl
  bind_rule f (err e, t) before after = before

-- Inversion of a call that returned.
module _ {S E A : Type 0} where
  pub bind-eq-ok :
      {B : Type 0} (f : A → Action S E B) (r : Result E A × S) {b : B} {u : S}
      → bind_result f r ≡ (ok b, u)
      → (a : A) × (t : S) × (r ≡ (ok a, t)) × (f a t ≡ (ok b, u))
  bind-eq-ok f (ok a, t) h = (a, t, refl, h)
  bind-eq-ok f (err e, t) h = absurd (ground (arith, h))

  pub end_transaction-eq-ok :
      (s : S) (r : Result E A × S) {a : A} {u : S} → end_transaction s r ≡ (ok a, u) → r ≡ (ok a, u)
  end_transaction-eq-ok s (ok a, t) h = h
  end_transaction-eq-ok s (err e, t) h = absurd (ground (arith, h))

  pub checked-eq-ok :
      (c : Bool) (e : E) (s : S) (f : Unit {0} → Action S E A) {a : A} {u : S}
      → bind_result f (checked e s c) ≡ (ok a, u)
      → f tt s ≡ (ok a, u)
  checked-eq-ok true e s f h = absurd (ground (arith, h))
  checked-eq-ok false e s f h = h
