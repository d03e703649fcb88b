-- ===== src/LegacyBudget/Ready.antt =====
-- app/services/legacy_daily_budget.py: what the whole report says of the profiles.
use mathlib.Core.Path.{subst}
use mathlib.Core.List.{Memᴰ}
use mathlib.Core.List.Memᴰ as MemLemmas
use mathlib.Core.List.Memᴰ.{head, tail, of_map}
use maxbot.Base.{
  ℕ, String, Bool, true, Option, none, some, ℤ, leb_ℤ, List, [], ◌∷◌, map, fetchall, ok, Result,
  ◌≡◌, refl, sym, ap, ◌∙◌, arith, Bool-cases, inl, inr,
}
use maxbot.LegacyBudget.Inspect.{
  Status, LegacyBudgetFinding, Profile, Connection, insert_by_id, order_by_id, is_active, classify,
  on_date, inspect_legacy_daily_budgets,
}
use maxbot.LegacyBudget.Verified.{IsVerified, classify-IsVerified}

module _ {A : Type 0} (p : A) where
  Memᴰ-mono : (q : A) (xs ys : List A) → (Memᴰ p xs → Memᴰ p ys) → Memᴰ p (q ∷ xs) → Memᴰ p (q ∷ ys)
  Memᴰ-mono q xs ys h (head e) = head e
  Memᴰ-mono q xs ys h (tail k) = tail (h k)

  Memᴰ-swap : (q r : A) (rows : List A) → Memᴰ p (r ∷ q ∷ rows) → Memᴰ p (q ∷ r ∷ rows)
  Memᴰ-swap q r rows (head e) = tail (head e)
  Memᴰ-swap q r rows (tail (head e)) = head e
  Memᴰ-swap q r rows (tail (tail k)) = tail (tail k)

  Memᴰ-fetchall :
      (test : A → Bool) (rows : List A)
      → Memᴰ p (fetchall test rows)
      → Memᴰ p rows × (test p ≡ true)
  unfolding fetchall
  Memᴰ-fetchall test [] h = absurd (MemLemmas.not-nil h)
  Memᴰ-fetchall test (q ∷ rows) h = elim (Bool-cases (test q)) [
    | inl e ↦ matching e (Memᴰ-fetchall test rows) (rw e at h)
    | inr e ↦ let k = Memᴰ-fetchall test rows (rw e at h) in (tail k.0, k.1)
  ]
    where
      matching :
          test q ≡ true
          → (Memᴰ p (fetchall test rows) → Memᴰ p rows × (test p ≡ true))
          → Memᴰ p (q ∷ fetchall test rows)
          → Memᴰ p (q ∷ rows) × (test p ≡ true)
      matching e others (head same) = (head same, ap test same ∙ e)
      matching e others (tail k) = (tail (others k).0, (others k).1)

module _ {Value : Type 0} (p : Profile Value) where
  Memᴰ-insert_by_id :
      (q : Profile Value) (rows : List (Profile Value))
      → Memᴰ p (insert_by_id q rows)
      → Memᴰ p (q ∷ rows)
  Memᴰ-insert_by_id q [] h = h
  Memᴰ-insert_by_id q (r ∷ rows) h = elim (Bool-cases (leb_ℤ q.id r.id)) [
    | inl e ↦ (rw e at h)
    | inr e ↦
        Memᴰ-swap p q r rows
          (Memᴰ-mono p r (insert_by_id q rows) (q ∷ rows) (Memᴰ-insert_by_id q rows) (rw e at h))
  ]

  Memᴰ-order_by_id : (rows : List (Profile Value)) → Memᴰ p (order_by_id rows) → Memᴰ p rows
  unfolding order_by_id
  Memᴰ-order_by_id [] h = h
  Memᴰ-order_by_id (q ∷ rows) h =
      Memᴰ-mono p q (order_by_id rows) rows (Memᴰ-order_by_id rows)
        (Memᴰ-insert_by_id q (order_by_id rows) h)

ok_unique : {A : Type 0} {r : Result String A} {a b : A} → r ≡ ok a → r ≡ ok b → a ≡ b
ok_unique h k = cc

-- A budget is called ready only if it agrees with the history: each finding of the report that is
-- ready belongs to an active profile of the database, whose counter is of the day of the report and
-- is the number of sends that the log has of that day, and the limit is the accepted sends plus what
-- remains.
pub ready-IsVerified :
    {Value : Type 0} (int : Value → Option ℤ) (fromisoformat : String → Option ℕ)
    (connection : Connection Value) (business_date : String) (findings : List LegacyBudgetFinding)
    (f : LegacyBudgetFinding)
    → inspect_legacy_daily_budgets int fromisoformat connection business_date ≡ ok findings
    → Memᴰ f findings
    → f.status ≡ Status.ready
    → (day : ℕ) × (p : Profile Value) × (fromisoformat business_date ≡ some day)
      × Memᴰ p connection.profiles
      × (is_active int fromisoformat connection business_date p ≡ true)
      × IsVerified int fromisoformat connection business_date day p f
unfolding inspect_legacy_daily_budgets classify
ready-IsVerified {Value} int fromisoformat connection business_date findings f =
    on_day (fromisoformat business_date)
  where
    on_day :
        (o : Option ℕ)
        → on_date int fromisoformat connection business_date o ≡ ok findings
        → Memᴰ f findings
        → f.status ≡ Status.ready
        → (day : ℕ) × (p : Profile Value) × (o ≡ some day)
          × Memᴰ p connection.profiles
          × (is_active int fromisoformat connection business_date p ≡ true)
          × IsVerified int fromisoformat connection business_date day p f
    on_day none h member is_ready = absurd (ground (arith, h))
    on_day (some day) h member is_ready = elim (Bool-cases connection.has_profiles) [
      | inr e ↦
          let none_found : [] ≡ findings = ok_unique refl (rw e at h) in
          absurd (MemLemmas.not-nil (subst (λ l. Memᴰ f l) (sym none_found) member))
      | inl e ↦
          let active =
            fetchall (is_active int fromisoformat connection business_date) connection.profiles in
          let found : map (classify int fromisoformat connection business_date day)
                (order_by_id active)
              ≡ findings =
            ok_unique refl (rw e at h) in
          let (p, in_order, is_f) =
            of_map (classify int fromisoformat connection business_date day) (order_by_id active)
              (subst (λ l. Memᴰ f l) (sym found) member) in
          let (here, is_active_p) =
            Memᴰ-fetchall p (is_active int fromisoformat connection business_date)
              connection.profiles (Memᴰ-order_by_id p active in_order) in
          (
            day,
            p,
            refl,
            here,
            is_active_p,
            subst (IsVerified int fromisoformat connection business_date day p) is_f (
                classify-IsVerified int fromisoformat connection business_date day p
                  (ap (λ x. x.status) is_f ∙ is_ready)),
          )
    ]
