-- ===== src/DailyPlans/Planned.antt =====
-- app/repositories/daily_plans.py: the table of plans under INSERT and UPDATE.
use mathlib.Core.Option
use mathlib.Core.List.{append-nil}
use mathlib.Core.Path.{subst}
use maxbot.Base.{
  ◌≤◌, String, Bool, true, Option, none, some, ◌≡◌, refl, sym, ap, ◌∙◌, arith, ℤ, eq_ℤ_iff, List,
  [], ◌∷◌, length, ◌⊎◌, inl, inr, Bool-cases, Option-cases, if◌then◌else◌, fetchone, fetchall,
  insert, update_where, on_match, or_else, fetchone-insert, fetchall-insert, fetchall-update_where,
  fetchone-update_where, str_eq, eq_iff, eq_refl,
}
use maxbot.DailyPlans.Rows.{PlanRow, is_plan, is_plan_of}
use maxbot.DailyPlans.Keeps.{some_inj}
use maxbot.DailyPlans.Budget.{IsKeyed, IsDaily, length-map}

fetchall_empty :
    {A : Type 0} (p : A → Bool) (rows : List A) → fetchone p rows ≡ none → fetchall p rows ≡ []
unfolding fetchone fetchall
fetchall_empty p [] h = refl
fetchall_empty p (x ∷ rows) h = ground (arith, fetchall_empty p rows)

-- What is found after an INSERT was found before, or is the new row.
fetchone-insert_cases :
    {A : Type 0} (p : A → Bool) (x y : A) (rows : List A)
    → fetchone p (insert x rows) ≡ some y
    → (fetchone p rows ≡ some y) ⊎ ((fetchone p rows ≡ none) × (x ≡ y))
fetchone-insert_cases p x y rows h = elim (Option-cases (fetchone p rows)) [
  | inr (z, found) ↦ inl (
      found
      ∙ sym (ap (λ o. or_else o (if p x then some x else none)) found)
      ∙ sym (fetchone-insert p x rows)
      ∙ h)
  | inl nothing ↦
      let new : (if p x then some x else none) ≡ some y =
        sym (ap (λ o. or_else o (if p x then some x else none)) nothing)
        ∙ sym (fetchone-insert p x rows)
        ∙ h in
      inr (nothing, ground (arith, new))
]

pub fetchone-insert_old :
    {A : Type 0} (p : A → Bool) (x y : A) (rows : List A)
    → fetchone p rows ≡ some y
    → fetchone p (insert x rows) ≡ some y
fetchone-insert_old p x y rows h =
    fetchone-insert p x rows ∙ ap (λ o. or_else o (if p x then some x else none)) h

pub fetchone-insert_new :
    {A : Type 0} (p : A → Bool) (x : A) (rows : List A)
    → fetchone p rows ≡ none
    → fetchone p (insert x rows) ≡ (if p x then some x else none)
fetchone-insert_new p x rows h =
    fetchone-insert p x rows ∙ ap (λ o. or_else o (if p x then some x else none)) h

module _ (plans : List PlanRow) (p : PlanRow) where
  pub IsKeyed-insert :
      IsKeyed plans → fetchone (is_plan p.plan_id) plans ≡ none → IsKeyed (insert p plans)
  IsKeyed-insert keyed fresh test q h = elim (fetchone-insert_cases test p q plans h) [
    | inl old ↦ fetchone-insert_old (is_plan q.plan_id) p q plans (keyed test q old)
    | inr (nothing, e) ↦
        subst (λ x. fetchone (is_plan x.plan_id) (insert p plans) ≡ some x) e
          (fetchone-insert_new (is_plan p.plan_id) p plans fresh ∙ rw (eq_refl p.plan_id) refl)
  ]

  pub IsDaily-insert :
      IsDaily plans
      → fetchone (is_plan_of p.scope p.profile_id p.business_date) plans ≡ none
      → IsDaily (insert p plans)
  IsDaily-insert daily first scope profile_id business_date =
      elim (Bool-cases (is_plan_of scope profile_id business_date p)) [
        | inl mine ↦ rw (fetchall-insert test p plans, none_yet mine, mine) (omega arith)
        | inr other ↦
            rw (fetchall-insert test p plans, other, append-nil)
              (daily scope profile_id business_date)
      ]
    where
      test : PlanRow → Bool
      test = is_plan_of scope profile_id business_date

      same_key :
          (x : String) (i : ℤ) (d : String)
          → p.scope ≡ x
          → p.profile_id ≡ i
          → p.business_date ≡ d
          → fetchone (is_plan_of x i d) plans ≡ none
      same_key x i d e1 e2 e3 =
          subst (λ y. fetchone (is_plan_of y i d) plans ≡ none) e1
            (subst (λ j. fetchone (is_plan_of p.scope j d) plans ≡ none) e2
              (subst (λ y. fetchone (is_plan_of p.scope p.profile_id y) plans ≡ none) e3 first))

      none_yet : test p ≡ true → fetchall test plans ≡ []
      none_yet mine = fetchall_empty test plans (
          same_key scope profile_id business_date (ground (arith, mine, eq_iff p.scope scope))
            (ground (arith, mine, eq_ℤ_iff p.profile_id profile_id))
            (ground (arith, mine, eq_iff p.business_date business_date)))

-- An UPDATE that keeps the columns a plan is found by.
module _ (plans : List PlanRow) (q : PlanRow → Bool) (f : PlanRow → PlanRow)
    (same_id : (x : PlanRow) → (f x).plan_id ≡ x.plan_id)
    (same_day : (x : PlanRow) (scope : String) (profile_id : ℤ) (business_date : String)
      → is_plan_of scope profile_id business_date (f x)
        ≡ is_plan_of scope profile_id business_date x) where
  fetchone-updated :
      (test : PlanRow → Bool) (rows : List PlanRow)
      → fetchone test (update_where q f rows)
        ≡ Option.map (on_match q f) (fetchone (λ x. test (on_match q f x)) rows)
  unfolding fetchone update_where
  fetchone-updated test [] = refl
  fetchone-updated test (x ∷ rows) = ground (arith, fetchone-updated test rows)

  map-found :
      (o : Option PlanRow) (p : PlanRow)
      → Option.map (on_match q f) o ≡ some p
      → (x : PlanRow) × (o ≡ some x) × (on_match q f x ≡ p)
  map-found none p h = absurd (ground (arith, h))
  map-found (some x) p h = (x, refl, some_inj h)

  on_match-id : (x : PlanRow) → (on_match q f x).plan_id ≡ x.plan_id
  on_match-id x = elim (Bool-cases (q x)) [ inl e ↦ rw e (same_id x) | inr e ↦ rw e refl ]

  pub IsKeyed-update : IsKeyed plans → IsKeyed (update_where q f plans)
  IsKeyed-update keyed test p h =
      let (x, found, is_p) =
        map-found (fetchone (λ x. test (on_match q f x)) plans) p
          (sym (fetchone-updated test plans) ∙ h) in
      subst (λ y. fetchone (is_plan y.plan_id) (update_where q f plans) ≡ some y) is_p
        (ap (λ k. fetchone (is_plan k) (update_where q f plans)) (on_match-id x)
          ∙ fetchone-update_where (is_plan x.plan_id) q f
              (λ y. ap (λ k. str_eq k x.plan_id) (same_id y)) plans
          ∙ ap (Option.map (on_match q f)) (keyed (λ y. test (on_match q f y)) x found))

  pub IsDaily-update : IsDaily plans → IsDaily (update_where q f plans)
  IsDaily-update daily scope profile_id business_date =
      let test = is_plan_of scope profile_id business_date in
      subst (λ n. n ≤ 1)
        (sym (
          ap length
            (fetchall-update_where test q f (λ x. same_day x scope profile_id business_date) plans)
          ∙ length-map (on_match q f) (fetchall test plans)))
        (daily scope profile_id business_date)
