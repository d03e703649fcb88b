-- ===== src/LegacyBudget/Verified.antt =====
-- app/services/legacy_daily_budget.py: the tests that lead to a finding that is ready.
use mathlib.Core.Path.{subst}
use maxbot.Base.{
  ℕ, ◌+◌, ◌-◌, ◌≤◌, String, Bool, true, false, not, ◌||◌, Option, none, some, ℤ, pos, negsuc,
  pos_part, ltb_ℤ, eq_ℤ, eq_ℤ_iff, if◌then◌else◌, clip, ◌≡◌, ◌≢◌, refl, sym, ap, ◌∙◌, arith,
  Bool-cases, inl, inr,
}
use maxbot.LegacyBudget.Inspect.{
  sub_ℤ, Status, LegacyBudgetFinding, Profile, Connection, stripped, review, no_day, ready_finding,
  integer, logged_count, by_limit, by_day, by_counter, classify,
}

-- A finding whose three numbers agree: the limit is what was sent and what remains.
abbrev pub HasBudget : LegacyBudgetFinding → ℕ → ℕ → ℕ → Type 0
HasBudget f limit accepted remaining =
    (f.sampled_limit ≡ some (pos limit))
    × (f.accepted_today ≡ some (pos accepted))
    × (f.remaining ≡ some (pos remaining))
    × (remaining + accepted ≡ limit)

sub_ℤ-pos : (l c : ℕ) → c ≤ l → sub_ℤ (pos l) (pos c) ≡ pos (l - c)
unfolding sub_ℤ
sub_ℤ-pos l c h = ground arith

ready-HasBudget :
    (id : ℤ) (l c : ℕ) → c ≤ l → HasBudget (ready_finding id (pos l) (pos c)) l c (l - c)
ready-HasBudget id l c h = (refl, refl, ap some (sub_ℤ-pos l c h), omega arith)

not_negative : (i : ℤ) → ltb_ℤ i (pos 0) ≡ false → (n : ℕ) × (i ≡ pos n)
not_negative (pos n) h = (n, refl)
not_negative (negsuc n) h = absurd (ground (arith, h))

-- A test of the loop that must have failed, since the finding is ready.
passed :
    (b : Bool) (f g : LegacyBudgetFinding)
    → f.status ≢ Status.ready
    → (if b then f else g).status ≡ Status.ready
    → (b ≡ false) × (g.status ≡ Status.ready) × ((if b then f else g) ≡ g)
passed true f g other h = absurd (other h)
passed false f g other h = (refl, h, refl)

true_of_not : (b : Bool) → not b ≡ false → b ≡ true
true_of_not b h = ground arith

neither : (a b : Bool) → a || b ≡ false → (a ≡ false) × (b ≡ false)
neither true b h = absurd (ground (arith, h))
neither false b h = (refl, h)

review_other : Status.migration_review_required ≢ Status.ready
review_other h = absurd (ground (arith, h))

no_day_other : Status.no_current_day ≢ Status.ready
no_day_other h = absurd (ground (arith, h))

module _ {Value : Type 0} (int : Value → Option ℤ) (fromisoformat : String → Option ℕ)
    (connection : Connection Value) (business_date : String) where
  by_limit-ready :
      (id : ℤ) (limit_day : String) (counter : ℤ) (o : Option ℤ)
      → (by_limit int fromisoformat connection business_date id limit_day counter o).status
        ≡ Status.ready
      → (limit : ℤ) × (o ≡ some limit)
        × (ltb_ℤ limit (pos 0) ≡ false)
        × (ltb_ℤ limit counter ≡ false)
        × (pos (logged_count int fromisoformat connection business_date id) ≡ counter)
        × (by_limit int fromisoformat connection business_date id limit_day counter o
            ≡ ready_finding id limit counter)
  by_limit-ready id limit_day counter none h = absurd (review_other h)
  by_limit-ready id limit_day counter (some limit) h =
      let (pinned, h1, e1) =
        passed _ (review id (some limit) "current_day_limit_missing_or_unpinned") _ review_other
          h in
      let (known, h2, e2) =
        passed _ (review id (some limit) "legacy_send_history_unavailable") _ review_other h1 in
      let (agree, h3, e3) =
        passed _ (review id (some limit) "counter_and_accepted_history_disagree") _ review_other
          h2 in
      let count = logged_count int fromisoformat connection business_date id in
      let (same, within) = neither (not (eq_ℤ (pos count) counter)) (ltb_ℤ limit counter) agree in
      (
        limit,
        refl,
        (neither (ltb_ℤ limit (pos 0)) _ pinned).0,
        within,
        (eq_ℤ_iff (pos count) counter).0 (true_of_not (eq_ℤ (pos count) counter) same),
        e1 ∙ e2 ∙ e3,
      )

  by_day-ready :
      (p : Profile Value) (day counter : ℕ) (o : Option ℕ)
      → (by_day int fromisoformat connection business_date p day (pos counter) o).status
        ≡ Status.ready
      → (limit : ℕ) × (o ≡ some day)
        × (integer int fromisoformat connection business_date p.daily_limit ≡ some (pos limit))
        × (counter ≤ limit)
        × (logged_count int fromisoformat connection business_date p.id ≡ counter)
        × (by_day int fromisoformat connection business_date p day (pos counter) o
            ≡ ready_finding p.id (pos limit) (pos counter))
  by_day-ready p day counter none h = absurd (review_other h)
  by_day-ready p day counter (some sent_day) h =
      let (not_before, h1, e1) =
        passed _ (no_day p.id "counter_belongs_to_previous_day") _ no_day_other h in
      let (not_after, h2, e2) =
        passed _ (review p.id none "counter_is_from_future_day") _ review_other h1 in
      let (limit, given, not_neg, within, same, e3) =
        by_limit-ready p.id (stripped p.daily_limit_day) (pos counter)
          (integer int fromisoformat connection business_date p.daily_limit) h2 in
      let (l, is_l) = not_negative limit not_neg in
      let today : sent_day ≡ day = ground (arith, not_before, not_after) in
      let fits : counter ≤ l = ground (arith, within, is_l) in
      (
        l,
        ap some today,
        given ∙ ap some is_l,
        fits,
        ap pos_part same,
        e1 ∙ e2 ∙ e3 ∙ ap (λ x. ready_finding p.id x (pos counter)) is_l,
      )

  by_counter-ready :
      (p : Profile Value) (day : ℕ) (o : Option ℤ)
      → (by_counter int fromisoformat connection business_date p day o).status ≡ Status.ready
      → (counter limit : ℕ) × (o ≡ some (pos counter))
        × (fromisoformat (clip 10 (stripped p.sent_day)) ≡ some day)
        × (integer int fromisoformat connection business_date p.daily_limit ≡ some (pos limit))
        × (counter ≤ limit)
        × (logged_count int fromisoformat connection business_date p.id ≡ counter)
        × (by_counter int fromisoformat connection business_date p day o
            ≡ ready_finding p.id (pos limit) (pos counter))
  by_counter-ready p day none h = absurd (review_other h)
  by_counter-ready p day (some (negsuc n)) h =
      let (no_debt, h0, e0) =
        passed (ltb_ℤ (negsuc n) (pos 0)) (review p.id none "invalid_legacy_counter") _ review_other
          h in
      absurd (ground (arith, no_debt))
  by_counter-ready p day (some (pos counter)) h =
      let (no_debt, h0, e0) =
        passed _ (review p.id none "invalid_legacy_counter") _ review_other h in
      let (no_day_set, h1, e1) = passed _ (blank counter p.id) _ (blank_other counter p.id) h0 in
      let (limit, today, given, fits, same, e2) =
        by_day-ready p day counter (fromisoformat (clip 10 (stripped p.sent_day))) h1 in
      (counter, limit, refl, today, given, fits, same, e0 ∙ e1 ∙ e2)
    where
      blank : ℕ → ℤ → LegacyBudgetFinding
      blank n id =
          if eq_ℤ (pos n) (pos 0)
          then no_day id "sent_day_not_set_and_counter_zero"
          else review id none "counter_without_sent_day"

      blank_other : (n : ℕ) (id : ℤ) → (blank n id).status ≢ Status.ready
      blank_other n id h = elim (Bool-cases (eq_ℤ (pos n) (pos 0))) [
        | inl e ↦ absurd (no_day_other (rw e at h))
        | inr e ↦ absurd (review_other (rw e at h))
      ]

  -- What a finding says, if it is ready: a profile's counter and limit of this day, which agree with
  -- the log of sends.
  abbrev pub IsVerified : ℕ → Profile Value → LegacyBudgetFinding → Type 0
  IsVerified day p f =
      (counter limit : ℕ) × (fromisoformat (clip 10 (stripped p.sent_day)) ≡ some day)
      × (integer int fromisoformat connection business_date p.daily_limit ≡ some (pos limit))
      × (integer int fromisoformat connection business_date p.messages_sent_today
          ≡ some (pos counter))
      × (logged_count int fromisoformat connection business_date p.id ≡ counter)
      × (f.profile_id ≡ p.id)
      × HasBudget f limit counter (limit - counter)

  pub classify-IsVerified :
      (day : ℕ) (p : Profile Value)
      → (classify int fromisoformat connection business_date day p).status ≡ Status.ready
      → IsVerified day p (classify int fromisoformat connection business_date day p)
  unfolding classify
  classify-IsVerified day p h =
      let (counter, limit, sent, today, given, fits, same, e) =
        by_counter-ready p day
          (integer int fromisoformat connection business_date p.messages_sent_today) h in
      (
        counter,
        limit,
        today,
        given,
        sent,
        same,
        ap (λ f. f.profile_id) e,
        subst (λ f. HasBudget f limit counter (limit - counter)) (sym e)
            (ready-HasBudget p.id limit counter fits),
      )
