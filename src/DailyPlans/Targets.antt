-- ===== src/DailyPlans/Targets.antt =====
-- app/services/daily_plans.py: the plan that `materialize_day` asks for.
use mathlib.Core.List.{Perm}
use mathlib.Core.Path.{subst}
use maxbot.Base.{
  ℕ, suc, ◌+◌, ◌-◌, ◌≤◌, leb, String, true, false, ◌||◌, Option, none, some, ◌≡◌, refl, sym, ap,
  ◌∙◌, arith, ℤ, pos, negsuc, pos_part, ltb_ℤ, leb_ℤ, ◌≤ℤ◌, List, [], ◌∷◌, map, length, Result, ok,
  err, inl, inr, Bool-cases,
}
use maxbot.Pacing.Policy.{Role, validated_role, effective_daily_target, target_of, with_role}
use maxbot.DailyPlans.Rows.{Error}
use maxbot.DailyPlans.Repository.{SlotContent, Creation}
use maxbot.DailyPlans.Selection.{MessageSelection, select_daily_items}
use maxbot.DailyPlans.Choices.{select_daily_items-length}
use maxbot.DailyPlans.Counted.{FitsPlan}
use maxbot.DailyPlans.Service.{
  LibraryItem, item_id_of, by_id, add_content, slot_contents, then_contents, select_slots,
}
use maxbot.DailyPlans.Days.{
  Day, minus_ℤ, has_items, creation_with, with_slots_of, plan_for, after_target, creation_of,
}

add_content-length :
    (s : MessageSelection) (o : Option LibraryItem) (r : Result Error (List SlotContent))
    (slots : List SlotContent)
    → add_content s o r ≡ ok slots
    → (rest : List SlotContent) × (r ≡ ok rest) × (length slots ≡ suc (length rest))
add_content-length s none r slots h = absurd (ground (arith, h))
add_content-length s (some item) (err e) slots h = absurd (ground (arith, h))
add_content-length s (some item) (ok rest) slots h = (rest, refl, ground (arith, h))

slot_contents-length :
    (items : List LibraryItem) (selections : List MessageSelection) (slots : List SlotContent)
    → slot_contents items selections ≡ ok slots
    → length slots ≡ length selections
unfolding slot_contents
slot_contents-length items [] slots h = ground (arith, h)
slot_contents-length items (s ∷ selections) slots h =
    let (rest, eq, more) =
      add_content-length s (by_id items s.item_id) (slot_contents items selections) slots h in
    more ∙ ap suc (slot_contents-length items selections rest eq)

then_contents-ok :
    (items : List LibraryItem) (r : Result Error (List MessageSelection)) (slots : List SlotContent)
    → then_contents items r ≡ ok slots
    → (selections : List MessageSelection) × (r ≡ ok selections)
      × (slot_contents items selections ≡ ok slots)
then_contents-ok items (err e) slots h = absurd (ground (arith, h))
then_contents-ok items (ok selections) slots h = (selections, refl, h)

pub select_slots-length :
    (shuffle : ℕ → List String → List String) (items : List LibraryItem) (count : ℤ) (mode : String)
    (slots : List SlotContent)
    → ((k : ℕ) → Perm (shuffle k (map item_id_of items)) (map item_id_of items))
    → select_slots shuffle items count mode ≡ ok slots
    → pos (length slots) ≡ count
unfolding select_slots
select_slots-length shuffle items count mode slots shuffled h =
    let ids = map item_id_of items in
    let (selections, chosen, contents) =
      then_contents-ok items (select_daily_items shuffle ids count mode) slots h in
    ap pos (slot_contents-length items selections slots contents)
    ∙ select_daily_items-length shuffle ids count mode selections shuffled chosen

with_slots_of-ok :
    (d : Day) (target : ℤ) (r : Result Error (List SlotContent)) (c : Creation)
    → with_slots_of d target r ≡ ok c
    → (slots : List SlotContent) × (r ≡ ok slots) × (creation_with d target "" slots ≡ c)
with_slots_of-ok d target (err e) c h = absurd (ground (arith, h))
with_slots_of-ok d target (ok slots) c h = (slots, refl, cc)

ok_creation : {a b : Creation} {r : Result Error Creation} → r ≡ ok a → r ≡ ok b → a ≡ b
ok_creation h k = cc

-- A creation for a target: the target itself, and no more slots than that.
record Meets (d : Day) (wanted : ℤ) (c : Creation) : Type 0 where
  target : c.target ≡ wanted
  limit : c.sampled_limit ≡ pos (pos_part d.sampled_limit)
  slots : pos (length c.slots) ≤ℤ wanted

module _ (d : Day)
    (shuffled : (k : ℕ)
      → Perm (d.shuffle k (map item_id_of d.library_items)) (map item_id_of d.library_items)) where
  plan_for-Meets :
      (target : ℤ) (c : Creation) → pos 0 ≤ℤ target → plan_for d target ≡ ok c → Meets d target c
  unfolding plan_for
  plan_for-Meets target c positive h = elim (Bool-cases (ltb_ℤ (pos 0) target)) [
    | inr e ↦ subst (Meets d target) (ok_creation refl (rw e at h)) (empty "")
    | inl e ↦ elim (Bool-cases (has_items d.library_items)) [
      | inr f ↦ subst (Meets d target) (ok_creation refl (rw (e, f) at h)) (empty "POOL_EMPTY")
      | inl f ↦
          let (slots, eq, same) =
            with_slots_of-ok d target (select_slots d.shuffle d.library_items target d.mode) c
              (rw (e, f) at h) in
          let long =
            select_slots-length d.shuffle d.library_items target d.mode slots shuffled eq in
          subst (Meets d target) same (record {
            target = refl;
            limit = refl;
            slots = subst (λ n. pos (length slots) ≤ℤ n) long (omega arith);
          })
    ]
  ]
    where
      empty : (warning : String) → Meets d target (creation_with d target warning [])
      empty warning = record { target = refl; limit = refl; slots = positive }

role_target :
    (sampled quiet_limit : ℤ) (r : Role)
    → pos 0 ≤ℤ sampled
    → pos 0 ≤ℤ quiet_limit
    → (pos 0 ≤ℤ target_of sampled quiet_limit r) × (target_of sampled quiet_limit r ≤ℤ sampled)
role_target sampled quiet_limit Role.skip h k = (omega arith, omega arith)
role_target sampled quiet_limit Role.active h k = (h, omega arith)
role_target sampled quiet_limit Role.quiet h k = elim (Bool-cases (leb_ℤ sampled quiet_limit)) [
  | inl e ↦ rw e (h, omega arith)
  | inr e ↦ rw e (k, ground arith)
]

ok_target : {a b : ℤ} {r : Result String ℤ} → r ≡ ok a → r ≡ ok b → a ≡ b
ok_target h k = cc

effective_daily_target-bounds :
    (sampled : ℤ) (role : String) (quiet_limit t : ℤ)
    → effective_daily_target sampled role quiet_limit ≡ ok t
    → (pos 0 ≤ℤ t) × (t ≤ℤ sampled)
unfolding effective_daily_target
effective_daily_target-bounds sampled role quiet_limit t h =
    elim (Bool-cases (ltb_ℤ sampled (pos 0) || ltb_ℤ quiet_limit (pos 0))) [
      | inl e ↦ absurd (ground (arith, rw e at h))
      | inr e ↦ by_role e (validated_role role) (rw e at h)
    ]
  where
    by_role :
        ltb_ℤ sampled (pos 0) || ltb_ℤ quiet_limit (pos 0) ≡ false
        → (r : Result String Role) → with_role (λ x. ok (target_of sampled quiet_limit x)) r ≡ ok t
        → (pos 0 ≤ℤ t) × (t ≤ℤ sampled)
    by_role e (err message) k = absurd (ground (arith, k))
    by_role e (ok r) k =
        subst (λ n. (pos 0 ≤ℤ n) × (n ≤ℤ sampled)) (ok_target refl k)
          (role_target sampled quiet_limit r (ground arith) (ground arith))

-- What is left of a target after the messages that were accepted.
minus_ℤ-left :
    (base accepted : ℤ)
    → pos 0 ≤ℤ base
    → ltb_ℤ accepted (pos 0) ≡ false
    → ltb_ℤ base accepted ≡ false
    → (b : ℕ) × (a : ℕ) × (accepted ≡ pos a)
      × (base ≡ pos (b + a))
      × (minus_ℤ base accepted ≡ pos b)
minus_ℤ-left (negsuc n) accepted h k l = absurd (omega arith)
minus_ℤ-left (pos n) (negsuc a) h k l = absurd (ground arith)
minus_ℤ-left (pos n) (pos a) h k l =
    let fits : a ≤ n = ground arith in
    let test : leb (a + 0) (n + 0) ≡ true = ground arith in
    (n - a, a, refl, ap pos (omega arith), rw test (ap pos (omega arith)))

-- A creation is within the budget of its day: no more slots than its target, which with the messages
-- that were already accepted is the target of the account, which is within the sampled limit.
pub record IsBudgeted (d : Day) (c : Creation) : Type 0 where
  pub fits : FitsPlan c
  pub accepted : ℕ
  pub left : ℕ
  pub accepted_count : d.accepted_count ≡ pos accepted
  pub target : c.target ≡ pos left
  pub total :
      effective_daily_target d.sampled_limit d.role d.quiet_limit ≡ ok (pos (left + accepted))
  pub limit : pos (left + accepted) ≤ℤ d.sampled_limit

pub creation_of-IsBudgeted :
    (d : Day) (c : Creation)
    → ((k : ℕ)
        → Perm (d.shuffle k (map item_id_of d.library_items)) (map item_id_of d.library_items))
    → creation_of d ≡ ok c
    → IsBudgeted d c
unfolding creation_of
creation_of-IsBudgeted d c shuffled h = elim (Bool-cases (ltb_ℤ d.accepted_count (pos 0))) [
  | inl e ↦ absurd (ground (arith, rw e at h))
  | inr e ↦
      by_target e (effective_daily_target d.sampled_limit d.role d.quiet_limit) refl (rw e at h)
]
  where
    by_left :
        (base : ℤ)
        → ltb_ℤ d.accepted_count (pos 0) ≡ false
        → ltb_ℤ base d.accepted_count ≡ false
        → effective_daily_target d.sampled_limit d.role d.quiet_limit ≡ ok base
        → plan_for d (minus_ℤ base d.accepted_count) ≡ ok c
        → IsBudgeted d c
    by_left base e f eq k =
        let (positive, limit) =
          effective_daily_target-bounds d.sampled_limit d.role d.quiet_limit base eq in
        let (left, accepted, is_accepted, is_base, is_left) =
          minus_ℤ-left base d.accepted_count positive e f in
        let meets = plan_for-Meets d shuffled (pos left) c (omega arith) (rw is_left at k) in
        let within : pos (left + accepted) ≤ℤ d.sampled_limit =
          subst (λ n. n ≤ℤ d.sampled_limit) is_base limit in
        record {
          fits = record {
            slots = subst (λ n. pos (length c.slots) ≤ℤ n) (sym meets.target) meets.slots;
            target =
                subst (λ n. n ≤ℤ c.sampled_limit) (sym meets.target)
                  (subst (λ n. pos left ≤ℤ n) (sym meets.limit) (omega arith));
          };
          accepted = accepted;
          left = left;
          accepted_count = is_accepted;
          target = meets.target;
          total = eq ∙ ap ok is_base;
          limit = within;
        }

    by_target :
        ltb_ℤ d.accepted_count (pos 0) ≡ false
        → (r : Result String ℤ) → effective_daily_target d.sampled_limit d.role d.quiet_limit ≡ r
        → after_target d r ≡ ok c
        → IsBudgeted d c
    by_target e (err message) eq k = absurd (ground (arith, k))
    by_target e (ok base) eq k = elim (Bool-cases (ltb_ℤ base d.accepted_count)) [
      | inl f ↦ absurd (ground (arith, rw f at k))
      | inr f ↦ by_left base e f eq (rw f at k)
    ]
