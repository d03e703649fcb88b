-- ===== src/DailyPlans/Methods.antt =====
-- app/repositories/daily_plans.py: the methods on slots, as updates of slots along the status machine.
use mathlib.Core.Path.{subst}
use maxbot.Base.{
  ℕ, ◌+◌, clip, String, Bool, true, false, not, ◌&&◌, Option, none, some, ◌≡◌, refl, sym, ap, ◌∙◌,
  arith, Result, ok, err, ◌⊎◌, inl, inr, eq_iff, Bool-cases, Option-cases, bind_result,
  end_transaction_rule, transaction, ℤ, List, end_transaction,
}
use maxbot.DailyPlans.Rows.{SlotStatus, eq_slot_status, PlanRow, SlotRow, Database, Error, is_slot}
use maxbot.DailyPlans.Repository.{Repo}
use maxbot.DailyPlans.Slots.{
  Joined, join_slot, join_found, plan_of_slot, get_slot, is_queued_slot, is_claimable,
  first_claimable, claim_body, claim_found, read_claimed, claim_next, set_claimed, no_assignments,
}
use maxbot.DailyPlans.Outcomes.{
  find_slot, read_slot, is_open, settle, unknown_settled, set_unknown, mark_unknown, unsent_settled,
  set_failed_unsent, mark_failed_unsent, accepted_settled, set_accepted, mark_accepted,
  is_retryable, set_retried, requeue, retry, is_cancellable, set_cancelled,
  cancel_queued_for_profile, is_expirable, set_expired, expire_before, update_counted,
}
use maxbot.DailyPlans.Machine.{is_next, Move, slot_of}
use maxbot.DailyPlans.Updates.{SlotStep, stays, updates, update_found-SlotStep}

module _ (db : Database) (s : SlotRow) (p : PlanRow) where
  join_slot-found :
      (t : SlotRow) (o : Option PlanRow) → join_slot t o ≡ some (s, p) → (t ≡ s) × (o ≡ some p)
  join_slot-found t none h = absurd (ground (arith, h))
  join_slot-found t (some q) h = (cc, cc)

  join_found-found :
      (o : Option SlotRow)
      → join_found db o ≡ some (s, p)
      → (o ≡ some s) × (plan_of_slot db s ≡ some p)
  join_found-found none h = absurd (ground (arith, h))
  join_found-found (some t) h =
      let (e, found) = join_slot-found t (plan_of_slot db t) h in
      (ap some e, ap (plan_of_slot db) (sym e) ∙ found)

-- The row that a method reads is the slot's row.
pub get_slot-found :
    (id : String) (db : Database) (s : SlotRow) (p : PlanRow)
    → get_slot id db ≡ some (s, p)
    → (slot_of id db ≡ some s) × (plan_of_slot db s ≡ some p)
unfolding get_slot
get_slot-found id db s p h = join_found-found db s p (slot_of id db) h

is_open-cases :
    (x : SlotStatus) → is_open x ≡ true → (x ≡ SlotStatus.claimed) ⊎ (x ≡ SlotStatus.in_flight)
is_open-cases SlotStatus.claimed h = inl refl
is_open-cases SlotStatus.in_flight h = inr refl
is_open-cases SlotStatus.queued h = absurd (ground (arith, h))
is_open-cases SlotStatus.unknown h = absurd (ground (arith, h))
is_open-cases SlotStatus.failed_unsent h = absurd (ground (arith, h))
is_open-cases SlotStatus.accepted h = absurd (ground (arith, h))
is_open-cases SlotStatus.cancelled h = absurd (ground (arith, h))
is_open-cases SlotStatus.expired h = absurd (ground (arith, h))

-- A slot whose message stays, whatever happens to its status and the columns that report on it.
restated :
    (a : SlotRow) (status : SlotStatus) (reason : String) (retries : ℕ) (claimed_at : Option String)
    (now : String)
    → is_next a.status status ≡ true
    → Move a (record a {
      status = status;
      failure_reason = reason;
      retry_count = retries;
      claimed_at = claimed_at;
      updated_at = now;
    })
restated a status reason retries claimed_at now edge = record {
  edge = edge;
  message = record {
    slot_id = refl;
    scope = refl;
    plan_id = refl;
    ordinal = refl;
    item_id = refl;
    pass_index = refl;
    version_id = refl;
    rendered_text = refl;
  };
}

read-state :
    (id : String) (r : Result Error (Unit {0}) × Database) → (bind_result (read_slot id) r).1 ≡ r.1
read-state id (ok u, t) = refl
read-state id (err e, t) = refl

-- A method that finds its slot, changes the tables, and reads the slot again.
found-SlotStep :
    (to : SlotStatus) (id : String) (s : Database) (body : Joined → Repo (Unit {0}))
    → ((r : SlotRow) (p : PlanRow) → slot_of id s ≡ some r → SlotStep to s (body (r, p) s).1)
    → SlotStep to s
        (bind_result (read_slot id) (transaction (λ t. bind_result body (find_slot id t)) s)).1
unfolding transaction
found-SlotStep to id s body step =
    subst (SlotStep to s)
      (sym (read-state id (end_transaction s (bind_result body (find_slot id s)))))
      (end_transaction_rule (SlotStep to s) s (bind_result body (find_slot id s)) stays
        (elim (Option-cases (get_slot id s)) [
          | inl missing ↦ rw missing stays
          | inr ((r, p), found) ↦ rw found (step r p (get_slot-found id s r p found).0)
        ]))

retry_edge : (x : SlotStatus) → is_retryable x ≡ true → is_next x SlotStatus.queued ≡ true
retry_edge x h = ground arith

queued_edge :
    (x y : SlotStatus)
    → is_next SlotStatus.queued y ≡ true
    → eq_slot_status x SlotStatus.queued ≡ true
    → is_next x y ≡ true
queued_edge SlotStatus.queued y a h = a
queued_edge _ y a h = absurd (ground (arith, h))

middle : (a b c : Bool) → a && b && c ≡ true → b ≡ true
middle a b c h = ground arith

second : (a b : Bool) → a && b ≡ true → b ≡ true
second a b h = ground arith

true_of_not : (b : Bool) → not b ≡ false → b ≡ true
true_of_not b h = ground arith

module _ (s : Database) (id : String) (r : SlotRow) (p : PlanRow)
    (here : slot_of id s ≡ some r) where
  settle-SlotStep :
      (to : SlotStatus) (is_settled : SlotStatus → Bool) (message : String) (f : SlotRow → SlotRow)
      → ((x : SlotRow) → (f x).slot_id ≡ x.slot_id)
      → ((x : SlotRow) → (f x).plan_id ≡ x.plan_id)
      → ((x : SlotRow) → (f x).status ≡ to)
      → (is_open r.status ≡ true → Move r (f r))
      → SlotStep to s (settle is_settled message f id (r, p) s).1
  unfolding settle
  settle-SlotStep to is_settled message f keeps same_plan reaches move =
      elim (Bool-cases (is_settled r.status)) [
        | inl e ↦ rw e stays
        | inr e ↦ rw e (elim (Bool-cases (not (is_open r.status))) [
          | inl shut ↦ rw shut stays
          | inr open_now ↦ rw open_now (
              update_found-SlotStep to f s id r keeps same_plan reaches here
                (move (true_of_not (is_open r.status) open_now)) (is_slot id)
                (λ x. (eq_iff x.slot_id id).0))
        ])
      ]

  requeue-SlotStep : (now : String) → SlotStep SlotStatus.queued s (requeue now id (r, p) s).1
  unfolding requeue
  requeue-SlotStep now = elim (Bool-cases (not (is_retryable r.status))) [
    | inl shut ↦ rw shut stays
    | inr e ↦ rw e (
        update_found-SlotStep SlotStatus.queued (set_retried now) s id r (λ x. refl) (λ x. refl)
          (λ x. refl) here
          (restated r SlotStatus.queued "" (r.retry_count + 1) r.claimed_at now
            (retry_edge r.status (true_of_not (is_retryable r.status) e)))
          (is_slot id) (λ x. (eq_iff x.slot_id id).0))
  ]

open_edge :
    (x y : SlotStatus)
    → is_next SlotStatus.claimed y ≡ true
    → is_next SlotStatus.in_flight y ≡ true
    → is_open x ≡ true
    → is_next x y ≡ true
open_edge x y a b h = elim (is_open-cases x h) [
  | inl e ↦ ap (λ z. is_next z y) e ∙ a
  | inr e ↦ ap (λ z. is_next z y) e ∙ b
]

module _ (now id : String) (s : Database) where
  pub mark_unknown-SlotStep :
      (reason : String) → SlotStep SlotStatus.unknown s (mark_unknown now id reason s).1
  unfolding mark_unknown
  mark_unknown-SlotStep reason =
      found-SlotStep SlotStatus.unknown id s
        (settle unknown_settled "slot is not externally ambiguous" (set_unknown now reason) id)
        (λ r p here.
          settle-SlotStep s id r p here SlotStatus.unknown unknown_settled
            "slot is not externally ambiguous" (set_unknown now reason) (λ x. refl) (λ x. refl)
            (λ x. refl)
            (λ h.
              restated r SlotStatus.unknown (clip 500 reason) r.retry_count r.claimed_at now
                (open_edge r.status SlotStatus.unknown refl refl h)))

  pub mark_failed_unsent-SlotStep :
      (reason : String) → SlotStep SlotStatus.failed_unsent s (mark_failed_unsent now id reason s).1
  unfolding mark_failed_unsent
  mark_failed_unsent-SlotStep reason =
      found-SlotStep SlotStatus.failed_unsent id s
        (settle unsent_settled "slot is not currently claimed" (set_failed_unsent now reason) id)
        (λ r p here.
          settle-SlotStep s id r p here SlotStatus.failed_unsent unsent_settled
            "slot is not currently claimed" (set_failed_unsent now reason) (λ x. refl) (λ x. refl)
            (λ x. refl)
            (λ h.
              restated r SlotStatus.failed_unsent (clip 500 reason) r.retry_count r.claimed_at now
                (open_edge r.status SlotStatus.failed_unsent refl refl h)))

  pub mark_accepted-SlotStep : SlotStep SlotStatus.accepted s (mark_accepted now id s).1
  unfolding mark_accepted
  mark_accepted-SlotStep =
      found-SlotStep SlotStatus.accepted id s
        (settle accepted_settled "slot is not claimable" (set_accepted now) id)
        (λ r p here.
          settle-SlotStep s id r p here SlotStatus.accepted accepted_settled "slot is not claimable"
            (set_accepted now) (λ x. refl) (λ x. refl) (λ x. refl)
            (λ h.
              restated r SlotStatus.accepted r.failure_reason r.retry_count r.claimed_at now
                (open_edge r.status SlotStatus.accepted refl refl h)))

  pub retry-SlotStep :
      (proof_no_send : Bool) → SlotStep SlotStatus.queued s (retry now id proof_no_send s).1
  unfolding retry
  retry-SlotStep true =
      found-SlotStep SlotStatus.queued id s (requeue now id)
        (λ r p here. requeue-SlotStep s id r p here now)
  retry-SlotStep false = stays

module _ (now : String) (s : Database) where
  -- An UPDATE of queued slots.
  update_counted-SlotStep :
      (to : SlotStatus) (q : Database → SlotRow → Bool) (f : SlotRow → SlotRow)
      → ((x : SlotRow) → (f x).slot_id ≡ x.slot_id)
      → ((x : SlotRow) → (f x).plan_id ≡ x.plan_id)
      → ((x : SlotRow) → (f x).status ≡ to)
      → ((x : SlotRow) → q s x ≡ true → Move x (f x))
      → SlotStep to s (transaction (update_counted q f) s).1
  unfolding transaction
  update_counted-SlotStep to q f keeps same_plan reaches moves =
      updates (q s) f keeps same_plan reaches (λ j a there e. moves a e)

  pub cancel_queued_for_profile-SlotStep :
      (scope : String) (profile_id : ℤ) (reason : String)
      → SlotStep SlotStatus.cancelled s (cancel_queued_for_profile now scope profile_id reason s).1
  unfolding cancel_queued_for_profile
  cancel_queued_for_profile-SlotStep scope profile_id reason =
      update_counted-SlotStep SlotStatus.cancelled (is_cancellable scope profile_id)
        (set_cancelled now reason) (λ x. refl) (λ x. refl) (λ x. refl)
        (λ x h.
          restated x SlotStatus.cancelled (clip 500 reason) x.retry_count x.claimed_at now
            (queued_edge x.status SlotStatus.cancelled refl (middle _ _ _ h)))

  pub expire_before-SlotStep :
      (scope business_date : String)
      → SlotStep SlotStatus.expired s (expire_before now scope business_date s).1
  unfolding expire_before
  expire_before-SlotStep scope business_date =
      update_counted-SlotStep SlotStatus.expired (is_expirable scope business_date)
        (set_expired now) (λ x. refl) (λ x. refl) (λ x. refl)
        (λ x h.
          restated x SlotStatus.expired "date_expired" x.retry_count x.claimed_at now
            (queued_edge x.status SlotStatus.expired refl (middle _ _ _ h)))

read_claimed-state :
    (r : Result Error (Option String) × Database) → (bind_result read_claimed r).1 ≡ r.1
read_claimed-state (ok none, t) = refl
read_claimed-state (ok (some id), t) = refl
read_claimed-state (err e, t) = refl

claim_found-SlotStep :
    (now : String) (o : Option Joined) (s : Database)
    → SlotStep SlotStatus.claimed s (claim_found now o s).1
claim_found-SlotStep now none s = stays
claim_found-SlotStep now (some (r, p)) s =
    updates (is_queued_slot r.slot_id) (set_claimed now) (λ x. refl) (λ x. refl) (λ x. refl)
      (λ id a there h.
        restated a SlotStatus.claimed a.failure_reason a.retry_count (some now) now
          (queued_edge a.status SlotStatus.claimed refl (second _ _ h)))

pub transaction-SlotStep :
    {A : Type 0} (to : SlotStatus) (m : Repo A) (s : Database)
    → SlotStep to s (m s).1
    → SlotStep to s (transaction m s).1
unfolding transaction
transaction-SlotStep to m s keeps = end_transaction_rule (SlotStep to s) s (m s) stays keeps

claim_body-SlotStep :
    (now scope business_date : String) (eligible : Option (List (ℤ × ℤ))) (s : Database)
    → SlotStep SlotStatus.claimed s (claim_body now scope business_date eligible s).1
unfolding claim_body
claim_body-SlotStep now scope business_date eligible s =
    elim (Bool-cases (no_assignments eligible)) [
      | inl e ↦ rw e stays
      | inr e ↦ rw e (
          claim_found-SlotStep now
            (first_claimable s (is_claimable scope business_date eligible) s.profile_message_slots)
            s)
    ]

pub claim_next-SlotStep :
    (now scope business_date : String) (eligible : Option (List (ℤ × ℤ))) (s : Database)
    → SlotStep SlotStatus.claimed s (claim_next now scope business_date eligible s).1
unfolding claim_next
claim_next-SlotStep now scope business_date eligible s =
    let m = claim_body now scope business_date eligible in
    subst (SlotStep SlotStatus.claimed s) (sym (read_claimed-state (transaction m s))) (
      transaction-SlotStep SlotStatus.claimed m s
        (claim_body-SlotStep now scope business_date eligible s))
