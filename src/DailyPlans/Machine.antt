-- ===== src/DailyPlans/Machine.antt =====
-- app/repositories/daily_plans.py: the status machine of a message slot.
use mathlib.Core.Path.{subst}
use maxbot.Base.{String, Bool, true, false, Option, some, ◌≡◌, refl, sym, ◌∙◌, arith, fetchone}
use maxbot.DailyPlans.Rows.{SlotStatus, SlotRow, Database, is_slot}

abbrev pub is_next : SlotStatus → SlotStatus → Bool
is_next SlotStatus.queued SlotStatus.claimed = true
is_next SlotStatus.queued SlotStatus.cancelled = true
is_next SlotStatus.queued SlotStatus.expired = true
is_next SlotStatus.claimed SlotStatus.unknown = true
is_next SlotStatus.claimed SlotStatus.failed_unsent = true
is_next SlotStatus.claimed SlotStatus.accepted = true
is_next SlotStatus.claimed SlotStatus.queued = true
is_next SlotStatus.in_flight SlotStatus.unknown = true
is_next SlotStatus.in_flight SlotStatus.failed_unsent = true
is_next SlotStatus.in_flight SlotStatus.accepted = true
is_next SlotStatus.failed_unsent SlotStatus.queued = true
is_next _ _ = false

-- The outcomes that nothing follows.
abbrev pub is_final : SlotStatus → Bool
is_final SlotStatus.unknown = true
is_final SlotStatus.accepted = true
is_final SlotStatus.cancelled = true
is_final SlotStatus.expired = true
is_final _ = false

-- Two states of one slot: the message, its place and its owner are the same.
pub record SameMessage (a b : SlotRow) : Type 0 where
  pub slot_id : b.slot_id ≡ a.slot_id
  pub scope : b.scope ≡ a.scope
  pub plan_id : b.plan_id ≡ a.plan_id
  pub ordinal : b.ordinal ≡ a.ordinal
  pub item_id : b.item_id ≡ a.item_id
  pub pass_index : b.pass_index ≡ a.pass_index
  pub version_id : b.version_id ≡ a.version_id
  pub rendered_text : b.rendered_text ≡ a.rendered_text

pub record Move (a b : SlotRow) : Type 0 where
  pub edge : is_next a.status b.status ≡ true
  pub message : SameMessage a b

pub data Evolves (a : SlotRow) : SlotRow → Type 0 where
  same : Evolves a a
  after : {m b : SlotRow} → Evolves a m → Move m b → Evolves a b

pub Evolves-trans : {a b c : SlotRow} → Evolves a b → Evolves b c → Evolves a c
Evolves-trans h same = h
Evolves-trans h (after k move) = after (Evolves-trans h k) move

final_stays : (x y : SlotStatus) → is_final x ≡ true → is_next x y ≡ false
final_stays x y h = ground arith

pub Evolves-final : {a b : SlotRow} → Evolves a b → is_final a.status ≡ true → b ≡ a
Evolves-final same h = refl
Evolves-final (after {m} {b} before move) h =
    let ended = subst (λ x. is_final x.status ≡ true) (sym (Evolves-final before h)) h in
    let shut = final_stays m.status b.status ended in let edge = move.edge in absurd (ground arith)

pub Evolves-message : {a b : SlotRow} → Evolves a b → SameMessage a b
Evolves-message same = record {
  slot_id = refl;
  scope = refl;
  plan_id = refl;
  ordinal = refl;
  item_id = refl;
  pass_index = refl;
  version_id = refl;
  rendered_text = refl;
}
Evolves-message (after before move) =
    let old = Evolves-message before in
    let new = move.message in
    record {
      slot_id = new.slot_id ∙ old.slot_id;
      scope = new.scope ∙ old.scope;
      plan_id = new.plan_id ∙ old.plan_id;
      ordinal = new.ordinal ∙ old.ordinal;
      item_id = new.item_id ∙ old.item_id;
      pass_index = new.pass_index ∙ old.pass_index;
      version_id = new.version_id ∙ old.version_id;
      rendered_text = new.rendered_text ∙ old.rendered_text;
    }

abbrev pub slot_of : String → Database → Option SlotRow
slot_of id db = fetchone (is_slot id) db.profile_message_slots

abbrev pub Later : SlotRow → Option SlotRow → Type 0
Later a o = (b : SlotRow) × (o ≡ some b) × Evolves a b
