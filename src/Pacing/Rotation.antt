-- ===== src/Pacing/Rotation.antt =====
-- antiban_core.py: a group is split into three parts, one for each role of the day.
use maxbot.Base.{
  ℕ, ◌+◌, ◌/◌, ◌%◌, ◌≤◌, Bool, ℤ, pos, pos_part, ltb, leb_ℤ, if◌then◌else◌, ◌≡◌, arith, Bool-cases,
  inl, inr,
}

abbrev one_if : Bool → ℕ
one_if b = if b then 1 else 0

abbrev thirds : ℕ → ℕ × ℕ × ℕ
thirds n = (n / 3 + one_if (ltb 0 (n % 3)), n / 3 + one_if (ltb 1 (n % 3)), n / 3)

unfoldable pub split_thirds : ℤ → ℕ × ℕ × ℕ
split_thirds n = if leb_ℤ n (pos 0) then (0, 0, 0) else thirds (pos_part n)

-- The parts make up the whole, come in falling order, and differ by one at most.
abbrev pub IsFairSplit : ℕ → ℕ × ℕ × ℕ → Type 0
IsFairSplit n (a, b, c) = (a + b + c ≡ n) × (b ≤ a) × (c ≤ b) × (a ≤ c + 1)

thirds-IsFairSplit : (n : ℕ) → IsFairSplit n (thirds n)
thirds-IsFairSplit n = (ground arith, ground arith, ground arith, ground arith)

-- A group is split fairly: the three parts sum to its size, or to nothing for a size that is not
-- positive, come in falling order, and differ by one at most.
pub split_thirds-IsFairSplit : (n : ℤ) → IsFairSplit (pos_part n) (split_thirds n)
unfolding split_thirds
split_thirds-IsFairSplit n = elim (Bool-cases (leb_ℤ n (pos 0))) [
  | inl e ↦ rw e (ground (arith, e), omega arith, omega arith, omega arith)
  | inr e ↦ rw e (thirds-IsFairSplit (pos_part n))
]
