-- ===== src/Pacing/Shares.antt =====
-- antiban_core.py: the roles of a cycle, and the split of a group by percentages.
use maxbot.Base.{
  ℕ, ◌+◌, ◌-◌, ◌%◌, ◌<◌, ◌≤◌, min, true, ℤ, pos, pos_part, ltb, leb, ◌==◌, leb_ℤ, if◌then◌else◌,
  ◌≡◌, ◌≢◌, arith, Bool-cases, inl, inr,
}
use maxbot.Pacing.Policy.{Role}

-- `ROLE_ROTATION[index]`, of an index below three.
abbrev pub role_at : ℕ → Role
role_at index = if index == 0 then Role.active else if index == 1 then Role.quiet else Role.skip

unfoldable pub role_rotation_for_part : ℕ → ℕ → Role
role_rotation_for_part cycle_day part_index = role_at ((cycle_day + part_index) % 3)

-- `over`: what was asked for beyond the whole.
abbrev pub taken_back : ℕ → ℕ → ℕ → ℕ × ℕ × ℕ
taken_back n skip_n active_n =
    let over = skip_n + active_n - n in
    let active_left = active_n - min active_n over in
    let skip_left = skip_n - (over - min active_n over) in
    (skip_left, active_left, n - skip_left - active_left)

-- `if skip_n >= n: …`; then `active_n` is 0, so that no difference is negative.
abbrev pub some_not_skipped : ℕ → ℕ × ℕ × ℕ → ℕ × ℕ × ℕ
some_not_skipped n (skip_n, active_n, quiet_n) =
    if leb n skip_n then (n - 1, active_n, n - (n - 1) - active_n) else (skip_n, active_n, quiet_n)

-- The two numbers are what `int(round(n * max(0.0, percent) / 100.0))` gives.
unfoldable pub split_role_counts : ℤ → ℕ → ℕ → ℕ × ℕ × ℕ
split_role_counts n skip_rounded active_rounded =
    if leb_ℤ n (pos 0)
    then (0, 0, 0)
    else some_not_skipped (pos_part n) (
        if ltb (pos_part n) (skip_rounded + active_rounded)
        then taken_back (pos_part n) skip_rounded active_rounded
        else (skip_rounded, active_rounded, pos_part n - skip_rounded - active_rounded))

-- The counts make up the group, and if there is anyone in it, not all of it is skipped.
abbrev pub IsShared : ℕ → ℕ × ℕ × ℕ → Type 0
IsShared n (skip_n, active_n, quiet_n) = (skip_n + active_n + quiet_n ≡ n) × (skip_n ≤ n - 1)

some_not_skipped-IsShared :
    (n skip_n active_n quiet_n : ℕ)
    → 0 < n
    → skip_n + active_n + quiet_n ≡ n
    → IsShared n (some_not_skipped n (skip_n, active_n, quiet_n))
some_not_skipped-IsShared n skip_n active_n quiet_n some_one all =
    elim (Bool-cases (leb n skip_n)) [
      | inl e ↦ rw e (ground arith, omega arith)
      | inr e ↦ rw e (all, ground arith)
    ]

-- A group is shared out by any percentages: the three counts sum to its size, or to nothing for a size
-- that is not positive, and of a group with anyone in it not all are skipped.
pub split_role_counts-IsShared :
    (n : ℤ) (skip_rounded active_rounded : ℕ)
    → IsShared (pos_part n) (split_role_counts n skip_rounded active_rounded)
unfolding split_role_counts
split_role_counts-IsShared n skip_rounded active_rounded = elim (Bool-cases (leb_ℤ n (pos 0))) [
  | inl e ↦ rw e (ground arith, omega arith)
  | inr e ↦ rw e (
      let whole = pos_part n in
      elim (Bool-cases (ltb whole (skip_rounded + active_rounded))) [
        | inl f ↦ rw f (
            some_not_skipped-IsShared whole (taken_back whole skip_rounded active_rounded).0
              (taken_back whole skip_rounded active_rounded).1
              (taken_back whole skip_rounded active_rounded).2 (ground arith) (ground arith))
        | inr f ↦ rw f (
            some_not_skipped-IsShared whole skip_rounded active_rounded
              (whole - skip_rounded - active_rounded) (ground arith) (ground arith))
      ])
]

role_at-cases : (i j : ℕ) → ltb i 3 ≡ true → ltb j 3 ≡ true → i ≢ j → role_at i ≢ role_at j
role_at-cases i j h k ne same = ground arith

-- The roles rotate fairly: a part of a group has another role on each of three days in a row, and on a
-- day the three parts have three roles.
pub role_rotation_is_fair :
    (day part : ℕ)
    → (role_rotation_for_part day part ≢ role_rotation_for_part (day + 1) part)
      × (role_rotation_for_part day part ≢ role_rotation_for_part (day + 2) part)
      × (role_rotation_for_part day part ≢ role_rotation_for_part day (part + 1))
      × (role_rotation_for_part day part ≢ role_rotation_for_part day (part + 2))
unfolding role_rotation_for_part
role_rotation_is_fair day part = (
  role_at-cases ((day + part) % 3) ((day + 1 + part) % 3) (ground arith) (ground arith)
      (ground arith),
  role_at-cases ((day + part) % 3) ((day + 2 + part) % 3) (ground arith) (ground arith)
      (ground arith),
  role_at-cases ((day + part) % 3) ((day + (part + 1)) % 3) (ground arith) (ground arith)
      (ground arith),
  role_at-cases ((day + part) % 3) ((day + (part + 2)) % 3) (ground arith) (ground arith)
      (ground arith),
)
