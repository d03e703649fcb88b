-- ===== src/DailyPlans/Turns.antt =====
-- app/services/daily_plans.py: the `round_robin` mode of `select_daily_items`, turn after turn.
use native.Mathlib.Nat as Nat
use mathlib.Core.Path.{subst}
use maxbot.Base.{
  ℕ, zero, suc, ◌+◌, ◌*◌, ◌/◌, ◌%◌, ◌≤◌, ◌<◌, ltb, ◌==◌, String, ◌≡◌, refl, ap, ◌∙◌, arith, str_eq,
  ok, List, [], ◌∷◌, length, Bool-cases, ◌⊎◌, inl, inr,
}
use maxbot.DailyPlans.Selection.{MessageSelection, item_at, round_robin}
use maxbot.DailyPlans.Passes.{one_if, occurrences, times}

-- The next turn is in the same pass, or is the first of the next one.
next_turn :
    (n i : ℕ)
    → 0 < n
    → (suc (i % n) < n) × (suc i / n ≡ i / n) × (suc i % n ≡ suc (i % n))
      ⊎ (suc i / n ≡ suc (i / n)) × (suc i % n ≡ 0)
next_turn n i h = elim (Bool-cases (ltb (suc (i % n)) n)) [
  | inl e ↦
      let inside : suc (i % n) < n = ground arith in
      let none_more : suc (i % n) / n ≡ 0 = Nat.div-eq_of_lt inside in
      inl (inside, omega (arith, added, none_more), Nat.suc-mod i n ∙ Nat.mod-eq_of_lt inside)
  | inr e ↦
      let over : suc (i % n) ≡ n = let small = Nat.mod-lt i h in ground arith in
      let one_more : suc (i % n) / n ≡ 1 = rw over (Nat.div_self h) in
      inr
        (omega (arith, added, one_more), Nat.suc-mod i n ∙ (ap (λ k. k % n) over ∙ Nat.mod_self n))
]
  where
    whole : suc i ≡ suc (i % n) + n * (i / n)
    whole = let parts = Nat.div-add-mod i n in omega arith

    added : suc i / n ≡ suc (i % n) / n + i / n
    added = ap (λ k. k / n) whole ∙ Nat.add-mul-div_left (suc (i % n)) (i / n) h

unfoldable pub drop : ℕ → List String → List String
drop zero xs = xs
drop (suc n) [] = []
drop (suc n) (x ∷ xs) = drop n xs

occurrences-drop :
    (y : String) (n : ℕ) (xs : List String) → occurrences y (drop n xs) ≤ occurrences y xs
unfolding drop
occurrences-drop y zero xs = omega arith
occurrences-drop y (suc n) [] = omega arith
occurrences-drop y (suc n) (x ∷ xs) = let few = occurrences-drop y n xs in omega arith

item_at-drop :
    (xs : List String) (r : ℕ)
    → r < length xs
    → (x : String) × (item_at xs r ≡ ok x)
      × ((y : String)
          → occurrences y (drop r xs) ≡ one_if (str_eq x y) + occurrences y (drop (suc r) xs))
unfolding drop
item_at-drop [] r h = absurd (ground arith)
item_at-drop (x ∷ xs) zero h = (x, refl, λ y. refl)
item_at-drop (x ∷ xs) (suc r) h = item_at-drop xs r (ground arith)

-- What the turns from `i` on are to have selected.
pub record IsTaken (ids : List String) (i left : ℕ) (result : List MessageSelection) : Type 0 where
  pub count : length result ≡ left
  pub once : (q : ℕ) (y : String) → times q y result ≤ occurrences y ids
  pub before : (q : ℕ) (y : String) → q < i / length ids → times q y result ≡ 0
  pub now :
      (y : String) → times (i / length ids) y result ≤ occurrences y (drop (i % length ids) ids)

module _ (ids : List String) (some_item : 0 < length ids) where
  turn :
      (i left : ℕ) (x : String) (rest : List MessageSelection)
      → ((y : String)
          → occurrences y (drop (i % length ids) ids)
            ≡ one_if (str_eq x y) + occurrences y (drop (suc (i % length ids)) ids))
      → IsTaken ids (suc i) left rest
      → IsTaken ids i (suc left) (record { item_id = x; pass_index = i / length ids } ∷ rest)
  turn i left x rest first taken = record {
    count = ap suc taken.count;
    once = λ q y. elim (Bool-cases (i / n == q)) [
      | inl e ↦
          let same : i / n ≡ q = ground arith in
          let few = now y in
          let all = occurrences-drop y (i % n) ids in
          let fewer = subst (λ k. times k y result ≤ occurrences y (drop (i % n) ids)) same few in
          omega arith
      | inr e ↦ let few = taken.once q y in ground arith
    ];
    before = λ q y lt. let none_later = taken.before q y (omega (arith, not_back)) in ground arith;
    now = now;
  }
    where
      n : ℕ
      n = length ids

      result : List MessageSelection
      result = record { item_id = x; pass_index = i / length ids } ∷ rest

      not_back : i / n ≤ suc i / n
      not_back = elim (next_turn n i some_item) [
        | inl (lt, same, up) ↦ omega arith
        | inr (up, zero_again) ↦ omega arith
      ]

      now : (y : String) → times (i / n) y result ≤ occurrences y (drop (i % n) ids)
      now y = elim (next_turn n i some_item) [
        | inl (lt, same, up) ↦
            let few : times (i / n) y rest ≤ occurrences y (drop (suc (i % n)) ids) =
              subst (λ k. times k y rest ≤ occurrences y (drop (suc (i % n)) ids)) same
                (subst (λ k. times (suc i / n) y rest ≤ occurrences y (drop k ids)) up
                  (taken.now y)) in
            let own = first y in ground arith
        | inr (up, zero_again) ↦
            let none_later = taken.before (i / n) y (omega arith) in
            let own = first y in ground arith
      ]

  pub round_robin-IsTaken :
      (left i : ℕ)
      → (result : List MessageSelection) × (round_robin ids i left ≡ ok result)
        × IsTaken ids i left result
  unfolding round_robin
  round_robin-IsTaken zero i = (
    [],
    refl,
    record {
      count = refl;
      once = λ q y. omega arith;
      before = λ q y lt. refl;
      now = λ y. omega arith;
    },
  )
  round_robin-IsTaken (suc left) i =
      let (rest, eq, taken) = round_robin-IsTaken left (suc i) in
      let (x, here, first) = item_at-drop ids (i % length ids) (Nat.mod-lt i some_item) in
      (
        record { item_id = x; pass_index = i / length ids } ∷ rest,
        rw (eq, here) refl,
        turn i left x rest first taken,
      )
