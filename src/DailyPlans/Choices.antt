-- ===== src/DailyPlans/Choices.antt =====
-- app/services/daily_plans.py: `select_daily_items` with its checks, in both modes.
use mathlib.Core.List.{Perm}
use maxbot.Base.{
  ℕ, ◌≤◌, ◌==◌, String, true, false, ◌≡◌, refl, sym, ap, arith, str_eq, ℤ, pos, negsuc, ltb_ℤ,
  Option, none, some, ok, err, List, [], ◌∷◌, length, fmt, Bool-cases, ◌⊎◌, inl, inr, Result,
}
use maxbot.DailyPlans.Rows.{Error, value_error, pool_empty}
use maxbot.DailyPlans.Selection.{
  MessageSelection, are_unique, is_supported, select_by_mode, select_daily_items, is_empty,
  finished,
}
use maxbot.DailyPlans.Passes.{occurrences, occurrences-are_unique, times, are_apart}
use maxbot.DailyPlans.Chosen.{passes-IsGood}
use maxbot.DailyPlans.Turns.{round_robin-IsTaken}

-- As many messages as asked for, and no pass has an item more often than the library, which has each
-- item once at most.
pub record IsChosen (ids : List String) (n : ℕ) (result : List MessageSelection) : Type 0 where
  pub count : length result ≡ n
  pub known : (q : ℕ) (x : String) → times q x result ≤ occurrences x ids
  pub once : (q : ℕ) (x : String) → times q x result ≤ 1

ok_unique :
    {r : Result Error (List MessageSelection)} {a b : List MessageSelection}
    → r ≡ ok a
    → r ≡ ok b
    → a ≡ b
ok_unique h k = cc

passes_unique :
    {r : Option (List MessageSelection)} {a b : List MessageSelection}
    → r ≡ some a
    → finished r ≡ ok b
    → a ≡ b
passes_unique {r = none} h k = cc
passes_unique {r = some x} h k = cc

refused :
    {A : Type 0} {r : Result Error (List MessageSelection)} {e : Error} {a : List MessageSelection}
    → r ≡ err e
    → r ≡ ok a
    → A
refused h k = absurd (cc)

negative : (n : ℕ) → ltb_ℤ (negsuc n) (pos 0) ≡ true
negative n = ground arith

empty_or_not : (ids : List String) → (is_empty ids ≡ true) ⊎ (1 ≤ length ids)
empty_or_not [] = inl refl
empty_or_not (x ∷ ids) = inr (omega arith)

not_negative : (n : ℕ) → ltb_ℤ (pos n) (pos 0) ≡ false
not_negative n = ground arith

not_empty : (ids : List String) → 1 ≤ length ids → is_empty ids ≡ false
not_empty [] h = absurd (ground arith)
not_empty (x ∷ ids) h = refl

module _ (shuffle : ℕ → List String → List String) (ids : List String)
    (shuffled : (k : ℕ) → Perm (shuffle k ids) ids) (unique : are_unique ids ≡ true)
    (some_item : 1 ≤ length ids) where
  by_mode-IsChosen :
      (n : ℕ) (mode : String)
      → (result : List MessageSelection) × (select_by_mode shuffle ids n mode ≡ ok result)
        × IsChosen ids n result
  unfolding select_by_mode
  by_mode-IsChosen n mode = elim (Bool-cases (str_eq mode "round_robin")) [
    | inl e ↦
        let (result, eq, taken) = round_robin-IsTaken ids some_item n 0 in
        (
          result,
          rw (e, eq) refl,
          record {
            count = taken.count;
            known = taken.once;
            once = λ q x.
                let few = taken.once q x in
                let one = occurrences-are_unique x ids unique in omega arith;
          },
        )
    | inr e ↦
        let (result, eq, good) =
          passes-IsGood shuffle ids shuffled (λ x. occurrences-are_unique x ids unique) some_item n
            0 none n (omega arith) in
        (
          result,
          rw (e, eq) refl,
          record {
            count = good.count;
            known = good.once;
            once = λ q x.
                let few = good.once q x in
                let one = occurrences-are_unique x ids unique in omega arith;
          },
        )
  ]

-- The selection ends and is fair, in both modes: if the shuffle rearranges, the items are different
-- and there is one, and the mode is one of the two, then exactly `count` messages are selected, each
-- of them from the library, and no pass selects an item twice.
pub select_daily_items-IsChosen :
    (shuffle : ℕ → List String → List String) (ids : List String) (n : ℕ) (mode : String)
    → ((k : ℕ) → Perm (shuffle k ids) ids)
    → are_unique ids ≡ true
    → 1 ≤ length ids
    → is_supported mode ≡ true
    → (result : List MessageSelection) × (select_daily_items shuffle ids (pos n) mode ≡ ok result)
      × IsChosen ids n result
unfolding select_daily_items
select_daily_items-IsChosen shuffle ids n mode shuffled unique some_item supported =
    elim (Bool-cases (n == 0)) [
      | inl e ↦ (
        [],
        rw (not_negative n, supported, unique, e) refl,
        record { count = ground arith; known = λ q x. omega arith; once = λ q x. omega arith },
      )
      | inr e ↦
          let (result, eq, chosen) =
            by_mode-IsChosen shuffle ids shuffled unique some_item n mode in
          (
            result,
            rw (not_negative n, supported, unique, e, not_empty ids some_item, eq) refl,
            chosen,
          )
    ]

-- No message is sent twice in a row: if the shuffle rearranges, the items are different and there are
-- two at least, then in what `random_norepeat` selects no two messages in a row have the same item,
-- also where one pass ends and the next begins.
pub random_norepeat_is_apart :
    (shuffle : ℕ → List String → List String) (ids : List String) (n : ℕ)
    (result : List MessageSelection)
    → ((k : ℕ) → Perm (shuffle k ids) ids)
    → are_unique ids ≡ true
    → 2 ≤ length ids
    → select_daily_items shuffle ids (pos n) "random_norepeat" ≡ ok result
    → are_apart none result ≡ true
unfolding select_daily_items select_by_mode
random_norepeat_is_apart shuffle ids n result shuffled unique two selected =
    elim (Bool-cases (n == 0)) [
      | inl e ↦
          let none_left : [] ≡ result = ok_unique (rw (not_negative n, unique, e) refl) selected in
          rw (sym none_left) refl
      | inr e ↦
          let (good_result, eq, good) =
            passes-IsGood shuffle ids shuffled (λ x. occurrences-are_unique x ids unique)
              (omega arith) n 0 none n (omega arith) in
          let same : good_result ≡ result =
            ok_unique (rw (not_negative n, unique, e, not_empty ids (omega arith), eq) refl)
              selected in
          let apart = good.apart in rw (sym same) (ground arith)
    ]

-- A selection has the length that was asked for, whatever the arguments are.
pub select_daily_items-length :
    (shuffle : ℕ → List String → List String) (ids : List String) (count : ℤ) (mode : String)
    (result : List MessageSelection)
    → ((k : ℕ) → Perm (shuffle k ids) ids)
    → select_daily_items shuffle ids count mode ≡ ok result
    → pos (length result) ≡ count
unfolding select_daily_items
select_daily_items-length shuffle ids (negsuc n) mode result shuffled selected =
    refused {e = value_error "count must not be negative"} (rw (negative n) refl) selected
select_daily_items-length shuffle ids (pos n) mode result shuffled selected =
    elim (Bool-cases (is_supported mode)) [
      | inr e ↦
          refused {e = value_error (fmt "unsupported selection mode: " mode)}
            (rw (not_negative n, e) refl) selected
      | inl supported ↦ elim (Bool-cases (are_unique ids)) [
        | inr e ↦
            refused {e = value_error "item_ids must be unique"}
              (rw (not_negative n, supported, e) refl) selected
        | inl unique ↦ elim (Bool-cases (n == 0)) [
          | inl e ↦
              let none_left : [] ≡ result =
                ok_unique (rw (not_negative n, supported, unique, e) refl) selected in
              rw (sym none_left) (ap pos (ground arith))
          | inr e ↦ elim (empty_or_not ids) [
            | inl empty ↦
                refused {e = pool_empty "POOL_EMPTY"}
                  (rw (not_negative n, supported, unique, e, empty) refl) selected
            | inr some_item ↦
                let (chosen_result, eq, chosen) =
                  select_daily_items-IsChosen shuffle ids n mode shuffled unique some_item
                    supported in
                rw (sym (ok_unique eq selected)) (ap pos chosen.count)
          ]
        ]
      ]
    ]
