-- ===== src/DailyPlans/Selection.antt =====
-- app/services/daily_plans.py: `select_daily_items`. What `rng.shuffle` makes of the items on each
-- pass of the loop is an argument.
use maxbot.Base.{
  ℕ, zero, suc, ◌-◌, ◌/◌, ◌%◌, ◌==◌, min, String, Bool, true, false, not, ◌&&◌, ◌||◌, Option, none,
  some, ℤ, pos, pos_part, ltb_ℤ, str_eq, if◌then◌else◌, fmt, List, [], ◌∷◌, ◌++◌, length, Result,
  ok, err,
}
use maxbot.DailyPlans.Rows.{Error, value_error, pool_empty, index_error, out_of_fuel}

pub record MessageSelection : Type 0 where
  pub item_id : String
  pub pass_index : ℕ

abbrev pub member : String → List String → Bool
member x [] = false
member x (y ∷ ys) = str_eq y x || member x ys

-- `len(set(item_ids)) == len(item_ids)`
abbrev pub are_unique : List String → Bool
are_unique [] = true
are_unique (x ∷ xs) = not (member x xs) && are_unique xs

-- `item_ids[index]`
abbrev pub item_at : List String → ℕ → Result Error String
item_at [] index = err (index_error "tuple index out of range")
item_at (x ∷ xs) zero = ok x
item_at (x ∷ xs) (suc index) = item_at xs index

abbrev pub add_selection :
    ℕ
    → Result Error String
    → Result Error (List MessageSelection)
    → Result Error (List MessageSelection)
add_selection pass_index (err e) rest = err e
add_selection pass_index (ok x) (err e) = err e
add_selection pass_index (ok x) (ok rest) =
    ok (record { item_id = x; pass_index = pass_index } ∷ rest)

-- `for index in range(count)`, the last `left` of them.
unfoldable pub round_robin : List String → ℕ → ℕ → Result Error (List MessageSelection)
round_robin item_ids index zero = ok []
round_robin item_ids index (suc left) =
    add_selection (index / length item_ids) (item_at item_ids (index % length item_ids))
      (round_robin item_ids (suc index) left)

-- `if previous is not None and len(deck) > 1 and deck[0] == previous: …`
abbrev pub separate : Option String → List String → List String
separate (some previous) (a ∷ b ∷ rest) = if str_eq a previous then b ∷ a ∷ rest else a ∷ b ∷ rest
separate (some previous) (a ∷ []) = a ∷ []
separate (some previous) [] = []
separate none deck = deck

-- `deck[:take]`
abbrev pub take : ℕ → List String → List String
take zero deck = []
take (suc n) [] = []
take (suc n) (x ∷ deck) = x ∷ take n deck

-- `result[-1].item_id`, after the result was extended.
abbrev pub last_of : Option String → List String → Option String
last_of previous [] = previous
last_of previous (x ∷ part) = last_of (some x) part

abbrev pub selections : ℕ → List String → List MessageSelection
selections pass_index [] = []
selections pass_index (x ∷ part) =
    record { item_id = x; pass_index = pass_index } ∷ selections pass_index part

abbrev pub extend :
    List MessageSelection → Option (List MessageSelection) → Option (List MessageSelection)
extend part none = none
extend part (some rest) = some (part ++ rest)

-- What a pass adds to the result.
abbrev pub part_of : List String → Option String → ℕ → List String
part_of deck previous left =
    let separated = separate previous deck in take (min (length separated) left) separated

-- `while len(result) < count`, on fuel; `left` is `count - len(result)`.
unfoldable pub random_passes :
    (ℕ → List String → List String)
    → List String
    → ℕ
    → ℕ
    → Option String
    → ℕ
    → Option (List MessageSelection)
random_passes shuffle item_ids zero pass_index previous left = if left == 0 then some [] else none
random_passes shuffle item_ids (suc fuel) pass_index previous left =
    let part = part_of (shuffle pass_index item_ids) previous left in
    let rest =
      random_passes shuffle item_ids fuel (suc pass_index) (last_of previous part)
        (left - length part) in
    if left == 0 then some [] else extend (selections pass_index part) rest

abbrev pub finished : Option (List MessageSelection) → Result Error (List MessageSelection)
finished none = err out_of_fuel
finished (some result) = ok result

-- The selection, once the arguments are checked: `count` is positive.
unfoldable pub select_by_mode :
    (ℕ → List String → List String)
    → List String
    → ℕ
    → String
    → Result Error (List MessageSelection)
unfolding round_robin random_passes
select_by_mode shuffle item_ids count mode =
    if str_eq mode "round_robin"
    then round_robin item_ids 0 count
    else finished (random_passes shuffle item_ids count 0 none count)

abbrev pub is_supported : String → Bool
is_supported mode = str_eq mode "random_norepeat" || str_eq mode "round_robin"

abbrev pub is_empty : List String → Bool
is_empty [] = true
is_empty (x ∷ xs) = false

unfoldable pub select_daily_items :
    (ℕ → List String → List String)
    → List String
    → ℤ
    → String
    → Result Error (List MessageSelection)
unfolding select_by_mode
select_daily_items shuffle item_ids count mode =
    if ltb_ℤ count (pos 0)
    then err (value_error "count must not be negative")
    else if not (is_supported mode)
    then err (value_error (fmt "unsupported selection mode: " mode))
    else if not (are_unique item_ids)
    then err (value_error "item_ids must be unique")
    else if pos_part count == 0
    then ok []
    else if is_empty item_ids
    then err (pool_empty "POOL_EMPTY")
    else select_by_mode shuffle item_ids (pos_part count) mode
