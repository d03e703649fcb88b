-- ===== src/DailyPlans/Passes.antt =====
-- app/services/daily_plans.py: one pass of the loop of `select_daily_items`.
use maxbot.Base.{
  ℕ, zero, suc, ◌+◌, ◌≤◌, ◌==◌, min, String, Bool, true, false, not, ◌&&◌, Option, none, some, ◌≡◌,
  ◌≢◌, refl, ap, arith, str_eq, eq_iff, List, [], ◌∷◌, ◌++◌, length, Bool-cases, inl, inr,
}
use maxbot.DailyPlans.Selection.{
  MessageSelection, member, are_unique, separate, take, selections, part_of,
}

abbrev pub one_if : Bool → ℕ
one_if true = 1
one_if false = 0

-- How often an item is in a list of items.
abbrev pub occurrences : String → List String → ℕ
occurrences x [] = 0
occurrences x (y ∷ ys) = one_if (str_eq y x) + occurrences x ys

-- How often a pass selected an item.
abbrev pub times : ℕ → String → List MessageSelection → ℕ
times p x [] = 0
times p x (s ∷ rest) = one_if (str_eq s.item_id x && s.pass_index == p) + times p x rest

abbrev pub differs : Option String → String → Bool
differs none x = true
differs (some y) x = not (str_eq x y)

-- No two items in a row are the same, nor is the first one the item before.
abbrev pub are_apart : Option String → List MessageSelection → Bool
are_apart previous [] = true
are_apart previous (s ∷ rest) = differs previous s.item_id && are_apart (some s.item_id) rest

occurrences-member : (x : String) (xs : List String) → member x xs ≡ false → occurrences x xs ≡ 0
occurrences-member x [] h = refl
occurrences-member x (y ∷ ys) h = ground (arith, occurrences-member x ys)

pub occurrences-are_unique :
    (x : String) (xs : List String) → are_unique xs ≡ true → occurrences x xs ≤ 1
occurrences-are_unique x [] h = ground arith
occurrences-are_unique x (y ∷ ys) h = elim (Bool-cases (str_eq y x)) [
  | inl e ↦ let same = (eq_iff y x).0 e in ground (arith, occurrences-member x ys)
  | inr e ↦ ground (arith, occurrences-are_unique x ys)
]

occurrences-separate :
    (x : String) (previous : Option String) (deck : List String)
    → occurrences x (separate previous deck) ≡ occurrences x deck
occurrences-separate x none deck = refl
occurrences-separate x (some p) [] = refl
occurrences-separate x (some p) (a ∷ []) = refl
occurrences-separate x (some p) (a ∷ b ∷ rest) = ground arith

occurrences-take :
    (x : String) (n : ℕ) (deck : List String) → occurrences x (take n deck) ≤ occurrences x deck
occurrences-take x zero deck = ground arith
occurrences-take x (suc n) [] = ground arith
occurrences-take x (suc n) (y ∷ deck) = ground (arith, occurrences-take x n deck)

pub occurrences-part_of :
    (x : String) (deck : List String) (previous : Option String) (left : ℕ)
    → occurrences x (part_of deck previous left) ≤ occurrences x deck
occurrences-part_of x deck previous left =
    let separated = separate previous deck in
    let few = occurrences-take x (min (length separated) left) separated in
    let all = occurrences-separate x previous deck in ground arith

length-take : (n : ℕ) (deck : List String) → n ≤ length deck → length (take n deck) ≡ n
length-take zero deck h = refl
length-take (suc n) [] h = absurd (ground arith)
length-take (suc n) (x ∷ deck) h = ground (arith, length-take n deck)

length-separate :
    (previous : Option String) (deck : List String) → length (separate previous deck) ≡ length deck
length-separate none deck = refl
length-separate (some p) [] = refl
length-separate (some p) (a ∷ []) = refl
length-separate (some p) (a ∷ b ∷ rest) = ground arith

pub length-part_of :
    (deck : List String) (previous : Option String) (left : ℕ)
    → length (part_of deck previous left) ≡ min (length deck) left
length-part_of deck previous left =
    let separated = separate previous deck in
    let same = length-separate previous deck in
    let all = length-take (min (length separated) left) separated (ground arith) in ground arith

pub length-selections : (p : ℕ) (part : List String) → length (selections p part) ≡ length part
length-selections p [] = refl
length-selections p (x ∷ part) = ap suc (length-selections p part)

pub times-append :
    (p : ℕ) (x : String) (a b : List MessageSelection)
    → times p x (a ++ b) ≡ times p x a + times p x b
times-append p x [] b = omega arith
times-append p x (s ∷ a) b = ground (arith, times-append p x a b)

pub times-selections_same :
    (p : ℕ) (x : String) (part : List String) → times p x (selections p part) ≡ occurrences x part
times-selections_same p x [] = refl
times-selections_same p x (y ∷ part) = ground (arith, times-selections_same p x part)

pub times-selections_other :
    (p q : ℕ) (x : String) (part : List String) → p ≢ q → times p x (selections q part) ≡ 0
times-selections_other p q x [] h = refl
times-selections_other p q x (y ∷ part) h = ground (arith, times-selections_other p q x part)
