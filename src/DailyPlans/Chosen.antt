-- ===== src/DailyPlans/Chosen.antt =====
-- app/services/daily_plans.py: the loop of `select_daily_items`, pass after pass.
use native.Mathlib.Nat.{ℕ_set}
use mathlib.Core.Logic.{∥∥₁_elim}
use mathlib.Core.List.{Perm, Permᴰ}
use maxbot.Base.{
  ℕ, zero, suc, ◌-◌, ◌≤◌, ◌<◌, ltb, ◌==◌, min, String, Bool, true, ◌||◌, Option, none, some, ◌≡◌,
  refl, ap, ◌∙◌, arith, eq_refl, List, [], ◌∷◌, ◌++◌, length, Bool-cases, inl, inr,
}
use maxbot.DailyPlans.Selection.{
  MessageSelection, separate, take, last_of, selections, part_of, random_passes,
}
use maxbot.DailyPlans.Budget.{length-append}
use maxbot.DailyPlans.Passes.{
  occurrences, times, differs, are_apart, occurrences-part_of, length-part_of, length-selections,
  times-append, times-selections_same, times-selections_other,
}

first_differs : Option String → List String → Bool
first_differs previous [] = true
first_differs previous (x ∷ xs) = differs previous x

-- The items of a part are different, so the part and what follows it are apart.
are_apart-append :
    (p : ℕ) (previous : Option String) (part : List String) (rest : List MessageSelection)
    → ((x : String) → occurrences x part ≤ 1)
    → first_differs previous part ≡ true
    → are_apart (last_of previous part) rest ≡ true
    → are_apart previous (selections p part ++ rest) ≡ true
unfolding first_differs
are_apart-append p previous [] rest once first later = later
are_apart-append p previous (a ∷ []) rest once first later = ground arith
are_apart-append p previous (a ∷ b ∷ part) rest once first later =
    let one = once a in
    let self = eq_refl a in
    let fresh : (x : String) → occurrences x (b ∷ part) ≤ 1 =
      λ x. let all = once x in ground arith in
    let next = are_apart-append p (some a) (b ∷ part) rest fresh (ground arith) later in
    ground arith

first_differs-take :
    (n : ℕ) (previous : Option String) (deck : List String)
    → first_differs previous deck ≡ true
    → first_differs previous (take n deck) ≡ true
unfolding first_differs
first_differs-take zero previous deck h = refl
first_differs-take (suc n) previous [] h = refl
first_differs-take (suc n) previous (x ∷ deck) h = h

first_differs-separate :
    (previous : Option String) (deck : List String)
    → ((x : String) → occurrences x deck ≤ 1)
    → 2 ≤ length deck
    → first_differs previous (separate previous deck) ≡ true
unfolding first_differs
first_differs-separate none [] once h = refl
first_differs-separate none (a ∷ deck) once h = refl
first_differs-separate (some p) [] once h = refl
first_differs-separate (some p) (a ∷ []) once h = absurd (ground arith)
first_differs-separate (some p) (a ∷ b ∷ deck) once h = let one = once p in ground arith

occurrences-perm :
    (x : String) {xs ys : List String} → Permᴰ xs ys → occurrences x xs ≡ occurrences x ys
occurrences-perm x Permᴰ.nil = refl
occurrences-perm x (Permᴰ.cons e d) = rw (e, occurrences-perm x d) refl
occurrences-perm x (Permᴰ.swap e f) = rw (e, f) (omega arith)
occurrences-perm x (Permᴰ.trans d e) = occurrences-perm x d ∙ occurrences-perm x e

length-perm : {xs ys : List String} → Permᴰ xs ys → length xs ≡ length ys
length-perm Permᴰ.nil = refl
length-perm (Permᴰ.cons e d) = ap suc (length-perm d)
length-perm (Permᴰ.swap e f) = refl
length-perm (Permᴰ.trans d e) = length-perm d ∙ length-perm e

-- What the passes from `p` on are to have selected.
pub record IsGood (ids : List String) (p : ℕ) (previous : Option String) (left : ℕ)
    (result : List MessageSelection) : Type 0 where
  pub count : length result ≡ left
  pub once : (q : ℕ) (x : String) → times q x result ≤ occurrences x ids
  pub later : (q : ℕ) (x : String) → q < p → times q x result ≡ 0
  pub apart : ltb (length ids) 2 || are_apart previous result ≡ true

module _ (shuffle : ℕ → List String → List String) (ids : List String)
    (shuffled : (k : ℕ) → Perm (shuffle k ids) ids) (unique : (x : String) → occurrences x ids ≤ 1)
    (some_item : 1 ≤ length ids) where
  occurrences_shuffle : (k : ℕ) (x : String) → occurrences x (shuffle k ids) ≡ occurrences x ids
  occurrences_shuffle k x =
      ∥∥₁_elim (shuffled k) (ℕ_set (occurrences x (shuffle k ids)) (occurrences x ids))
        (occurrences-perm x)

  length_shuffle : (k : ℕ) → length (shuffle k ids) ≡ length ids
  length_shuffle k = ∥∥₁_elim (shuffled k) (ℕ_set (length (shuffle k ids)) (length ids)) length-perm

  part_fits :
      (p : ℕ) (previous : Option String) (left : ℕ) (x : String)
      → occurrences x (part_of (shuffle p ids) previous left) ≤ occurrences x ids
  part_fits p previous left x =
      let few = occurrences-part_of x (shuffle p ids) previous left in
      let all = occurrences_shuffle p x in omega arith

  part_differs :
      (p : ℕ) (previous : Option String) (left : ℕ)
      → 2 ≤ length ids
      → first_differs previous (part_of (shuffle p ids) previous left) ≡ true
  part_differs p previous left h =
      let deck = separate previous (shuffle p ids) in
      let fresh : (x : String) → occurrences x (shuffle p ids) ≤ 1 =
        λ x. let a = occurrences_shuffle p x in let b = unique x in omega arith in
      let long = length_shuffle p in
      first_differs-take (min (length deck) left) previous deck
        (first_differs-separate previous (shuffle p ids) fresh (omega arith))

  extended :
      (p : ℕ) (previous : Option String) (left : ℕ) (rest : List MessageSelection)
      → 1 ≤ left
      → IsGood ids
          (suc p)
          (last_of previous (part_of (shuffle p ids) previous left))
          (left - length (part_of (shuffle p ids) previous left))
          rest
      → IsGood ids p previous left (selections p (part_of (shuffle p ids) previous left) ++ rest)
  extended p previous left rest h good = record {
    count =
        let long = length-part_of (shuffle p ids) previous left in
        let own = length-selections p part in
        let all = length-append (selections p part) rest in let other = good.count in omega arith;
    once = λ q x.
        let all = times-append q x (selections p part) rest in
        elim (Bool-cases (q == p)) [
          | inl e ↦
              let same : q ≡ p = ground arith in
              let own : times q x (selections p part) ≡ occurrences x part =
                rw same (times-selections_same p x part) in
              let other = good.later q x (omega arith) in
              let fits = part_fits p previous left x in omega arith
          | inr e ↦
              let own = times-selections_other q p x part (λ same. absurd (ground arith)) in
              let other = good.once q x in omega arith
        ];
    later = λ q x lt.
        let all = times-append q x (selections p part) rest in
        let own = times-selections_other q p x part (λ same. absurd (ground arith)) in
        let other = good.later q x (omega arith) in omega arith;
    apart = elim (Bool-cases (ltb (length ids) 2)) [
      | inl e ↦ rw e refl
      | inr e ↦
          let next : are_apart (last_of previous part) rest ≡ true =
            let both = good.apart in ground arith in
          let long : 2 ≤ length ids = ground arith in
          let fresh : (x : String) → occurrences x part ≤ 1 =
            λ x. let few = part_fits p previous left x in let one = unique x in omega arith in
          rw e
            (are_apart-append p previous part rest fresh (part_differs p previous left long) next)
    ];
  }
    where
      part : List String
      part = part_of (shuffle p ids) previous left

  ended :
      (p : ℕ) (previous : Option String) (left : ℕ)
      → left == 0 ≡ true
      → IsGood ids p previous left []
  ended p previous left e = record {
    count = ground arith;
    once = λ q x. omega arith;
    later = λ q x lt. refl;
    apart = ground arith;
  }

  -- Enough fuel for the loop is the number of messages that are left.
  pub passes-IsGood :
      (fuel p : ℕ) (previous : Option String) (left : ℕ)
      → left ≤ fuel
      → (result : List MessageSelection) × (random_passes shuffle ids fuel p previous left
          ≡ some result)
        × IsGood ids p previous left result
  unfolding random_passes
  passes-IsGood zero p previous left h = elim (Bool-cases (left == 0)) [
    | inl e ↦ ([], rw e refl, ended p previous left e)
    | inr e ↦ absurd (ground arith)
  ]
  passes-IsGood (suc fuel) p previous left h = elim (Bool-cases (left == 0)) [
    | inl e ↦ ([], rw e refl, ended p previous left e)
    | inr e ↦
        let part = part_of (shuffle p ids) previous left in
        let long = length-part_of (shuffle p ids) previous left in
        let all = length_shuffle p in
        let some_left : 1 ≤ left = ground arith in
        let (rest, eq, good) =
          passes-IsGood fuel (suc p) (last_of previous part) (left - length part) (omega arith) in
        (selections p part ++ rest, rw (e, eq) refl, extended p previous left rest some_left good)
  ]
