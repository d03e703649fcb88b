-- ===== src/Breaks/Dict.antt =====
-- The dictionaries of app/campaign_runtime.py that are keyed by an account: lists in insertion order.
use maxbot.Base.{
  ℕ, Option, none, some, ◌≡◌, refl, arith, ℤ, eq_ℤ, eq_ℤ_iff, if◌then◌else◌, List, [], ◌∷◌,
}

module _ {V : Type 0} where
  unfoldable pub get : ℤ → List (ℤ × V) → Option V
  get k [] = none
  get k ((j, v) ∷ rest) = if eq_ℤ j k then some v else get k rest

  -- `d[k] = v`
  unfoldable pub put : ℤ → V → List (ℤ × V) → List (ℤ × V)
  put k v [] = (k, v) ∷ []
  put k v ((j, u) ∷ rest) =
      let other = put k v rest in if eq_ℤ j k then (j, v) ∷ rest else (j, u) ∷ other

  -- `d.pop(k, None)`
  unfoldable pub pop : ℤ → List (ℤ × V) → List (ℤ × V)
  pop k [] = []
  pop k ((j, u) ∷ rest) = let other = pop k rest in if eq_ℤ j k then other else (j, u) ∷ other

  unfoldable pub keys : List (ℤ × V) → List ℤ
  keys [] = []
  keys ((j, u) ∷ rest) = j ∷ keys rest

  unfoldable pub values : List (ℤ × V) → List V
  values [] = []
  values ((j, u) ∷ rest) = u ∷ values rest

  pub get-put : (k : ℤ) (v : V) (d : List (ℤ × V)) → get k (put k v d) ≡ some v
  unfolding get put
  get-put k v [] = ground (arith, eq_ℤ_iff k k)
  get-put k v ((j, u) ∷ rest) = ground (arith, get-put k v rest)

  pub get-pop : (k : ℤ) (d : List (ℤ × V)) → get k (pop k d) ≡ none
  unfolding get pop
  get-pop k [] = refl
  get-pop k ((j, u) ∷ rest) = ground (arith, get-pop k rest)

-- `d.get(k, 0)`
abbrev pub or_zero : Option ℕ → ℕ
or_zero none = 0
or_zero (some n) = n
