-- ===== src/Base/Sql.antt =====
-- SQL tables as lists of rows in insertion order, and the four statements that the code executes.
use Prim.Native.Nat.{ℕ, suc}
use mathlib.Core.Path.{◌≡◌, refl}
use mathlib.Core.Bool.{Bool, true}
use mathlib.Core.Option
use mathlib.Core.Option.{Option, none, some}
use mathlib.Core.List.{List, [], ◌∷◌, ◌++◌, map}
use native.Mathlib.Omega.{arith}
use maxbot.Base.Tests.{if◌then◌else◌}

module _ {A : Type 0} where
  abbrev pub length : List A → ℕ
  length [] = 0
  length (x ∷ xs) = suc (length xs)

  -- `SELECT … WHERE p`, all rows.
  unfoldable pub fetchall : (A → Bool) → List A → List A
  fetchall p [] = []
  fetchall p (x ∷ rows) = if p x then x ∷ fetchall p rows else fetchall p rows

  -- `SELECT … WHERE p`, the first row.
  unfoldable pub fetchone : (A → Bool) → List A → Option A
  fetchone p [] = none
  fetchone p (x ∷ rows) = if p x then some x else fetchone p rows

  -- `INSERT`
  abbrev pub insert : A → List A → List A
  insert row rows = rows ++ row ∷ []

  abbrev pub on_match : (A → Bool) → (A → A) → A → A
  on_match q f x = if q x then f x else x

  -- `UPDATE … SET f WHERE q`
  unfoldable pub update_where : (A → Bool) → (A → A) → List A → List A
  update_where q f rows = map (on_match q f) rows

  -- `cursor.rowcount` of an `UPDATE … WHERE q`
  unfoldable pub rowcount : (A → Bool) → List A → ℕ
  unfolding fetchall
  rowcount q rows = length (fetchall q rows)

  abbrev pub or_else : Option A → Option A → Option A
  or_else none b = b
  or_else (some a) b = some a

  pub fetchone_sound :
      (p : A → Bool) (rows : List A) {x : A} → fetchone p rows ≡ some x → p x ≡ true
  unfolding fetchone
  fetchone_sound p [] h = cc
  fetchone_sound p (y ∷ rows) {x} h = ground (arith, fetchone_sound p rows {x = x})

  pub fetchone-insert :
      (p : A → Bool) (x : A) (rows : List A)
      → fetchone p (insert x rows) ≡ or_else (fetchone p rows) (if p x then some x else none)
  unfolding fetchone
  fetchone-insert p x [] = refl
  fetchone-insert p x (y ∷ rows) = ground (arith, fetchone-insert p x rows)

  pub fetchall-insert :
      (p : A → Bool) (x : A) (rows : List A)
      → fetchall p (insert x rows) ≡ fetchall p rows ++ (if p x then x ∷ [] else [])
  unfolding fetchall
  fetchall-insert p x [] = ground arith
  fetchall-insert p x (y ∷ rows) = ground (arith, fetchall-insert p x rows)

  module _ (p q : A → Bool) (f : A → A) (keeps : (x : A) → p (f x) ≡ p x) where
    pub fetchone-update_where :
        (rows : List A)
        → fetchone p (update_where q f rows) ≡ Option.map (on_match q f) (fetchone p rows)
    unfolding fetchone update_where
    fetchone-update_where [] = refl
    fetchone-update_where (x ∷ rows) = ground (arith, keeps x, fetchone-update_where rows)

    pub fetchall-update_where :
        (rows : List A) → fetchall p (update_where q f rows) ≡ map (on_match q f) (fetchall p rows)
    unfolding fetchall update_where
    fetchall-update_where [] = refl
    fetchall-update_where (x ∷ rows) = ground (arith, keeps x, fetchall-update_where rows)
