-- ===== src/Base/Keyed.antt =====
-- What a query by a text key answers after an `UPDATE` or an `INSERT`.
use Prim.Native.String.{String}
use mathlib.Core.Path.{◌≡◌, refl}
use mathlib.Core.Logic.{◌≢◌}
use mathlib.Core.Bool.{Bool, true, false}
use mathlib.Core.Option.{none, some}
use mathlib.Core.List.{List, [], ◌∷◌}
use native.Mathlib.Omega.{arith}
use text.Mathlib.Text.{◌==◌ as str_eq}
use text.Mathlib.TextEquality.{eq_iff}
use maxbot.Base.Sql.{fetchone, fetchall, insert, update_where}

pub str_eq-false : (a b : String) → a ≢ b → str_eq a b ≡ false
str_eq-false a b h = ground (arith, eq_iff a b)

module _ {A : Type 0} (key : A → String) where
  -- `WHERE key=?`
  abbrev pub has : String → A → Bool
  has k x = str_eq (key x) k

  pub key_of_fetchone :
      (k : String) (rows : List A) {x : A} → fetchone (has k) rows ≡ some x → key x ≡ k
  unfolding fetchone
  key_of_fetchone k [] h = cc
  key_of_fetchone k (y ∷ rows) {x} h =
      ground (arith, eq_iff (key y) k, key_of_fetchone k rows {x = x})

  pub key_of_fetchall :
      (k : String) (rows : List A) {x : A} → fetchall (has k) rows ≡ x ∷ [] → key x ≡ k
  unfolding fetchall
  key_of_fetchall k [] h = cc
  key_of_fetchall k (y ∷ rows) {x} h =
      ground (arith, eq_iff (key y) k, key_of_fetchall k rows {x = x})

  pub fetchone-insert_self :
      (k : String) (rows : List A) (x : A)
      → fetchone (has k) rows ≡ none
      → key x ≡ k
      → fetchone (has k) (insert x rows) ≡ some x
  unfolding fetchone
  fetchone-insert_self k [] x h e = ground (arith, eq_iff (key x) k)
  fetchone-insert_self k (y ∷ rows) x h e = ground (arith, fetchone-insert_self k rows x)

  pub fetchone-insert_ne :
      (j : String) (rows : List A) (x : A)
      → key x ≢ j
      → fetchone (has j) (insert x rows) ≡ fetchone (has j) rows
  unfolding fetchone
  fetchone-insert_ne j [] x h = ground (arith, eq_iff (key x) j)
  fetchone-insert_ne j (y ∷ rows) x h = ground (arith, fetchone-insert_ne j rows x h)

  pub fetchall-insert_self :
      (k : String) (rows : List A) (x : A)
      → fetchall (has k) rows ≡ []
      → key x ≡ k
      → fetchall (has k) (insert x rows) ≡ x ∷ []
  unfolding fetchall
  fetchall-insert_self k [] x h e = ground (arith, eq_iff (key x) k)
  fetchall-insert_self k (y ∷ rows) x h e = ground (arith, fetchall-insert_self k rows x)

  pub fetchall-insert_ne :
      (j : String) (rows : List A) (x : A)
      → key x ≢ j
      → fetchall (has j) (insert x rows) ≡ fetchall (has j) rows
  unfolding fetchall
  fetchall-insert_ne j [] x h = ground (arith, eq_iff (key x) j)
  fetchall-insert_ne j (y ∷ rows) x h = ground (arith, fetchall-insert_ne j rows x h)

  module _ (q : A → Bool) (f : A → A) (keeps : (x : A) → key (f x) ≡ key x) where
    pub fetchone-update_self :
        (k : String) (rows : List A) {x : A}
        → fetchone (has k) rows ≡ some x
        → q x ≡ true
        → fetchone (has k) (update_where q f rows) ≡ some (f x)
    unfolding fetchone update_where
    fetchone-update_self k [] h e = cc
    fetchone-update_self k (y ∷ rows) {x} h e =
        ground (arith, keeps y, fetchone-update_self k rows {x = x})

    pub fetchone-update_ne :
        (k j : String) (rows : List A)
        → ((x : A) → q x ≡ true → key x ≡ k)
        → j ≢ k
        → fetchone (has j) (update_where q f rows) ≡ fetchone (has j) rows
    unfolding fetchone update_where
    fetchone-update_ne k j [] only h = refl
    fetchone-update_ne k j (y ∷ rows) only h =
        ground (arith, keeps y, only y, eq_iff (key y) j, fetchone-update_ne k j rows only h)

    pub fetchall-update_ne :
        (k j : String) (rows : List A)
        → ((x : A) → q x ≡ true → key x ≡ k)
        → j ≢ k
        → fetchall (has j) (update_where q f rows) ≡ fetchall (has j) rows
    unfolding fetchall update_where
    fetchall-update_ne k j [] only h = refl
    fetchall-update_ne k j (y ∷ rows) only h =
        ground (arith, keeps y, only y, eq_iff (key y) j, fetchall-update_ne k j rows only h)

    pub fetchall-update_empty :
        (k : String) (rows : List A)
        → fetchall (has k) rows ≡ []
        → fetchall (has k) (update_where q f rows) ≡ []
    unfolding fetchall update_where
    fetchall-update_empty k [] h = refl
    fetchall-update_empty k (y ∷ rows) h = ground (arith, keeps y, fetchall-update_empty k rows)

    pub fetchall-update_single :
        (k : String) (rows : List A) {x : A}
        → fetchall (has k) rows ≡ x ∷ []
        → q x ≡ true
        → fetchall (has k) (update_where q f rows) ≡ f x ∷ []
    unfolding fetchall update_where
    fetchall-update_single k [] h e = cc
    fetchall-update_single k (y ∷ rows) {x} h e =
        ground (arith, keeps y, fetchall-update_single k rows {x = x}, fetchall-update_empty k rows)
